-- ===== src/Dashboard/History/Reloaded.antt =====
-- A history that is read back from its file.
use native.Mathlib.Omega.{arith}
use mathlib.Core.List.{append-nil, append_assoc}
use novachess.Prelude.{
  ltb, ◌<◌, true, false, Option, some, List, [], ◌∷◌, ◌++◌, ◌==◌, ◌≡◌, refl, sym, ap, subst, ◌∙◌,
}
use novachess.Prelude.Text.{Text, Lacks}
use novachess.Pipeline.Store.{length}
use novachess.Dashboard.History.{
  Record, History, whole, lines, drop_cr, max_token_size, scanned, keep_read, new_history,
  append_locked,
}

-- A text that is made of whole lines, each of which a scanner takes.
pub data IsWhole : Text → Type 0 where
  no_lines : IsWhole []
  and_line :
      (l : Text) {rest : Text}
      → Lacks 0x0a l
      → length l < max_token_size
      → IsWhole rest
      → IsWhole (l ++ 0x0a ∷ rest)

lines-line :
    (l part rest : Text)
    → Lacks 0x0a l
    → lines (l ++ 0x0a ∷ rest) part ≡ (part ++ l) ∷ lines rest []
unfolding lines
lines-line [] part rest lacks = ap (λ t. t ∷ lines rest []) (sym (append-nil part))
lines-line (c ∷ l) part rest (other, lacks) =
    let not_end : (c == 0x0a) ≡ false = ground (arith, other) in
    rw not_end (
      lines-line l (part ++ c ∷ []) rest lacks
      ∙ ap (λ t. t ∷ lines rest []) (append_assoc part (c ∷ []) l))

-- What a scanner gives of a text.
abbrev tokens : Text → List Text
tokens t = scanned (lines t [])

tokens-line :
    (l rest : Text)
    → Lacks 0x0a l
    → length l < max_token_size
    → tokens (l ++ 0x0a ∷ rest) ≡ drop_cr l ∷ tokens rest
unfolding scanned
tokens-line l rest lacks short =
    let fits : ltb (length l) max_token_size ≡ true = ground (arith, short) in
    ap scanned (lines-line l [] rest lacks) ∙ rw (scanned, fits) refl

tokens-append : (t more : Text) → IsWhole t → tokens (t ++ more) ≡ tokens t ++ tokens more
unfolding lines scanned
tokens-append t more no_lines = refl
tokens-append t more (and_line l {rest} lacks short whole_rest) =
    ap tokens (append_assoc l (0x0a ∷ rest) more)
    ∙ tokens-line l (rest ++ more) lacks short
    ∙ ap (λ ls. drop_cr l ∷ ls) (tokens-append rest more whole_rest)
    ∙ ap (λ ls. ls ++ tokens more) (sym (tokens-line l rest lacks short))

keep_read-append :
    (decode : Text → Option Record) (ls ms : List Text)
    → keep_read decode (ls ++ ms) ≡ keep_read decode ls ++ keep_read decode ms
unfolding keep_read
keep_read-append decode [] ms = refl
keep_read-append decode (l ∷ ls) ms = ground (arith, keep_read-append decode ls ms)

IsWhole-append :
    (t l : Text)
    → IsWhole t
    → Lacks 0x0a l
    → length l < max_token_size
    → IsWhole (t ++ (l ++ 0x0a ∷ []))
IsWhole-append t l no_lines lacks short = and_line l lacks short no_lines
IsWhole-append t l (and_line k {rest} free room more) lacks short =
    subst IsWhole (sym (append_assoc k (0x0a ∷ rest) (l ++ 0x0a ∷ [])))
      (and_line k free room (IsWhole-append rest l more lacks short))

-- The file has whole lines, and reading it gives the records that are held.
pub record IsSynced (decode : Text → Option Record) (h : History) : Type 0 where
  pub whole_lines : IsWhole h.file
  pub reads_back : new_history decode h.file ≡ h

module _ (encode : Record → Text) (decode : Text → Option Record) where
  -- The encoding of a record is one line, shorter than a scanner's limit and without a carriage
  -- return at its end, from which the record is decoded.
  pub record IsLine (r : Record) : Type 0 where
    pub decodes : decode (encode r) ≡ some r
    pub one_line : Lacks 0x0a (encode r)
    pub short : length (encode r) < max_token_size
    pub no_cr : drop_cr (encode r) ≡ encode r

  read_more :
      (h : History) (r : Record)
      → IsLine r
      → IsSynced decode h
      → keep_read decode (tokens (h.file ++ (encode r ++ 0x0a ∷ []))) ≡ h.records ++ r ∷ []
  unfolding keep_read new_history lines scanned
  read_more h r is_line synced =
      let before : keep_read decode (tokens h.file) ≡ h.records =
        ap (λ (k : History). k.records) synced.reads_back in
      let line : keep_read decode (tokens (encode r ++ 0x0a ∷ [])) ≡ r ∷ [] =
        ap (keep_read decode) (tokens-line (encode r) [] is_line.one_line is_line.short)
        ∙ ap (λ l. keep_read decode (l ∷ [])) is_line.no_cr
        ∙ rw (keep_read, is_line.decodes) refl in
      ap (keep_read decode) (tokens-append h.file (encode r ++ 0x0a ∷ []) synced.whole_lines)
      ∙ keep_read-append decode (tokens h.file) (tokens (encode r ++ 0x0a ∷ []))
      ∙ ap (λ rs. rs ++ keep_read decode (tokens (encode r ++ 0x0a ∷ []))) before
      ∙ ap (λ rs. h.records ++ rs) line

  -- A record that is written whole.
  pub append_locked-IsSynced :
      (h : History) (r : Record)
      → IsLine r
      → IsSynced decode h
      → IsSynced decode ((append_locked encode whole h r).0)
  unfolding append_locked new_history
  append_locked-IsSynced h r is_line synced = record {
    whole_lines =
        IsWhole-append h.file (encode r) synced.whole_lines is_line.one_line is_line.short;
    reads_back =
        ap (λ rs. record { file = h.file ++ (encode r ++ 0x0a ∷ []); records = rs })
          (read_more h r is_line synced);
  }
