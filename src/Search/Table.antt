-- ===== src/Search/Table.antt =====
-- The transposition table of internal/search/tt.go. A bucket is a list of its four entries, and the
-- slice of the buckets a function of the index. The atomic accesses are those of one thread.
pub mod Slots
pub mod Lookup
pub mod Size
pub mod Generation
use novachess.Prelude.{
  ℕ, zero, suc, ◌+◌, ◌-◌, ◌*◌, ◌/◌, ◌%◌, ◌^◌, bit_and, Bool, true, false, not, ◌&&◌, ◌||◌, List, [],
  ◌∷◌, ltb, leb, ◌==◌, if◌then◌else◌, update,
}
use novachess.Prelude.Int.{ℤ, pos, negsuc, ◌-ℤ◌, ltb_ℤ, leb_ℤ, pos_part}
use novachess.Chess.Types.{u8}
use novachess.Chess.Move.{move_none, is_none}
use novachess.Search.Mate.{adjust_mate_score_to_tt, adjust_mate_score_from_tt}
use novachess.Search.Entry.{
  Entry, read, write, pack_entry, move_of, score_of, depth_of, bound_of, gen_of, bound_none,
  bound_upper, bound_lower, bound_exact,
}

abbrev pub empty_entry : Entry
empty_entry = record { keyx = 0; word = 0 }

abbrev pub empty_bucket : List Entry
empty_bucket = empty_entry ∷ empty_entry ∷ empty_entry ∷ empty_entry ∷ []

pub record Tt : Type 0 where
  pub buckets : ℕ → List Entry
  pub len : ℕ
  pub mask : ℕ
  pub gen : ℕ

-- `for count*2 <= want { count *= 2 }`. A count that doubles 62 times is past any `int`.
unfoldable pub doubled : ℕ → ℕ → ℕ → ℕ
doubled zero want count = count
doubled (suc fuel) want count =
    let more = doubled fuel want (count * 2) in if leb (count * 2) want then more else count

unfoldable pub bucket_count : ℤ → ℕ
unfolding doubled
bucket_count megabytes =
    let mb : ℕ = if ltb_ℤ megabytes (pos 1) then 1 else pos_part megabytes in
    doubled 62 (mb * 1024 * 1024 / 64) 1

unfoldable pub new_tt : ℤ → Tt
new_tt megabytes = record {
  buckets = λ i. empty_bucket;
  len = bucket_count megabytes;
  mask = bucket_count megabytes - 1;
  gen = 0;
}

unfoldable pub clear_tt : Tt → Tt
clear_tt t = record t { buckets = λ i. empty_bucket; gen = 0 }

-- The counter is a `uint32`.
unfoldable pub new_search : Tt → Tt
new_search t = record t { gen = (t.gen + 1) % 2 ^ 32 }

pub record Probed : Type 0 where
  pub move : ℕ
  pub score : ℤ
  pub hit : Bool
  pub usable : Bool

abbrev pub missed : Probed
missed = record { move = move_none; score = pos 0; hit = false; usable = false }

-- Whether the bound of a score permits a cutoff in the window.
unfoldable pub usable_bound : ℕ → ℤ → ℤ → ℤ → Bool
usable_bound bound score alpha beta =
    if bound == bound_exact
    then true
    else if bound == bound_lower
    then leb_ℤ beta score
    else if bound == bound_upper
    then leb_ℤ score alpha
    else false

-- The loop over the bucket, from the entries that are left.
unfoldable pub probe_entries : List Entry → ℕ → ℤ → ℤ → ℤ → ℤ → Probed
probe_entries [] key depth ply alpha beta = missed
probe_entries (e ∷ es) key depth ply alpha beta =
    let (d, ok) = read e key in
    let score = adjust_mate_score_from_tt (score_of d) ply in
    let rest = probe_entries es key depth ply alpha beta in
    if not ok || bound_of d == bound_none then rest else (record {
      move = move_of d;
      score = score;
      hit = true;
      usable = not (ltb_ℤ (pos (depth_of d)) depth) && usable_bound (bound_of d) score alpha beta;
    })

unfoldable pub probe : Tt → ℕ → ℤ → ℤ → ℤ → ℤ → Probed
unfolding probe_entries
probe t key depth ply alpha beta =
    probe_entries (t.buckets (bit_and key t.mask)) key depth ply alpha beta

-- What the loop of `Store` ends with: an early return, or a slot and the move to write there.
pub data Choice : Type 0 where
  keep : Choice
  replace : ℕ → ℕ → Choice

unfoldable pub choose : List Entry → ℕ → ℕ → ℤ → ℕ → ℕ → ℕ → ℤ → ℕ → Choice
choose [] i victim best_value gen key move depth bound = replace victim move
choose (e ∷ es) i victim best_value gen key move depth bound =
    let (d, matches) = read e key in
    let value : ℤ = if gen_of d == gen then pos (depth_of d) else pos (depth_of d) -ℤ pos 64 in
    let better = ltb_ℤ value best_value in
    let victim' : ℕ = if better then i else victim in
    let best_value' : ℤ = if better then value else best_value in
    let rest = choose es (suc i) victim' best_value' gen key move depth bound in
    if bound_of d == bound_none || matches
    then (if matches
          && bound_of d == bound_exact
          && ltb_ℤ depth (pos (depth_of d))
          && not (bound == bound_exact)
        then keep
        else replace i (if matches && is_none move then move_of d else move))
    else rest

unfoldable pub clamp_to_int16 : ℤ → ℤ
clamp_to_int16 v =
    if ltb_ℤ (pos 32767) v then pos 32767 else if ltb_ℤ v (negsuc 32767) then negsuc 32767 else v

unfoldable pub clamp_depth : ℤ → ℕ
clamp_depth d = if ltb_ℤ d (pos 0) then 0 else if ltb_ℤ (pos 255) d then 255 else pos_part d

unfoldable pub set_entry : List Entry → ℕ → Entry → List Entry
set_entry [] i e = []
set_entry (e' ∷ es) zero e = e ∷ es
set_entry (e' ∷ es) (suc i) e = e' ∷ set_entry es i e

unfoldable pub store_choice : Tt → ℕ → Choice → ℤ → ℤ → ℤ → ℤ → ℕ → Tt
store_choice t key keep score static_eval depth ply bound = t
store_choice t key (replace victim move) score static_eval depth ply bound =
    let packed =
      pack_entry move (adjust_mate_score_to_tt score ply) (clamp_to_int16 static_eval)
        (clamp_depth depth) bound (u8 t.gen) in
    let i = bit_and key t.mask in
    record t { buckets = update t.buckets i (set_entry (t.buckets i) victim (write key packed)) }

unfoldable pub store : Tt → ℕ → ℕ → ℤ → ℤ → ℤ → ℤ → ℕ → Tt
unfolding choose store_choice
store t key move score static_eval depth ply bound =
    let choice =
      choose (t.buckets (bit_and key t.mask)) 0 0 (pos (2 ^ 30)) (u8 t.gen) key move depth bound in
    store_choice t key choice score static_eval depth ply bound

-- The entries of a bucket that `Hashfull` counts.
unfoldable pub used_entries : ℕ → List Entry → ℕ
used_entries gen [] = 0
used_entries gen (e ∷ es) =
    (if not (bound_of e.word == bound_none) && gen_of e.word == gen then 1 else 0)
    + used_entries gen es

-- The loop over the first `n` buckets: how many entries are used, and how many were seen.
unfoldable pub sampled : Tt → ℕ → ℕ × ℕ
unfolding used_entries
sampled t zero = (0, 0)
sampled t (suc n) =
    let (used, seen) = sampled t n in
    (used + used_entries (u8 t.gen) (t.buckets n), seen + length (t.buckets n))
  where
    length : List Entry → ℕ
    length [] = 0
    length (e ∷ es) = suc (length es)

unfoldable pub hashfull : Tt → ℕ
unfolding sampled
hashfull t =
    let (used, seen) = sampled t (if ltb t.len 1000 then t.len else 1000) in
    if t.len == 0 then 0 else if seen == 0 then 0 else used * 1000 / seen
