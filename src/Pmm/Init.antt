-- ===== src/Pmm/Init.antt =====
-- `pmm_init_from_map`: which frames of the memory map are free at the start.
use safira_uraa.Base.{
  ℕ, zero, suc, ◌+◌, ◌-◌, ◌/◌, ◌%◌, ◌^◌, ◌<◌, ◌≤◌, ◌≡◌, refl, sym, ap, Bool, true, false, not, ◌&&◌,
  ◌||◌, List, [], ◌∷◌, arith, ltb, ◌==◌, ◌!=◌, length, get_or, ℕ_discrete, bit_and, ◌↔◌,
}
use safira_uraa.Base.Words.{and_page}
use safira_uraa.Pmm.{
  Pmm, Region, used, fill, all_used, free_usable, reserve_others, init_from_map, mem_usable,
  mark_range_used,
}
use safira_uraa.Pmm.Bitmap.{Bytes, bitmap_test-full}
use safira_uraa.Pmm.Inv.{IsValid, IsValid-flag}
use safira_uraa.Pmm.Inv.Tally.{tally-eq-zero}
use safira_uraa.Pmm.Range.{
  Becomes, Becomes-self, Becomes-step, overlaps, inside, mark_range_free-Becomes,
  mark_range_used-Becomes,
}

length-fill : (n : ℕ) (xs : List ℕ) → length (fill n xs) ≡ length xs
unfolding fill
length-fill zero xs = refl
length-fill (suc n) [] = refl
length-fill (suc n) (x ∷ xs) = ap suc (length-fill n xs)

fill_below : (n : ℕ) (xs : List ℕ) (k : ℕ) → k < n → n ≤ length xs → get_or (fill n xs) k 0 ≡ 255
unfolding fill
fill_below zero xs k l h = absurd (omega arith)
fill_below (suc n) [] k l h = absurd (omega arith)
fill_below (suc n) (x ∷ xs) zero l h = refl
fill_below (suc n) (x ∷ xs) (suc k) l h = fill_below n xs k (omega arith) (omega arith)

fill-Bytes : (n : ℕ) (xs : List ℕ) → Bytes xs → Bytes (fill n xs)
unfolding fill
fill-Bytes zero xs b k = b k
fill-Bytes (suc n) [] b k = b k
fill-Bytes (suc n) (x ∷ xs) b zero = omega arith
fill-Bytes (suc n) (x ∷ xs) b (suc k) = fill-Bytes n xs (λ i. b (suc i)) k

-- No region reaches the last page of the address space.
abbrev pub Fit : List Region → Type 0
Fit [] = Unit
Fit (r ∷ regions) = (r.base + r.length + 4095 < 2 ^ 64) × Fit regions

-- A usable region holds frame `j` whole; another region touches it.
abbrev pub usable : List Region → ℕ → Bool
usable [] j = false
usable (r ∷ regions) j = (r.kind == mem_usable && inside r.base r.length j) || usable regions j

abbrev pub taken : List Region → ℕ → Bool
taken [] j = false
taken (r ∷ regions) j = (r.kind != mem_usable && overlaps r.base r.length j) || taken regions j

module _ (storage : List ℕ) (max : ℕ) where
  module _ (max_fits : max < 2 ^ 64) (pages : max % 4096 ≡ 0)
      (room : (max / 4096 + 7) / 8 ≤ length storage) where
    all_used-used : (j : ℕ) → j < max / 4096 → used (all_used storage max) j ≡ true
    unfolding all_used
    all_used-used j l = bitmap_test-full _ j (fill_below _ storage (j / 2 ^ 3) (omega arith) room)

    all_used-IsValid : Bytes storage → IsValid (all_used storage max)
    unfolding all_used
    all_used-IsValid bytes = record {
      bytes = fill-Bytes _ storage bytes;
      sized = omega (arith, length-fill ((max / 4096 + 7) / 8) storage);
      span = omega arith;
      small = max_fits;
      counted = sym (tally-eq-zero _ (max / 4096) all_used-used);
      total = omega arith;
      hint = omega arith;
      low = λ j l. absurd (omega arith);
    }

free_usable-Becomes :
    (regions : List Region) {p : Pmm}
    → Fit regions
    → IsValid p
    → Becomes p (free_usable regions p) λ j. used p j && not (usable regions j)
unfolding free_usable
free_usable-Becomes [] {p} fit v = Becomes-self _ v λ j l. ground arith
free_usable-Becomes (r ∷ regions) {p} fit v = elim (ℕ_discrete r.kind 1) [
  | yes e ↦
      let one = mark_range_free-Becomes v r.base r.length (omega arith) (omega arith) in
      let test : (r.kind == mem_usable) ≡ true = ground arith in
      rw test
        (Becomes-step _ one (free_usable-Becomes regions fit.1 one.valid) λ j l e. ground arith)
  | no ne ↦
      let test : (r.kind == mem_usable) ≡ false = ground arith in
      rw test (free_usable-Becomes regions fit.1 v)
]

reserve_others-Becomes :
    (regions : List Region) {p : Pmm}
    → Fit regions
    → IsValid p
    → Becomes p (reserve_others regions p) λ j. used p j || taken regions j
unfolding reserve_others
reserve_others-Becomes [] {p} fit v = Becomes-self _ v λ j l. ground arith
reserve_others-Becomes (r ∷ regions) {p} fit v = elim (ℕ_discrete r.kind 1) [
  | yes e ↦
      let test : (r.kind != mem_usable) ≡ false = ground arith in
      rw test (reserve_others-Becomes regions fit.1 v)
  | no ne ↦
      let one = mark_range_used-Becomes v r.base r.length fit.0 in
      let test : (r.kind != mem_usable) ≡ true = ground arith in
      rw test
        (Becomes-step _ one (reserve_others-Becomes regions fit.1 one.valid) λ j l e. ground arith)
]

-- The arguments of `pmm_init_from_map` that it accepts.
abbrev pub Accepts : List Region → ℕ → ℕ → Type 0
Accepts regions storage_bytes max =
    (0 < length regions) × (0 < max) × (max % 4096 ≡ 0) × ((max / 4096 + 7) / 8 ≤ storage_bytes)

-- The allocator turns its arguments away, and leaves the state alone, exactly when the map is
-- empty, the end of memory is zero or no multiple of the page size, or the storage is too small.
pub init_from_map-Accepts :
    (p : Pmm) (regions : List Region) (storage : List ℕ) (storage_bytes max : ℕ)
    → (((init_from_map p regions storage storage_bytes max).0 ≡ true)
        ↔ Accepts regions storage_bytes max)
      × ((init_from_map p regions storage storage_bytes max ≡ (false, p))
          ↔ (¬ Accepts regions storage_bytes max))
unfolding init_from_map
init_from_map-Accepts p regions storage storage_bytes max = ground (arith, and_page max)

module _ (p : Pmm) (regions : List Region) (storage : List ℕ) (storage_bytes max : ℕ)
    (accepts : Accepts regions storage_bytes max) (fit : Fit regions) (max_fits : max < 2 ^ 64)
    (bytes : Bytes storage) (room : storage_bytes ≤ length storage) where
  abbrev start : Pmm
  start = all_used storage max

  start-Becomes : Becomes start start λ j. true
  unfolding all_used
  start-Becomes =
      Becomes-self _ (all_used-IsValid storage max max_fits accepts.2 (omega arith) bytes)
        λ j l. all_used-used storage max max_fits accepts.2 (omega arith) j l

  -- The state before the flag is set.
  started :
      Becomes start
        (reserve_others regions (mark_range_used (free_usable regions start) 0 4096))
        λ j. (not (usable regions j) || j == 0) || taken regions j
  started =
      let freed = free_usable-Becomes regions fit start-Becomes.valid in
      let guarded = mark_range_used-Becomes freed.valid 0 4096 (omega arith) in
      let reserved = reserve_others-Becomes regions fit guarded.valid in
      let first =
        Becomes-step (λ j. not (usable regions j)) start-Becomes freed λ j l e. ground arith in
      let second =
        Becomes-step (λ j. not (usable regions j) || j == 0) first guarded λ j l e. ground arith in
      Becomes-step _ second reserved λ j l e. ground arith

  -- What the allocator accepts, for regions that do not reach the last page of the address
  -- space, gives a valid state in which a frame is free exactly when some usable region holds it
  -- whole, it is not frame 0, and no other region touches it.
  pub init_from_map_lem :
      (j : ℕ)
      → j < max / 4096
      → let (done, q) = init_from_map p regions storage storage_bytes max in
        (done ≡ true)
        × IsValid q
        × (q.initialized ≡ true)
        × (q.frame_count ≡ max / 4096)
        × (used q j ≡ (not (usable regions j) || j == 0 || taken regions j))
  unfolding init_from_map all_used
  init_from_map_lem j l =
      let flagged =
        IsValid-flag
          (reserve_others regions
            (mark_range_used (free_usable regions start) 0 4096)).reserved_frames
          true started.valid in
      let empty : (length regions == 0) ≡ false = ground arith in
      let bad : (max == 0 || bit_and max (4096 - 1) != 0) ≡ false = ground (arith, and_page max) in
      let short : ltb storage_bytes ((max / 4096 + 7) / 8) ≡ false = ground arith in
      rw (empty, bad, short) (refl, flagged, refl, started.same.frame_count, started.frames j l)
