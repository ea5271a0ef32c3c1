-- ===== src/Elf/Steps.antt =====
-- One round of the loop over the program headers in `m11_elf64_plan_load` of
-- mcsos/kernel/user/m11_elf_loader.c, and the segments that the loop collects.
use safira_uraa.Base.{
  ℕ, zero, suc, ◌+◌, ◌-◌, ◌*◌, ◌<◌, ◌≤◌, ◌≡◌, ◌≢◌, refl, ap, ◌∙◌, true, false, arith, ◌==◌,
  if◌then◌else◌, List, [], ◌∷◌, ◌++◌, length, length-append, set, replicate,
}
use safira_uraa.Elf.{
  Status, ok, err_segcount, Region, Segment, Plan, zero_plan, zero_segment, segment_of, add_segment,
  load_segments, is_ok, validate_load_segment,
}
use safira_uraa.Elf.Image.{Ehdr, Phdr, read_phdr, phdr_size}
use safira_uraa.Elf.Checks.{Loadable}

abbrev pub header : List ℕ → Ehdr → ℕ → Phdr
header image eh i = read_phdr image (eh.e_phoff + i * phdr_size)

-- The segments of type PT_LOAD among `rounds` headers from `i` on, in their order.
abbrev pub loads : List ℕ → Ehdr → ℕ → ℕ → List Segment
loads image eh zero i = []
loads image eh (suc rounds) i =
    let rest = loads image eh rounds (i + 1) in
    if (header image eh i).p_type == 1 then segment_of (header image eh i) ∷ rest else rest

-- Each of these headers is loadable, if it is of type PT_LOAD.
abbrev pub AllLoadable : List ℕ → Ehdr → ℕ → Region → ℕ → ℕ → Type 0
AllLoadable image eh image_size region rounds i =
    (j : ℕ)
    → i ≤ j
    → j < i + rounds
    → (header image eh j).p_type ≡ 1
    → Loadable (header image eh j) image_size region

-- The plan with these segments, the unused ones zero.
abbrev pub plan_of : ℕ → List Segment → Plan
plan_of entry segments = record {
  entry = entry;
  segment_count = length segments;
  segments = segments ++ replicate (8 - length segments) zero_segment;
}

set_next :
    (xs : List Segment) (n : ℕ) (s : Segment)
    → set (xs ++ replicate (suc n) zero_segment) (length xs) s
      ≡ (xs ++ (s ∷ [])) ++ replicate n zero_segment
set_next [] n s = refl
set_next (x ∷ xs) n s = ap (λ t. x ∷ t) (set_next xs n s)

pub append_one : (xs ys : List Segment) (s : Segment) → (xs ++ (s ∷ [])) ++ ys ≡ xs ++ (s ∷ ys)
append_one [] ys s = refl
append_one (x ∷ xs) ys s = ap (λ t. x ∷ t) (append_one xs ys s)

pub append_none : (xs : List Segment) → xs ++ [] ≡ xs
append_none [] = refl
append_none (x ∷ xs) = ap (λ t. x ∷ t) (append_none xs)

pub add_segment-plan_of :
    (entry : ℕ) (done : List Segment) (ph : Phdr)
    → length done < 8
    → add_segment (plan_of entry done) ph ≡ plan_of entry (done ++ (segment_of ph ∷ []))
add_segment-plan_of entry done ph h =
    let more : List Segment = done ++ (segment_of ph ∷ []) in
    let count : length done + 1 ≡ length more =
      omega (arith, length-append done (segment_of ph ∷ [])) in
    let room : 8 - length done ≡ suc (8 - length more) = omega (arith, count) in
    let tail : set (done ++ replicate (8 - length done) zero_segment) (length done) (segment_of ph)
        ≡ more ++ replicate (8 - length more) zero_segment =
      ap (λ n. set (done ++ replicate n zero_segment) (length done) (segment_of ph)) room
      ∙ set_next done (8 - length more) (segment_of ph) in
    λ i. record { entry = entry; segment_count = count i; segments = tail i }

pub is_ok-true : (s : Status) → is_ok s ≡ true → s ≡ ok
is_ok-true ok t = refl
is_ok-true s t = ground arith

-- The loop's step on each kind of header, and what the header adds to the list of segments.
module _ (image : List ℕ) (eh : Ehdr) (image_size : ℕ) (region : Region) (rounds i : ℕ) where
  pub loads_skip :
      (header image eh i).p_type ≢ 1 → loads image eh (suc rounds) i ≡ loads image eh rounds (i + 1)
  loads_skip other = ground arith

  pub loads_keep :
      (header image eh i).p_type ≡ 1
      → loads image eh (suc rounds) i
        ≡ segment_of (header image eh i) ∷ loads image eh rounds (i + 1)
  loads_keep load = ground arith

  pub step_skip :
      (plan : Plan)
      → (header image eh i).p_type ≢ 1
      → load_segments image eh image_size region (suc rounds) i plan
        ≡ load_segments image eh image_size region rounds (i + 1) plan
  unfolding load_segments
  step_skip plan other = ground arith

  pub step_full :
      (plan : Plan)
      → (header image eh i).p_type ≡ 1
      → 8 ≤ plan.segment_count
      → load_segments image eh image_size region (suc rounds) i plan ≡ (err_segcount, zero_plan)
  unfolding load_segments
  step_full plan load full = ground arith

  pub step_bad :
      (plan : Plan)
      → (header image eh i).p_type ≡ 1
      → plan.segment_count < 8
      → is_ok (validate_load_segment (header image eh i) image_size region) ≡ false
      → load_segments image eh image_size region (suc rounds) i plan
        ≡ (validate_load_segment (header image eh i) image_size region, zero_plan)
  unfolding load_segments
  step_bad plan load room bad = ground arith

  pub step_keep :
      (plan : Plan)
      → (header image eh i).p_type ≡ 1
      → plan.segment_count < 8
      → is_ok (validate_load_segment (header image eh i) image_size region) ≡ true
      → load_segments image eh image_size region (suc rounds) i plan
        ≡ load_segments image eh image_size region rounds
            (i + 1)
            (add_segment plan (header image eh i))
  unfolding load_segments
  step_keep plan load room good = ground arith
