-- ===== src/Elf/Tests.antt =====
-- The loader of mcsos/kernel/user/m11_elf_loader.c on small images.
use safira_uraa.Base.{
  ℕ, zero, suc, ◌≡◌, ◌≢◌, refl, Bool, true, ◌&&◌, some, arith, ltb, ◌↔◌, ◌⊎◌, List, [], ◌∷◌, ◌++◌,
  replicate, length,
}
use mathlib.Core.Path.{subst, sym}
use safira_uraa.Elf.{
  ok, err_segcount, Region, Segment, zero_plan, plan_load, is_power_of_two, validate_user_range,
  validate_load_segment, finish, validate_header, validate_ident, validate_phdr_bounds,
  load_segments, add_overflow,
}
use safira_uraa.Elf.Image.{read_ehdr, read_phdr, Bytes, little_endian}
use safira_uraa.Elf.Accept.{Acceptable, plan_load-Acceptable}
use safira_uraa.Elf.Planned.{
  entry_of, count_of, Selected, filled, Loadless, plan_load_plans, plan_load_fails,
}

abbrev all_bytes : List ℕ → Bool
all_bytes [] = true
all_bytes (x ∷ xs) = ltb x 256 && all_bytes xs

all_bytes-Bytes : (xs : List ℕ) → all_bytes xs ≡ true → Bytes xs
all_bytes-Bytes [] t i = omega arith
all_bytes-Bytes (x ∷ xs) t zero = ground arith
all_bytes-Bytes (x ∷ xs) t (suc i) = all_bytes-Bytes xs (ground arith) i

-- A small number as a little-endian word.
abbrev word : ℕ → ℕ → List ℕ
word width n = n ∷ replicate width 0

-- One header of the given type for the 120 bytes of the file, at 0x400000, which is 64 * 65536.
abbrev image_of : ℕ → List ℕ
image_of p_type =
    (0x7f ∷ 69 ∷ 76 ∷ 70 ∷ 2 ∷ 1 ∷ 1 ∷ [])
    ++ replicate 9 0
    ++ word 1 2
    ++ word 1 62
    ++ word 3 1
    ++ (120 ∷ 0 ∷ 64 ∷ 0 ∷ 0 ∷ 0 ∷ 0 ∷ 0 ∷ [])
    ++ word 7 64
    ++ replicate 12 0
    ++ word 1 64
    ++ word 1 56
    ++ word 1 1
    ++ replicate 6 0
    ++ word 3 p_type
    ++ word 3 5
    ++ replicate 8 0
    ++ (0 ∷ 0 ∷ 64 ∷ 0 ∷ 0 ∷ 0 ∷ 0 ∷ 0 ∷ [])
    ++ replicate 8 0
    ++ word 7 120
    ++ word 7 200
    ++ (0 ∷ 16 ∷ 0 ∷ 0 ∷ 0 ∷ 0 ∷ 0 ∷ 0 ∷ [])

abbrev region : Region
region = record { base = 0x400000; limit = 0x800000 }

sized : length (image_of 1) ≡ 120
sized = refl

loaded : (plan_load (some (image_of 1)) 120 region (some zero_plan)).0 ≡ ok
unfolding plan_load finish validate_header validate_ident validate_phdr_bounds validate_user_range
    validate_load_segment load_segments add_overflow is_power_of_two read_ehdr read_phdr
    little_endian
loaded = refl

not_loaded : (plan_load (some (image_of 6)) 120 region (some zero_plan)).0 ≡ err_segcount
unfolding plan_load finish validate_header validate_ident validate_phdr_bounds validate_user_range
    validate_load_segment load_segments add_overflow is_power_of_two read_ehdr read_phdr
    little_endian
not_loaded = refl

plan_load-Acceptable_example :
    ((plan_load (some (image_of 1)) 120 region (some zero_plan)).0 ≡ ok)
    ↔ Acceptable (image_of 1) 120 region
plan_load-Acceptable_example =
    plan_load-Acceptable (image_of 1) 120 region zero_plan (all_bytes-Bytes (image_of 1) refl)
      (omega arith) (omega arith)

acceptable : Acceptable (image_of 1) 120 region
acceptable = plan_load-Acceptable_example.0 loaded

plan_load_plans_example :
    (segments : List Segment) × (plan_load (some (image_of 1)) 120 region (some zero_plan)
      ≡ (ok, some (filled (entry_of (image_of 1)) segments)))
    × Selected (image_of 1) (count_of (image_of 1)) 0 segments
plan_load_plans_example =
    plan_load_plans (image_of 1) 120 region zero_plan (all_bytes-Bytes (image_of 1) refl)
      (omega arith) (omega arith) acceptable

segcount_is_error : err_segcount ≢ ok
segcount_is_error e = ground (arith, e)

plan_load_fails_example :
    (Loadless (image_of 6) 120 region
      × (plan_load (some (image_of 6)) 120 region (some zero_plan)
          ≡ (err_segcount, some (filled (entry_of (image_of 6)) []))))
    ⊎ ((¬ Loadless (image_of 6) 120 region)
        × ((plan_load (some (image_of 6)) 120 region (some zero_plan)).1 ≡ some (filled 0 [])))
plan_load_fails_example =
    plan_load_fails (image_of 6) 120 region zero_plan (all_bytes-Bytes (image_of 6) refl)
      (omega arith) (omega arith) (subst (λ s. s ≢ ok) (sym not_loaded) segcount_is_error)

-- The entry point of this refused image stays in the plan.
entry_stays :
    (plan_load (some (image_of 6)) 120 region (some zero_plan)).1 ≡ some (filled 0x400078 [])
unfolding plan_load finish validate_header validate_ident validate_phdr_bounds validate_user_range
    validate_load_segment load_segments add_overflow is_power_of_two read_ehdr read_phdr
    little_endian
entry_stays = refl
