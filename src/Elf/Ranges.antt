-- ===== src/Elf/Ranges.antt =====
-- The range checks of mcsos/kernel/user/m11_elf_loader.c decide what they mean to: no sum wraps.
use safira_uraa.Base.{
  ℕ, zero, suc, ◌+◌, ◌-◌, ◌*◌, ◌/◌, ◌%◌, ◌^◌, ◌<◌, ◌≤◌, ◌≡◌, sym, ap, ◌∙◌, true, ◌&&◌, none, some,
  arith, ◌==◌, ◌!=◌, ◌↔◌, dec_lt, ℕ_discrete, bit_and,
}
use mathlib.Core.Path.{ap₂}
use safira_uraa.Base.Words.{u64, sub64}
use safira_uraa.Base.Bits.{and_halves, and-zero}
use native.Mathlib.Nat.{pow-suc, one-le-pow, mul-div_left}
use safira_uraa.Elf.{
  ok, Region, add_overflow, is_power_of_two, validate_user_range, validate_phdr_bounds,
}
use safira_uraa.Elf.Image.{Ehdr}

pub add_overflow-some : (a b : ℕ) → a + b < 2 ^ 64 → add_overflow a b ≡ some (a + b)
unfolding add_overflow
add_overflow-some a b h = ground arith

pub add_overflow-none :
    (a b : ℕ) → a < 2 ^ 64 → b < 2 ^ 64 → 2 ^ 64 ≤ a + b → add_overflow a b ≡ none
unfolding add_overflow
add_overflow-none a b ha hb h = ground arith

-- A range of words passes exactly when it is not empty and lies within the region, without
-- wrapping.
pub validate_user_range_lem :
    (region : Region) (base size : ℕ)
    → region.limit < 2 ^ 64
    → base < 2 ^ 64
    → size < 2 ^ 64
    → (validate_user_range region base size ≡ ok)
      ↔ ((0 < size) × (region.base ≤ base) × (base + size ≤ region.limit))
unfolding validate_user_range
validate_user_range_lem region base size hl hb hs = elim (dec_lt (base + size) (2 ^ 64)) [
  | yes l ↦ ground (arith, add_overflow-some base size l)
  | no m ↦ ground (arith, add_overflow-none base size hb hs (omega arith))
]

-- The header table passes exactly when it has an entry, its entries have the size of a program
-- header, and it ends within the image.
pub validate_phdr_bounds_lem :
    (eh : Ehdr) (image_size : ℕ)
    → image_size < 2 ^ 64
    → eh.e_phoff < 2 ^ 64
    → eh.e_phnum < 2 ^ 16
    → (validate_phdr_bounds eh image_size ≡ ok)
      ↔ ((0 < eh.e_phnum) × (eh.e_phentsize ≡ 56) × (eh.e_phoff + 56 * eh.e_phnum ≤ image_size))
unfolding validate_phdr_bounds
validate_phdr_bounds_lem eh image_size hi ho hn = elim (ℕ_discrete eh.e_phentsize 56) [
  | yes e ↦
      let table : u64 (eh.e_phentsize * eh.e_phnum) ≡ 56 * eh.e_phnum =
        ap (λ (t : ℕ). u64 (t * eh.e_phnum)) e ∙ omega arith in
      elim (ℕ_discrete eh.e_phnum 0) [
        | yes z ↦ ground arith
        | no some_entry ↦
            let fits : u64 (eh.e_phentsize * eh.e_phnum) / eh.e_phnum ≡ 56 =
              ap (λ (t : ℕ). t / eh.e_phnum) table ∙ mul-div_left 56 (omega arith) in
            elim (dec_lt (eh.e_phoff + 56 * eh.e_phnum) (2 ^ 64)) [
              | yes l ↦
                  ground (arith, table, fits, add_overflow-some eh.e_phoff (56 * eh.e_phnum) l)
              | no m ↦ ground (
                arith,
                table,
                fits,
                add_overflow-none eh.e_phoff (56 * eh.e_phnum) ho (omega arith) (omega arith),
              )
            ]
      ]
  | no ne ↦ ground arith
]

-- `v & v` is `v`.
and_self_fuel : (k v : ℕ) → v ≤ k → bit_and v v ≡ v
and_self_fuel k zero h = and-zero 0
and_self_fuel zero (suc v) h = absurd (omega arith)
and_self_fuel (suc k) (suc v) h =
    omega (arith, and_halves (suc v) (suc v), and_self_fuel k (suc v / 2) (omega arith))

and_self : (v : ℕ) → bit_and v v ≡ v
and_self v = and_self_fuel v v (omega arith)

-- `v & (v - 1)`, by the lowest digit of `v`.
and_pred_odd : (m : ℕ) → bit_and (2 * m + 1) (2 * m) ≡ 2 * m
and_pred_odd m =
    let left : (2 * m + 1) / 2 ≡ m = omega arith in
    let right : 2 * m / 2 ≡ m = omega arith in
    rw (and_halves (2 * m + 1) (2 * m), left, right, and_self m) (omega arith)

and_pred_even : (m : ℕ) → 0 < m → bit_and (2 * m) (2 * m - 1) ≡ 2 * bit_and m (m - 1)
and_pred_even m h =
    let left : 2 * m / 2 ≡ m = omega arith in
    let right : (2 * m - 1) / 2 ≡ m - 1 = omega arith in
    rw (and_halves (2 * m) (2 * m - 1), left, right) (omega arith)

power_if : (k v : ℕ) → v ≤ k → 0 < v → bit_and v (v - 1) ≡ 0 → (e : ℕ) × (v ≡ 2 ^ e)
power_if zero v h pos z = absurd (omega arith)
power_if (suc k) v h pos z = elim (ℕ_discrete (v % 2) 0) [
  | yes even ↦
      let half : v ≡ 2 * (v / 2) = omega arith in
      let here : bit_and (2 * (v / 2)) (2 * (v / 2) - 1) ≡ 0 =
        ap (λ (t : ℕ). bit_and t (t - 1)) (sym half) ∙ z in
      let (e, p) =
        power_if k (v / 2) (omega arith) (omega arith)
          (omega (arith, and_pred_even (v / 2) (omega arith))) in
      (suc e, omega (arith, pow-suc 2 e))
  | no odd ↦
      let half : v ≡ 2 * (v / 2) + 1 = omega arith in
      let below : v - 1 ≡ 2 * (v / 2) = omega arith in
      let here : bit_and (2 * (v / 2) + 1) (2 * (v / 2)) ≡ 0 =
        ap₂ bit_and (sym half) (sym below) ∙ z in
      (0, omega (arith, and_pred_odd (v / 2)))
]

power_only : (e : ℕ) → bit_and (2 ^ e) (2 ^ e - 1) ≡ 0
power_only zero = and-zero 1
power_only (suc e) =
    let double : 2 ^ suc e ≡ 2 * 2 ^ e = omega (arith, pow-suc 2 e) in
    rw (double, and_pred_even (2 ^ e) (one-le-pow e 2 (omega arith))) (omega (arith, power_only e))

sub64_one : (v : ℕ) → 0 < v → v < 2 ^ 64 → sub64 v 1 ≡ v - 1
sub64_one v pos h = omega arith

-- On 64-bit words the test accepts exactly the powers of two.
pub is_power_of_two_lem :
    (v : ℕ) → v < 2 ^ 64 → (is_power_of_two v ≡ true) ↔ ((e : ℕ) × (v ≡ 2 ^ e))
unfolding is_power_of_two
is_power_of_two_lem v h = (if_part, only_if)
  where
    if_part : v != 0 && bit_and v (sub64 v 1) == 0 ≡ true → (e : ℕ) × (v ≡ 2 ^ e)
    if_part t =
        let pos : 0 < v = ground arith in
        let no_bit : bit_and v (sub64 v 1) ≡ 0 = ground arith in
        power_if v v (omega arith) pos (sym (ap (bit_and v) (sub64_one v pos h)) ∙ no_bit)

    only_if : ((e : ℕ) × (v ≡ 2 ^ e)) → v != 0 && bit_and v (sub64 v 1) == 0 ≡ true
    only_if (e, p) =
        let pos : 0 < v = omega (arith, one-le-pow e 2 (omega arith)) in
        let no_bit : bit_and v (sub64 v 1) ≡ 0 =
          ap (bit_and v) (sub64_one v pos h) ∙ ap (λ (t : ℕ). bit_and t (t - 1)) p ∙ power_only e in
        ground (arith, no_bit)
