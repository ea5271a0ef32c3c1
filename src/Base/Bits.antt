-- ===== src/Base/Bits.antt =====
-- `&` and `|` on unsigned words: the laws that the kernel's masks rest on.
use Prim.Native.Nat.{ℕ, zero, suc, ◌+◌, ◌-◌, ◌*◌, ◌/◌, ◌%◌, ◌^◌, ◌≤◌, ◌<◌, min, max}
use Prim.Native.Nat.{bit_and, bit_or, digits, bit_and-bitwise, bit_or-bitwise}
use mathlib.Core.Path.{◌≡◌, refl, ap, ◌∙◌}
use native.Mathlib.Nat.{
  pow-suc, one-le-pow, mod-lt, mod-eq_of_lt, div-add-mod, add-mul-mod_self_right,
}
use native.Mathlib.Omega.{arith}

-- More fuel than the first operand gives the same digits.
digits-fuel :
    (z : ℕ → ℕ) (f : ℕ → ℕ → ℕ) (k l x y : ℕ) → x ≤ k → x ≤ l → digits z f k x y ≡ digits z f l x y
digits-fuel z f zero zero x y p q = refl
digits-fuel z f (suc k) (suc l) zero y p q = refl
digits-fuel z f (suc k) (suc l) (suc x) y p q =
    rw (digits-fuel z f k l (suc x / 2) (y / 2) (omega arith) (omega arith))
digits-fuel z f zero (suc l) zero y p q = refl
digits-fuel z f (suc k) zero zero y p q = refl
digits-fuel z f zero (suc l) (suc x) y p q = absurd (omega arith)
digits-fuel z f (suc k) zero (suc x) y p q = absurd (omega arith)

pub zero-and : (y : ℕ) → bit_and 0 y ≡ 0
zero-and y = bit_and-bitwise 0 y

pub zero-or : (y : ℕ) → bit_or 0 y ≡ y
zero-or y = bit_or-bitwise 0 y

-- The lowest digit of a conjunction, and the rest.
pub and_halves : (x y : ℕ) → bit_and x y ≡ 2 * bit_and (x / 2) (y / 2) + min (x % 2) (y % 2)
and_halves zero y = omega (arith, zero-and y, zero-and (y / 2))
and_halves (suc x) y = omega (
  arith,
  bit_and-bitwise (suc x) y,
  bit_and-bitwise (suc x / 2) (y / 2),
  digits-fuel (λ _. 0) min x (suc x / 2) (suc x / 2) (y / 2) (omega arith) (omega arith),
)

-- The lowest digit of a disjunction, and the rest.
pub or_halves : (x y : ℕ) → bit_or x y ≡ 2 * bit_or (x / 2) (y / 2) + max (x % 2) (y % 2)
or_halves zero y = omega (arith, zero-or y, zero-or (y / 2))
or_halves (suc x) y = omega (
  arith,
  bit_or-bitwise (suc x) y,
  bit_or-bitwise (suc x / 2) (y / 2),
  digits-fuel (λ b. b) max x (suc x / 2) (suc x / 2) (y / 2) (omega arith) (omega arith),
)

and-zero_fuel : (k x : ℕ) → x ≤ k → bit_and x 0 ≡ 0
and-zero_fuel k zero h = refl
and-zero_fuel zero (suc x) h = absurd (omega arith)
and-zero_fuel (suc k) (suc x) h =
    omega (arith, and_halves (suc x) 0, and-zero_fuel k (suc x / 2) (omega arith))

pub and-zero : (x : ℕ) → bit_and x 0 ≡ 0
and-zero x = and-zero_fuel x x (omega arith)

-- The remainder by an even number, digit by digit.
mod_double : (p x : ℕ) → 0 < p → x % (p * 2) ≡ 2 * (x / 2 % p) + x % 2
mod_double p x h =
    let r : ℕ = x / 2 % p in
    let split : x ≡ 2 * r + x % 2 + x / 2 / p * (p * 2) = omega (arith, div-add-mod (x / 2) p) in
    let small : 2 * r + x % 2 < p * 2 = omega (arith, mod-lt (x / 2) h) in
    ap (λ n. n % (p * 2)) split
    ∙ add-mul-mod_self_right (2 * r + x % 2) (x / 2 / p) (p * 2)
    ∙ mod-eq_of_lt small

-- A mask of `k` low bits is the remainder by `2 ^ k`.
pub and_mask : (k x : ℕ) → bit_and x (2 ^ k - 1) ≡ x % 2 ^ k
and_mask zero x = omega (arith, and-zero x)
and_mask (suc k) x =
    let positive : 1 ≤ 2 ^ k = one-le-pow k 2 (omega arith) in
    let rest : (2 ^ k * 2 - 1) / 2 ≡ 2 ^ k - 1 = omega arith in
    rw
      (
        pow-suc 2 k,
        mod_double (2 ^ k) x positive,
        ← and_mask k (x / 2),
        and_halves x (2 ^ k * 2 - 1),
        rest,
      )
      (omega arith)

-- A mask and its complement in `k` bits split a `k`-bit word.
pub and_complement :
    (k x y : ℕ) → x < 2 ^ k → y < 2 ^ k → bit_and x y + bit_and x (2 ^ k - 1 - y) ≡ x
and_complement zero zero y p q = omega (arith, zero-and y, zero-and (2 ^ 0 - 1 - y))
and_complement zero (suc x) y p q = absurd (omega arith)
and_complement (suc k) x y p q =
    let positive : 1 ≤ 2 ^ k = one-le-pow k 2 (omega arith) in
    let two : 2 ^ suc k ≡ 2 ^ k * 2 = pow-suc 2 k in
    let flip : (2 ^ suc k - 1 - y) / 2 ≡ 2 ^ k - 1 - y / 2 = omega arith in
    let odd : (2 ^ suc k - 1 - y) % 2 ≡ 1 - y % 2 = omega arith in
    rw (and_halves x y, and_halves x (2 ^ suc k - 1 - y), flip)
      (omega (arith, and_complement k (x / 2) (y / 2) (omega arith) (omega arith)))
