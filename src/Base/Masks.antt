-- ===== src/Base/Masks.antt =====
-- `&` and `|` as a lattice: the laws by which fields of a word are taken apart.
use Prim.Native.Nat.{ℕ, zero, suc, ◌/◌, ◌%◌, ◌≤◌, bit_and, bit_or, min, max}
use mathlib.Core.Path.{◌≡◌, refl}
use native.Mathlib.Omega.{arith}
use safira_uraa.Base.Bits.{and_halves, or_halves, zero-and, and-zero}

and_parts :
    (x y : ℕ)
    → (bit_and x y / 2 ≡ bit_and (x / 2) (y / 2)) × (bit_and x y % 2 ≡ min (x % 2) (y % 2))
and_parts x y = (omega (arith, and_halves x y), omega (arith, and_halves x y))

or_parts :
    (x y : ℕ) → (bit_or x y / 2 ≡ bit_or (x / 2) (y / 2)) × (bit_or x y % 2 ≡ max (x % 2) (y % 2))
or_parts x y = (omega (arith, or_halves x y), omega (arith, or_halves x y))

and_assoc_fuel : (k x y z : ℕ) → x ≤ k → bit_and (bit_and x y) z ≡ bit_and x (bit_and y z)
and_assoc_fuel k zero y z h = rw (zero-and y, zero-and z, zero-and (bit_and y z)) refl
and_assoc_fuel zero (suc x) y z h = absurd (omega arith)
and_assoc_fuel (suc k) (suc x) y z h =
    rw
      (
        and_halves (bit_and (suc x) y) z,
        and_halves (suc x) (bit_and y z),
        (and_parts (suc x) y).0,
        (and_parts (suc x) y).1,
        (and_parts y z).0,
        (and_parts y z).1,
        and_assoc_fuel k (suc x / 2) (y / 2) (z / 2) (omega arith),
      )
      (omega arith)

pub and_assoc : (x y z : ℕ) → bit_and (bit_and x y) z ≡ bit_and x (bit_and y z)
and_assoc x y z = and_assoc_fuel x x y z (omega arith)

pub or-zero : (x : ℕ) → bit_or x 0 ≡ x
or-zero x = or-zero_fuel x x (omega arith)
  where
    or-zero_fuel : (k x : ℕ) → x ≤ k → bit_or x 0 ≡ x
    or-zero_fuel k zero h = refl
    or-zero_fuel zero (suc x) h = absurd (omega arith)
    or-zero_fuel (suc k) (suc x) h =
        omega (arith, or_halves (suc x) 0, or-zero_fuel k (suc x / 2) (omega arith))

and_or_fuel : (k x y z : ℕ) → z ≤ k → bit_and (bit_or x y) z ≡ bit_or (bit_and x z) (bit_and y z)
and_or_fuel k x y zero h = rw (and-zero (bit_or x y), and-zero x, and-zero y) refl
and_or_fuel zero x y (suc z) h = absurd (omega arith)
and_or_fuel (suc k) x y (suc z) h =
    rw
      (
        and_halves (bit_or x y) (suc z),
        or_halves (bit_and x (suc z)) (bit_and y (suc z)),
        (or_parts x y).0,
        (or_parts x y).1,
        (and_parts x (suc z)).0,
        (and_parts x (suc z)).1,
        (and_parts y (suc z)).0,
        (and_parts y (suc z)).1,
        and_or_fuel k (x / 2) (y / 2) (suc z / 2) (omega arith),
      )
      (omega arith)

pub and_or : (x y z : ℕ) → bit_and (bit_or x y) z ≡ bit_or (bit_and x z) (bit_and y z)
and_or x y z = and_or_fuel z x y z (omega arith)
