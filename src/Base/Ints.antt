-- ===== src/Base/Ints.antt =====
-- Signed numbers, for the kernel's `int` and `long`.
use Prim.Native.Nat.{ℕ, ◌+◌, ◌-◌, ◌%◌, ◌^◌}
use safira_uraa.Base.Tests.{ltb, if◌then◌else◌}

pub data ℤ : Type 0 where
  pos : ℕ → ℤ
  negsuc : ℕ → ℤ

-- The sum of a natural number and a signed one.
abbrev pub offset_by : ℕ → ℤ → ℤ
offset_by base (pos n) = pos (base + n)
offset_by base (negsuc n) = if ltb n base then pos (base - n - 1) else negsuc (n - base)

-- `(int)n`
abbrev pub to_int : ℕ → ℤ
to_int n = let m : ℕ = n % 2 ^ 32 in if ltb m (2 ^ 31) then pos m else negsuc (2 ^ 32 - 1 - m)
