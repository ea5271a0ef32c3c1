-- ===== src/Base/Words.antt =====
-- Unsigned machine words, and rounding an address to a power of two.
use Prim.Native.Nat.{ℕ, ◌+◌, ◌-◌, ◌*◌, ◌/◌, ◌%◌, ◌^◌, ◌<◌, bit_and}
use mathlib.Core.Path.{◌≡◌}
use native.Mathlib.Omega.{arith}
use safira_uraa.Base.Bits.{and_mask, and_complement}

-- `uint64_t`, `size_t` and `uintptr_t` arithmetic wraps.
abbrev pub u64 : ℕ → ℕ
u64 n = n % 2 ^ 64

abbrev pub u32 : ℕ → ℕ
u32 n = n % 2 ^ 32

-- `a - b` on 64-bit words.
abbrev pub sub64 : ℕ → ℕ → ℕ
sub64 a b = (a + 2 ^ 64 - b) % 2 ^ 64

-- `~v` on 64-bit words.
abbrev pub not64 : ℕ → ℕ
not64 v = 2 ^ 64 - 1 - v

pub and_page : (x : ℕ) → bit_and x 4095 ≡ x % 4096
and_page x = and_mask 12 x

-- Clearing the low twelve bits.
pub and_not_page : (x : ℕ) → x < 2 ^ 64 → bit_and x (not64 4095) ≡ x / 4096 * 4096
and_not_page x h = omega (arith, and_complement 64 x 4095 h (omega arith), and_page x)
