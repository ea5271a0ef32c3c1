-- ===== src/Pmm/Bitmap.antt =====
-- The three bitmap helpers of src/pmm.c: bit `index & 7` of byte `index >> 3`.
use safira_uraa.Base.{ℕ, zero, suc, ◌-◌, ◌/◌, ◌%◌, ◌^◌, ◌<◌, ◌≡◌, refl, ◌∙◌, Bool, true, false, not}
use safira_uraa.Base.{◌&&◌, List, arith, bit_and, bit_or, ◌==◌, ◌!=◌, if◌then◌else◌}
use safira_uraa.Base.{length, get_or, set, get_or-set_self, get_or-set_ne, length-set}
use safira_uraa.Base.{ℕ_discrete, ap}
use safira_uraa.Base.Bits.{and_mask}

-- `(uint8_t)(1U << (index & 7U))`
unfoldable pub bit : ℕ → ℕ
bit index = 2 ^ bit_and index 7 % 256

unfoldable pub bitmap_set : List ℕ → ℕ → List ℕ
unfolding bit
bitmap_set bitmap index =
    set bitmap (index / 2 ^ 3) (bit_or (get_or bitmap (index / 2 ^ 3) 0) (bit index) % 256)

unfoldable pub bitmap_clear : List ℕ → ℕ → List ℕ
unfolding bit
bitmap_clear bitmap index =
    set bitmap (index / 2 ^ 3) (bit_and (get_or bitmap (index / 2 ^ 3) 0) (255 - bit index) % 256)

unfoldable pub bitmap_test : List ℕ → ℕ → Bool
unfolding bit
bitmap_test bitmap index = bit_and (get_or bitmap (index / 2 ^ 3) 0) (bit index) != 0

-- A test that every number below a bound passes, by evaluation.
passes : (ℕ → Bool) → ℕ → Bool
passes test zero = true
passes test (suc top) = if test top then passes test top else false

passes_lem : (test : ℕ → Bool) (top n : ℕ) → n < top → passes test top ≡ true → test n ≡ true
unfolding passes
passes_lem test zero n below e = absurd (omega arith)
passes_lem test (suc top) n below e = elim (ℕ_discrete n top) [
  | yes last ↦ ap test last ∙ ground arith
  | no other ↦ passes_lem test top n (omega arith) (ground arith)
]

-- Bit `j` of byte `b`, and what setting and clearing bit `i` make of it.
abbrev has : ℕ → ℕ → Bool
has b j = bit_and b (2 ^ j % 256) != 0

iff_true : Bool → Bool → Bool
iff_true true b = b
iff_true false b = not b

iff_true_sound : (a b : Bool) → iff_true a b ≡ true → a ≡ b
unfolding iff_true
iff_true_sound true b h = ground arith
iff_true_sound false b h = ground arith

abbrev byte_laws : ℕ → ℕ → ℕ → Bool
byte_laws b i j =
    iff_true (has (bit_or b (2 ^ i % 256) % 256) j) (if i == j then true else has b j)
    && iff_true (has (bit_and b (255 - 2 ^ i % 256) % 256) j) (if i == j then false else has b j)

byte_table : passes (λ b. passes (λ i. passes (λ j. byte_laws b i j) 8) 8) 256 ≡ true
unfolding passes iff_true
byte_table = refl

-- Every entry of the array is a byte.
abbrev pub Bytes : List ℕ → Type 0
Bytes bitmap = (k : ℕ) → get_or bitmap k 0 < 256

and_true : (a b : Bool) → (a && b) ≡ true → (a ≡ true) × (b ≡ true)
and_true a b h = ground arith

module _ (b i j : ℕ) (hb : b < 256) (hi : i < 8) (hj : j < 8) where
  byte_law : byte_laws b i j ≡ true
  byte_law =
      passes_lem (λ j. byte_laws b i j) 8 j hj
        (passes_lem (λ i. passes (λ j. byte_laws b i j) 8) 8 i hi
          (passes_lem _ 256 b hb byte_table))

  has-set : has (bit_or b (2 ^ i % 256) % 256) j ≡ (if i == j then true else has b j)
  has-set = iff_true_sound _ _ (and_true _ _ byte_law).0

  has-clear : has (bit_and b (255 - 2 ^ i % 256) % 256) j ≡ (if i == j then false else has b j)
  has-clear = iff_true_sound _ _ (and_true _ _ byte_law).1

seven : (i : ℕ) → bit_and i 7 ≡ i % 8
seven i = and_mask 3 i

-- A byte written inside the array keeps it an array of bytes.
Bytes-write :
    (bitmap : List ℕ) (k v : ℕ)
    → k < length bitmap
    → v < 256
    → Bytes bitmap
    → Bytes (set bitmap k v)
Bytes-write bitmap k v room small bytes j = elim (ℕ_discrete k j) [
  | yes e ↦ rw (← e, get_or-set_self bitmap k v 0 room) small
  | no ne ↦ rw (get_or-set_ne bitmap k j v 0 ne) (bytes j)
]

-- A new byte `v` in place of that of bit `i`, with bit `i` set to `c` and the others as before.
module _ (bitmap : List ℕ) (i v : ℕ) (c : Bool) (room : i / 2 ^ 3 < length bitmap)
    (flips : (j : ℕ)
      → j < 8
      → has v j ≡ (if i % 8 == j then c else has (get_or bitmap (i / 2 ^ 3) 0) j)) where
  test-write :
      (j : ℕ)
      → bitmap_test (set bitmap (i / 2 ^ 3) v) j ≡ (if i == j then c else bitmap_test bitmap j)
  unfolding bitmap_test
  test-write j = elim (ℕ_discrete (i / 2 ^ 3) (j / 2 ^ 3)) [
    | yes e ↦
        rw (← e, get_or-set_self bitmap (i / 2 ^ 3) v 0 room, seven j)
          (flips (j % 8) (omega arith) ∙ ground (arith, seven i))
    | no ne ↦ rw (get_or-set_ne bitmap (i / 2 ^ 3) (j / 2 ^ 3) v 0 ne) (ground arith)
  ]

module _ (bitmap : List ℕ) (i : ℕ) (room : i / 2 ^ 3 < length bitmap) (bytes : Bytes bitmap) where
  -- Setting bit `i` sets it and leaves every other bit.
  pub bitmap_test-set :
      (j : ℕ)
      → bitmap_test (bitmap_set bitmap i) j ≡ (if i == j then true else bitmap_test bitmap j)
  unfolding bitmap_set
  bitmap_test-set =
      test-write bitmap i _ true room
        λ j h. rw (seven i) (has-set _ (i % 8) j (bytes _) (omega arith) h)

  -- Clearing bit `i` clears it and leaves every other bit.
  pub bitmap_test-clear :
      (j : ℕ)
      → bitmap_test (bitmap_clear bitmap i) j ≡ (if i == j then false else bitmap_test bitmap j)
  unfolding bitmap_clear
  bitmap_test-clear =
      test-write bitmap i _ false room
        λ j h. rw (seven i) (has-clear _ (i % 8) j (bytes _) (omega arith) h)

  pub Bytes-set : Bytes (bitmap_set bitmap i)
  unfolding bitmap_set
  Bytes-set = Bytes-write bitmap _ _ room (omega arith) bytes

  pub Bytes-clear : Bytes (bitmap_clear bitmap i)
  unfolding bitmap_clear
  Bytes-clear = Bytes-write bitmap _ _ room (omega arith) bytes

pub length-bitmap_set : (bitmap : List ℕ) (i : ℕ) → length (bitmap_set bitmap i) ≡ length bitmap
unfolding bitmap_set
length-bitmap_set bitmap i = length-set bitmap _ _

pub length-bitmap_clear : (bitmap : List ℕ) (i : ℕ) → length (bitmap_clear bitmap i) ≡ length bitmap
unfolding bitmap_clear
length-bitmap_clear bitmap i = length-set bitmap _ _

full_table : passes (λ j. has 255 j) 8 ≡ true
unfolding passes
full_table = refl

-- In a byte of ones every bit is set.
pub bitmap_test-full :
    (bitmap : List ℕ) (j : ℕ) → get_or bitmap (j / 2 ^ 3) 0 ≡ 255 → bitmap_test bitmap j ≡ true
unfolding bitmap_test
bitmap_test-full bitmap j e =
    rw (e, seven j) (passes_lem (λ j. has 255 j) 8 (j % 8) (omega arith) full_table)
