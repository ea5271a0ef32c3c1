-- ===== src/Kmem/Chain.antt =====
-- The blocks of kernel/mm/kmem.c as a list: they tile the heap.
use safira_uraa.Base.{
  ℕ, ◌+◌, ◌%◌, ◌^◌, ◌<◌, ◌≤◌, ◌≡◌, ◌≢◌, ap, ◌∙◌, Bool, true, List, [], ◌∷◌, length, arith, bit_and,
}
use safira_uraa.Base.Words.{u64, not64}
use safira_uraa.Base.Bits.{and_mask, and_complement}
use safira_uraa.Kmem.{Blocks, Heap, kmem_magic}

-- The sizes of the blocks, each with whether it is free.
abbrev pub Layout : Type 0
Layout = List (ℕ × Bool)

-- From the address `at` on, whose block `prev` stands before, the blocks lie one behind the other up
-- to `limit`; `link` is the pointer that leads to the first of them.
abbrev pub Chain : Blocks → (limit at prev link : ℕ) → Layout → Type 0
Chain blocks limit at prev link [] = (link ≡ 0) × (at ≡ limit)
Chain blocks limit at prev link ((size, free) ∷ q) =
    (link ≡ at)
    × ((blocks at).magic ≡ kmem_magic)
    × ((blocks at).size ≡ size)
    × ((blocks at).free ≡ free)
    × ((blocks at).prev ≡ prev)
    × (size % 16 ≡ 0)
    × Chain blocks limit (at + 48 + size) at (blocks at).next q

-- A heap with this layout.
pub record HasLayout (h : Heap) (q : Layout) : Type 0 where
  pub live : h.initialized ≡ true
  pub based : h.base ≢ 0
  pub aligned : h.base % 16 ≡ 0
  pub bounded : h.limit + 48 < 2 ^ 64
  pub headed : h.head ≡ h.base
  pub chain : Chain h.blocks h.limit h.base 0 h.head q
  pub few : length q ≤ 1048576
  pub some_block : q ≢ []

pub align_lem : (v : ℕ) → v % 16 ≡ 0 → v < 2 ^ 64 → bit_and (u64 (v + 15)) (not64 15) ≡ v
align_lem v low small =
    let inside : v + 15 < 2 ^ 64 = omega (arith, low) in
    let same : u64 (v + 15) ≡ v + 15 = omega arith in
    ap (λ n. bit_and n (not64 15)) same
    ∙ omega (arith, and_complement 64 (v + 15) 15 inside (omega arith), and_mask 4 (v + 15), low)

-- The blocks end within the heap.
pub Chain-limit :
    (q : Layout) (blocks : Blocks) (limit at prev link : ℕ)
    → Chain blocks limit at prev link q
    → at ≤ limit
Chain-limit [] blocks limit at prev link h = omega (arith, h.1)
Chain-limit ((size, free) ∷ q) blocks limit at prev link (_, _, _, _, _, _, h) =
    omega (arith, Chain-limit q blocks limit (at + 48 + size) at (blocks at).next h)

-- What happens before the first block leaves them.
pub Chain-frame :
    (q : Layout) (blocks after : Blocks) (limit at prev link : ℕ)
    → ((a : ℕ) → at ≤ a → after a ≡ blocks a)
    → Chain blocks limit at prev link q
    → Chain after limit at prev link q
Chain-frame [] blocks after limit at prev link same h = h
Chain-frame ((size, free) ∷ q) blocks after limit at prev link same (e, magic, s, f, p, low, h) =
    let here : after at ≡ blocks at = same at (omega arith) in
    (
      e,
      ap (λ b. b.magic) here ∙ magic,
      ap (λ b. b.size) here ∙ s,
      ap (λ b. b.free) here ∙ f,
      ap (λ b. b.prev) here ∙ p,
      low,
      rw here (
          Chain-frame q blocks after limit (at + 48 + size) at (blocks at).next
            (λ a far. same a (omega arith)) h),
    )
