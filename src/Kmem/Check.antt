-- ===== src/Kmem/Check.antt =====
-- `kmem_validate` and `kmem_init` of kernel/mm/kmem.c: a heap whose blocks tile it is found sound,
-- and a new heap is one.
use safira_uraa.Base.{
  ℕ, zero, suc, ◌+◌, ◌-◌, ◌*◌, ◌/◌, ◌%◌, ◌^◌, ◌<◌, ◌≤◌, ◌≡◌, ◌≢◌, refl, ap, ◌∙◌, true, [], ◌∷◌,
  length, arith, bit_and, ℕ_discrete, ◌⊎◌, inl, inr, dec_lt,
}
use safira_uraa.Base.Words.{u64, sub64, not64}
use safira_uraa.Base.Bits.{and_mask, and_complement}
use safira_uraa.Kmem.{
  Heap, sound, kmem_magic, align_up, check_from, kmem_validate, init_heap, kmem_init,
}
use safira_uraa.Kmem.Chain.{Layout, Chain, HasLayout, align_lem, Chain-limit}

module _ (h : Heap) (small : h.limit + 48 < 2 ^ 64) (based : h.base ≢ 0) where
  check_step :
      (rounds at size prev : ℕ)
      → h.base ≤ at
      → at % 16 ≡ 0
      → size % 16 ≡ 0
      → at + 48 + size ≤ h.limit
      → (h.blocks at).magic ≡ kmem_magic
      → (h.blocks at).size ≡ size
      → (h.blocks at).prev ≡ prev
      → check_from h (suc rounds) at prev at
        ≡ check_from h rounds (h.blocks at).next at (at + 48 + size)
  unfolding check_from
  check_step rounds at size prev low aligned even fits magic s p =
      let inside : u64 (at + 48 + (h.blocks at).size) ≡ at + 48 + size = omega (arith, s) in
      let behind : align_up (u64 (at + 48 + (h.blocks at).size)) 16 ≡ at + 48 + size =
        ap (λ n. align_up n 16) inside
        ∙ align_lem (at + 48 + size) (omega (arith, aligned, even)) (omega arith) in
      let room : sub64 h.limit (at + 48) ≡ h.limit - (at + 48) = omega arith in
      rw (behind, room) (ground (arith, magic, s, p, based, low, fits))

  check_chain :
      (q : Layout) (rounds at prev link : ℕ)
      → Chain h.blocks h.limit at prev link q
      → h.base ≤ at
      → at % 16 ≡ 0
      → length q ≤ rounds
      → check_from h rounds link prev at ≡ sound
  unfolding check_from
  check_chain [] zero at prev link (null, _) low aligned few = rw null refl
  check_chain [] (suc rounds) at prev link (null, _) low aligned few = rw null refl
  check_chain ((size, free) ∷ q) zero at prev link c low aligned few = absurd (omega (arith, few))
  check_chain ((size, free) ∷ q) (suc rounds) at prev link (e, magic, s, f, p, even, c) low aligned
        few =
      let fits = Chain-limit q h.blocks h.limit (at + 48 + size) at (h.blocks at).next c in
      rw e (
        check_step rounds at size prev low aligned even fits magic s p
        ∙ check_chain q rounds (at + 48 + size) at (h.blocks at).next c (omega arith)
            (omega (arith, aligned, even)) (omega (arith, few)))

pub kmem_validate_lem : (h : Heap) (q : Layout) → HasLayout h q → kmem_validate h ≡ sound
unfolding kmem_validate
kmem_validate_lem h [] l = absurd (l.some_block refl)
kmem_validate_lem h ((size, free) ∷ q) l =
    let fits =
      Chain-limit q h.blocks h.limit (h.base + 48 + size) h.base (h.blocks h.base).next l.chain.6 in
    let checked =
      check_chain h l.bounded l.based ((size, free) ∷ q) 1048576 h.base 0 h.head l.chain
        (omega arith) l.aligned l.few in
    let above : h.base < h.limit = omega arith in
    let headed : h.head ≡ h.base = l.headed in
    ground (arith, checked, l.live, l.based, above, headed)

pub down_lem : (v : ℕ) → v < 2 ^ 64 → bit_and v (not64 15) ≡ v / 16 * 16
down_lem v small = omega (arith, and_complement 64 v 15 small (omega arith), and_mask 4 v)

-- The multiples of 16 within the memory that a heap is given.
abbrev pub first_aligned : ℕ → ℕ
first_aligned base = (base + 15) / 16 * 16

abbrev pub last_aligned : (base bytes : ℕ) → ℕ
last_aligned base bytes = (base + bytes) / 16 * 16

-- The memory has room for a block.
abbrev pub Roomy : (base bytes : ℕ) → Type 0
Roomy base bytes = (base ≢ 0) × (first_aligned base + 80 < last_aligned base bytes)

module _ (h : Heap) (base bytes : ℕ) (inside : base + bytes + 48 < 2 ^ 64) where
  start : ℕ
  start = first_aligned base

  usable : ℕ
  usable = last_aligned base bytes - first_aligned base

  init_heap_lem : Roomy base bytes → HasLayout (init_heap h start usable) ((usable - 48, true) ∷ [])
  unfolding start usable
  init_heap_lem (some_base, room) = record {
    live = refl;
    based = omega (arith, some_base);
    aligned = omega arith;
    bounded = omega (arith, room);
    headed = refl;
    chain = ground (arith, room);
    few = omega arith;
    some_block = λ none_there. absurd (ground (arith, none_there));
  }

  -- What the code computes, where the memory is not tiny.
  numbers :
      80 ≤ bytes
      → base ≢ 0
      → (align_up base 16 ≡ start)
        × (bit_and (sub64 bytes (start - base)) (not64 15) ≡ (bytes - (start - base)) / 16 * 16)
        × (base ≤ start)
        × (start < base + 16)
        × (start % 16 ≡ 0)
  unfolding start
  numbers enough some_base =
      let sum : u64 (base + 15) ≡ base + 15 = omega arith in
      let up : align_up base 16 ≡ first_aligned base =
        ap (λ n. bit_and n (not64 15)) sum ∙ down_lem (base + 15) (omega arith) in
      let lost : sub64 bytes (first_aligned base - base) ≡ bytes - (first_aligned base - base) =
        omega arith in
      (
        up,
        ap (λ n. bit_and n (not64 15)) lost
            ∙ down_lem (bytes - (first_aligned base - base)) (omega arith),
        omega arith,
        omega arith,
        omega arith,
      )

  sizes :
      Roomy base bytes
      → ((bytes - (start - base)) / 16 * 16 ≡ usable) × (80 < usable) × (start - base + 80 < bytes)
  unfolding start usable
  sizes (some_base, room) = (omega (arith, room), omega (arith, room), omega (arith, room))

  cramped :
      ¬ Roomy base bytes
      → base ≢ 0
      → start - base + 80 < bytes
      → (bytes - (start - base)) / 16 * 16 ≤ 80
  unfolding start
  cramped bad some_base more = ground (arith, bad, more, some_base)

  accepted :
      Roomy base bytes
      → kmem_init h base bytes
        ≡ (kmem_validate (init_heap h start usable), init_heap h start usable)
  unfolding kmem_init
  accepted (some_base, room) =
      let (same, large, more) = sizes (some_base, room) in
      let (up, down, low, near, aligned) = numbers (omega (arith, more)) some_base in
      rw (up, down, same) (ground (arith, some_base, low, near, large, more))

  refused :
      ¬ Roomy base bytes → ((kmem_init h base bytes).0 ≢ sound) × ((kmem_init h base bytes).1 ≡ h)
  unfolding kmem_init
  refused bad = elim (ℕ_discrete base 0) [
    | yes null ↦ ground (arith, null)
    | no some_base ↦ elim (dec_lt bytes 80) [
      | yes tiny ↦ ground (arith, tiny)
      | no enough ↦
          let (up, down, low, near, aligned) = numbers (omega (arith, enough)) some_base in
          elim (dec_lt (start - base + 80) bytes) [
            | no few ↦ rw (up, down) (ground (arith, some_base, enough, low, few))
            | yes more ↦
                let less = cramped bad some_base more in
                rw (up, down) (ground (arith, some_base, enough, low, less, more))
          ]
    ]
  ]

  roomy : Roomy base bytes ⊎ (¬ Roomy base bytes)
  roomy = ground arith

  -- For memory that ends at least 48 bytes below the end of the address space: the
  -- initialisation succeeds exactly when the base is not NULL and more than 80 bytes lie between
  -- the first and the last multiple of 16; the heap is then all of that, one free block that is
  -- found sound. Otherwise it fails and changes nothing.
  pub kmem_init_lem :
      (Roomy base bytes
        × ((kmem_init h base bytes).0 ≡ sound)
        × ((kmem_init h base bytes).1.base ≡ first_aligned base)
        × ((kmem_init h base bytes).1.limit ≡ last_aligned base bytes)
        × HasLayout
            (kmem_init h base bytes).1
            ((last_aligned base bytes - first_aligned base - 48, true) ∷ []))
      ⊎ ((¬ Roomy base bytes)
          × ((kmem_init h base bytes).0 ≢ sound)
          × ((kmem_init h base bytes).1 ≡ h))
  unfolding start usable
  kmem_init_lem = elim roomy [
    | inr bad ↦ let (fails, same) = refused bad in inr (bad, fails, same)
    | inl good ↦
        let laid = init_heap_lem good in
        let limit : first_aligned base + (last_aligned base bytes - first_aligned base)
            ≡ last_aligned base bytes =
          omega (arith, good.1) in
        inl (rw (accepted good) (good, kmem_validate_lem _ _ laid, refl, limit, laid))
  ]
