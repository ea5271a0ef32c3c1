-- ===== src/Kmem/Alloc.antt =====
-- `kmem_alloc` of kernel/mm/kmem.c: first fit, on a heap whose blocks tile it.
use safira_uraa.Base.{
  ℕ, zero, suc, ◌+◌, ◌-◌, ◌*◌, ◌/◌, ◌%◌, ◌^◌, ◌<◌, ◌≤◌, ◌≡◌, ◌≢◌, refl, sym, ap, ◌∙◌, Bool, true,
  false, ◌&&◌, Option, none, some, [], ◌∷◌, length, arith, ltb, leb, if◌then◌else◌, bit_and, ◌⊎◌,
  inl, inr, Bool-cases,
}
use mathlib.Core.Path.{subst}
use safira_uraa.Base.Words.{u64, not64}
use safira_uraa.Kmem.{Blocks, Heap, kmem_magic, align_up, alloc_from, kmem_alloc, hand_out}
use safira_uraa.Kmem.Chain.{Layout, Chain, HasLayout}
use safira_uraa.Kmem.Check.{down_lem}
use safira_uraa.Kmem.Split.{pieces, hand_out-Chain}

abbrev behind : ℕ → ℕ × Bool → Option (ℕ × Layout) → Option (ℕ × Layout)
behind size block none = none
behind size block (some (offset, q)) = some (48 + size + offset, block ∷ q)

-- First fit: where the block lies that is handed out, and the blocks after it.
abbrev pub first_fit : ℕ → Layout → Option (ℕ × Layout)
first_fit wanted [] = none
first_fit wanted ((size, free) ∷ q) =
    if free && leb wanted size
    then some (0, pieces wanted size q)
    else behind size (size, free) (first_fit wanted q)

-- A layout that is found is not empty, and has at most one block more.
abbrev FewMore : Layout → Option (ℕ × Layout) → Type 0
FewMore q none = Unit
FewMore q (some (_, r)) = (length r ≤ length q + 1) × (0 < length r)

-- The heap after a call that begins its search at `at`: unchanged, or with the new layout.
abbrev Served : Heap → (at prev : ℕ) → Option (ℕ × Layout) → Option (ℕ × Heap) → Type 0
Served h at prev none out = out ≡ some (0, h)
Served h at prev (some (offset, q)) out =
    (after : Blocks) × (out ≡ some (at + offset + 48, record h { blocks = after }))
    × ((a : ℕ) → a < at → a ≢ 0 → after a ≡ h.blocks a)
    × Chain after h.limit at prev at q

module _ (h : Heap) (small : h.limit + 48 < 2 ^ 64) (wanted : ℕ) (even : wanted % 16 ≡ 0) where
  alloc_end : (fuel : ℕ) → alloc_from (suc fuel) h 0 wanted ≡ some (0, h)
  unfolding alloc_from
  alloc_end fuel = refl

  module _ (fuel at size : ℕ) (free : Bool) (placed : at ≢ 0)
      (magic : (h.blocks at).magic ≡ kmem_magic) (s : (h.blocks at).size ≡ size)
      (f : (h.blocks at).free ≡ free) where
    alloc_here :
        (free && leb wanted size) ≡ true
        → alloc_from (suc fuel) h at wanted ≡ some (hand_out h at wanted)
    unfolding alloc_from
    alloc_here fits =
        let test : ((h.blocks at).free && leb wanted (h.blocks at).size) ≡ true = rw (s, f) fits in
        rw (magic, test) (ground (arith, placed))

    alloc_next :
        (free && leb wanted size) ≡ false
        → alloc_from (suc fuel) h at wanted ≡ alloc_from fuel h (h.blocks at).next wanted
    unfolding alloc_from
    alloc_next fails =
        let test : ((h.blocks at).free && leb wanted (h.blocks at).size) ≡ false =
          rw (s, f) fails in
        rw (magic, test) (ground (arith, placed))

  -- A block that does not fit stays before what is found behind it.
  pass :
      (at prev size : ℕ) (free : Bool) (found : Option (ℕ × Layout)) (out : Option (ℕ × Heap))
      → at ≢ 0
      → (h.blocks at).magic ≡ kmem_magic
      → (h.blocks at).size ≡ size
      → (h.blocks at).free ≡ free
      → (h.blocks at).prev ≡ prev
      → size % 16 ≡ 0
      → (found ≡ none) ⊎ ((h.blocks at).next ≡ at + 48 + size)
      → Served h (at + 48 + size) at found out
      → Served h at prev (behind size (size, free) found) out
  pass at prev size free none out placed magic s f p low next served = served
  pass at prev size free (some (offset, q)) out placed magic s f p low (inl e) served =
      absurd (ground (arith, e))
  pass at prev size free (some (offset, q)) out placed magic s f p low (inr next)
        (after, is, kept, c) =
      let here : after at ≡ h.blocks at = kept at (omega arith) placed in
      let where_found : at + 48 + size + offset + 48 ≡ at + (48 + size + offset) + 48 =
        omega arith in
      (
        after,
        is ∙ ap (λ (n : ℕ). some (n, record h { blocks = after })) where_found,
        λ a near some_block. kept a (omega arith) some_block,
        (
          refl,
          ap (λ b. b.magic) here ∙ magic,
          ap (λ b. b.size) here ∙ s,
          ap (λ b. b.free) here ∙ f,
          ap (λ b. b.prev) here ∙ p,
          low,
          rw (here, next) c,
        ),
      )

  leads_on :
      (q : Layout) (at size : ℕ)
      → Chain h.blocks h.limit (at + 48 + size) at (h.blocks at).next q
      → (first_fit wanted q ≡ none) ⊎ ((h.blocks at).next ≡ at + 48 + size)
  leads_on [] at size c = inl refl
  leads_on ((s, f) ∷ q) at size (e, _, _, _, _, _, _) = inr e

  alloc-Served :
      (q : Layout) (fuel at prev link : ℕ)
      → Chain h.blocks h.limit at prev link q
      → at ≢ 0
      → at % 16 ≡ 0
      → length q < fuel
      → Served h at prev (first_fit wanted q) (alloc_from fuel h link wanted)
  alloc-Served [] zero at prev link c placed aligned enough = absurd (omega (arith, enough))
  alloc-Served [] (suc fuel) at prev link (null, _) placed aligned enough = rw null (alloc_end fuel)
  alloc-Served ((size, free) ∷ q) zero at prev link c placed aligned enough =
      absurd (omega (arith, enough))
  alloc-Served ((size, free) ∷ q) (suc fuel) at prev link (e, magic, s, f, p, low, c) placed aligned
        enough =
      elim (Bool-cases (free && leb wanted size)) [
        | inl fits ↦
            let is_free : free ≡ true = ground (arith, fits) in
            let fit : wanted ≤ size = ground (arith, fits) in
            let (after, out, kept, chain) =
              hand_out-Chain h small q size at prev wanted placed aligned even fit
                (refl, magic, s, f ∙ is_free, p, low, c) in
            let offset : at + 48 ≡ at + 0 + 48 = omega arith in
            rw (e, fits)
              (
                after,
                alloc_here fuel at size free placed magic s f fits
                    ∙ ap some out
                    ∙ ap (λ (n : ℕ). some (n, record h { blocks = after })) offset,
                kept,
                chain,
              )
        | inr fails ↦
            rw (e, fails, alloc_next fuel at size free placed magic s f fails)
              (pass at prev size free (first_fit wanted q)
                (alloc_from fuel h (h.blocks at).next wanted) placed magic s f p low
                (leads_on q at size c)
                (alloc-Served q fuel (at + 48 + size) at (h.blocks at).next c
                  (λ null. absurd (omega (arith, null))) (omega (arith, aligned, low))
                  (omega (arith, enough))))
      ]

pieces-FewMore :
    (wanted size : ℕ) (q : Layout) → FewMore ((size, true) ∷ q) (some (0, pieces wanted size q))
pieces-FewMore wanted size q = elim (Bool-cases (ltb (wanted + 80) size)) [
  | inl cuts ↦ rw cuts (omega arith, omega arith)
  | inr stays ↦ rw stays (omega arith, omega arith)
]

first_fit-FewMore : (wanted : ℕ) (q : Layout) → FewMore q (first_fit wanted q)
first_fit-FewMore wanted [] = tt
first_fit-FewMore wanted ((size, free) ∷ q) = elim (Bool-cases (free && leb wanted size)) [
  | inl fits ↦ rw fits (pieces-FewMore wanted size q)
  | inr fails ↦ rw fails (longer (first_fit wanted q) (first_fit-FewMore wanted q))
]
  where
    longer :
        (found : Option (ℕ × Layout))
        → FewMore q found
        → FewMore ((size, free) ∷ q) (behind size (size, free) found)
    longer none few = tt
    longer (some (_, r)) (few, _) = (omega (arith, few), omega arith)

-- At this offset there is a block in use of at least `wanted` bytes.
abbrev pub Holds : Layout → (offset wanted : ℕ) → Type 0
Holds [] offset wanted = ⊥
Holds ((size, free) ∷ q) offset wanted =
    ((offset ≡ 0) × (free ≡ false) × (wanted ≤ size))
    ⊎ ((48 + size ≤ offset) × Holds q (offset - (48 + size)) wanted)

abbrev HoldsFound : ℕ → Option (ℕ × Layout) → Type 0
HoldsFound wanted none = Unit
HoldsFound wanted (some (offset, r)) = Holds r offset wanted

first_fit-Holds : (wanted : ℕ) (q : Layout) → HoldsFound wanted (first_fit wanted q)
first_fit-Holds wanted [] = tt
first_fit-Holds wanted ((size, free) ∷ q) = elim (Bool-cases (free && leb wanted size)) [
  | inl fits ↦
      let fit : wanted ≤ size = ground (arith, fits) in
      rw fits (elim (Bool-cases (ltb (wanted + 80) size)) [
        | inl cuts ↦ rw cuts (inl (refl, refl, omega arith))
        | inr stays ↦ rw stays (inl (refl, refl, fit))
      ])
  | inr fails ↦ rw fails (later (first_fit wanted q) (first_fit-Holds wanted q))
]
  where
    later :
        (found : Option (ℕ × Layout))
        → HoldsFound wanted found
        → HoldsFound wanted (behind size (size, free) found)
    later none holds = tt
    later (some (offset, r)) holds =
        let same : 48 + size + offset - (48 + size) ≡ offset = omega arith in
        inr (omega arith, subst (λ o. Holds r o wanted) (sym same) holds)

-- What a client gets: nothing, or a block in use of at least `wanted` bytes.
abbrev pub Granted : Heap → ℕ → Option (ℕ × Layout) → Option (ℕ × Heap) → Type 0
Granted h wanted none out = out ≡ some (0, h)
Granted h wanted (some (offset, r)) out =
    (after : Blocks) × (out ≡ some (h.base + offset + 48, record h { blocks = after }))
    × HasLayout (record h { blocks = after }) r
    × Holds r offset wanted

-- The multiple of 16 that is handed out.
abbrev pub rounded : ℕ → ℕ
rounded bytes = (bytes + 15) / 16 * 16

module _ (h : Heap) (q : Layout) (l : HasLayout h q) (fuel bytes : ℕ) (some_bytes : bytes ≢ 0)
    (inside : bytes + 15 < 2 ^ 64) where
  searches : kmem_alloc fuel h bytes ≡ alloc_from fuel h h.head (rounded bytes)
  unfolding kmem_alloc
  searches =
      let sum : u64 (bytes + 15) ≡ bytes + 15 = omega arith in
      let up : align_up bytes 16 ≡ rounded bytes =
        ap (λ n. bit_and n (not64 15)) sum ∙ down_lem (bytes + 15) inside in
      let positive : rounded bytes ≢ 0 = λ null. absurd (omega (arith, null, some_bytes)) in
      rw up (ground (arith, l.live, some_bytes, positive))

  -- On a heap whose blocks tile it, fewer than 1048576 of them, with as much fuel as blocks and
  -- one more, and for a size that is not 0 and does not wrap when it is rounded up to 16: the
  -- allocation is first fit. It hands out a block in use of at least that size and leaves blocks
  -- that tile the heap; it returns NULL and changes nothing where no free block is large enough.
  pub kmem_alloc_lem :
      length q < fuel
      → length q < 1048576
      → Granted h (rounded bytes) (first_fit (rounded bytes) q) (kmem_alloc fuel h bytes)
  kmem_alloc_lem enough room = rw searches (
      grant (first_fit (rounded bytes) q) (alloc_from fuel h h.head (rounded bytes))
        (first_fit-FewMore (rounded bytes) q) (first_fit-Holds (rounded bytes) q)
        (alloc-Served h l.bounded (rounded bytes) (omega arith) q fuel h.base 0 h.head l.chain
          l.based l.aligned enough))
    where
      grant :
          (found : Option (ℕ × Layout)) (out : Option (ℕ × Heap))
          → FewMore q found
          → HoldsFound (rounded bytes) found
          → Served h h.base 0 found out
          → Granted h (rounded bytes) found out
      grant none out few holds served = served
      grant (some (offset, [])) out few holds served = absurd holds
      grant (some (offset, (size, free) ∷ r)) out (few, _) holds (after, is, _, c) = (
        after,
        is,
        record {
          live = l.live;
          based = l.based;
          aligned = l.aligned;
          bounded = l.bounded;
          headed = l.headed;
          chain = (l.headed, c.1, c.2, c.3, c.4, c.5, c.6);
          few = omega (arith, few, room);
          some_block = λ none_there. absurd (ground (arith, none_there));
        },
        holds,
      )
