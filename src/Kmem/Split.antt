-- ===== src/Kmem/Split.antt =====
-- `kmem_split_if_useful` of kernel/mm/kmem.c on blocks that tile the heap.
use safira_uraa.Base.{
  ℕ, ◌+◌, ◌-◌, ◌%◌, ◌^◌, ◌<◌, ◌≤◌, ◌≡◌, ◌≢◌, refl, sym, ap, ◌∙◌, true, false, [], ◌∷◌, arith, ltb,
  if◌then◌else◌, update, update_self, update_ne, ◌⊎◌, inl, inr, dec_lt,
}
use mathlib.Core.Path.{subst}
use safira_uraa.Base.Words.{u64, sub64}
use safira_uraa.Kmem.{
  Block, Blocks, Heap, kmem_magic, align_up, link_back, split, split_if_useful, hand_out,
}
use safira_uraa.Kmem.Chain.{Layout, Chain, align_lem, Chain-limit, Chain-frame}

-- The first block of a chain is told that another block stands before it.
pub relink :
    (q : Layout) (blocks : Blocks) (limit at prev link back : ℕ)
    → at ≢ 0
    → Chain blocks limit at prev link q
    → Chain (link_back blocks link back) limit at back link q
relink [] blocks limit at prev link back placed c = c
relink ((size, free) ∷ q) blocks limit at prev link back placed (e, magic, s, f, p, even, c) =
    let new : Block = record (blocks at) { prev = back } in
    let is : link_back blocks link back ≡ update blocks at new = ground (arith, e, placed) in
    let here : update blocks at new at ≡ new = update_self blocks at new in
    subst (λ b. Chain b limit at back link ((size, free) ∷ q)) (sym is)
      (
        e,
        ap (λ b. b.magic) here ∙ magic,
        ap (λ b. b.size) here ∙ s,
        ap (λ b. b.free) here ∙ f,
        ap (λ b. b.prev) here,
        even,
        rw here (
            Chain-frame q blocks (update blocks at new) limit (at + 48 + size) at (blocks at).next
              (λ a far. update_ne blocks at new a (omega arith)) c),
      )

-- What is handed out, and what is left of the block.
abbrev pub pieces : (wanted size : ℕ) → Layout → Layout
pieces wanted size q =
    if ltb (wanted + 80) size
    then (wanted, false) ∷ ((size - wanted - 48, true) ∷ q)
    else (size, false) ∷ q

module _ (h : Heap) (small : h.limit + 48 < 2 ^ 64) (q : Layout) (size : ℕ) (at prev wanted : ℕ)
    (placed : at ≢ 0) (aligned : at % 16 ≡ 0) (even : wanted % 16 ≡ 0) (enough : wanted ≤ size)
    (c : Chain h.blocks h.limit at prev at ((size, true) ∷ q)) where
  fits : at + 48 + size ≤ h.limit
  fits = Chain-limit q h.blocks h.limit (at + 48 + size) at (h.blocks at).next c.6

  -- Where the new block would start.
  behind :
      (align_up (u64 (at + 48 + wanted)) 16 ≡ at + 48 + wanted)
      × (sub64 (at + 48 + wanted) (at + 48) ≡ wanted)
  behind =
      let inside : u64 (at + 48 + wanted) ≡ at + 48 + wanted = omega (arith, fits) in
      (
        ap (λ n. align_up n 16) inside
            ∙ align_lem (at + 48 + wanted) (omega (arith, aligned, even)) (omega (arith, fits)),
        omega (arith, fits),
      )

  -- The block is handed out whole.
  whole : Blocks
  whole = update h.blocks at (record (h.blocks at) { free = false })

  whole_lem : ¬ (wanted + 80 < size) → hand_out h at wanted ≡ (at + 48, record h { blocks = whole })
  unfolding hand_out split_if_useful whole
  whole_lem rest =
      let (up, consumed) = behind in
      let same : u64 (wanted + 48 + 32) ≡ wanted + 48 + 32 = omega (arith, fits) in
      rw (up, consumed) (ground (arith, rest, c.2, same))

  whole-Chain : Chain whole h.limit at prev at ((size, false) ∷ q)
  unfolding whole
  whole-Chain =
      let (_, magic, s, _, p, low, tail) = c in
      let new : Block = record (h.blocks at) { free = false } in
      let here : update h.blocks at new at ≡ new = update_self h.blocks at new in
      (
        refl,
        ap (λ b. b.magic) here ∙ magic,
        ap (λ b. b.size) here ∙ s,
        ap (λ b. b.free) here,
        ap (λ b. b.prev) here ∙ p,
        low,
        rw here (
            Chain-frame q h.blocks (update h.blocks at new) h.limit (at + 48 + size) at
              (h.blocks at).next (λ a far. update_ne h.blocks at new a (omega arith)) tail),
      )

  -- The block is cut in two.
  cut : Blocks
  cut =
      let parts : Blocks = split h.blocks at wanted (at + 48 + wanted) wanted in
      update parts at (record (parts at) { free = false })

  cut_lem : wanted + 80 < size → hand_out h at wanted ≡ (at + 48, record h { blocks = cut })
  unfolding hand_out split_if_useful cut
  cut_lem rest =
      let (up, consumed) = behind in
      let same : u64 (wanted + 48 + 32) ≡ wanted + 48 + 32 = omega (arith, fits) in
      let inside : u64 (at + 48 + wanted + 48) ≡ at + 48 + wanted + 48 = omega (arith, fits) in
      rw (up, consumed) (ground (arith, rest, c.2, same, inside, fits))

  module _ (rest : wanted + 80 < size) where
    second : ℕ
    second = at + 48 + wanted

    new_block : Block
    new_block = record {
      magic = kmem_magic;
      size = (h.blocks at).size - wanted - 48;
      free = true;
      prev = at;
      next = (h.blocks at).next;
    }

    begun : Blocks
    begun = update h.blocks second new_block

    linked : Blocks
    linked = link_back begun (h.blocks at).next second

    -- The pointer behind the block leads out of the block.
    link_far : ((h.blocks at).next ≡ 0) ⊎ ((h.blocks at).next ≡ at + 48 + size)
    link_far = by_layout q c.6
      where
        by_layout :
            (q : Layout)
            → Chain h.blocks h.limit (at + 48 + size) at (h.blocks at).next q
            → ((h.blocks at).next ≡ 0) ⊎ ((h.blocks at).next ≡ at + 48 + size)
        by_layout [] (null, _) = inl null
        by_layout ((s, f) ∷ q) (e, _, _, _, _, _, _) = inr e

    linked_near : (a : ℕ) → a < at + 48 + size → a ≢ 0 → linked a ≡ begun a
    unfolding linked
    linked_near a near some_block = elim link_far [
      | inl null ↦ ground (arith, null)
      | inr far ↦ ground (arith, far, near)
    ]

    linked_at : linked at ≡ h.blocks at
    unfolding begun second
    linked_at =
        linked_near at (omega arith) placed
        ∙ update_ne h.blocks (at + 48 + wanted) new_block at (λ same. absurd (omega (arith, same)))

    linked_second : linked second ≡ new_block
    unfolding begun second
    linked_second =
        linked_near (at + 48 + wanted) (omega (arith, rest)) (λ null. absurd (omega (arith, null)))
        ∙ update_self h.blocks (at + 48 + wanted) new_block

    linked_tail : Chain linked h.limit (at + 48 + size) second (h.blocks at).next q
    unfolding linked begun second
    linked_tail =
        relink q (update h.blocks (at + 48 + wanted) new_block) h.limit (at + 48 + size) at
          (h.blocks at).next (at + 48 + wanted) (λ null. absurd (omega (arith, null)))
          (Chain-frame q h.blocks (update h.blocks (at + 48 + wanted) new_block) h.limit
            (at + 48 + size) at (h.blocks at).next
            (λ a far.
              update_ne h.blocks (at + 48 + wanted) new_block a
                (λ same. absurd (omega (arith, same, rest, far))))
            c.6)

    -- The header of the first part.
    first_block : Block
    first_block = record (h.blocks at) { next = second; size = wanted; free = false }

    cut_at : cut at ≡ first_block
    unfolding cut split first_block linked begun new_block second
    cut_at =
        let parts : Blocks = split h.blocks at wanted (at + 48 + wanted) wanted in
        update_self parts at (record (parts at) { free = false })
        ∙ ap (λ (b : Block). record b { free = false })
            (update_self linked at (record (linked at) { next = at + 48 + wanted; size = wanted }))
        ∙ ap (λ (b : Block). record b { next = at + 48 + wanted; size = wanted; free = false })
            linked_at

    cut_others : (a : ℕ) → a ≢ at → cut a ≡ linked a
    unfolding cut split linked begun new_block second
    cut_others a other =
        let parts : Blocks = split h.blocks at wanted (at + 48 + wanted) wanted in
        let apart : at ≢ a = λ same. other (sym same) in
        update_ne parts at (record (parts at) { free = false }) a apart
        ∙ update_ne linked at (record (linked at) { next = at + 48 + wanted; size = wanted }) a
            apart

    cut-Chain : Chain cut h.limit at prev at ((wanted, false) ∷ ((size - wanted - 48, true) ∷ q))
    unfolding first_block new_block second
    cut-Chain =
        let (_, magic, s, _, p, low, tail) = c in
        let there : cut (at + 48 + wanted) ≡ new_block =
          cut_others (at + 48 + wanted) (λ same. absurd (omega (arith, same))) ∙ linked_second in
        let left : at + 48 + wanted + 48 + (size - wanted - 48) ≡ at + 48 + size =
          omega (arith, rest) in
        (
          refl,
          ap (λ b. b.magic) cut_at ∙ magic,
          ap (λ b. b.size) cut_at,
          ap (λ b. b.free) cut_at,
          ap (λ b. b.prev) cut_at ∙ p,
          even,
          (
            ap (λ b. b.next) cut_at,
            ap (λ b. b.magic) there,
            ap (λ b. b.size) there ∙ ap (λ n. n - wanted - 48) s,
            ap (λ b. b.free) there,
            ap (λ b. b.prev) there,
            omega (arith, low, even, rest),
            rw (ap (λ b. b.next) there, left)
                (Chain-frame q linked cut h.limit (at + 48 + size) (at + 48 + wanted)
                  (h.blocks at).next
                  (λ a far. cut_others a (λ same. absurd (omega (arith, same, far)))) linked_tail),
          ),
        )

    cut_before : (a : ℕ) → a < at → a ≢ 0 → cut a ≡ h.blocks a
    unfolding begun second
    cut_before a near some_block =
        cut_others a (λ same. absurd (omega (arith, same)))
        ∙ linked_near a (omega arith) some_block
        ∙ update_ne h.blocks (at + 48 + wanted) new_block a (λ same. absurd (omega (arith, same)))

  -- The blocks after the first one has been handed out.
  pub hand_out-Chain :
      (after : Blocks) × (hand_out h at wanted ≡ (at + 48, record h { blocks = after }))
      × ((a : ℕ) → a < at → a ≢ 0 → after a ≡ h.blocks a)
      × Chain after h.limit at prev at (pieces wanted size q)
  unfolding whole
  hand_out-Chain = elim (dec_lt (wanted + 80) size) [
    | yes rest ↦
        let cuts : ltb (wanted + 80) size ≡ true = ground (arith, rest) in
        (cut, cut_lem rest, cut_before rest, rw cuts (cut-Chain rest))
    | no rest ↦
        let stays : ltb (wanted + 80) size ≡ false = ground (arith, rest) in
        (
          whole,
          whole_lem rest,
          λ a near _.
              update_ne h.blocks at (record (h.blocks at) { free = false }) a
                (λ same. absurd (omega (arith, same))),
          rw stays whole-Chain,
        )
  ]
