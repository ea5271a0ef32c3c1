-- ===== src/Kmem/Release.antt =====
-- `kmem_free_checked` of kernel/mm/kmem.c on a block in use of a heap whose blocks tile it.
use safira_uraa.Base.{
  ℕ, ◌+◌, ◌%◌, ◌^◌, ◌<◌, ◌≤◌, ◌≡◌, ◌≢◌, refl, sym, ap, ◌∙◌, Bool, true, false, ◌&&◌, [], ◌∷◌, ◌++◌,
  length, length-append, arith, ◌==◌, ◌!=◌, if◌then◌else◌, bit_and, update, update_self, update_ne,
}
use mathlib.Core.Path.{subst}
use safira_uraa.Base.Words.{sub64}
use safira_uraa.Base.Bits.{and_mask}
use safira_uraa.Kmem.{Block, Blocks, Heap, sound, kmem_magic, kmem_validate, ptr_in_heap}
use safira_uraa.Kmem.Chain.{Layout, Chain, HasLayout, Chain-limit, Chain-frame}
use safira_uraa.Kmem.Check.{kmem_validate_lem}
use safira_uraa.Kmem.Free.{coalesce_forward, release, kmem_free_checked}
use safira_uraa.Kmem.Coalesce.{merge, coalesce-Chain}

-- The bytes that blocks take.
abbrev pub extent : Layout → ℕ
extent [] = 0
extent ((size, free) ∷ q) = 48 + size + extent q

-- The blocks in front take the first of the others in, where the last of them is free.
abbrev pub join : Layout → Layout → Layout
join [] m = m
join ((t, true) ∷ []) m = merge t m
join ((t, false) ∷ []) m = (t, false) ∷ m
join (x ∷ (y ∷ pre)) m = x ∷ join (y ∷ pre) m

-- What the code does to the blocks.
abbrev freed : Blocks → ℕ → Blocks
freed blocks block = update blocks block (record (blocks block) { free = true })

abbrev merged : ℕ → Blocks → ℕ → Blocks
merged fuel blocks block = coalesce_forward fuel (freed blocks block) block

abbrev final : ℕ → Blocks → ℕ → Blocks
final fuel blocks block =
    let joined : Blocks = merged fuel blocks block in
    let before : ℕ = (joined block).prev in
    if before != 0 && (joined before).free then coalesce_forward fuel joined before else joined

Chain-head :
    (size : ℕ) (q : Layout) (blocks : Blocks) (limit at prev : ℕ)
    → Chain blocks limit at prev at (merge size q)
    → (blocks at).prev ≡ prev
Chain-head size [] blocks limit at prev c = c.4
Chain-head size ((t, true) ∷ q) blocks limit at prev c =
    Chain-head (size + 48 + t) q blocks limit at prev c
Chain-head size ((t, false) ∷ q) blocks limit at prev c = c.4

-- Nothing is added, and the layout is not empty.
merge-length : (s : ℕ) (q : Layout) → (length (merge s q) ≤ length q + 1) × (0 < length (merge s q))
merge-length s [] = (omega arith, omega arith)
merge-length s ((t, true) ∷ q) =
    let (few, some_block) = merge-length (s + 48 + t) q in (omega (arith, few), some_block)
merge-length s ((t, false) ∷ q) = (omega arith, omega arith)

module _ (limit : ℕ) (small : limit + 48 < 2 ^ 64) (size : ℕ) (post : Layout) (fuel : ℕ)
    (enough : length post + 1 < fuel) where
  merged-Chain :
      (blocks : Blocks) (at prev link : ℕ)
      → at ≢ 0
      → at % 16 ≡ 0
      → Chain blocks limit at prev link ((size, false) ∷ post)
      → Chain (merged fuel blocks at) limit at prev at (merge size post)
        × ((a : ℕ) → a < at → merged fuel blocks at a ≡ blocks a)
  merged-Chain blocks at prev link placed aligned (e, magic, s, f, p, low, c) =
      let new : Block = record (blocks at) { free = true } in
      let here : update blocks at new at ≡ new = update_self blocks at new in
      let (chain, before) =
        coalesce-Chain post fuel (update blocks at new) limit at prev size small placed aligned
          (omega (arith, enough))
          (
            refl,
            ap (λ b. b.magic) here ∙ magic,
            ap (λ b. b.size) here ∙ s,
            ap (λ b. b.free) here,
            ap (λ b. b.prev) here ∙ p,
            low,
            rw here (
                Chain-frame post blocks (update blocks at new) limit (at + 48 + size) at
                  (blocks at).next
                  (λ a far. update_ne blocks at new a (λ same. absurd (omega (arith, same, far))))
                  c),
          ) in
      (
        chain,
        λ a near.
            before a near ∙ update_ne blocks at new a (λ same. absurd (omega (arith, same, near))),
      )

  -- The block behind one other block.
  second :
      (blocks : Blocks) (at prev link t : ℕ) (f : Bool)
      → at ≢ 0
      → at % 16 ≡ 0
      → Chain blocks limit at prev link ((t, f) ∷ ((size, false) ∷ post))
      → Chain
          (final fuel blocks (at + 48 + t))
          limit
          at
          prev
          link
          (join ((t, f) ∷ []) (merge size post))
        × ((a : ℕ) → a < at → final fuel blocks (at + 48 + t) a ≡ blocks a)
  second blocks at prev link t f placed aligned (e, magic, s, free, p, low, c) =
      by_flag f free (ap (λ b. b.free) here ∙ free)
    where
      low_next : (at + 48 + t) % 16 ≡ 0
      low_next = omega (arith, aligned, low)

      inner :
          Chain
            (merged fuel blocks (at + 48 + t))
            limit
            (at + 48 + t)
            at
            (at + 48 + t)
            (merge size post)
          × ((a : ℕ) → a < at + 48 + t → merged fuel blocks (at + 48 + t) a ≡ blocks a)
      inner =
          merged-Chain blocks (at + 48 + t) at (blocks at).next
            (λ null. absurd (omega (arith, null))) low_next c

      here : merged fuel blocks (at + 48 + t) at ≡ blocks at
      here = inner.1 at (omega arith)

      link_next : (blocks at).next ≡ at + 48 + t
      link_next = c.0

      back : (merged fuel blocks (at + 48 + t) (at + 48 + t)).prev ≡ at
      back = Chain-head size post (merged fuel blocks (at + 48 + t)) limit (at + 48 + t) at inner.0

      whole :
          (g : Bool)
          → (blocks at).free ≡ g
          → Chain (merged fuel blocks (at + 48 + t)) limit at prev at ((t, g) ∷ merge size post)
      whole g is = (
        refl,
        ap (λ b. b.magic) here ∙ magic,
        ap (λ b. b.size) here ∙ s,
        ap (λ b. b.free) here ∙ is,
        ap (λ b. b.prev) here ∙ p,
        low,
        rw (here, link_next) inner.0,
      )

      nonzero : (at != 0) ≡ true
      nonzero = ground (arith, placed)

      by_flag :
          (g : Bool)
          → (blocks at).free ≡ g
          → (merged fuel blocks (at + 48 + t) at).free ≡ g
          → Chain
              (final fuel blocks (at + 48 + t))
              limit
              at
              prev
              link
              (join ((t, g) ∷ []) (merge size post))
            × ((a : ℕ) → a < at → final fuel blocks (at + 48 + t) a ≡ blocks a)
      by_flag true is flag =
          let ends : final fuel blocks (at + 48 + t)
              ≡ coalesce_forward fuel (merged fuel blocks (at + 48 + t)) at =
            rw (back, flag, nonzero) refl in
          let (chain, before) =
            coalesce-Chain (merge size post) fuel (merged fuel blocks (at + 48 + t)) limit at prev t
              small placed aligned (omega (arith, enough, (merge-length size post).0))
              (whole true is) in
          subst
            (λ (b : Blocks).
              Chain b limit at prev link (merge t (merge size post))
              × ((a : ℕ) → a < at → b a ≡ blocks a))
            (sym ends)
            (
              subst
                  (λ k.
                    Chain (coalesce_forward fuel (merged fuel blocks (at + 48 + t)) at) limit at
                      prev k (merge t (merge size post)))
                  (sym e) chain,
              λ a near. before a near ∙ inner.1 a (omega (arith, near)),
            )
      by_flag false is flag =
          let ends : final fuel blocks (at + 48 + t) ≡ merged fuel blocks (at + 48 + t) =
            rw (back, flag, nonzero) refl in
          subst
            (λ (b : Blocks).
              Chain b limit at prev link ((t, false) ∷ merge size post)
              × ((a : ℕ) → a < at → b a ≡ blocks a))
            (sym ends)
            (
              subst
                  (λ k.
                    Chain (merged fuel blocks (at + 48 + t)) limit at prev k
                      ((t, false) ∷ merge size post))
                  (sym e) (whole false is),
              λ a near. inner.1 a (omega (arith, near)),
            )

  -- The block behind several others.
  later :
      (pre : Layout) (blocks : Blocks) (at prev link : ℕ) (x : ℕ × Bool)
      → at ≢ 0
      → at % 16 ≡ 0
      → Chain blocks limit at prev link ((x ∷ pre) ++ ((size, false) ∷ post))
      → Chain
          (final fuel blocks (at + extent (x ∷ pre)))
          limit
          at
          prev
          link
          (join (x ∷ pre) (merge size post))
        × ((a : ℕ) → a < at → final fuel blocks (at + extent (x ∷ pre)) a ≡ blocks a)
  later [] blocks at prev link (t, f) placed aligned c =
      let where_is : at + 48 + t ≡ at + (48 + t + 0) = omega arith in
      subst
        (λ k.
          Chain (final fuel blocks k) limit at prev link (join ((t, f) ∷ []) (merge size post))
          × ((a : ℕ) → a < at → final fuel blocks k a ≡ blocks a))
        where_is (second blocks at prev link t f placed aligned c)
  later (y ∷ pre) blocks at prev link (t, f) placed aligned (e, magic, s, free, p, low, c) =
      let where_is : at + 48 + t + extent (y ∷ pre) ≡ at + (48 + t + extent (y ∷ pre)) =
        omega arith in
      let (chain, before) =
        subst
          (λ k.
            Chain (final fuel blocks k) limit (at + 48 + t) at (blocks at).next
              (join (y ∷ pre) (merge size post))
            × ((a : ℕ) → a < at + 48 + t → final fuel blocks k a ≡ blocks a))
          where_is
          (later pre blocks (at + 48 + t) at (blocks at).next y
            (λ null. absurd (omega (arith, null))) (omega (arith, aligned, low)) c) in
      let here = before at (omega arith) in
      (
        (
          e,
          ap (λ b. b.magic) here ∙ magic,
          ap (λ b. b.size) here ∙ s,
          ap (λ b. b.free) here ∙ free,
          ap (λ b. b.prev) here ∙ p,
          low,
          rw here chain,
        ),
        λ a near. before a (omega arith),
      )

block_at :
    (pre : Layout) (size : ℕ) (post : Layout) (blocks : Blocks) (limit at prev link : ℕ)
    → at % 16 ≡ 0
    → Chain blocks limit at prev link (pre ++ ((size, false) ∷ post))
    → ((blocks (at + extent pre)).magic ≡ kmem_magic)
      × ((blocks (at + extent pre)).free ≡ false)
      × ((at + extent pre) % 16 ≡ 0)
      × (at + extent pre + 48 + size ≤ limit)
block_at [] size post blocks limit at prev link aligned (_, magic, s, f, p, low, c) =
    let same : at ≡ at + 0 = omega arith in
    subst
      (λ a.
        ((blocks a).magic ≡ kmem_magic)
        × ((blocks a).free ≡ false)
        × (a % 16 ≡ 0)
        × (a + 48 + size ≤ limit))
      same (magic, f, aligned, Chain-limit post blocks limit (at + 48 + size) at (blocks at).next c)
block_at ((t, g) ∷ pre) size post blocks limit at prev link aligned (_, _, _, _, _, low, c) =
    let same : at + 48 + t + extent pre ≡ at + (48 + t + extent pre) = omega arith in
    subst
      (λ a.
        ((blocks a).magic ≡ kmem_magic)
        × ((blocks a).free ≡ false)
        × (a % 16 ≡ 0)
        × (a + 48 + size ≤ limit))
      same
      (block_at pre size post blocks limit (at + 48 + t) at (blocks at).next
        (omega (arith, aligned, low)) c)

join-length :
    (pre m : Layout)
    → 0 < length m
    → (length (join pre m) ≤ length pre + length m) × (0 < length (join pre m))
join-length [] m some_block = (omega arith, some_block)
join-length ((t, true) ∷ []) m some_block =
    let (few, one) = merge-length t m in (omega (arith, few), one)
join-length ((t, false) ∷ []) m some_block = (omega arith, omega arith)
join-length (x ∷ (y ∷ pre)) m some_block =
    let (few, one) = join-length (y ∷ pre) m some_block in (omega (arith, few), omega arith)

module _ (h : Heap) (pre : Layout) (size : ℕ) (post : Layout)
    (l : HasLayout h (pre ++ ((size, false) ∷ post))) (positive : 0 < size) (fuel : ℕ)
    (enough : length post + 1 < fuel) where
  block : ℕ
  block = h.base + extent pre

  after : Heap
  after = record h { blocks = final fuel h.blocks block }

  after-Chain : Chain after.blocks h.limit h.base 0 h.base (join pre (merge size post))
  unfolding after block
  after-Chain = by_pre pre l.chain
    where
      by_pre :
          (before : Layout)
          → Chain h.blocks h.limit h.base 0 h.head (before ++ ((size, false) ∷ post))
          → Chain
              (final fuel h.blocks (h.base + extent before))
              h.limit
              h.base
              0
              h.base
              (join before (merge size post))
      by_pre [] c =
          let where_is : h.base ≡ h.base + 0 = omega arith in
          let chain =
            (merged-Chain h.limit l.bounded size post fuel enough h.blocks h.base 0 h.head l.based
              l.aligned c).0 in
          let first : (merged fuel h.blocks h.base h.base).prev ≡ 0 =
            Chain-head size post (merged fuel h.blocks h.base) h.limit h.base 0 chain in
          let ends : final fuel h.blocks h.base ≡ merged fuel h.blocks h.base = rw first refl in
          subst (λ k. Chain (final fuel h.blocks k) h.limit h.base 0 h.base (merge size post))
            where_is
            (subst (λ (b : Blocks). Chain b h.limit h.base 0 h.base (merge size post)) (sym ends)
              chain)
      by_pre (x ∷ rest) c =
          subst
            (λ k.
              Chain (final fuel h.blocks (h.base + extent (x ∷ rest))) h.limit h.base 0 k
                (join (x ∷ rest) (merge size post)))
            l.headed
            (later h.limit l.bounded size post fuel enough rest h.blocks h.base 0 h.head x l.based
              l.aligned c).0

  after-HasLayout : HasLayout after (join pre (merge size post))
  unfolding after
  after-HasLayout =
      let (few, one) = join-length pre (merge size post) (merge-length size post).1 in
      record {
        live = l.live;
        based = l.based;
        aligned = l.aligned;
        bounded = l.bounded;
        headed = l.headed;
        chain =
            subst (λ k. Chain after.blocks h.limit h.base 0 k (join pre (merge size post)))
              (sym l.headed) after-Chain;
        few = omega (
          arith,
          few,
          (merge-length size post).0,
          l.few,
          length-append pre ((size, false) ∷ post),
        );
        some_block = λ none_there. absurd (omega (arith, one, ap length none_there));
      }

  releases : release fuel h block ≡ after
  unfolding release after
  releases = refl

  -- On a heap whose blocks tile it, a block in use that is not empty is given back with success,
  -- with more fuel than blocks behind it and one more: the blocks tile the heap again, and are
  -- the old ones, where the block is free and has taken in the run of free blocks behind it, and
  -- the block before it, if that is free, has taken in the result.
  pub kmem_free_lem :
      (after : Heap) × (kmem_free_checked fuel h (h.base + extent pre + 48) ≡ (sound, after))
      × HasLayout after (join pre (merge size post))
  unfolding kmem_free_checked block
  kmem_free_lem =
      let (magic, used, aligned, fits) =
        block_at pre size post h.blocks h.limit h.base 0 h.head l.aligned l.chain in
      let header : sub64 (h.base + extent pre + 48) 48 ≡ h.base + extent pre =
        omega (arith, fits, l.bounded) in
      let low : bit_and (h.base + extent pre + 48) 15 ≡ 0 =
        and_mask 4 (h.base + extent pre + 48) ∙ omega (arith, aligned) in
      let checked : kmem_validate (release fuel h (h.base + extent pre)) ≡ sound =
        ap kmem_validate releases
        ∙ kmem_validate_lem after (join pre (merge size post)) after-HasLayout in
      let some_ptr : (h.base + extent pre + 48 == 0) ≡ false = ground arith in
      let inside : ptr_in_heap h (h.base + extent pre + 48) ≡ true =
        ground (arith, fits, positive) in
      let inside_block : ptr_in_heap h (h.base + extent pre) ≡ true =
        ground (arith, fits, positive) in
      (
        after,
        rw (header, low, magic, used, checked, releases, some_ptr, inside, inside_block) refl,
        after-HasLayout,
      )
