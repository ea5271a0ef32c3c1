-- ===== src/Kmem/Coalesce.antt =====
-- `kmem_coalesce_forward` of kernel/mm/kmem.c on blocks that tile the heap: the free blocks behind a
-- free block are added to it.
use safira_uraa.Base.{
  ℕ, zero, suc, ◌+◌, ◌%◌, ◌^◌, ◌<◌, ◌≤◌, ◌≡◌, ◌≢◌, refl, sym, ap, ◌∙◌, true, false, not, ◌||◌, [],
  ◌∷◌, length, arith, ◌==◌, ◌!=◌, update, update_self, update_ne, ◌⊎◌, inl, inr,
}
use mathlib.Core.Path.{subst}
use safira_uraa.Base.Words.{u64}
use safira_uraa.Kmem.{Block, Blocks, align_up, link_back}
use safira_uraa.Kmem.Chain.{Layout, Chain, align_lem, Chain-limit, Chain-frame}
use safira_uraa.Kmem.Split.{relink}
use safira_uraa.Kmem.Free.{absorb, coalesce_forward}

-- A free block of this size in front of a layout, with the free blocks behind it added.
abbrev pub merge : ℕ → Layout → Layout
merge size [] = (size, true) ∷ []
merge size ((t, true) ∷ q) = merge (size + 48 + t) q
merge size ((t, false) ∷ q) = (size, true) ∷ ((t, false) ∷ q)

-- The pointer behind a block is NULL or leads to the next block.
link_far :
    (q : Layout) (blocks : Blocks) (limit at prev link : ℕ)
    → Chain blocks limit at prev link q
    → (link ≡ 0) ⊎ (link ≡ at)
link_far [] blocks limit at prev link (null, _) = inl null
link_far ((s, f) ∷ q) blocks limit at prev link (e, _, _, _, _, _, _) = inr e

module _ (blocks : Blocks) (limit : ℕ) (small : limit + 48 < 2 ^ 64) (at prev size t : ℕ)
    (q : Layout) (placed : at ≢ 0)
    (c : Chain blocks limit at prev at ((size, true) ∷ ((t, true) ∷ q))) where
  larger : Blocks
  larger =
      update blocks at
        (record (blocks at) { size = size + 48 + t; next = (blocks (at + 48 + size)).next })

  linked : Blocks
  linked = link_back larger (blocks (at + 48 + size)).next at

  gone : Blocks
  gone =
      update linked (at + 48 + size)
        (record (linked (at + 48 + size)) { magic = 0; size = 0; prev = 0; next = 0 })

  fits : at + 48 + size + 48 + t ≤ limit
  fits =
      Chain-limit q blocks limit (at + 48 + size + 48 + t) (at + 48 + size)
        (blocks (at + 48 + size)).next c.6.6

  absorb-gone : absorb blocks at (at + 48 + size) ≡ gone
  unfolding absorb gone linked larger
  absorb-gone =
      let (_, _, s, _, _, _, (_, _, s2, _, _, _, _)) = c in
      let sum : u64 ((blocks at).size + 48 + (blocks (at + 48 + size)).size) ≡ size + 48 + t =
        omega (arith, s, s2, fits) in
      rw sum refl

  linked_at : linked at ≡ larger at
  unfolding linked
  linked_at =
      elim (link_far q blocks limit (at + 48 + size + 48 + t) (at + 48 + size)
        (blocks (at + 48 + size)).next c.6.6) [
          | inl null ↦ ground (arith, null)
          | inr far ↦ ground (arith, far)
        ]

  linked_before : (a : ℕ) → a < at → linked a ≡ larger a
  unfolding linked
  linked_before a near =
      elim (link_far q blocks limit (at + 48 + size + 48 + t) (at + 48 + size)
        (blocks (at + 48 + size)).next c.6.6) [
          | inl null ↦ ground (arith, null)
          | inr far ↦ ground (arith, far, near)
        ]

  gone_other : (a : ℕ) → a ≢ at + 48 + size → gone a ≡ linked a
  unfolding gone
  gone_other a other =
      update_ne linked (at + 48 + size)
        (record (linked (at + 48 + size)) { magic = 0; size = 0; prev = 0; next = 0 }) a
        (λ same. other (sym same))

  gone_before : (a : ℕ) → a < at → gone a ≡ blocks a
  unfolding larger
  gone_before a near =
      gone_other a (λ same. absurd (omega (arith, same)))
      ∙ linked_before a near
      ∙ update_ne blocks at
          (record (blocks at) { size = size + 48 + t; next = (blocks (at + 48 + size)).next }) a
          (λ same. absurd (omega (arith, same)))

  gone_at :
      gone at ≡ record (blocks at) { size = size + 48 + t; next = (blocks (at + 48 + size)).next }
  unfolding larger
  gone_at =
      gone_other at (λ same. absurd (omega (arith, same)))
      ∙ linked_at
      ∙ update_self blocks at
          (record (blocks at) { size = size + 48 + t; next = (blocks (at + 48 + size)).next })

  gone-Chain : Chain gone limit at prev at ((size + 48 + t, true) ∷ q)
  unfolding linked larger
  gone-Chain =
      let (_, magic, s, f, p, low, (_, _, _, _, _, low2, tail)) = c in
      let link : ℕ = (blocks (at + 48 + size)).next in
      let where_next : at + 48 + (size + 48 + t) ≡ at + 48 + size + 48 + t = omega arith in
      let new : Block = record (blocks at) { size = size + 48 + t; next = link } in
      let moved =
        relink q (update blocks at new) limit (at + 48 + size + 48 + t) (at + 48 + size) link at
          (λ null. absurd (omega (arith, null)))
          (Chain-frame q blocks (update blocks at new) limit (at + 48 + size + 48 + t)
            (at + 48 + size) link
            (λ a far. update_ne blocks at new a (λ same. absurd (omega (arith, same, far))))
            tail) in
      (
        refl,
        ap (λ b. b.magic) gone_at ∙ magic,
        ap (λ b. b.size) gone_at,
        ap (λ b. b.free) gone_at ∙ f,
        ap (λ b. b.prev) gone_at ∙ p,
        omega (arith, low, low2),
        rw (ap (λ b. b.next) gone_at, where_next)
            (Chain-frame q linked gone limit (at + 48 + size + 48 + t) at link
              (λ a far. gone_other a (λ same. absurd (omega (arith, same, far)))) moved),
      )

  -- One round of the loop.
  step_on :
      at % 16 ≡ 0
      → (fuel : ℕ) → coalesce_forward (suc fuel) blocks at ≡ coalesce_forward fuel gone at
  unfolding coalesce_forward
  step_on aligned fuel =
      let (_, _, s, _, _, low, (link, _, _, free, _, _, _)) = c in
      let inside : u64 (at + 48 + (blocks at).size) ≡ at + 48 + size = omega (arith, s, fits) in
      let expected : align_up (u64 (at + 48 + (blocks at).size)) 16 ≡ at + 48 + size =
        ap (λ n. align_up n 16) inside
        ∙ align_lem (at + 48 + size) (omega (arith, aligned, low)) (omega (arith, fits)) in
      let goes : (at == 0 || at + 48 + size == 0 || not true) ≡ false = ground (arith, placed) in
      let meets : (at + 48 + size != at + 48 + size) ≡ false = ground arith in
      rw (expected, link, free, absorb-gone, goes, meets) refl

pub coalesce-Chain :
    (q : Layout) (fuel : ℕ) (blocks : Blocks) (limit at prev size : ℕ)
    → limit + 48 < 2 ^ 64
    → at ≢ 0
    → at % 16 ≡ 0
    → length q < fuel
    → Chain blocks limit at prev at ((size, true) ∷ q)
    → Chain (coalesce_forward fuel blocks at) limit at prev at (merge size q)
      × ((a : ℕ) → a < at → coalesce_forward fuel blocks at a ≡ blocks a)
unfolding coalesce_forward
coalesce-Chain [] zero blocks limit at prev size small placed aligned enough c =
    absurd (omega (arith, enough))
coalesce-Chain [] (suc fuel) blocks limit at prev size small placed aligned enough c =
    let last : (blocks at).next ≡ 0 = c.6.0 in
    let stays : coalesce_forward (suc fuel) blocks at ≡ blocks = ground (arith, last) in
    rw stays (c, λ a near. refl)
coalesce-Chain ((t, f) ∷ q) zero blocks limit at prev size small placed aligned enough c =
    absurd (omega (arith, enough))
coalesce-Chain ((t, false) ∷ q) (suc fuel) blocks limit at prev size small placed aligned enough c =
    let used : (blocks (blocks at).next).free ≡ false = ap (λ n. (blocks n).free) c.6.0 ∙ c.6.3 in
    let stays : coalesce_forward (suc fuel) blocks at ≡ blocks = ground (arith, used) in
    subst
      (λ (b : Blocks).
        Chain b limit at prev at ((size, true) ∷ ((t, false) ∷ q))
        × ((a : ℕ) → a < at → b a ≡ blocks a))
      (sym stays) (c, λ a near. refl)
coalesce-Chain ((t, true) ∷ q) (suc fuel) blocks limit at prev size small placed aligned enough c =
    let (chain, before) =
      coalesce-Chain q fuel (gone blocks limit small at prev size t q placed c) limit at prev
        (size + 48 + t) small placed aligned (omega (arith, enough))
        (gone-Chain blocks limit small at prev size t q placed c) in
    rw (step_on blocks limit small at prev size t q placed c aligned fuel) (
      chain,
      λ a near. before a near ∙ gone_before blocks limit small at prev size t q placed c a near,
    )
