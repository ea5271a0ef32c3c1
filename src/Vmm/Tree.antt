-- ===== src/Vmm/Tree.antt =====
-- The invariant of the tables of src/vmm.c: they form a tree, so no table is reached on two ways.
use safira_uraa.Base.{
  ℕ, ◌<◌, ◌≡◌, ◌≢◌, refl, Bool, true, false, ◌&&◌, Option, some, List, [], ◌∷◌, length, arith, ◌==◌,
  ◌!=◌, bit_and, ◌⊎◌, inl, inr, Bool-cases,
}
use safira_uraa.Vmm.{
  Space, Store, Memory, Found, missing, at, err_not_found, entry, pte_present, pte_huge,
  pte_addr_mask, is_aligned_4k, root_table, follow,
}
use safira_uraa.Vmm.Bits.{address_aligned}
use safira_uraa.Vmm.Cells.{Apart}

-- An entry that leads to a table.
abbrev pub leads : ℕ → Bool
leads e = bit_and e pte_present != 0 && bit_and e pte_huge == 0

-- The pages of different frames do not overlap.
abbrev pub Separate : (ℕ → ℕ) → Type 0
Separate virt =
    (p q : ℕ)
    → is_aligned_4k p ≡ true
    → is_aligned_4k q ≡ true
    → virt p ≢ 0
    → virt q ≢ 0
    → p ≢ q
    → Apart (virt p) (virt q)

-- `place` gives the frames that are tables, each with the indices on the way to it, the last one
-- first. Such a frame is mapped, and is not the allocator's to hand out.
pub record Tree {W : Type 0} (space : Space W) (virt : ℕ → ℕ) (owned : W → ℕ → Bool) (m : Store W)
    (place : ℕ → Option (List ℕ)) : Type 0 where
  pub virt_is : space.phys_to_virt ≡ some virt
  pub root : place space.root_paddr ≡ some []
  pub aligned : (p : ℕ) (q : List ℕ) → place p ≡ some q → is_aligned_4k p ≡ true
  pub mapped : (p : ℕ) (q : List ℕ) → place p ≡ some q → virt p ≢ 0
  pub held : (p : ℕ) (q : List ℕ) → place p ≡ some q → owned m.ctx p ≡ true
  pub child :
      (p : ℕ) (q : List ℕ) (i : ℕ)
      → place p ≡ some q
      → length q < 3
      → i < 512
      → leads (entry m.memory (virt p) i) ≡ true
      → place (bit_and (entry m.memory (virt p) i) pte_addr_mask) ≡ some (i ∷ q)

-- A table that stands at a place of the tree.
abbrev pub Reaches : (ℕ → ℕ) → (ℕ → Option (List ℕ)) → Found → List ℕ → Type 0
Reaches virt place found q = (p : ℕ) × (found ≡ at (virt p)) × (place p ≡ some q)

-- One level down, by what the entry is.
module _ {W : Type 0} (space : Space W) (virt : ℕ → ℕ) (virt_is : space.phys_to_virt ≡ some virt)
    (memory : Memory) (t i : ℕ) where
  pub follow-leads :
      leads (entry memory t i) ≡ true
      → virt (bit_and (entry memory t i) pte_addr_mask) ≢ 0
      → follow space memory (at t) i ≡ at (virt (bit_and (entry memory t i) pte_addr_mask))
  unfolding follow
  follow-leads l mapped =
      rw (virt_is, address_aligned (entry memory t i)) (ground (arith, l, mapped))

  pub follow-ends :
      leads (entry memory t i) ≡ false → follow space memory (at t) i ≡ missing err_not_found
  unfolding follow
  follow-ends l = ground (arith, l)

pub follow-same :
    {W : Type 0} (space : Space W) (memory after : Memory) (t i : ℕ)
    → entry after t i ≡ entry memory t i
    → follow space after (at t) i ≡ follow space memory (at t) i
unfolding follow
follow-same space memory after t i same = rw same refl

pub follow-missing :
    {W : Type 0} (space : Space W) (memory : Memory) (i : ℕ)
    → follow space memory (missing err_not_found) i ≡ missing err_not_found
unfolding follow
follow-missing space memory i = refl

module _ {W : Type 0} {space : Space W} {virt : ℕ → ℕ} {owned : W → ℕ → Bool} {m : Store W}
    {place : ℕ → Option (List ℕ)} (tree : Tree space virt owned m place) where
  pub root-Reaches : Reaches virt place (root_table space) []
  root-Reaches = (
    space.root_paddr,
    rw (tree.virt_is, tree.aligned space.root_paddr [] tree.root)
        (ground (arith, tree.mapped space.root_paddr [] tree.root)),
    tree.root,
  )

  -- One level down in the tree there is a table of the tree, or none.
  pub follow-Reaches :
      (found : Found) (q : List ℕ) (i : ℕ)
      → Reaches virt place found q
      → length q < 3
      → i < 512
      → (follow space m.memory found i ≡ missing err_not_found)
        ⊎ Reaches virt place (follow space m.memory found i) (i ∷ q)
  follow-Reaches found q i (p, is, here) short small =
      rw is (elim (Bool-cases (leads (entry m.memory (virt p) i))) [
        | inl l ↦
            let below = tree.child p q i here short small l in
            inr (
              bit_and (entry m.memory (virt p) i) pte_addr_mask,
              follow-leads space virt tree.virt_is m.memory (virt p) i l
                  (tree.mapped _ (i ∷ q) below),
              below,
            )
        | inr l ↦ inl (follow-ends space virt tree.virt_is m.memory (virt p) i l)
      ])
