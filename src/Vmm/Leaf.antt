-- ===== src/Vmm/Leaf.antt =====
-- A write at the end of `vmm_map_page` or `vmm_unmap_page` of src/vmm.c, and the pages after it.
use safira_uraa.Base.{
  ℕ, zero, suc, ◌<◌, ◌≡◌, ◌≢◌, refl, sym, ap, ◌∙◌, Bool, Option, none, some, List, [], ◌∷◌, length,
  arith, bit_and, inl, inr, ℕ_discrete,
}
use safira_uraa.Vmm.{Space, Store, Found, at, entry, store_entry, pte_addr_mask, idx_pt}
use safira_uraa.Vmm.Bits.{Page, index_small, index_injective}
use safira_uraa.Vmm.Cells.{store_self, store-index, store-apart}
use safira_uraa.Vmm.Tree.{leads, Separate, Tree}
use safira_uraa.Vmm.Reach.{
  climb, leaf_place, leaf-Small, look, present_at, view, depth, Good, climb-Good, climb-same,
}

-- The index at a level of the way.
abbrev level : ℕ → Option (List ℕ) → ℕ
level n none = 0
level n (some []) = 0
level zero (some (i ∷ q)) = i
level (suc n) (some (i ∷ q)) = level n (some q)

module _ {W : Type 0} {space : Space W} {virt : ℕ → ℕ} {owned : W → ℕ → Bool} {m : Store W}
    {place : ℕ → Option (List ℕ)} (separate : Separate virt) (tree : Tree space virt owned m place)
    (v p : ℕ) (here : place p ≡ some (leaf_place v))
    (onway : climb space m.memory (leaf_place v) ≡ at (virt p)) (e : ℕ) where
  abbrev pub written : Store W
  written = record m { memory = store_entry m.memory (virt p) (idx_pt v) e }

  other_table :
      (a : ℕ) (r : List ℕ) (i : ℕ)
      → place a ≡ some r
      → i < 512
      → p ≢ a
      → entry written.memory (virt a) i ≡ entry m.memory (virt a) i
  other_table a r i h small other =
      let (_, _, _, index) = index_small v in
      store-apart m.memory (virt p) (idx_pt v) e (virt a) i
        (separate p a (tree.aligned p (leaf_place v) here) (tree.aligned a r h)
          (tree.mapped p (leaf_place v) here) (tree.mapped a r h) other)
        index small

  upper :
      (a : ℕ) (r : List ℕ) (i : ℕ)
      → place a ≡ some r
      → length r < 3
      → i < 512
      → entry written.memory (virt a) i ≡ entry m.memory (virt a) i
  upper a r i h short small =
      other_table a r i h small
        (λ same. absurd (omega (arith, short, ap depth (sym here ∙ ap place same ∙ h))))

  pub written-Tree : Tree space virt owned written place
  written-Tree = record {
    virt_is = tree.virt_is;
    root = tree.root;
    aligned = tree.aligned;
    mapped = tree.mapped;
    held = tree.held;
    child = λ a r i h short small l.
        let same = upper a r i h short small in
        ap (λ x. place (bit_and x pte_addr_mask)) same
        ∙ tree.child a r i h short small (ap leads (sym same) ∙ l);
  }

  leaf_stays :
      (w : ℕ) → climb space written.memory (leaf_place w) ≡ climb space m.memory (leaf_place w)
  leaf_stays w = climb-same tree written.memory upper (leaf_place w) (omega arith) (leaf-Small w)

  -- The page itself.
  pub view-written : view space written.memory v ≡ present_at e
  unfolding view
  view-written =
      rw (leaf_stays v, onway) (ap present_at (store_self m.memory (virt p) (idx_pt v) e))

  -- Any other page.
  pub view-others :
      (w : ℕ) → Page v → Page w → w ≢ v → view space written.memory w ≡ view space m.memory w
  unfolding view
  view-others w page_v page_w other =
      ap (λ found. look written.memory found (idx_pt w)) (leaf_stays w)
      ∙ by_table (climb space m.memory (leaf_place w))
          (climb-Good tree (leaf_place w) (omega arith) (leaf-Small w))
    where
      by_table :
          (found : Found)
          → Good virt place found (leaf_place w)
          → look written.memory found (idx_pt w) ≡ look m.memory found (idx_pt w)
      by_table found (inl none_there) = rw none_there refl
      by_table found (inr (a, is, there)) =
          let (_, _, _, index) = index_small w in
          rw is (
            ap present_at (elim (ℕ_discrete p a) [
              | no elsewhere ↦ other_table a (leaf_place w) (idx_pt w) there index elsewhere
              | yes same ↦
                  let places : some (leaf_place v) ≡ some (leaf_place w) =
                    sym here ∙ ap place same ∙ there in
                  let differs : idx_pt v ≢ idx_pt w = λ last. other (
                    sym (
                      index_injective v w page_v page_w (ap (level 2) places) (ap (level 1) places)
                        (ap (level 0) places) last)) in
                  ap (λ b. entry written.memory (virt b) (idx_pt w)) (sym same)
                  ∙ store-index m.memory (virt p) (idx_pt v) e (idx_pt w) differs
                  ∙ ap (λ b. entry m.memory (virt b) (idx_pt w)) same
            ]))
