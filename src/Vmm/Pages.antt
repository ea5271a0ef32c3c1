-- ===== src/Vmm/Pages.antt =====
-- The calls of src/vmm.c on a tree of tables, by what they do to the pages.
use safira_uraa.Base.{
  ℕ, ◌≡◌, ◌≢◌, refl, sym, ap, ◌∙◌, Bool, true, false, Option, none, some, List, ◌∷◌, arith, ◌==◌,
  ◌!=◌, bit_and, ◌⊎◌, inl, inr, ℕ_discrete,
}
use safira_uraa.Base.Words.{not64}
use safira_uraa.Vmm.{
  Space, Store, Mapping, Found, at, Status, map_ok, err_not_found, entry, pte_present,
  pte_addr_mask, idx_pt, query_page, unmap_page, read_page, clear_page, page_table,
}
use safira_uraa.Vmm.Bits.{Page}
use safira_uraa.Vmm.Tree.{Separate, Tree}
use safira_uraa.Vmm.Reach.{climb, leaf_place, leaf-Small, look, present_at, view, Good, climb-Good}
use safira_uraa.Vmm.Leaf.{written, written-Tree, view-written, view-others}

-- The answer of a query, from the entry of the page.
abbrev pub answer : ℕ → Option ℕ → Mapping → Status × Mapping
answer v none out = (err_not_found, out)
answer v (some e) out = (
  map_ok,
  record { vaddr = v; paddr = bit_and e pte_addr_mask; flags = bit_and e (not64 pte_addr_mask) },
)

module _ {W : Type 0} (space : Space W) (virt : ℕ → ℕ) (owned : W → ℕ → Bool) where
  module _ (m : Store W) (place : ℕ → Option (List ℕ)) (tree : Tree space virt owned m place)
      (v : ℕ) (page : Page v) where
    read_entry :
        (t : ℕ) (out : Mapping)
        → read_page m.memory (at t) v out ≡ answer v (present_at (entry m.memory t (idx_pt v))) out
    unfolding read_page
    read_entry t out = elim (ℕ_discrete (bit_and (entry m.memory t (idx_pt v)) pte_present) 0) [
      | yes absent ↦ rw absent refl
      | no present ↦
          let is : (bit_and (entry m.memory t (idx_pt v)) pte_present == 0) ≡ false =
            ground (arith, present) in
          let differs : (bit_and (entry m.memory t (idx_pt v)) pte_present != 0) ≡ true =
            ground (arith, present) in
          rw (is, differs) refl
    ]

    read_table :
        (found : Found) (out : Mapping)
        → Good virt place found (leaf_place v)
        → read_page m.memory found v out ≡ answer v (look m.memory found (idx_pt v)) out
    unfolding read_page
    read_table found out (inl none_there) = rw none_there refl
    read_table found out (inr (p, is, _)) = rw is (read_entry (virt p) out)

    pub query_page_lem :
        (out : Mapping) → query_page space m v out ≡ answer v (view space m.memory v) out
    unfolding query_page page_table view
    query_page_lem out =
        rw (page.0, page.1)
          (read_table (climb space m.memory (leaf_place v)) out
            (climb-Good tree (leaf_place v) (omega arith) (leaf-Small v)))

  -- What an unmapping of `v` does to the pages.
  pub record UnmapResult (m : Store W) (place : ℕ → Option (List ℕ)) (v : ℕ)
      (out : Status × Store W) : Type 0 where
    pub tree : Tree space virt owned out.1 place
    pub result :
        ((out.0 ≡ map_ok)
          × (view space m.memory v ≢ none)
          × (view space out.1.memory v ≡ none)
          × ((w : ℕ) → Page w → w ≢ v → view space out.1.memory w ≡ view space m.memory w)
          × (out.1.flushed ≡ v ∷ m.flushed))
        ⊎ ((out.0 ≡ err_not_found) × (view space m.memory v ≡ none) × (out.1 ≡ m))

  module _ (separate : Separate virt) (m : Store W) (place : ℕ → Option (List ℕ))
      (tree : Tree space virt owned m place) (v : ℕ) (page : Page v) where
    module _ (p : ℕ) (here : place p ≡ some (leaf_place v))
        (onway : climb space m.memory (leaf_place v) ≡ at (virt p)) where
      clears :
          bit_and (entry m.memory (virt p) (idx_pt v)) pte_present ≢ 0
          → UnmapResult m place v (clear_page m (at (virt p)) v)
      unfolding clear_page view
      clears present =
          let new : Store W = record (written separate tree v p here onway 0) {
            flushed = v ∷ m.flushed;
          } in
          let out : clear_page m (at (virt p)) v ≡ (map_ok, new) = ground (arith, present) in
          let mapped : view space m.memory v ≢ none = λ unmapped.
            ground (arith, present, sym (ap (λ z. look m.memory z (idx_pt v)) onway) ∙ unmapped) in
          let kept = written-Tree separate tree v p here onway 0 in
          rw out (record {
            tree = record {
              virt_is = kept.virt_is;
              root = kept.root;
              aligned = kept.aligned;
              mapped = kept.mapped;
              held = kept.held;
              child = kept.child;
            };
            result = inl (
              refl,
              mapped,
              view-written separate tree v p here onway 0,
              λ w page_w other. view-others separate tree v p here onway 0 w page page_w other,
              refl,
            );
          })

      nothing :
          bit_and (entry m.memory (virt p) (idx_pt v)) pte_present ≡ 0
          → UnmapResult m place v (clear_page m (at (virt p)) v)
      unfolding clear_page view
      nothing absent =
          let out : clear_page m (at (virt p)) v ≡ (err_not_found, m) = ground (arith, absent) in
          let unmapped : view space m.memory v ≡ none =
            ap (λ z. look m.memory z (idx_pt v)) onway ∙ ground (arith, absent) in
          rw out (record { tree = tree; result = inr (refl, unmapped, refl) })

    clear_table :
        Good virt place (climb space m.memory (leaf_place v)) (leaf_place v)
        → UnmapResult m place v (clear_page m (climb space m.memory (leaf_place v)) v)
    unfolding clear_page view
    clear_table (inl ends) = rw ends (record {
      tree = tree;
      result = inr (refl, ap (λ z. look m.memory z (idx_pt v)) ends, refl);
    })
    clear_table (inr (p, onway, here)) =
        rw onway (elim (ℕ_discrete (bit_and (entry m.memory (virt p) (idx_pt v)) pte_present) 0) [
          | yes absent ↦ nothing p here onway absent
          | no present ↦ clears p here onway present
        ])

    pub unmap_page-UnmapResult : UnmapResult m place v (unmap_page space m v)
    unfolding unmap_page page_table
    unmap_page-UnmapResult =
        rw (page.0, page.1)
          (clear_table (climb-Good tree (leaf_place v) (omega arith) (leaf-Small v)))
