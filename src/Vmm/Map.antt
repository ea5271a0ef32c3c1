-- ===== src/Vmm/Map.antt =====
-- `vmm_map_page` of src/vmm.c on a tree of tables.
use safira_uraa.Base.{
  ℕ, ◌<◌, ◌≡◌, ◌≢◌, refl, sym, ap, ◌∙◌, Bool, true, Option, none, some, List, [], ◌∷◌, length,
  arith, bit_and, ◌⊎◌, inl, inr, ℕ_discrete,
}
use safira_uraa.Vmm.{
  Space, Store, Found, missing, at, Status, map_ok, err_nomem, err_exists, err_not_found, entry,
  pte_present, is_aligned_4k, root_table, idx_pml4, idx_pdpt, idx_pd, idx_pt,
  get_or_alloc_next_table, descend, follow, install, page_entry, map_page,
}
use safira_uraa.Vmm.Bits.{Page, index_small, page_entry_lem}
use safira_uraa.Vmm.Tree.{Separate, Tree, root-Reaches, follow-missing}
use safira_uraa.Vmm.Reach.{climb, Small, leaf_place, look, present_at, view}
use safira_uraa.Vmm.Frames.{Trusted, Denied, Down}
use safira_uraa.Vmm.Grow.{get_or_alloc-Down}
use safira_uraa.Vmm.Leaf.{written, written-Tree, view-written, view-others}

module _ {W : Type 0} (space : Space W) (virt : ℕ → ℕ) (owned : W → ℕ → Bool)
    (separate : Separate virt) (trusted : Trusted space.alloc_frame virt owned) where
  start-Down :
      (m : Store W) (place : ℕ → Option (List ℕ))
      → Tree space virt owned m place
      → Down space virt owned m (root_table space, m) []
  start-Down m place tree = record {
    place = place;
    tree = tree;
    views = λ v. refl;
    flushed = refl;
    result = inr (root-Reaches tree, refl);
  }

  -- Two stretches of the way.
  join :
      (m between : Store W) (out : Found × Store W) (q : List ℕ)
      → ((v : ℕ) → view space between.memory v ≡ view space m.memory v)
      → between.flushed ≡ m.flushed
      → Down space virt owned between out q
      → Down space virt owned m out q
  join m between out q views flushed d = record {
    place = d.place;
    tree = d.tree;
    views = λ v. d.views v ∙ views v;
    flushed = d.flushed ∙ flushed;
    result = d.result;
  }

  descend-Down :
      (m : Store W) (out : Found × Store W) (q : List ℕ) (i : ℕ)
      → Down space virt owned m out q
      → length q < 3
      → Small q
      → i < 512
      → Down space virt owned m (descend space out i) (i ∷ q)
  unfolding descend
  descend-Down m (found, between) q i d short low small = elim d.result [
    | inl (inl none_there, ends) ↦ rw none_there (stops err_nomem (inl refl) ends)
    | inl (inr none_there, ends) ↦ rw none_there (stops err_exists (inr refl) ends)
    | inr ((p, is, here), onway) ↦ rw is (
        join m between (get_or_alloc_next_table space between (virt p) i) (i ∷ q) d.views d.flushed
          (get_or_alloc-Down space virt owned separate between d.place d.tree p q i here short small
            low (onway ∙ is) trusted))
  ]
    where
      stops :
          (rc : Status)
          → Denied (missing rc)
          → climb space between.memory q ≡ missing err_not_found
          → Down space virt owned m (missing rc, between) (i ∷ q)
      stops rc denied ends = record {
        place = d.place;
        tree = d.tree;
        views = d.views;
        flushed = d.flushed;
        result = inl (
          denied,
          ap (λ found. follow space between.memory found i) ends
              ∙ follow-missing space between.memory i,
        );
      }

  -- What a mapping of `v` does to the pages: it is new, or nothing changes.
  pub record MapResult (m : Store W) (v paddr flags : ℕ) (out : Status × Store W) : Type 0 where
    pub place : ℕ → Option (List ℕ)
    pub tree : Tree space virt owned out.1 place
    pub flushed : out.1.flushed ≡ m.flushed
    pub result :
        ((out.0 ≡ map_ok)
          × (view space m.memory v ≡ none)
          × (view space out.1.memory v ≡ some (page_entry paddr flags))
          × ((w : ℕ) → Page w → w ≢ v → view space out.1.memory w ≡ view space m.memory w))
        ⊎ ((((out.0 ≡ err_nomem) × (view space m.memory v ≡ none)) ⊎ (out.0 ≡ err_exists))
            × ((w : ℕ) → view space out.1.memory w ≡ view space m.memory w))

  module _ (m : Store W) (v paddr flags : ℕ) (page : Page v) where
    module _ (found : Found) (after : Store W)
        (d : Down space virt owned m (found, after) (leaf_place v)) where
      -- The way ends before the page table.
      refused :
          (rc : Status)
          → ((rc ≡ err_nomem) ⊎ (rc ≡ err_exists))
          → climb space after.memory (leaf_place v) ≡ missing err_not_found
          → MapResult m v paddr flags (rc, after)
      unfolding view
      refused rc why ends =
          let unmapped : view space m.memory v ≡ none =
            sym (d.views v) ∙ ap (λ z. look after.memory z (idx_pt v)) ends in
          record {
            place = d.place;
            tree = d.tree;
            flushed = d.flushed;
            result = inr (elim why [ inl e ↦ inl (e, unmapped) | inr e ↦ inr e ], λ w. d.views w);
          }

      module _ (p : ℕ) (is : found ≡ at (virt p)) (here : d.place p ≡ some (leaf_place v))
          (onway : climb space after.memory (leaf_place v) ≡ found) where
        occupied :
            bit_and (entry after.memory (virt p) (idx_pt v)) pte_present ≢ 0
            → MapResult m v paddr flags (install (at (virt p), after) (idx_pt v) paddr flags)
        unfolding install
        occupied present =
            let out : install (at (virt p), after) (idx_pt v) paddr flags ≡ (err_exists, after) =
              ground (arith, present) in
            rw out (record {
              place = d.place;
              tree = d.tree;
              flushed = d.flushed;
              result = inr (inr refl, λ w. d.views w);
            })

        installs :
            bit_and (entry after.memory (virt p) (idx_pt v)) pte_present ≡ 0
            → MapResult m v paddr flags (install (at (virt p), after) (idx_pt v) paddr flags)
        unfolding install view
        installs absent =
            let new : Store W =
              written separate d.tree v p here (onway ∙ is) (page_entry paddr flags) in
            let out : install (at (virt p), after) (idx_pt v) paddr flags ≡ (map_ok, new) =
              ground (arith, absent) in
            let unmapped : view space m.memory v ≡ none =
              sym (d.views v)
              ∙ ap (λ z. look after.memory z (idx_pt v)) (onway ∙ is)
              ∙ ground (arith, absent) in
            let (present, _, _) = page_entry_lem paddr flags in
            let mapped : present_at (page_entry paddr flags) ≡ some (page_entry paddr flags) =
              ground (arith, present) in
            rw out (record {
              place = d.place;
              tree = written-Tree separate d.tree v p here (onway ∙ is) (page_entry paddr flags);
              flushed = d.flushed;
              result = inl (
                refl,
                unmapped,
                view-written separate d.tree v p here (onway ∙ is) (page_entry paddr flags)
                    ∙ mapped,
                λ w page_w other.
                    view-others separate d.tree v p here (onway ∙ is) (page_entry paddr flags) w
                      page page_w other
                    ∙ d.views w,
              );
            })

      install-MapResult : MapResult m v paddr flags (install (found, after) (idx_pt v) paddr flags)
      unfolding install
      install-MapResult = elim d.result [
        | inl (inl none_there, ends) ↦ rw none_there (refused err_nomem (inl refl) ends)
        | inl (inr none_there, ends) ↦ rw none_there (refused err_exists (inr refl) ends)
        | inr ((p, is, here), onway) ↦
            rw is
              (elim (ℕ_discrete (bit_and (entry after.memory (virt p) (idx_pt v)) pte_present) 0) [
                | yes absent ↦ installs p is here onway absent
                | no present ↦ occupied p is here onway present
              ])
      ]

    pub map_page-MapResult :
        (place : ℕ → Option (List ℕ))
        → Tree space virt owned m place
        → is_aligned_4k paddr ≡ true
        → MapResult m v paddr flags (map_page space m v paddr flags)
    unfolding map_page
    map_page-MapResult place tree aligned =
        let (a, b, c, _) = index_small v in
        let one =
          descend-Down m (root_table space, m) [] (idx_pml4 v) (start-Down m place tree)
            (omega arith) tt a in
        let two = descend-Down m _ (idx_pml4 v ∷ []) (idx_pdpt v) one (omega arith) (a, tt) b in
        let three =
          descend-Down m _ (idx_pdpt v ∷ (idx_pml4 v ∷ [])) (idx_pd v) two (omega arith)
            (b, (a, tt)) c in
        rw (page.0, page.1, aligned) (install-MapResult _ _ three)
