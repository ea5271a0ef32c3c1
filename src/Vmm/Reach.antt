-- ===== src/Vmm/Reach.antt =====
-- The way from the root to a page table of src/vmm.c, and which changes of the tables it does not see.
use safira_uraa.Base.{
  ℕ, ◌<◌, ◌≤◌, ◌≡◌, ◌≢◌, refl, sym, ap, ◌∙◌, Bool, true, false, Option, none, some, List, [], ◌∷◌,
  length, arith, ◌!=◌, if◌then◌else◌, bit_and, ◌⊎◌, inl, inr, ℕ_discrete,
}
use safira_uraa.Vmm.{
  Space, Store, Memory, Found, missing, at, err_not_found, entry, pte_present, pte_addr_mask,
  root_table, follow, idx_pml4, idx_pdpt, idx_pd, idx_pt,
}
use safira_uraa.Vmm.Bits.{index_small}
use safira_uraa.Vmm.Tree.{
  leads, Tree, Reaches, root-Reaches, follow-Reaches, follow-leads, follow-ends, follow-same,
  follow-missing,
}

-- The table that the indices lead to from the root, the last index first.
abbrev pub climb : {W : Type 0} → Space W → Memory → List ℕ → Found
climb space memory [] = root_table space
climb space memory (i ∷ q) = follow space memory (climb space memory q) i

abbrev pub Small : List ℕ → Type 0
Small [] = Unit
Small (i ∷ is) = (i < 512) × Small is

-- The place of the page table of an address.
abbrev pub leaf_place : ℕ → List ℕ
leaf_place v = idx_pd v ∷ (idx_pdpt v ∷ (idx_pml4 v ∷ []))

pub leaf-Small : (v : ℕ) → Small (leaf_place v)
leaf-Small v = let (a, b, c, _) = index_small v in (c, (b, (a, tt)))

-- The entry of a page, where it is present.
abbrev pub present_at : ℕ → Option ℕ
present_at e = if bit_and e pte_present != 0 then some e else none

abbrev pub look : Memory → Found → ℕ → Option ℕ
look memory (missing rc) i = none
look memory (at t) i = present_at (entry memory t i)

unfoldable pub view : {W : Type 0} → Space W → Memory → ℕ → Option ℕ
view space memory v = look memory (climb space memory (leaf_place v)) (idx_pt v)

abbrev pub depth : Option (List ℕ) → ℕ
depth none = 0
depth (some q) = length q

-- No table, or one at its place in the tree.
abbrev pub Good : (ℕ → ℕ) → (ℕ → Option (List ℕ)) → Found → List ℕ → Type 0
Good virt place found q = (found ≡ missing err_not_found) ⊎ Reaches virt place found q

module _ {W : Type 0} {space : Space W} {virt : ℕ → ℕ} {owned : W → ℕ → Bool} {m : Store W}
    {place : ℕ → Option (List ℕ)} (tree : Tree space virt owned m place) where
  follow-Good :
      (found : Found) (q : List ℕ) (i : ℕ)
      → Good virt place found q
      → length q < 3
      → i < 512
      → Good virt place (follow space m.memory found i) (i ∷ q)
  follow-Good found q i (inl none_there) short small =
      inl (ap (λ a. follow space m.memory a i) none_there ∙ follow-missing space m.memory i)
  follow-Good found q i (inr there) short small = follow-Reaches tree found q i there short small

  pub climb-Good :
      (q : List ℕ) → length q ≤ 3 → Small q → Good virt place (climb space m.memory q) q
  climb-Good [] short small = inr (root-Reaches tree)
  climb-Good (i ∷ q) short (a, small) =
      follow-Good (climb space m.memory q) q i (climb-Good q (omega arith) small) (omega arith) a

  -- A change below the upper tables is not on the way.
  module _ (after : Memory)
      (same : (p : ℕ) (q : List ℕ) (i : ℕ)
        → place p ≡ some q
        → length q < 3
        → i < 512
        → entry after (virt p) i ≡ entry m.memory (virt p) i) where
    follow-kept :
        (found : Found) (q : List ℕ) (i : ℕ)
        → Good virt place found q
        → length q < 3
        → i < 512
        → follow space after found i ≡ follow space m.memory found i
    follow-kept found q i (inl none_there) short small =
        rw none_there (follow-missing space after i ∙ sym (follow-missing space m.memory i))
    follow-kept found q i (inr (p, is, here)) short small =
        rw is (follow-same space m.memory after (virt p) i (same p q i here short small))

    pub climb-same :
        (q : List ℕ) → length q ≤ 3 → Small q → climb space after q ≡ climb space m.memory q
    climb-same [] short small = refl
    climb-same (i ∷ q) short (a, small) =
        ap (λ found. follow space after found i) (climb-same q (omega arith) small)
        ∙ follow-kept (climb space m.memory q) q i (climb-Good q (omega arith) small) (omega arith)
            a

  -- A new table of zeros, `frame`, behind the entry `i` of the table at `p`, which led nowhere.
  pub record Grown (after : Memory) (p i frame : ℕ) : Type 0 where
    pub upper : List ℕ
    pub above : place p ≡ some upper
    pub short : length upper < 3
    pub ended : leads (entry m.memory (virt p) i) ≡ false
    pub opens : leads (entry after (virt p) i) ≡ true
    pub target : bit_and (entry after (virt p) i) pte_addr_mask ≡ frame
    pub mapped : virt frame ≢ 0
    pub blank : (j : ℕ) → j < 512 → entry after (virt frame) j ≡ 0
    pub kept :
        (a : ℕ) (q : List ℕ) (j : ℕ)
        → place a ≡ some q
        → j < 512
        → (a ≢ p) ⊎ (j ≢ i)
        → entry after (virt a) j ≡ entry m.memory (virt a) j

  module _ (after : Memory) (p i frame : ℕ) (grown : Grown after p i frame) where
    After : Found → Found → Type 0
    After a b = (a ≡ b) ⊎ ((a ≡ missing err_not_found) × (b ≡ at (virt frame)))

    follow-After :
        (a b : Found) (q : List ℕ) (j : ℕ)
        → Good virt place a q
        → After a b
        → j < 512
        → After (follow space m.memory a j) (follow space after b j)
    unfolding After
    follow-After a b q j (inl none_there) (inl e) small = inl (
        rw (← e, none_there) (follow-missing space m.memory j ∙ sym (follow-missing space after j)))
    follow-After a b q j (inr (s, is, here)) (inl e) small = elim (ℕ_discrete s p) [
      | no other ↦ inl (
          rw (← e, is)
            (sym (
              follow-same space m.memory after (virt s) j
                (grown.kept s q j here small (inl other)))))
      | yes same ↦ elim (ℕ_discrete j i) [
        | no other ↦ inl (
            rw (← e, is)
              (sym (
                follow-same space m.memory after (virt s) j
                  (grown.kept s q j here small (inr other)))))
        | yes there ↦ inr (
          rw (is, same, there)
              (follow-ends space virt tree.virt_is m.memory (virt p) i grown.ended),
          rw (← e, is, same, there)
              (follow-leads space virt tree.virt_is after (virt p) i grown.opens
                  (rw grown.target grown.mapped)
                ∙ ap (λ f. at (virt f)) grown.target),
        )
      ]
    ]
    follow-After a b q j good (inr (none_there, new_table)) small =
        let zero_entry : leads (entry after (virt frame) j) ≡ false =
          rw (grown.blank j small) refl in
        inl (
          rw (none_there, new_table)
            (follow-missing space m.memory j
              ∙ sym (follow-ends space virt tree.virt_is after (virt frame) j zero_entry)))

    climb-After :
        (q : List ℕ) → length q ≤ 3 → Small q → After (climb space m.memory q) (climb space after q)
    unfolding After
    climb-After [] short small = inl refl
    climb-After (j ∷ q) short (s, small) =
        follow-After (climb space m.memory q) (climb space after q) q j
          (climb-Good q (omega arith) small) (climb-After q (omega arith) small) s

    -- A way to a table stays.
    pub climb-Grown :
        (q : List ℕ) (t : ℕ)
        → length q ≤ 3
        → Small q
        → climb space m.memory q ≡ at t
        → climb space after q ≡ at t
    unfolding After
    climb-Grown q t short small there = elim (climb-After q short small) [
      | inl same ↦ sym same ∙ there
      | inr (ends, _) ↦ absurd (ground (arith, sym ends ∙ there))
    ]

    look-After :
        (a b : Found) (q : List ℕ) (j : ℕ)
        → Good virt place a q
        → After a b
        → length q ≡ 3
        → j < 512
        → look after b j ≡ look m.memory a j
    unfolding After
    look-After a b q j (inl none_there) (inl e) deep small = rw (← e, none_there) refl
    look-After a b q j (inr (s, is, here)) (inl e) deep small =
        let other : s ≢ p = λ same.
          absurd
            (omega (arith, deep, grown.short, ap depth (sym here ∙ ap place same ∙ grown.above))) in
        rw (← e, is) (ap present_at (grown.kept s q j here small (inl other)))
    look-After a b q j good (inr (none_there, new_table)) deep small =
        rw (none_there, new_table) (rw (grown.blank j small) refl)

    -- A new table maps no page and unmaps none.
    pub view-Grown : (v : ℕ) → view space after v ≡ view space m.memory v
    unfolding view After
    view-Grown v =
        let (_, _, _, small) = index_small v in
        look-After (climb space m.memory (leaf_place v)) (climb space after (leaf_place v))
          (leaf_place v) (idx_pt v) (climb-Good (leaf_place v) (omega arith) (leaf-Small v))
          (climb-After (leaf_place v) (omega arith) (leaf-Small v)) refl small
