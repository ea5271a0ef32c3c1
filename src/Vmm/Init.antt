-- ===== src/Vmm/Init.antt =====
-- `vmm_space_init` of src/vmm.c: a root table of zeros is a tree without pages.
use safira_uraa.Base.{
  ℕ, ◌<◌, ◌≡◌, ◌≢◌, refl, sym, ap, ◌∙◌, Bool, true, Option, none, some, List, [], arith, ℕ_discrete,
  update, update_self, update_ne,
}
use safira_uraa.Vmm.{Space, Store, map_ok, entry, is_aligned_4k, space_init}
use safira_uraa.Vmm.Tree.{leads, Tree}

module _ {W : Type 0} (space : Space W) (root : ℕ) (alloc : Option (W → ℕ × W))
    (free : Option (W → ℕ → W)) (virt : ℕ → ℕ) (owned : W → ℕ → Bool) (m : Store W) where
  -- The root, and no other table.
  pub root_place : ℕ → Option (List ℕ)
  root_place = update (λ _. none) root (some [])

  started : Space W
  started = record {
    root_paddr = root;
    alloc_frame = alloc;
    free_frame = free;
    phys_to_virt = some virt;
  }

  only_root : (p : ℕ) (q : List ℕ) → root_place p ≡ some q → root ≡ p
  unfolding root_place
  only_root p q h = elim (ℕ_discrete root p) [
    | yes same ↦ same
    | no other ↦ absurd (ground (arith, sym (update_ne (λ _. none) root (some []) p other) ∙ h))
  ]

  module _ (aligned : is_aligned_4k root ≡ true) (mapped : virt root ≢ 0)
      (held : owned m.ctx root ≡ true)
      (blank : (i : ℕ) → i < 512 → entry m.memory (virt root) i ≡ 0) where
    started-Tree : Tree started virt owned m root_place
    unfolding started root_place
    started-Tree = record {
      virt_is = refl;
      root = update_self (λ _. none) root (some []);
      aligned = λ p q h. ap is_aligned_4k (sym (only_root p q h)) ∙ aligned;
      mapped = λ p q h null. mapped (ap virt (only_root p q h) ∙ null);
      held = λ p q h. ap (owned m.ctx) (sym (only_root p q h)) ∙ held;
      child = λ p q i h _ small l. absurd (
          ground (
            arith,
            l,
            ap (λ b. leads (entry m.memory (virt b) i)) (sym (only_root p q h)),
            ap leads (blank i small),
          ));
    }

    -- The space is set up, and its tables are a tree.
    pub space_init-Tree :
        ((space_init space root alloc free (some virt)).0 ≡ map_ok)
        × Tree (space_init space root alloc free (some virt)).1 virt owned m root_place
    unfolding space_init started
    space_init-Tree = rw aligned (refl, started-Tree)
