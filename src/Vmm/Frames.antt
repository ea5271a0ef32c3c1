-- ===== src/Vmm/Frames.antt =====
-- What `get_or_alloc_next_table` of src/vmm.c relies on in the allocator, and what it leaves behind.
use safira_uraa.Base.{
  ℕ, ◌^◌, ◌<◌, ◌≡◌, ◌≢◌, Bool, true, false, not, ◌||◌, Option, none, some, List, ◌==◌, ◌⊎◌,
}
use safira_uraa.Vmm.{
  Space, Store, Found, missing, err_nomem, err_exists, err_not_found, invalid_phys, is_aligned_4k,
}
use safira_uraa.Vmm.Tree.{Tree, Reaches}
use safira_uraa.Vmm.Reach.{climb, view}

-- A frame that the code accepts from the allocator.
abbrev pub usable : ℕ → Bool
usable p = not (p == invalid_phys || not (is_aligned_4k p))

-- What the code relies on in the allocator: a frame that it hands out was nobody's, is mapped and
-- has an address that fits an entry; it is not handed out again, and neither is one that was taken.
pub record Frames {W : Type 0} (alloc : W → ℕ × W) (virt : ℕ → ℕ) (owned : W → ℕ → Bool)
    : Type 0 where
  pub fresh : (c : W) → usable (alloc c).0 ≡ true → owned c (alloc c).0 ≡ false
  pub fits : (c : W) → usable (alloc c).0 ≡ true → (alloc c).0 < 2 ^ 52
  pub mapped : (c : W) → usable (alloc c).0 ≡ true → virt (alloc c).0 ≢ 0
  pub taken : (c : W) → usable (alloc c).0 ≡ true → owned (alloc c).1 (alloc c).0 ≡ true
  pub stays : (c : W) (p : ℕ) → owned c p ≡ true → owned (alloc c).1 p ≡ true

abbrev pub Trusted : {W : Type 0} → Option (W → ℕ × W) → (ℕ → ℕ) → (W → ℕ → Bool) → Type 0
Trusted none virt owned = Unit
Trusted (some alloc) virt owned = Frames alloc virt owned

-- Why there is no table.
abbrev pub Denied : Found → Type 0
Denied found = (found ≡ missing err_nomem) ⊎ (found ≡ missing err_exists)

module _ {W : Type 0} (space : Space W) (virt : ℕ → ℕ) (owned : W → ℕ → Bool) where
  -- After some steps down: a tree with the same pages, and the table at the end of the way, or a way
  -- that ends where it is denied.
  pub record Down (m : Store W) (out : Found × Store W) (q : List ℕ) : Type 0 where
    pub place : ℕ → Option (List ℕ)
    pub tree : Tree space virt owned out.1 place
    pub views : (v : ℕ) → view space out.1.memory v ≡ view space m.memory v
    pub flushed : out.1.flushed ≡ m.flushed
    pub result :
        (Denied out.0 × (climb space out.1.memory q ≡ missing err_not_found))
        ⊎ (Reaches virt place out.0 q × (climb space out.1.memory q ≡ out.0))
