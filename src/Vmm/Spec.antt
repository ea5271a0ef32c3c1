-- ===== src/Vmm/Spec.antt =====
-- What the calls of src/vmm.c promise: a map from pages to frames with flags.
use safira_uraa.Base.{ℕ, ◌≡◌, ◌≢◌, true, Option, none, some, List, [], ◌∷◌, bit_and, bit_or, ◌⊎◌}
use safira_uraa.Vmm.{
  Space, Store, Mapping, Status, map_ok, err_inval, err_nomem, err_exists, err_not_found,
  is_aligned_4k, pte_addr_mask, allowed, map_page, query_page, unmap_page,
}
use safira_uraa.Vmm.Bits.{Page}

abbrev pub Pages : Type 0
Pages = ℕ → Option (ℕ × ℕ)

pub data Op : Type 0 where
  map : (vaddr paddr flags : ℕ) → Op
  unmap : ℕ → Op
  query : ℕ → Op

-- What `*out` holds before a query.
abbrev pub blank : Mapping
blank = record { vaddr = 0; paddr = 0; flags = 0 }

-- The status, and what `*out` holds.
abbrev pub Response : Type 0
Response = Status × Mapping

abbrev pub Others : ℕ → Pages → Pages → Type 0
Others v pages after = (w : ℕ) → Page w → w ≢ v → after w ≡ pages w

abbrev pub Same : Pages → Pages → Type 0
Same pages after = (w : ℕ) → Page w → after w ≡ pages w

abbrev pub said : ℕ → Option (ℕ × ℕ) → Response
said v none = (err_not_found, blank)
said v (some (p, f)) = (map_ok, record { vaddr = v; paddr = p; flags = f })

-- A new page is mapped, or the call fails and no page changes; without memory only for a new page.
abbrev pub Maps : Pages → (v p f : ℕ) → Status → Pages → Type 0
Maps pages v p f rc after =
    ((rc ≡ map_ok)
      × (pages v ≡ none)
      × (after v ≡ some (bit_and p pte_addr_mask, bit_or 1 (bit_and f allowed)))
      × Others v pages after)
    ⊎ ((((rc ≡ err_nomem) × (pages v ≡ none)) ⊎ (rc ≡ err_exists)) × Same pages after)

abbrev pub Unmaps : Pages → ℕ → Status → Pages → Type 0
Unmaps pages v rc after =
    ((rc ≡ map_ok) × (pages v ≢ none) × (after v ≡ none) × Others v pages after)
    ⊎ ((rc ≡ err_not_found) × (pages v ≡ none) × Same pages after)

-- Whether a call may answer so, and leave these pages.
abbrev pub Allows : Pages → Op → Response → Pages → Type 0
Allows pages (map v p f) (rc, _) after =
    ((Page v × (is_aligned_4k p ≡ true)) × Maps pages v p f rc after)
    ⊎ ((¬ (Page v × (is_aligned_4k p ≡ true))) × (rc ≡ err_inval) × Same pages after)
Allows pages (unmap v) (rc, _) after =
    (Page v × Unmaps pages v rc after) ⊎ ((¬ Page v) × (rc ≡ err_inval) × Same pages after)
Allows pages (query v) response after =
    ((Page v × (response ≡ said v (pages v))) ⊎ ((¬ Page v) × (response ≡ (err_inval, blank))))
    × Same pages after

-- Whether a sequence of calls may have these answers.
abbrev pub Follows : Pages → List Op → List Response → Type 0
Follows pages [] [] = Unit
Follows pages [] (r ∷ rs) = ⊥
Follows pages (op ∷ ops) [] = ⊥
Follows pages (op ∷ ops) (r ∷ rs) = (after : Pages) × Allows pages op r after × Follows after ops rs

module _ {W : Type 0} (space : Space W) where
  unfoldable pub call : Store W → Op → Response × Store W
  call m (map v p f) = let (rc, after) = map_page space m v p f in ((rc, blank), after)
  call m (unmap v) = let (rc, after) = unmap_page space m v in ((rc, blank), after)
  call m (query v) = (query_page space m v blank, m)

  unfoldable pub calls : Store W → List Op → List Response
  calls m [] = []
  calls m (op ∷ ops) = let (r, after) = call m op in r ∷ calls after ops
