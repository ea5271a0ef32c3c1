-- ===== src/Vmm/Trace.antt =====
-- Sequences of calls of src/vmm.c against the map of pages, and round trips.
use safira_uraa.Base.{
  ℕ, ◌≡◌, refl, ap, ◌∙◌, Bool, true, Option, none, some, List, [], ◌∷◌, arith, bit_and, bit_or, ◌⊎◌,
  inl, inr,
}
use safira_uraa.Base.Words.{not64}
use safira_uraa.Vmm.{
  Space, Store, Mapping, err_inval, pte_addr_mask, is_aligned_4k, page_entry, map_page, query_page,
  unmap_page, allowed,
}
use safira_uraa.Vmm.Bits.{Page, page_entry_lem}
use safira_uraa.Vmm.Tree.{Separate, Tree}
use safira_uraa.Vmm.Reach.{view}
use safira_uraa.Vmm.Frames.{Trusted}
use safira_uraa.Vmm.Map.{map_page-MapResult}
use safira_uraa.Vmm.Pages.{answer, query_page_lem, unmap_page-UnmapResult}
use safira_uraa.Vmm.Spec.{
  Pages, Op, map, unmap, query, blank, Response, said, Allows, Follows, call, calls,
}

-- The frame and the flags in an entry.
abbrev pub fields : Option ℕ → Option (ℕ × ℕ)
fields none = none
fields (some e) = some (bit_and e pte_addr_mask, bit_and e (not64 pte_addr_mask))

pub pages_of : {W : Type 0} → Space W → Store W → Pages
pages_of space m v = fields (view space m.memory v)

page_or : (v : ℕ) → Page v ⊎ (¬ Page v)
page_or v = ground arith

frame_or : (v p : ℕ) → (Page v × (is_aligned_4k p ≡ true)) ⊎ (¬ (Page v × (is_aligned_4k p ≡ true)))
frame_or v p = ground arith

fields-none : (e : Option ℕ) → fields e ≡ none → e ≡ none
fields-none none h = refl
fields-none (some e) h = absurd (ground (arith, h))

answer-said : (v : ℕ) (e : Option ℕ) → answer v e blank ≡ said v (fields e)
answer-said v none = refl
answer-said v (some e) = refl

fields-page_entry :
    (p f : ℕ)
    → fields (some (page_entry p f)) ≡ some (bit_and p pte_addr_mask, bit_or 1 (bit_and f allowed))
fields-page_entry p f = let (_, address, rest) = page_entry_lem p f in rw (address, rest) refl

module _ {W : Type 0} (space : Space W) (virt : ℕ → ℕ) (owned : W → ℕ → Bool)
    (separate : Separate virt) (trusted : Trusted space.alloc_frame virt owned) where
  -- After a call there is a tree again, and the answer is allowed.
  Served : Store W → Op → Response × Store W → Type 0
  Served m op (r, after) =
      ((place : ℕ → Option (List ℕ)) × Tree space virt owned after place)
      × Allows (pages_of space m) op r (pages_of space after)

  module _ (m : Store W) (place : ℕ → Option (List ℕ)) (tree : Tree space virt owned m place) where
    map_refused :
        (v p f : ℕ)
        → ¬ (Page v × (is_aligned_4k p ≡ true))
        → map_page space m v p f ≡ (err_inval, m)
    unfolding map_page
    map_refused v p f bad = ground (arith, bad)

    unmap_refused : (v : ℕ) → ¬ Page v → unmap_page space m v ≡ (err_inval, m)
    unfolding unmap_page
    unmap_refused v bad = ground (arith, bad)

    query_refused : (v : ℕ) (out : Mapping) → ¬ Page v → query_page space m v out ≡ (err_inval, out)
    unfolding query_page
    query_refused v out bad = ground (arith, bad)

    call-Served : (op : Op) → Served m op (call space m op)
    unfolding Served call pages_of
    call-Served (map v p f) = elim (frame_or v p) [
      | inr bad ↦ rw (map_refused v p f bad) ((place, tree), inr (bad, refl, λ w _. refl))
      | inl (page, aligned) ↦
          let done =
            map_page-MapResult space virt owned separate trusted m v p f page place tree aligned in
          (
            (done.place, done.tree),
            inl (
              (page, aligned),
              elim done.result [
                | inl (rc, free, mapped, others) ↦ inl (
                  rc,
                  ap fields free,
                  ap fields mapped ∙ fields-page_entry p f,
                  λ w page_w other. ap fields (others w page_w other),
                )
                | inr (inl (rc, free), same) ↦
                    inr (inl (rc, ap fields free), λ w _. ap fields (same w))
                | inr (inr rc, same) ↦ inr (inr rc, λ w _. ap fields (same w))
              ],
            ),
          )
    ]
    call-Served (unmap v) = elim (page_or v) [
      | inr bad ↦ rw (unmap_refused v bad) ((place, tree), inr (bad, refl, λ w _. refl))
      | inl page ↦
          let done = unmap_page-UnmapResult space virt owned separate m place tree v page in
          (
            (place, done.tree),
            inl (
              page,
              elim done.result [
                | inl (rc, mapped, free, others, _) ↦ inl (
                  rc,
                  λ none_there. mapped (fields-none _ none_there),
                  ap fields free,
                  λ w page_w other. ap fields (others w page_w other),
                )
                | inr (rc, free, same) ↦
                    inr (rc, ap fields free, λ w _. ap (λ z. fields (view space z.memory w)) same)
              ],
            ),
          )
    ]
    call-Served (query v) = elim (page_or v) [
      | inr bad ↦ ((place, tree), (inr (bad, query_refused v blank bad), λ w _. refl))
      | inl page ↦ (
        (place, tree),
        (
          inl (
            page,
            query_page_lem space virt owned m place tree v page blank
                ∙ answer-said v (view space m.memory v),
          ),
          λ w _. refl,
        ),
      )
    ]

  -- No sequence of calls tells the page tables from a map of pages to frames: from every tree of
  -- tables, with frames whose pages do not overlap and an allocator that hands out only mapped
  -- frames that nobody holds, each answer is one that the map allows. A mapping adds its page,
  -- or fails and changes no page; an unmapping removes its page; a query tells the frame and the
  -- flags.
  pub vmm_calls_refine :
      (ops : List Op) (m : Store W) (place : ℕ → Option (List ℕ))
      → Tree space virt owned m place
      → Follows (pages_of space m) ops (calls space m ops)
  unfolding calls Served
  vmm_calls_refine [] m place tree = tt
  vmm_calls_refine (op ∷ ops) m place tree =
      let ((after, kept), allowed_so) = call-Served m place tree op in
      (
        pages_of space (call space m op).1,
        allowed_so,
        vmm_calls_refine ops (call space m op).1 after kept,
      )
