-- ===== src/Vmm/Round.antt =====
-- Round trips of src/vmm.c: a mapping and a query, a mapping and an unmapping.
use safira_uraa.Base.{
  ℕ, ◌^◌, ◌<◌, ◌≡◌, ◌≢◌, refl, sym, ap, ◌∙◌, Bool, true, Option, none, some, List, ◌∷◌, arith,
  bit_and, bit_or, inl, inr, ℕ_discrete,
}
use safira_uraa.Vmm.{
  Space, Store, Mapping, map_ok, is_aligned_4k, page_entry, map_page, query_page, unmap_page,
  allowed,
}
use safira_uraa.Vmm.Bits.{Page, page_entry_lem, address_frame}
use safira_uraa.Vmm.Tree.{Separate, Tree}
use safira_uraa.Vmm.Reach.{view}
use safira_uraa.Vmm.Frames.{Trusted}
use safira_uraa.Vmm.Map.{MapResult, map_page-MapResult}
use safira_uraa.Vmm.Pages.{answer, query_page_lem, UnmapResult, unmap_page-UnmapResult}

module _ {W : Type 0} (space : Space W) (virt : ℕ → ℕ) (owned : W → ℕ → Bool)
    (separate : Separate virt) (trusted : Trusted space.alloc_frame virt owned) where
  module _ (m : Store W) (place : ℕ → Option (List ℕ)) (tree : Tree space virt owned m place)
      (v p f : ℕ) (page : Page v) (aligned : is_aligned_4k p ≡ true)
      (done : (map_page space m v p f).0 ≡ map_ok) where
    result : MapResult space virt owned separate trusted m v p f (map_page space m v p f)
    result = map_page-MapResult space virt owned separate trusted m v p f page place tree aligned

    -- What a mapping that succeeds does to the pages.
    succeeds :
        (view space m.memory v ≡ none)
        × (view space (map_page space m v p f).1.memory v ≡ some (page_entry p f))
        × ((w : ℕ)
            → Page w
            → w ≢ v
            → view space (map_page space m v p f).1.memory w ≡ view space m.memory w)
    succeeds = elim result.result [
      | inl (_, free, mapped, others) ↦ (free, mapped, others)
      | inr (inl (rc, _), _) ↦ absurd (ground (arith, sym done ∙ rc))
      | inr (inr rc, _) ↦ absurd (ground (arith, sym done ∙ rc))
    ]

    same_answer :
        (w : ℕ) (out : Mapping)
        → Page w
        → w ≢ v
        → query_page space (map_page space m v p f).1 w out ≡ query_page space m w out
    same_answer w out page_w other =
        query_page_lem space virt owned (map_page space m v p f).1 result.place result.tree w page_w
          out
        ∙ ap (λ z. answer w z out) (succeeds.2 w page_w other)
        ∙ sym (query_page_lem space virt owned m place tree w page_w out)

    -- From a tree of tables, with frames whose pages do not overlap and an allocator that hands
    -- out only mapped frames that nobody holds: after a page is mapped to a frame below 2^52
    -- with success, a query of it gives the frame, and the flags that are allowed with the
    -- present bit; a query of any other page answers as before.
    pub query_page-map_page :
        p < 2 ^ 52
        → ((out : Mapping)
            → query_page space (map_page space m v p f).1 v out
              ≡ (map_ok, record { vaddr = v; paddr = p; flags = bit_or 1 (bit_and f allowed) }))
          × ((w : ℕ) (out : Mapping)
              → Page w
              → w ≢ v
              → query_page space (map_page space m v p f).1 w out ≡ query_page space m w out)
    query_page-map_page small =
        let (_, address, rest) = page_entry_lem p f in
        (
          λ out.
              query_page_lem space virt owned (map_page space m v p f).1 result.place result.tree v
                page out
              ∙ ap (λ z. answer v z out) succeeds.1
              ∙ rw (address, rest, address_frame p small aligned) refl,
          same_answer,
        )

    unmapped :
        UnmapResult space virt owned
          (map_page space m v p f).1
          result.place
          v
          (unmap_page space (map_page space m v p f).1 v)
    unmapped =
        unmap_page-UnmapResult space virt owned separate (map_page space m v p f).1 result.place
          result.tree v page

    -- A page that was just mapped is there to unmap.
    undone :
        let after = unmap_page space (map_page space m v p f).1 v in
        (after.0 ≡ map_ok)
        × ((w : ℕ) → Page w → view space after.1.memory w ≡ view space m.memory w)
        × (after.1.flushed ≡ v ∷ m.flushed)
    undone = elim unmapped.result [
      | inl (rc, _, free, others, flushed) ↦ (
        rc,
        λ w page_w. elim (ℕ_discrete w v) [
          | yes same ↦ rw same (free ∙ sym succeeds.0)
          | no other ↦ others w page_w other ∙ succeeds.2 w page_w other
        ],
        flushed ∙ ap (λ ws. v ∷ ws) result.flushed,
      )
      | inr (_, free, _) ↦ absurd (ground (arith, sym succeeds.1 ∙ free))
    ]

    -- From a tree of tables, with frames whose pages do not overlap and an allocator that hands
    -- out only mapped frames that nobody holds: a page that was mapped with success can be
    -- unmapped: every query of a page then answers as before the mapping, and the page is the
    -- one that was invalidated.
    pub unmap_page-map_page :
        let after = unmap_page space (map_page space m v p f).1 v in
        (after.0 ≡ map_ok)
        × ((w : ℕ) (out : Mapping)
            → Page w
            → query_page space after.1 w out ≡ query_page space m w out)
        × (after.1.flushed ≡ v ∷ m.flushed)
    unmap_page-map_page =
        let (rc, same, flushed) = undone in
        (
          rc,
          λ w out page_w.
              query_page_lem space virt owned (unmap_page space (map_page space m v p f).1 v).1
                result.place unmapped.tree w page_w out
              ∙ ap (λ z. answer w z out) (same w page_w)
              ∙ sym (query_page_lem space virt owned m place tree w page_w out),
          flushed,
        )
