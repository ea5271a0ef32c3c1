-- ===== src/Vmm/Tests.antt =====
-- Concrete calls of src/vmm.c: an allocator that hands out one frame after the other, up to a
-- limit, and frames that are seen at a fixed offset.
use safira_uraa.Base.{
  ℕ, ◌+◌, ◌^◌, ◌≡◌, ◌≢◌, ◌%◌, refl, sym, ◌∙◌, dec_lt, Bool, none, some, List, [], ◌∷◌, arith, ltb,
  if◌then◌else◌, bit_and, bit_or, inl, inr,
}
use safira_uraa.Base.Words.{and_page}
use safira_uraa.Vmm.{
  Space, Store, Mapping, map_ok, invalid_phys, is_canonical, allowed, zero_from, zero_page,
  alloc_table, get_or_alloc_next_table, descend, install, map_page, query_page, unmap_page,
  space_init,
}
use safira_uraa.Vmm.Bits.{Page}
use safira_uraa.Vmm.Tree.{Separate, Tree}
use safira_uraa.Vmm.Frames.{Frames, Trusted}
use safira_uraa.Vmm.Spec.{Op, map, unmap, query, Follows, calls}
use safira_uraa.Vmm.Trace.{pages_of, vmm_calls_refine}
use safira_uraa.Vmm.Round.{query_page-map_page, unmap_page-map_page}
use safira_uraa.Vmm.Truncate.{map_page-truncates}
use safira_uraa.Vmm.Init.{root_place, space_init-Tree}

abbrev bump : ℕ → ℕ × ℕ
bump next = if ltb next (2 ^ 40) then (next, next + 4096) else (invalid_phys, next)

abbrev offset : ℕ → ℕ
offset p = p + 2 ^ 44

abbrev below : ℕ → ℕ → Bool
below next p = ltb p next

offset-Separate : Separate offset
offset-Separate p q a b _ _ ne =
    let low_p : p % 4096 ≡ 0 = sym (and_page p) ∙ ground (arith, a) in
    let low_q : q % 4096 ≡ 0 = sym (and_page q) ∙ ground (arith, b) in
    elim (dec_lt p q) [ yes less ↦ inl (omega arith) | no other ↦ inr (omega (arith, other, ne)) ]

bump-Frames : Frames bump offset below
bump-Frames = record {
  fresh = λ c good. ground (arith, good);
  fits = λ c good. ground (arith, good);
  mapped = λ c good. ground (arith, good);
  taken = λ c good. ground (arith, good);
  stays = λ c p held. ground (arith, held);
}

abbrev unset : Space ℕ
unset = record { root_paddr = 0; alloc_frame = none; free_frame = none; phys_to_virt = none }

unfoldable space : Space ℕ
space = (space_init unset 4096 (some bump) none (some offset)).1

abbrev start : Store ℕ
start = record { memory = λ _. 0; ctx = 8192; flushed = [] }

start-Tree :
    Tree space offset below start (root_place unset 4096 (some bump) none offset below start)
unfolding space
start-Tree =
    (space_init-Tree unset 4096 (some bump) none offset below start (ground arith) (ground arith)
      (ground arith) (λ i _. refl)).1

trusted : Trusted space.alloc_frame offset below
unfolding space space_init
trusted = bump-Frames

abbrev client : List Op
client =
    map 0xffff800000200000 0x300000 2
    ∷ (query 0xffff800000200000
        ∷ (map 0xffff800000200000 0x400000 0
            ∷ (unmap 0xffff800000200000 ∷ (query 0x800000000000 ∷ []))))

vmm_calls_refine_example : Follows (pages_of space start) client (calls space start client)
vmm_calls_refine_example =
    vmm_calls_refine space offset below offset-Separate trusted client start
      (root_place unset 4096 (some bump) none offset below start) start-Tree

high_page : Page 0xffff800000200000
unfolding is_canonical
high_page = (refl, refl)

mapped : (map_page space start 0xffff800000200000 0x300000 2).0 ≡ map_ok
unfolding map_page space space_init descend get_or_alloc_next_table alloc_table zero_page zero_from
    install is_canonical
mapped = refl

query_page-map_page_example :
    ((out : Mapping)
      → query_page space
          (map_page space start 0xffff800000200000 0x300000 2).1
          0xffff800000200000
          out
        ≡ (
          map_ok,
          record {
            vaddr = 0xffff800000200000;
            paddr = 0x300000;
            flags = bit_or 1 (bit_and 2 allowed);
          },
        ))
    × ((w : ℕ) (out : Mapping)
        → Page w
        → w ≢ 0xffff800000200000
        → query_page space (map_page space start 0xffff800000200000 0x300000 2).1 w out
          ≡ query_page space start w out)
query_page-map_page_example =
    query_page-map_page space offset below offset-Separate trusted start
      (root_place unset 4096 (some bump) none offset below start) start-Tree 0xffff800000200000
      0x300000 2 high_page (ground arith) mapped (omega arith)

unmap_page-map_page_example :
    let after =
      unmap_page space (map_page space start 0xffff800000200000 0x300000 2).1 0xffff800000200000 in
    (after.0 ≡ map_ok)
    × ((w : ℕ) (out : Mapping)
        → Page w
        → query_page space after.1 w out ≡ query_page space start w out)
    × (after.1.flushed ≡ 0xffff800000200000 ∷ [])
unmap_page-map_page_example =
    unmap_page-map_page space offset below offset-Separate trusted start
      (root_place unset 4096 (some bump) none offset below start) start-Tree 0xffff800000200000
      0x300000 2 high_page (ground arith) mapped

map_page-truncates_example :
    map_page space start 0x200000 (0x10000000300000 % 2 ^ 52) 2
    ≡ map_page space start 0x200000 0x10000000300000 2
map_page-truncates_example = map_page-truncates space start 0x200000 0x10000000300000 2
