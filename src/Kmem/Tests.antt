-- ===== src/Kmem/Tests.antt =====
-- Concrete runs of kernel/mm/kmem.c: a heap in 8192 bytes at the address 4100.
use safira_uraa.Base.{
  ◌+◌, ◌-◌, ◌*◌, ◌≡◌, ◌≢◌, true, false, some, [], ◌∷◌, length, arith, ◌⊎◌, inl, inr,
}
use safira_uraa.Kmem.{Block, Heap, sound, kmem_init, kmem_alloc}
use safira_uraa.Kmem.Chain.{Layout, HasLayout}
use safira_uraa.Kmem.Check.{Roomy, first_aligned, last_aligned, kmem_init_lem}
use safira_uraa.Kmem.Account.{
  used_sum, free_sum, free_number, largest, Stats, kmem_get_stats, kmem_get_stats_lem,
}
use safira_uraa.Kmem.Free.{kmem_free_checked}
use safira_uraa.Kmem.Coalesce.{merge}
use safira_uraa.Kmem.Release.{extent, join, kmem_free_lem}
use safira_uraa.Kmem.Alloc.{first_fit, Granted, rounded, kmem_alloc_lem}

abbrev none_yet : Block
none_yet = record { magic = 0; size = 0; free = false; prev = 0; next = 0 }

abbrev raw : Heap
raw = record {
  base = 0;
  limit = 0;
  head = 0;
  initialized = false;
  blocks = λ _. none_yet;
  bytes = λ _. 7;
}

kmem_init_lem_example :
    (Roomy 4100 8192
      × ((kmem_init raw 4100 8192).0 ≡ sound)
      × ((kmem_init raw 4100 8192).1.base ≡ first_aligned 4100)
      × ((kmem_init raw 4100 8192).1.limit ≡ last_aligned 4100 8192)
      × HasLayout
          (kmem_init raw 4100 8192).1
          ((last_aligned 4100 8192 - first_aligned 4100 - 48, true) ∷ []))
    ⊎ ((¬ Roomy 4100 8192)
        × ((kmem_init raw 4100 8192).0 ≢ sound)
        × ((kmem_init raw 4100 8192).1 ≡ raw))
kmem_init_lem_example = kmem_init_lem raw 4100 8192 (omega arith)

unfoldable heap : Heap
heap = (kmem_init raw 4100 8192).1

abbrev layout : Layout
layout = (8128, true) ∷ []

heap-HasLayout : HasLayout heap layout
unfolding heap
heap-HasLayout = elim (kmem_init_lem raw 4100 8192 (omega arith)) [
  | inl (_, _, _, _, laid) ↦ laid
  | inr (bad, _, _) ↦ absurd (bad (omega arith, omega arith))
]

kmem_alloc_lem_example :
    Granted heap (rounded 100) (first_fit (rounded 100) layout) (kmem_alloc 5 heap 100)
kmem_alloc_lem_example =
    kmem_alloc_lem heap layout heap-HasLayout 5 100 (omega arith) (omega arith) (omega arith)
      (omega arith)

kmem_get_stats_lem_example :
    (out : Stats) × (kmem_get_stats 3 heap ≡ some out)
    × (out.total_bytes ≡ heap.limit - heap.base)
    × (out.used_bytes ≡ used_sum layout)
    × (out.free_bytes ≡ free_sum layout)
    × (out.block_count ≡ length layout)
    × (out.free_count ≡ free_number layout)
    × (out.largest_free ≡ largest layout)
    × (out.used_bytes + out.free_bytes + 48 * out.block_count ≡ out.total_bytes)
kmem_get_stats_lem_example = kmem_get_stats_lem heap layout heap-HasLayout 3 (omega arith)

-- The heap after an allocation of 100 bytes.
taken : (after : Heap) × HasLayout after ((112, false) ∷ ((7968, true) ∷ []))
taken =
    let (after, _, laid, _) =
      kmem_alloc_lem heap layout heap-HasLayout 5 100 (omega arith) (omega arith) (omega arith)
        (omega arith) in
    (record heap { blocks = after }, laid)

kmem_free_lem_example :
    (after : Heap) × (kmem_free_checked 9 taken.0 (taken.0.base + extent [] + 48) ≡ (sound, after))
    × HasLayout after (join [] (merge 112 ((7968, true) ∷ [])))
kmem_free_lem_example =
    kmem_free_lem taken.0 [] 112 ((7968, true) ∷ []) taken.1 (omega arith) 9 (omega arith)
