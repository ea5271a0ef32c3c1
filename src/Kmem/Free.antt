-- ===== src/Kmem/Free.antt =====
-- `kmem_free_checked` of kernel/mm/kmem.c, with the coalescing of free blocks.
use safira_uraa.Base.{
  ℕ, zero, suc, ◌+◌, ◌-◌, true, not, ◌&&◌, ◌||◌, ◌==◌, ◌!=◌, if◌then◌else◌, bit_and, update,
}
use safira_uraa.Base.Words.{u64}
use safira_uraa.Kmem.{
  kmem_align, kmem_magic, header_size, Block, Blocks, Heap, Verdict, sound, fault, align_up,
  payload, header_from_payload, ptr_in_heap, link_back, kmem_validate,
}

-- The block behind `block` is added to it.
unfoldable pub absorb : Blocks → (block next : ℕ) → Blocks
absorb blocks block next =
    let n : Block = blocks next in
    let larger : Blocks = update blocks block (record (blocks block) {
      size = u64 ((blocks block).size + header_size + n.size);
      next = n.next;
    }) in
    update (link_back larger n.next block) next
      (record (link_back larger n.next block next) { magic = 0; size = 0; prev = 0; next = 0 })

-- `kmem_coalesce_forward`, with fuel.
unfoldable pub coalesce_forward : ℕ → Blocks → ℕ → Blocks
coalesce_forward zero blocks block = blocks
coalesce_forward (suc fuel) blocks block =
    let next : ℕ = (blocks block).next in
    let expected : ℕ = align_up (u64 (payload block + (blocks block).size)) kmem_align in
    let rest = coalesce_forward fuel (absorb blocks block next) block in
    if block == 0 || next == 0 || not (blocks next).free
    then blocks
    else if expected != next
    then blocks
    else rest

-- The end of `kmem_free_checked`, at a block in use.
unfoldable pub release : ℕ → Heap → ℕ → Heap
release fuel h block =
    let freed : Blocks = update h.blocks block (record (h.blocks block) { free = true }) in
    let joined : Blocks = coalesce_forward fuel freed block in
    let before : ℕ = (joined block).prev in
    record h {
      blocks =
          if before != 0 && (joined before).free
          then coalesce_forward fuel joined before
          else joined;
    }

unfoldable pub kmem_free_checked : ℕ → Heap → ℕ → Verdict × Heap
kmem_free_checked fuel h ptr =
    let block : ℕ = header_from_payload ptr in
    if ptr == 0
    then (sound, h)
    else if not (ptr_in_heap h ptr)
    then (fault 1, h)
    else if bit_and ptr (kmem_align - 1) != 0
    then (fault 2, h)
    else if not (ptr_in_heap h block) || (h.blocks block).magic != kmem_magic
    then (fault 3, h)
    else if (h.blocks block).free
    then (fault 4, h)
    else (kmem_validate (release fuel h block), release fuel h block)
