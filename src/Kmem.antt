-- ===== src/Kmem.antt =====
-- kernel/mm/kmem.c and include/mcsos/kmem.h: the kernel heap, a list of blocks that lie one behind
-- the other. A pointer is an address, 0 for NULL. The headers of blocks are a store by address, and
-- so are the bytes that callers see.
pub mod Chain
pub mod Check
pub mod Split
pub mod Alloc
pub mod Free
pub mod Coalesce
pub mod Release
pub mod Account
mod Tests
use safira_uraa.Base.{
  ℕ, zero, suc, ◌+◌, ◌-◌, ◌*◌, ◌/◌, ◌%◌, ◌^◌, Bool, true, false, not, ◌&&◌, ◌||◌, Option, none,
  some, ltb, leb, ◌==◌, ◌!=◌, if◌then◌else◌, bit_and, update,
}
use safira_uraa.Base.Words.{u64, sub64, not64}

abbrev pub kmem_align : ℕ
kmem_align = 16

abbrev pub kmem_magic : ℕ
kmem_magic = 0x4d43534f53484541

abbrev pub min_split : ℕ
min_split = 32

-- `sizeof(kmem_block_t)`
abbrev pub header_size : ℕ
header_size = 48

-- The most blocks that a validation visits.
abbrev pub max_blocks : ℕ
max_blocks = 1048576

-- `kmem_block_t` without its padding
pub record Block : Type 0 where
  pub magic : ℕ
  pub size : ℕ
  pub free : Bool
  pub prev : ℕ
  pub next : ℕ

abbrev pub Blocks : Type 0
Blocks = ℕ → Block

-- The variables of the file, the headers, and the bytes of memory.
pub record Heap : Type 0 where
  pub base : ℕ
  pub limit : ℕ
  pub head : ℕ
  pub initialized : Bool
  pub blocks : Blocks
  pub bytes : ℕ → ℕ

-- A result of 0, or of `-n`.
pub data Verdict : Type 0 where
  sound : Verdict
  fault : ℕ → Verdict

pub kmem_memset : (ℕ → ℕ) → (dst val n : ℕ) → ℕ → ℕ
kmem_memset bytes dst val zero = bytes
kmem_memset bytes dst val (suc n) = kmem_memset (update bytes dst (val % 256)) (dst + 1) val n

abbrev pub align_up : (v align : ℕ) → ℕ
align_up v align = bit_and (u64 (v + (align - 1))) (not64 (align - 1))

abbrev pub payload : ℕ → ℕ
payload b = b + header_size

abbrev pub header_from_payload : ℕ → ℕ
header_from_payload ptr = sub64 ptr header_size

abbrev pub ptr_in_heap : Heap → ℕ → Bool
ptr_in_heap h ptr = leb h.base ptr && ltb ptr h.limit

-- The block behind `block` is told that `back` stands before it.
abbrev pub link_back : Blocks → ℕ → ℕ → Blocks
link_back blocks block back =
    if block == 0 then blocks else update blocks block (record (blocks block) { prev = back })

-- The new block behind the part that is kept.
pub split : Blocks → (block wanted new_addr consumed : ℕ) → Blocks
split blocks block wanted new_addr consumed =
    let b : Block = blocks block in
    let new_block : Block = record {
      magic = kmem_magic;
      size = b.size - consumed - header_size;
      free = true;
      prev = block;
      next = b.next;
    } in
    let linked : Blocks = link_back (update blocks new_addr new_block) b.next new_addr in
    update linked block (record (linked block) { next = new_addr; size = wanted })

pub split_if_useful : Heap → (block wanted : ℕ) → Heap
split_if_useful h block wanted =
    let new_addr : ℕ = align_up (u64 (payload block + wanted)) kmem_align in
    let consumed : ℕ = sub64 new_addr (payload block) in
    if leb h.limit (u64 (new_addr + header_size))
    then h
    else if leb (h.blocks block).size (u64 (consumed + header_size + min_split))
    then h
    else record h { blocks = split h.blocks block wanted new_addr consumed }

-- The loop of `kmem_validate` from `cur` on, with `rounds` rounds left.
pub check_from : Heap → (rounds cur prev cursor : ℕ) → Verdict
check_from h zero cur prev cursor = if cur == 0 then sound else fault 3
check_from h (suc rounds) cur prev cursor =
    let b : Block = h.blocks cur in
    let behind : ℕ = align_up (u64 (payload cur + b.size)) kmem_align in
    let rest = check_from h rounds b.next cur behind in
    if cur == 0
    then sound
    else if cur != cursor
    then fault 4
    else if ltb cur h.base || ltb h.limit (cur + header_size)
    then fault 5
    else if b.magic != kmem_magic
    then fault 6
    else if b.prev != prev
    then fault 7
    else if ltb (sub64 h.limit (payload cur)) b.size
    then fault 8
    else if behind == 0 || ltb h.limit behind
    then fault 9
    else rest

pub kmem_validate : Heap → Verdict
kmem_validate h =
    if not h.initialized || h.base == 0 || leb h.limit h.base || h.head == 0
    then fault 1
    else if h.head != h.base
    then fault 2
    else check_from h max_blocks h.head 0 h.base

abbrev pub init_heap : Heap → (start usable : ℕ) → Heap
init_heap h start usable = record h {
  base = start;
  limit = start + usable;
  head = start;
  initialized = true;
  blocks =
      update h.blocks start (record {
        magic = kmem_magic;
        size = usable - header_size;
        free = true;
        prev = 0;
        next = 0;
      });
}

pub kmem_init : Heap → (base bytes : ℕ) → Verdict × Heap
kmem_init h base bytes =
    let start : ℕ = align_up base kmem_align in
    let lost : ℕ = start - base in
    let usable : ℕ = bit_and (sub64 bytes lost) (not64 (kmem_align - 1)) in
    if base == 0 || ltb bytes (header_size + min_split)
    then (fault 1, h)
    else if start == 0 || ltb start base
    then (fault 2, h)
    else if leb bytes (lost + header_size + min_split)
    then (fault 3, h)
    else if leb usable (header_size + min_split)
    then (fault 4, h)
    else (kmem_validate (init_heap h start usable), init_heap h start usable)

-- A block is handed out.
pub hand_out : Heap → (cur wanted : ℕ) → ℕ × Heap
hand_out h cur wanted =
    let cut : Heap = split_if_useful h cur wanted in
    (
      payload cur,
      record cut { blocks = update cut.blocks cur (record (cut.blocks cur) { free = false }) },
    )

-- The loop of `kmem_alloc` from `cur` on, with fuel; none where the fuel runs out.
pub alloc_from : ℕ → Heap → (cur wanted : ℕ) → Option (ℕ × Heap)
alloc_from zero h cur wanted = none
alloc_from (suc fuel) h cur wanted =
    let b : Block = h.blocks cur in
    let rest = alloc_from fuel h b.next wanted in
    if cur == 0
    then some (0, h)
    else if b.magic != kmem_magic
    then some (0, h)
    else if b.free && leb wanted b.size
    then some (hand_out h cur wanted)
    else rest

pub kmem_alloc : ℕ → Heap → ℕ → Option (ℕ × Heap)
kmem_alloc fuel h bytes =
    let wanted : ℕ = align_up bytes kmem_align in
    if not h.initialized || bytes == 0 || wanted == 0
    then some (0, h)
    else alloc_from fuel h h.head wanted

abbrev clear : ℕ → ℕ × Heap → ℕ × Heap
clear total (ptr, h) =
    if ptr == 0 then (0, h) else (ptr, record h { bytes = kmem_memset h.bytes ptr 0 total })

pub kmem_calloc : ℕ → Heap → (count bytes : ℕ) → Option (ℕ × Heap)
kmem_calloc fuel h count bytes =
    let total : ℕ = u64 (count * bytes) in
    if count != 0 && ltb ((2 ^ 64 - 1) / count) bytes
    then some (0, h)
    else elim (kmem_alloc fuel h total) [ none ↦ none | some out ↦ some (clear total out) ]
