-- ===== src/Vmm.antt =====
-- src/vmm.c and include/vmm.h: page tables of four levels. A pointer is an address, 0 for NULL; the
-- tables are read and written through the addresses that the space's `phys_to_virt` gives. Its
-- callbacks are functions: they act on a context of any type `W` and leave the tables alone.
pub mod Bits
pub mod Cells
pub mod Tree
pub mod Reach
pub mod Frames
pub mod Grow
pub mod Leaf
pub mod Map
pub mod Pages
pub mod Spec
pub mod Trace
pub mod Round
pub mod Init
pub mod Truncate
mod Tests
use safira_uraa.Base.{
  ℕ, zero, suc, ◌+◌, ◌-◌, ◌*◌, ◌/◌, ◌^◌, Bool, true, false, not, ◌&&◌, ◌||◌, Option, none, some,
  List, [], ◌∷◌, ◌==◌, ◌!=◌, if◌then◌else◌, bit_and, bit_or, update,
}
use safira_uraa.Base.Words.{not64}

abbrev pub page_size : ℕ
page_size = 4096

abbrev pub entries_per_table : ℕ
entries_per_table = 512

abbrev pub invalid_phys : ℕ
invalid_phys = 0xffffffffffffffff

abbrev pub pte_present : ℕ
pte_present = 1

abbrev pub pte_writable : ℕ
pte_writable = 2

abbrev pub pte_user : ℕ
pte_user = 4

abbrev pub pte_write_through : ℕ
pte_write_through = 8

abbrev pub pte_cache_disable : ℕ
pte_cache_disable = 16

abbrev pub pte_huge : ℕ
pte_huge = 128

abbrev pub pte_global : ℕ
pte_global = 256

abbrev pub pte_no_execute : ℕ
pte_no_execute = 0x8000000000000000

abbrev pub pte_addr_mask : ℕ
pte_addr_mask = 0x000ffffffffff000

-- `VMM_MAP_OK` and the errors
pub data Status : Type 0 where
  map_ok err_inval err_nomem err_exists err_not_found : Status

-- `struct vmm_space`; a callback that is NULL is none. Each is given the context of the space.
pub record Space (W : Type 0) : Type 0 where
  pub root_paddr : ℕ
  pub alloc_frame : Option (W → ℕ × W)
  pub free_frame : Option (W → ℕ → W)
  pub phys_to_virt : Option (ℕ → ℕ)

-- `struct vmm_mapping`
pub record Mapping : Type 0 where
  pub vaddr : ℕ
  pub paddr : ℕ
  pub flags : ℕ

abbrev pub Memory : Type 0
Memory = ℕ → ℕ

-- Memory by the address of a word, the context of the callbacks, and the pages that were
-- invalidated, the last one first.
pub record Store (W : Type 0) : Type 0 where
  pub memory : Memory
  pub ctx : W
  pub flushed : List ℕ

-- A table, or why there is none.
pub data Found : Type 0 where
  missing : Status → Found
  at : ℕ → Found

abbrev pub entry : Memory → ℕ → ℕ → ℕ
entry memory table index = memory (table + 8 * index)

abbrev pub store_entry : Memory → ℕ → ℕ → ℕ → Memory
store_entry memory table index e = update memory (table + 8 * index) e

-- `n` entries from the entry `i` on are zeroed.
pub zero_from : Memory → ℕ → ℕ → ℕ → Memory
zero_from memory page i zero = memory
zero_from memory page i (suc n) = zero_from (store_entry memory page i 0) page (i + 1) n

pub zero_page : Memory → ℕ → Memory
zero_page memory page = zero_from memory page 0 entries_per_table

abbrev pub is_aligned_4k : ℕ → Bool
is_aligned_4k value = bit_and value (page_size - 1) == 0

pub is_canonical : ℕ → Bool
is_canonical vaddr =
    let sign : ℕ = bit_and (vaddr / 2 ^ 47) 1 in
    let upper : ℕ = vaddr / 2 ^ 48 in if sign != 0 then upper == 0xffff else upper == 0

abbrev pub idx_pml4 : ℕ → ℕ
idx_pml4 vaddr = bit_and (vaddr / 2 ^ 39) 0x1ff

abbrev pub idx_pdpt : ℕ → ℕ
idx_pdpt vaddr = bit_and (vaddr / 2 ^ 30) 0x1ff

abbrev pub idx_pd : ℕ → ℕ
idx_pd vaddr = bit_and (vaddr / 2 ^ 21) 0x1ff

abbrev pub idx_pt : ℕ → ℕ
idx_pt vaddr = bit_and (vaddr / 2 ^ 12) 0x1ff

abbrev virt_or_null : Option (ℕ → ℕ) → ℕ → ℕ
virt_or_null none paddr = 0
virt_or_null (some phys_to_virt) paddr = if is_aligned_4k paddr then phys_to_virt paddr else 0

-- The entry that leads to the table at `paddr`.
abbrev pub table_entry : ℕ → ℕ
table_entry paddr = bit_or (bit_or (bit_and paddr pte_addr_mask) pte_present) pte_writable

abbrev pub allowed : ℕ
allowed =
    bit_or
      (bit_or (bit_or (bit_or (bit_or pte_writable pte_user) pte_write_through) pte_cache_disable)
        pte_global)
      pte_no_execute

abbrev pub page_entry : (paddr flags : ℕ) → ℕ
page_entry paddr flags =
    bit_or (bit_or (bit_and paddr pte_addr_mask) pte_present) (bit_and flags allowed)

-- The end of `vmm_query_page`, at the page table.
pub read_page : Memory → Found → ℕ → Mapping → Status × Mapping
read_page memory (missing rc) vaddr out = (rc, out)
read_page memory (at table) vaddr out =
    let e : ℕ = entry memory table (idx_pt vaddr) in
    if bit_and e pte_present == 0 then (err_not_found, out) else (
      map_ok,
      record {
        vaddr = vaddr;
        paddr = bit_and e pte_addr_mask;
        flags = bit_and e (not64 pte_addr_mask);
      },
    )

module _ {W : Type 0} where
  abbrev pub table_from_phys : Space W → ℕ → ℕ
  table_from_phys space paddr = virt_or_null space.phys_to_virt paddr

  give_back : Option (W → ℕ → W) → Store W → ℕ → Store W
  give_back none m paddr = m
  give_back (some free_frame) m paddr = record m { ctx = free_frame m.ctx paddr }

  -- A new table behind an entry that is not present.
  pub alloc_table : Space W → Option (W → ℕ × W) → Store W → ℕ → ℕ → Found × Store W
  alloc_table space none m table index = (missing err_nomem, m)
  alloc_table space (some alloc_frame) m table index =
      let (new_paddr, ctx) = alloc_frame m.ctx in
      let taken : Store W = record m { ctx = ctx } in
      let new_table : ℕ = table_from_phys space new_paddr in
      if new_paddr == invalid_phys || not (is_aligned_4k new_paddr)
      then (missing err_nomem, taken)
      else if new_table == 0
      then (missing err_inval, give_back space.free_frame taken new_paddr)
      else (
        at new_table,
        record taken {
          memory = store_entry (zero_page m.memory new_table) table index (table_entry new_paddr);
        },
      )

  pub get_or_alloc_next_table : Space W → Store W → ℕ → ℕ → Found × Store W
  get_or_alloc_next_table space m table index =
      let e : ℕ = entry m.memory table index in
      let next : ℕ = table_from_phys space (bit_and e pte_addr_mask) in
      if bit_and e pte_present != 0
      then (
        if bit_and e pte_huge != 0
            then missing err_exists
            else if next == 0
            then missing err_inval
            else at next,
        m,
      )
      else alloc_table space space.alloc_frame m table index

  -- The first argument is what `space` held before.
  pub space_init :
      Space W → ℕ → Option (W → ℕ × W) → Option (W → ℕ → W) → Option (ℕ → ℕ) → Status × Space W
  space_init space root_paddr alloc_frame free_frame none = (err_inval, space)
  space_init space root_paddr alloc_frame free_frame (some phys_to_virt) =
      if not (is_aligned_4k root_paddr) then (err_inval, space) else (
        map_ok,
        record {
          root_paddr = root_paddr;
          alloc_frame = alloc_frame;
          free_frame = free_frame;
          phys_to_virt = some phys_to_virt;
        },
      )

  abbrev pub root_table : Space W → Found
  root_table space =
      let pml4 : ℕ = table_from_phys space space.root_paddr in
      if pml4 == 0 then missing err_inval else at pml4

  -- One level down, with a new table where there is none.
  pub descend : Space W → Found × Store W → ℕ → Found × Store W
  descend space (missing rc, m) index = (missing rc, m)
  descend space (at table, m) index = get_or_alloc_next_table space m table index

  -- The end of `vmm_map_page`, at the page table.
  pub install : Found × Store W → (index paddr flags : ℕ) → Status × Store W
  install (missing rc, m) index paddr flags = (rc, m)
  install (at table, m) index paddr flags =
      if bit_and (entry m.memory table index) pte_present != 0
      then (err_exists, m)
      else (map_ok, record m { memory = store_entry m.memory table index (page_entry paddr flags) })

  pub map_page : Space W → Store W → (vaddr paddr flags : ℕ) → Status × Store W
  map_page space m vaddr paddr flags =
      if not (is_canonical vaddr) || not (is_aligned_4k vaddr) || not (is_aligned_4k paddr)
      then (err_inval, m)
      else (let pdpt = descend space (root_table space, m) (idx_pml4 vaddr) in
          let pd = descend space pdpt (idx_pdpt vaddr) in
          let pt = descend space pd (idx_pd vaddr) in install pt (idx_pt vaddr) paddr flags)

  -- One level down, where there is a table.
  pub follow : Space W → Memory → Found → ℕ → Found
  follow space memory (missing rc) index = missing rc
  follow space memory (at table) index =
      let e : ℕ = entry memory table index in
      let next : ℕ = table_from_phys space (bit_and e pte_addr_mask) in
      if bit_and e pte_present == 0 || bit_and e pte_huge != 0
      then missing err_not_found
      else if next == 0
      then missing err_inval
      else at next

  pub page_table : Space W → Memory → ℕ → Found
  page_table space memory vaddr =
      let pdpt = follow space memory (root_table space) (idx_pml4 vaddr) in
      let pd = follow space memory pdpt (idx_pdpt vaddr) in follow space memory pd (idx_pd vaddr)

  -- The last argument is what `*out` held before.
  pub query_page : Space W → Store W → ℕ → Mapping → Status × Mapping
  query_page space m vaddr out =
      if not (is_canonical vaddr) || not (is_aligned_4k vaddr)
      then (err_inval, out)
      else read_page m.memory (page_table space m.memory vaddr) vaddr out

  -- The end of `vmm_unmap_page`, at the page table.
  pub clear_page : Store W → Found → ℕ → Status × Store W
  clear_page m (missing rc) vaddr = (rc, m)
  clear_page m (at table) vaddr =
      if bit_and (entry m.memory table (idx_pt vaddr)) pte_present == 0
      then (err_not_found, m)
      else (
        map_ok,
        record m {
          memory = store_entry m.memory table (idx_pt vaddr) 0;
          flushed = vaddr ∷ m.flushed;
        },
      )

  pub unmap_page : Space W → Store W → ℕ → Status × Store W
  unmap_page space m vaddr =
      if not (is_canonical vaddr) || not (is_aligned_4k vaddr)
      then (err_inval, m)
      else clear_page m (page_table space m.memory vaddr) vaddr
