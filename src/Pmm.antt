-- ===== src/Pmm.antt =====
-- src/pmm.c and include/pmm.h: the physical frame allocator over a bitmap, one bit for each
-- 4 KiB frame, set when the frame is used. Reads out of the bitmap give 0 here.
pub mod Bitmap
pub mod Inv
pub mod Range
pub mod Init
pub mod Spec
pub mod Alloc
pub mod Trace
pub mod Wrap
mod Tests
use Bitmap.{bitmap_set, bitmap_clear, bitmap_test}
use safira_uraa.Base.{
  ℕ, zero, suc, ◌+◌, ◌-◌, ◌*◌, ◌/◌, ◌%◌, ◌^◌, Bool, true, false, not, ◌&&◌, ◌||◌,
}
use safira_uraa.Base.{Option, none, some, List, [], ◌∷◌, bit_and}
use safira_uraa.Base.{ltb, leb, ◌==◌, ◌!=◌, if◌then◌else◌, length}
use safira_uraa.Base.Words.{u64, not64}

abbrev pub page_size : ℕ
page_size = 4096

abbrev pub invalid_frame : ℕ
invalid_frame = 0xffffffffffffffff

abbrev pub mem_usable : ℕ
mem_usable = 1

-- `struct boot_mem_region`; `kind` is its `type`.
pub record Region : Type 0 where
  pub base : ℕ
  pub length : ℕ
  pub kind : ℕ

-- `struct pmm_state`
pub record Pmm : Type 0 where
  pub bitmap : List ℕ
  pub bitmap_bytes : ℕ
  pub max_phys : ℕ
  pub frame_count : ℕ
  pub free_frames : ℕ
  pub used_frames : ℕ
  pub reserved_frames : ℕ
  pub ignored_frames : ℕ
  pub next_hint : ℕ
  pub initialized : Bool

abbrev pub used : Pmm → ℕ → Bool
used p = bitmap_test p.bitmap

pub align_down : ℕ → ℕ → ℕ
align_down value align = bit_and value (not64 (align - 1))

pub align_up : ℕ → ℕ → ℕ
align_up value align = bit_and (u64 (value + align - 1)) (not64 (align - 1))

pub checked_add : ℕ → ℕ → Option ℕ
checked_add a b = if ltb (2 ^ 64 - 1 - a) b then none else some (u64 (a + b))

pub mark_frame_free : Pmm → ℕ → Pmm
mark_frame_free p frame =
    if leb p.frame_count frame
    then p
    else if bitmap_test p.bitmap frame
    then record p {
      bitmap = bitmap_clear p.bitmap frame;
      free_frames = u64 (p.free_frames + 1);
      used_frames = if ltb 0 p.used_frames then p.used_frames - 1 else p.used_frames;
      next_hint = if ltb frame p.next_hint then frame else p.next_hint;
    }
    else p

pub mark_frame_used : Pmm → ℕ → Pmm
mark_frame_used p frame =
    if leb p.frame_count frame
    then p
    else if not (bitmap_test p.bitmap frame)
    then record p {
      bitmap = bitmap_set p.bitmap frame;
      free_frames = if ltb 0 p.free_frames then p.free_frames - 1 else p.free_frames;
      used_frames = u64 (p.used_frames + 1);
    }
    else p

-- The body of the loop in `mark_range_used`.
pub reserve_frame : Pmm → ℕ → Pmm
reserve_frame p frame =
    let was_free = not (bitmap_test p.bitmap frame) in
    let q = mark_frame_used p frame in
    if was_free then record q { reserved_frames = u64 (q.reserved_frames + 1) } else q

-- `for (addr = start; addr < stop; addr += PMM_PAGE_SIZE) body(addr / PMM_PAGE_SIZE)`, with fuel.
pub for_frames : (Pmm → ℕ → Pmm) → ℕ → ℕ → ℕ → Pmm → Pmm
for_frames body zero addr stop p = p
for_frames body (suc fuel) addr stop p =
    let rest = for_frames body fuel (u64 (addr + page_size)) stop (body p (addr / page_size)) in
    if ltb addr stop then rest else p

-- The tests and the clipping that both range functions make on `start` and `stop`.
pub over_range : (Pmm → ℕ → Pmm) → ℕ → ℕ → Pmm → Pmm
over_range body start stop p =
    if leb stop start || leb p.max_phys start
    then p
    else let last = if ltb p.max_phys stop then p.max_phys else stop in
      for_frames body (suc (last / page_size)) start last p

pub mark_range_free : Pmm → ℕ → ℕ → Pmm
mark_range_free p base length = if length == 0 then p else elim (checked_add base length) [
  | none ↦ p
  | some end ↦ over_range mark_frame_free (align_up base page_size) (align_down end page_size) p
]

pub mark_range_used : Pmm → ℕ → ℕ → Pmm
mark_range_used p base length = if length == 0 then p else elim (checked_add base length) [
  | none ↦ p
  | some end ↦ over_range reserve_frame (align_down base page_size) (align_up end page_size) p
]

-- `pmm_zero_state`, with the empty array for the NULL bitmap.
abbrev pub zero_state : Pmm
zero_state = record {
  bitmap = [];
  bitmap_bytes = 0;
  max_phys = 0;
  frame_count = 0;
  free_frames = 0;
  used_frames = 0;
  reserved_frames = 0;
  ignored_frames = 0;
  next_hint = 0;
  initialized = false;
}

-- `for (i = 0; i < required; i++) bitmap_storage[i] = 0xff`
pub fill : ℕ → List ℕ → List ℕ
fill zero bytes = bytes
fill (suc n) [] = []
fill (suc n) (x ∷ bytes) = 0xff ∷ fill n bytes

-- The loop over the usable regions, and the loop over the others.
pub free_usable : List Region → Pmm → Pmm
free_usable [] p = p
free_usable (r ∷ regions) p =
    free_usable regions (if r.kind == mem_usable then mark_range_free p r.base r.length else p)

pub reserve_others : List Region → Pmm → Pmm
reserve_others [] p = p
reserve_others (r ∷ regions) p =
    reserve_others regions (if r.kind != mem_usable then mark_range_used p r.base r.length else p)

-- The state once the bitmap is filled and the counters are set.
pub all_used : List ℕ → ℕ → Pmm
unfolding fill
all_used storage max_phys =
    let frame_count : ℕ = max_phys / page_size in
    let required : ℕ = (frame_count + 7) / 8 in
    record zero_state {
      bitmap = fill required storage;
      bitmap_bytes = required;
      max_phys = max_phys;
      frame_count = frame_count;
      used_frames = frame_count;
    }

-- `pmm_init_from_map`: the state is unchanged where the result is false.
pub init_from_map : Pmm → List Region → List ℕ → ℕ → ℕ → Bool × Pmm
unfolding all_used free_usable reserve_others
init_from_map p regions storage storage_bytes max_phys =
    if length regions == 0
    then (false, p)
    else if max_phys == 0 || bit_and max_phys (page_size - 1) != 0
    then (false, p)
    else if ltb storage_bytes ((max_phys / page_size + 7) / 8)
    then (false, p)
    else let freed = free_usable regions (all_used storage max_phys) in
      let guarded = mark_range_used freed 0 page_size in
      (true, record (reserve_others regions guarded) { initialized = true })

-- `for (f = from; f < limit; f++) if (!bitmap_test(f)) …`: the frame at which a loop of
-- `pmm_alloc_frame` stops, with fuel.
pub first_free : Pmm → ℕ → ℕ → ℕ → Option ℕ
first_free p zero f limit = none
first_free p (suc fuel) f limit =
    let rest = first_free p fuel (f + 1) limit in
    if ltb f limit then (if not (bitmap_test p.bitmap f) then some f else rest) else none

pub take_frame : Pmm → ℕ → ℕ × Pmm
take_frame p f = (u64 (f * page_size), record (mark_frame_used p f) { next_hint = u64 (f + 1) })

pub alloc_frame : Pmm → ℕ × Pmm
alloc_frame p =
    if not p.initialized || p.free_frames == 0
    then (invalid_frame, p)
    else elim (first_free p (suc p.frame_count) p.next_hint p.frame_count) [
      | some f ↦ take_frame p f
      | none ↦ elim (first_free p (suc p.next_hint) 0 p.next_hint) [
        | some f ↦ take_frame p f
        | none ↦ (invalid_frame, p)
      ]
    ]

pub free_frame : Pmm → ℕ → Bool × Pmm
free_frame p phys_addr =
    if not p.initialized
    then (false, p)
    else if bit_and phys_addr (page_size - 1) != 0 || phys_addr == 0 || leb p.max_phys phys_addr
    then (false, p)
    else if not (bitmap_test p.bitmap (phys_addr / page_size))
    then (false, p)
    else (true, mark_frame_free p (phys_addr / page_size))

pub reserve_range : Pmm → ℕ → ℕ → Bool × Pmm
reserve_range p base length =
    if not p.initialized || length == 0 then (false, p) else (true, mark_range_used p base length)

pub is_frame_free : Pmm → ℕ → Bool
is_frame_free p phys_addr =
    if not p.initialized
    then false
    else if bit_and phys_addr (page_size - 1) != 0 || leb p.max_phys phys_addr
    then false
    else not (bitmap_test p.bitmap (phys_addr / page_size))
