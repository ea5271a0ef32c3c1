-- ===== src/Elf.antt =====
-- mcsos/kernel/user/m11_elf_loader.c and its header: the checks of an ELF64 image, and the plan of
-- the segments to load. A pointer that may be NULL is an option.
pub mod Image
pub mod Ranges
pub mod Checks
pub mod Steps
pub mod Load
mod Finish
pub mod Accept
pub mod Planned
mod Tests
use safira_uraa.Base.{
  ℕ, zero, suc, ◌+◌, ◌-◌, ◌*◌, ◌/◌, ◌%◌, ◌^◌, Bool, true, false, not, ◌&&◌, ◌||◌, Option, none,
  some, List, [], ◌∷◌, ltb, leb, ◌==◌, ◌!=◌, if◌then◌else◌, get_or, set, replicate, bit_and,
}
use safira_uraa.Base.Words.{u64, sub64}
use safira_uraa.Elf.Image.{Ehdr, Phdr, read_ehdr, read_phdr, ehdr_size, phdr_size}

pub data Status : Type 0 where
  ok : Status
  err_null err_size err_magic err_class err_endian err_version err_type err_machine err_ehsize
        err_phentsize err_phbounds err_align err_segbounds err_segrange err_segcount err_entry
        err_flags :
      Status

abbrev pub is_ok : Status → Bool
is_ok ok = true
is_ok _ = false

abbrev pub max_load_segments : ℕ
max_load_segments = 8

-- `struct m11_user_region`
pub record Region : Type 0 where
  pub base : ℕ
  pub limit : ℕ

-- `struct m11_segment_plan`
pub record Segment : Type 0 where
  pub file_offset : ℕ
  pub vaddr : ℕ
  pub filesz : ℕ
  pub memsz : ℕ
  pub align : ℕ
  pub flags : ℕ

-- `struct m11_process_image_plan`
pub record Plan : Type 0 where
  pub entry : ℕ
  pub segment_count : ℕ
  pub segments : List Segment

pub add_overflow : ℕ → ℕ → Option ℕ
add_overflow a b = let r : ℕ = u64 (a + b) in if ltb r a then none else some r

pub is_power_of_two : ℕ → Bool
is_power_of_two v = v != 0 && bit_and v (sub64 v 1) == 0

abbrev pub zero_segment : Segment
zero_segment = record { file_offset = 0; vaddr = 0; filesz = 0; memsz = 0; align = 0; flags = 0 }

abbrev pub zero_plan : Plan
zero_plan = record {
  entry = 0;
  segment_count = 0;
  segments = replicate max_load_segments zero_segment;
}

pub validate_user_range : Region → ℕ → ℕ → Status
validate_user_range region base size =
    if leb region.limit region.base
    then err_segrange
    else if size == 0
    then err_segrange
    else elim (add_overflow base size) [
      | none ↦ err_segrange
      | some end ↦
          if ltb base region.base || ltb region.limit end || leb end base then err_segrange else ok
    ]

pub validate_ident : Ehdr → Status
validate_ident eh =
    if ident 0 != 0x7f || ident 1 != b'E' || ident 2 != b'L' || ident 3 != b'F'
    then err_magic
    else if ident 4 != 2
    then err_class
    else if ident 5 != 1
    then err_endian
    else if ident 6 != 1 || eh.e_version != 1
    then err_version
    else ok
  where
    ident : ℕ → ℕ
    ident i = get_or eh.e_ident i 0

pub validate_phdr_bounds : Ehdr → ℕ → Status
validate_phdr_bounds eh image_size =
    let table : ℕ = u64 (eh.e_phentsize * eh.e_phnum) in
    if eh.e_phnum == 0
    then err_phbounds
    else if eh.e_phentsize != phdr_size
    then err_phentsize
    else if eh.e_phnum != 0 && table / eh.e_phnum != eh.e_phentsize
    then err_phbounds
    else elim (add_overflow eh.e_phoff table) [
      | none ↦ err_phbounds
      | some ph_end ↦
          if ltb image_size ph_end || ltb image_size eh.e_phoff then err_phbounds else ok
    ]

-- `PF_X` is 1, `PF_W` is 2 and `PF_R` is 4; the complement is of 32 bits.
pub validate_load_segment : Phdr → ℕ → Region → Status
validate_load_segment ph image_size region =
    if bit_and ph.p_flags (2 ^ 32 - 1 - 7) != 0
    then err_flags
    else if bit_and ph.p_flags 2 != 0 && bit_and ph.p_flags 1 != 0
    then err_flags
    else if ltb ph.p_memsz ph.p_filesz
    then err_segbounds
    else if (ph.p_align != 0 && ph.p_align != 1) && not (is_power_of_two ph.p_align)
    then err_align
    else if (ph.p_align != 0 && ph.p_align != 1)
        && ph.p_vaddr % ph.p_align != ph.p_offset % ph.p_align
    then err_align
    else elim (add_overflow ph.p_offset ph.p_filesz) [
      | none ↦ err_segbounds
      | some file_end ↦
          if ltb image_size file_end || ltb image_size ph.p_offset
          then err_segbounds
          else validate_user_range region ph.p_vaddr ph.p_memsz
    ]

abbrev pub segment_of : Phdr → Segment
segment_of ph = record {
  file_offset = ph.p_offset;
  vaddr = ph.p_vaddr;
  filesz = ph.p_filesz;
  memsz = ph.p_memsz;
  align = ph.p_align;
  flags = ph.p_flags;
}

abbrev pub add_segment : Plan → Phdr → Plan
add_segment plan ph = record plan {
  segments = set plan.segments plan.segment_count (segment_of ph);
  segment_count = plan.segment_count + 1;
}

-- The loop over the program headers, `rounds` of them from index `i` on.
module _ (image : List ℕ) (eh : Ehdr) (image_size : ℕ) (region : Region) where
  pub load_segments : ℕ → ℕ → Plan → Status × Plan
  load_segments zero i plan = (ok, plan)
  load_segments (suc rounds) i plan =
      let ph = read_phdr image (eh.e_phoff + i * phdr_size) in
      let skip = load_segments rounds (i + 1) plan in
      let keep = load_segments rounds (i + 1) (add_segment plan ph) in
      if ph.p_type != 1
      then skip
      else if leb max_load_segments plan.segment_count
      then (err_segcount, zero_plan)
      else let rc = validate_load_segment ph image_size region in
        if not (is_ok rc) then (rc, zero_plan) else keep

  -- What follows once the header has passed: the plan so far is the zero plan with the entry.
  pub finish : Status × Plan
  finish =
      let (rc, plan) = load_segments eh.e_phnum 0 (record zero_plan { entry = eh.e_entry }) in
      if not (is_ok rc)
      then (rc, plan)
      else if plan.segment_count == 0
      then (err_segcount, plan)
      else (ok, plan)

-- The checks of the file header, in their order.
pub validate_header : Ehdr → ℕ → Region → Status
validate_header eh image_size region =
    let rc = validate_ident eh in
    let bounds = validate_phdr_bounds eh image_size in
    if not (is_ok rc)
    then rc
    else if eh.e_type != 2 && eh.e_type != 3
    then err_type
    else if eh.e_machine != 62
    then err_machine
    else if eh.e_ehsize != ehdr_size
    then err_ehsize
    else if not (is_ok bounds)
    then bounds
    else if not (is_ok (validate_user_range region eh.e_entry 1))
    then err_entry
    else ok

pub plan_load : Option (List ℕ) → ℕ → Region → Option Plan → Status × Option Plan
plan_load none image_size region out = (err_null, out)
plan_load (some image) image_size region none = (err_null, none)
plan_load (some image) image_size region (some out) =
    let eh = read_ehdr image in
    let rc = validate_header eh image_size region in
    let (status, plan) = finish image eh image_size region in
    if ltb image_size ehdr_size
    then (err_size, some zero_plan)
    else if not (is_ok rc)
    then (rc, some zero_plan)
    else (status, some plan)
