-- ===== src/Elf/Checks.antt =====
-- A program header of type PT_LOAD, as mcsos/kernel/user/m11_elf_loader.c checks it.
use safira_uraa.Base.{
  ℕ, ◌+◌, ◌-◌, ◌*◌, ◌/◌, ◌%◌, ◌^◌, ◌<◌, ◌≤◌, ◌≡◌, Bool, false, not, ◌&&◌, ◌||◌, arith, ◌!=◌, ◌↔◌,
  ◌⊎◌, dec_lt, bit_and, List,
}
use safira_uraa.Base.Bits.{and_halves, and_mask, and_complement}
use safira_uraa.Elf.{ok, Region, is_power_of_two, validate_load_segment}
use safira_uraa.Elf.Image.{Phdr, read_phdr, Bytes, little_endian-lt}
use safira_uraa.Elf.Ranges.{
  add_overflow-some, add_overflow-none, validate_user_range_lem, is_power_of_two_lem,
}

-- The fields are words of their widths.
abbrev pub Fits : Phdr → Type 0
Fits ph =
    (ph.p_flags < 2 ^ 32)
    × (ph.p_offset < 2 ^ 64)
    × (ph.p_vaddr < 2 ^ 64)
    × (ph.p_filesz < 2 ^ 64)
    × (ph.p_memsz < 2 ^ 64)
    × (ph.p_align < 2 ^ 64)

pub read_phdr-Fits : (image : List ℕ) (at : ℕ) → Bytes image → Fits (read_phdr image at)
unfolding read_phdr
read_phdr-Fits image at b = (
  little_endian-lt 4 image (at + 4) b,
  little_endian-lt 8 image (at + 8) b,
  little_endian-lt 8 image (at + 16) b,
  little_endian-lt 8 image (at + 32) b,
  little_endian-lt 8 image (at + 40) b,
  little_endian-lt 8 image (at + 48) b,
)

-- The flags are known and the segment is not writable and executable at once.
abbrev pub Permitted : ℕ → Type 0
Permitted flags = (flags < 8) × (flags / 2 % 2 + flags % 2 ≤ 1)

-- The address and the file offset agree modulo an alignment that is a power of two.
abbrev pub Aligned : Phdr → Type 0
Aligned ph =
    (ph.p_align ≤ 1)
    ⊎ (((e : ℕ) × (ph.p_align ≡ 2 ^ e)) × (ph.p_vaddr % ph.p_align ≡ ph.p_offset % ph.p_align))

-- The bytes of the file lie in the image, and the memory, which holds them all, in the region.
abbrev pub Placed : Phdr → ℕ → Region → Type 0
Placed ph image_size region =
    (ph.p_filesz ≤ ph.p_memsz)
    × (ph.p_offset + ph.p_filesz ≤ image_size)
    × (0 < ph.p_memsz)
    × (region.base ≤ ph.p_vaddr)
    × (ph.p_vaddr + ph.p_memsz ≤ region.limit)

abbrev pub Loadable : Phdr → ℕ → Region → Type 0
Loadable ph image_size region = Permitted ph.p_flags × Aligned ph × Placed ph image_size region

unknown_flags : (f : ℕ) → f < 2 ^ 32 → bit_and f (2 ^ 32 - 1 - 7) ≡ f / 8 * 8
unknown_flags f h = omega (arith, and_complement 32 f 7 h (omega arith), and_mask 3 f)

and_two : (f : ℕ) → bit_and f 2 ≡ 2 * (f / 2 % 2)
and_two f = omega (arith, and_halves f 2, and_mask 1 (f / 2))

and_one : (f : ℕ) → bit_and f 1 ≡ f % 2
and_one f = and_mask 1 f

-- The flags test, the alignment test and the placement test, one after the other.
flags_test :
    (f : ℕ)
    → f < 2 ^ 32
    → (bit_and f (2 ^ 32 - 1 - 7) != 0 || (bit_and f 2 != 0 && bit_and f 1 != 0) ≡ false)
      ↔ Permitted f
flags_test f h = ground (arith, unknown_flags f h, and_two f, and_one f)

align_test : Phdr → Bool
align_test ph =
    ((ph.p_align != 0 && ph.p_align != 1) && not (is_power_of_two ph.p_align))
    || ((ph.p_align != 0 && ph.p_align != 1) && ph.p_vaddr % ph.p_align != ph.p_offset % ph.p_align)

align_test_lem : (ph : Phdr) → ph.p_align < 2 ^ 64 → (align_test ph ≡ false) ↔ Aligned ph
unfolding align_test
align_test_lem ph h = ground (arith, is_power_of_two_lem ph.p_align h)

place_test_lem :
    (ph : Phdr) (image_size : ℕ) (region : Region)
    → Fits ph
    → image_size < 2 ^ 64
    → region.limit < 2 ^ 64
    → (validate_load_segment ph image_size region ≡ ok) ↔ (
        (bit_and ph.p_flags (2 ^ 32 - 1 - 7) != 0
            || (bit_and ph.p_flags 2 != 0 && bit_and ph.p_flags 1 != 0)
          ≡ false)
        × (align_test ph ≡ false)
        × Placed ph image_size region)
unfolding validate_load_segment align_test
place_test_lem ph image_size region (hf, ho, hv, hz, hm, ha) hi hl =
    elim (dec_lt (ph.p_offset + ph.p_filesz) (2 ^ 64)) [
      | yes l ↦ ground (
        arith,
        add_overflow-some ph.p_offset ph.p_filesz l,
        validate_user_range_lem region ph.p_vaddr ph.p_memsz hl hv hm,
      )
      | no m ↦ ground (arith, add_overflow-none ph.p_offset ph.p_filesz ho hz (omega arith))
    ]

-- A segment passes exactly when it is permitted, aligned and placed.
pub validate_load_segment_lem :
    (ph : Phdr) (image_size : ℕ) (region : Region)
    → Fits ph
    → image_size < 2 ^ 64
    → region.limit < 2 ^ 64
    → (validate_load_segment ph image_size region ≡ ok) ↔ Loadable ph image_size region
validate_load_segment_lem ph image_size region fits hi hl =
    let (flags_if, flags_only) = flags_test ph.p_flags fits.0 in
    let (align_if, align_only) = align_test_lem ph fits.5 in
    let (pass, compose) = place_test_lem ph image_size region fits hi hl in
    (
      λ e. let (f, a, p) = pass e in (flags_if f, align_if a, p),
      λ (f, a, p). compose (flags_only f, align_only a, p),
    )
