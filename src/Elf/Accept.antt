-- ===== src/Elf/Accept.antt =====
-- Which images `m11_elf64_plan_load` of mcsos/kernel/user/m11_elf_loader.c accepts, and what it
-- leaves in the plan.
use safira_uraa.Base.{
  ℕ, ◌+◌, ◌*◌, ◌^◌, ◌<◌, ◌≤◌, ◌≡◌, ap, ◌∙◌, true, false, some, arith, ◌↔◌, ◌⊎◌, inl, inr, dec_lt,
  Bool-cases, List, [], length, get_or,
}
use safira_uraa.Elf.{
  Status, ok, err_segcount, Region, Plan, zero_plan, finish, validate_header, validate_ident,
  validate_phdr_bounds, validate_user_range, plan_load, is_ok,
}
use safira_uraa.Elf.Image.{Ehdr, read_ehdr, Bytes, little_endian-lt}
use safira_uraa.Elf.Ranges.{validate_user_range_lem, validate_phdr_bounds_lem}
use safira_uraa.Elf.Finish.{finish_lem, finish_complete, finish_none}
use safira_uraa.Elf.Steps.{AllLoadable, loads, plan_of, is_ok-true}

-- An ELF64 file, little endian, of the current version.
abbrev pub Identified : Ehdr → Type 0
Identified eh =
    (get_or eh.e_ident 0 0 ≡ 0x7f)
    × (get_or eh.e_ident 1 0 ≡ 69)
    × (get_or eh.e_ident 2 0 ≡ 76)
    × (get_or eh.e_ident 3 0 ≡ 70)
    × (get_or eh.e_ident 4 0 ≡ 2)
    × (get_or eh.e_ident 5 0 ≡ 1)
    × (get_or eh.e_ident 6 0 ≡ 1)
    × (eh.e_version ≡ 1)

-- The table of program headers is not empty and lies within the image.
abbrev pub Tabled : Ehdr → ℕ → Type 0
Tabled eh image_size =
    (0 < eh.e_phnum) × (eh.e_phentsize ≡ 56) × (eh.e_phoff + 56 * eh.e_phnum ≤ image_size)

-- An x86-64 program whose entry point lies in the region.
abbrev pub Headed : Ehdr → ℕ → Region → Type 0
Headed eh image_size region =
    Identified eh
    × ((eh.e_type ≡ 2) ⊎ (eh.e_type ≡ 3))
    × (eh.e_machine ≡ 62)
    × (eh.e_ehsize ≡ 64)
    × Tabled eh image_size
    × (region.base ≤ eh.e_entry)
    × (eh.e_entry < region.limit)

-- An image that can be loaded into the region.
abbrev pub Acceptable : List ℕ → ℕ → Region → Type 0
Acceptable image image_size region =
    (64 ≤ image_size)
    × Headed (read_ehdr image) image_size region
    × AllLoadable image (read_ehdr image) image_size region (read_ehdr image).e_phnum 0
    × (0 < length (loads image (read_ehdr image) (read_ehdr image).e_phnum 0))
    × (length (loads image (read_ehdr image) (read_ehdr image).e_phnum 0) ≤ 8)

pub validate_ident_lem : (eh : Ehdr) → (validate_ident eh ≡ ok) ↔ Identified eh
unfolding validate_ident
validate_ident_lem eh = ground arith

pub is_ok-ok : (s : Status) → (is_ok s ≡ true) ↔ (s ≡ ok)
is_ok-ok s = (is_ok-true s, λ e. ap is_ok e)

pub validate_header_lem :
    (eh : Ehdr) (image_size : ℕ) (region : Region)
    → image_size < 2 ^ 64
    → region.limit < 2 ^ 64
    → eh.e_phoff < 2 ^ 64
    → eh.e_entry < 2 ^ 64
    → eh.e_phnum < 2 ^ 16
    → (is_ok (validate_header eh image_size region) ≡ true) ↔ Headed eh image_size region
unfolding validate_header
validate_header_lem eh image_size region hi hl ho he hn =
    let ident : (is_ok (validate_ident eh) ≡ true) ↔ (validate_ident eh ≡ ok) = is_ok-ok _ in
    let named : (validate_ident eh ≡ ok) ↔ Identified eh = validate_ident_lem eh in
    ground (
      arith,
      ident,
      named,
      is_ok-ok (validate_phdr_bounds eh image_size),
      is_ok-ok (validate_user_range region eh.e_entry 1),
      validate_phdr_bounds_lem eh image_size hi ho hn,
      validate_user_range_lem region eh.e_entry 1 hl he (omega arith),
    )

-- The widths of the header's words.
header_widths :
    (image : List ℕ)
    → Bytes image
    → ((read_ehdr image).e_phoff < 2 ^ 64)
      × ((read_ehdr image).e_entry < 2 ^ 64)
      × ((read_ehdr image).e_phnum < 2 ^ 16)
unfolding read_ehdr
header_widths image b =
    (little_endian-lt 8 image 32 b, little_endian-lt 8 image 24 b, little_endian-lt 2 image 56 b)

module _ (image : List ℕ) (image_size : ℕ) (region : Region) (out : Plan) where
  -- What `plan_load` does after each outcome of its header checks and of its loop.
  on_header :
      64 ≤ image_size
      → is_ok (validate_header (read_ehdr image) image_size region) ≡ true
      → plan_load (some image) image_size region (some out) ≡ (
        (finish image (read_ehdr image) image_size region).0,
        some (finish image (read_ehdr image) image_size region).1,
      )
  unfolding plan_load
  on_header s h = ground arith

  on_reject :
      ((image_size < 64) ⊎ (is_ok (validate_header (read_ehdr image) image_size region) ≡ false))
      → (is_ok (plan_load (some image) image_size region (some out)).0 ≡ false)
        × ((plan_load (some image) image_size region (some out)).1 ≡ some zero_plan)
  unfolding plan_load
  on_reject r = ground arith

module _ (image : List ℕ) (image_size : ℕ) (region : Region) (out : Plan) (b : Bytes image)
    (hi : image_size < 2 ^ 64) (hl : region.limit < 2 ^ 64) where
  pub header_lem :
      (is_ok (validate_header (read_ehdr image) image_size region) ≡ true)
      ↔ Headed (read_ehdr image) image_size region
  header_lem =
      let (phoff, entry, phnum) = header_widths image b in
      validate_header_lem (read_ehdr image) image_size region hi hl phoff entry phnum

  pub plan_load-loads :
      Acceptable image image_size region
      → plan_load (some image) image_size region (some out) ≡ (
        ok,
        some (
            plan_of
              (read_ehdr image).e_entry
              (loads image (read_ehdr image) (read_ehdr image).e_phnum 0)),
      )
  plan_load-loads (size, headed, all, some_found, few) =
      on_header image image_size region out size (header_lem.1 headed)
      ∙ ap (λ r. (r.0, some r.1))
          (finish_complete image (read_ehdr image) image_size region b hi hl all some_found few)

  -- An image that passes the checks of its header and has no PT_LOAD header.
  pub plan_load_none :
      64 ≤ image_size
      → Headed (read_ehdr image) image_size region
      → AllLoadable image (read_ehdr image) image_size region (read_ehdr image).e_phnum 0
      → loads image (read_ehdr image) (read_ehdr image).e_phnum 0 ≡ []
      → plan_load (some image) image_size region (some out)
        ≡ (err_segcount, some (plan_of (read_ehdr image).e_entry []))
  plan_load_none size headed all empty =
      on_header image image_size region out size (header_lem.1 headed)
      ∙ ap (λ r. (r.0, some r.1))
          (finish_none image (read_ehdr image) image_size region b hi hl all empty)

  pub outcome :
      Acceptable image image_size region
      ⊎ ((is_ok (plan_load (some image) image_size region (some out)).0 ≡ false)
          × (((plan_load (some image) image_size region (some out)).1 ≡ some zero_plan)
              ⊎ ((64 ≤ image_size)
                  × Headed (read_ehdr image) image_size region
                  × (loads image (read_ehdr image) (read_ehdr image).e_phnum 0 ≡ []))))
  outcome = elim (dec_lt image_size 64) [
    | yes short ↦
        let (bad, clear) = on_reject image image_size region out (inl short) in inr (bad, inl clear)
    | no long ↦ elim (Bool-cases (is_ok (validate_header (read_ehdr image) image_size region))) [
      | inr bad ↦
          let (worse, clear) = on_reject image image_size region out (inr bad) in
          inr (worse, inl clear)
      | inl good ↦
          let at = on_header image image_size region out (omega arith) good in
          elim (finish_lem image (read_ehdr image) image_size region b hi hl) [
            | inl ((all, some_found, few), planned) ↦
                inl (omega arith, header_lem.0 good, all, some_found, few)
            | inr (bad, inl clear) ↦
                inr (ap (λ r. is_ok r.0) at ∙ bad, inl (ap (λ r. r.1) at ∙ ap some clear))
            | inr (bad, inr (empty, left)) ↦
                inr (ap (λ r. is_ok r.0) at ∙ bad, inr (omega arith, header_lem.0 good, empty))
          ]
    ]
  ]

  -- For an image of bytes and sizes below 2^64, the loader accepts exactly the images that can
  -- be loaded into the region: an x86-64 ELF64 file whose entry point lies in the region and
  -- whose header table lies in the image, with one to eight PT_LOAD headers, each with known
  -- flags and not both writable and executable, aligned, its bytes in the image and its memory
  -- in the region.
  pub plan_load-Acceptable :
      ((plan_load (some image) image_size region (some out)).0 ≡ ok)
      ↔ Acceptable image image_size region
  plan_load-Acceptable = (only, λ a. ap (λ r. r.0) (plan_load-loads a))
    where
      only :
          (plan_load (some image) image_size region (some out)).0 ≡ ok
          → Acceptable image image_size region
      only e = elim outcome [ inl a ↦ a | inr (bad, clear) ↦ absurd (ground (arith, ap is_ok e)) ]
