-- ===== src/Elf/Planned.antt =====
-- What `m11_elf64_plan_load` of mcsos/kernel/user/m11_elf_loader.c leaves in the plan, told from the
-- bytes of the image: its entry point is the word at 24, its header table stands at the offset in
-- the word at 32 and has as many headers of 56 bytes as the half word at 56 says.
use safira_uraa.Base.{
  ℕ, zero, suc, ◌+◌, ◌-◌, ◌*◌, ◌^◌, ◌<◌, ◌≤◌, ◌≡◌, ◌≢◌, refl, some, arith, ◌⊎◌, inl, inr, List, [],
  ◌∷◌, ◌++◌, length, replicate, ℕ_discrete, Bool-cases, dec_lt, ap,
}
use mathlib.Core.Path.{subst, sym}
use safira_uraa.Elf.{ok, err_segcount, Region, Segment, Plan, plan_load, is_ok, validate_header}
use safira_uraa.Elf.Image.{Ehdr, read_ehdr, read_phdr, Bytes, little_endian}
use safira_uraa.Elf.Steps.{header, loads, loads_skip, loads_keep}
use safira_uraa.Elf.Finish.{nil_of}
use safira_uraa.Elf.Accept.{
  Headed, Acceptable, plan_load-loads, plan_load_none, plan_load-Acceptable, outcome, header_lem,
}

abbrev pub entry_of : List ℕ → ℕ
entry_of image = little_endian 8 image 24

abbrev pub count_of : List ℕ → ℕ
count_of image = little_endian 2 image 56

-- Where header `j` of the table stands.
abbrev pub header_at : List ℕ → ℕ → ℕ
header_at image j = little_endian 8 image 32 + j * 56

-- The segment is what the header at `at` says.
pub record Says (image : List ℕ) (at : ℕ) (s : Segment) : Type 0 where
  pub flags : s.flags ≡ little_endian 4 image (at + 4)
  pub file_offset : s.file_offset ≡ little_endian 8 image (at + 8)
  pub vaddr : s.vaddr ≡ little_endian 8 image (at + 16)
  pub filesz : s.filesz ≡ little_endian 8 image (at + 32)
  pub memsz : s.memsz ≡ little_endian 8 image (at + 40)
  pub align : s.align ≡ little_endian 8 image (at + 48)

-- The segments of the headers whose first word is 1, PT_LOAD, among `rounds` headers from `i` on,
-- in their order.
pub data Selected (image : List ℕ) : (rounds i : ℕ) → List Segment → Type 0 where
  all_seen : {i : ℕ} → Selected image 0 i []
  skipped :
      {rounds i : ℕ} {segments : List Segment}
      → little_endian 4 image (header_at image i) ≢ 1
      → Selected image rounds (i + 1) segments
      → Selected image (suc rounds) i segments
  taken :
      {rounds i : ℕ} {s : Segment} {segments : List Segment}
      → little_endian 4 image (header_at image i) ≡ 1
      → Says image (header_at image i) s
      → Selected image rounds (i + 1) segments
      → Selected image (suc rounds) i (s ∷ segments)

-- The plan of eight places with these segments, and zeros in the others.
abbrev pub filled : ℕ → List Segment → Plan
filled entry segments = record {
  entry = entry;
  segment_count = length segments;
  segments =
      segments
      ++ replicate (8 - length segments)
          (record { file_offset = 0; vaddr = 0; filesz = 0; memsz = 0; align = 0; flags = 0 });
}

-- An image that passes every check of its header, and has no header of type PT_LOAD.
abbrev pub Loadless : List ℕ → ℕ → Region → Type 0
Loadless image image_size region =
    (64 ≤ image_size)
    × Headed (read_ehdr image) image_size region
    × ((j : ℕ) → j < count_of image → little_endian 4 image (header_at image j) ≢ 1)

loads-Selected :
    (image : List ℕ) (rounds i : ℕ)
    → Selected image rounds i (loads image (read_ehdr image) rounds i)
unfolding read_ehdr read_phdr
loads-Selected image zero i = all_seen
loads-Selected image (suc rounds) i =
    let rest = loads-Selected image rounds (i + 1) in
    elim (ℕ_discrete (little_endian 4 image (header_at image i)) 1) [
      | yes load ↦
          subst (Selected image (suc rounds) i)
            (sym
              (loads_keep image (read_ehdr image) 0 (record { base = 0; limit = 0 }) rounds i load))
            (taken load
              (record {
                flags = refl;
                file_offset = refl;
                vaddr = refl;
                filesz = refl;
                memsz = refl;
                align = refl;
              })
              rest)
      | no other ↦
          subst (Selected image (suc rounds) i)
            (sym (
              loads_skip image (read_ehdr image) 0 (record { base = 0; limit = 0 }) rounds i other))
            (skipped other rest)
    ]

module _ (image : List ℕ) (eh : Ehdr) where
  none_loaded :
      (rounds i : ℕ)
      → ((j : ℕ) → i ≤ j → j < i + rounds → (header image eh j).p_type ≢ 1)
      → loads image eh rounds i ≡ []
  none_loaded zero i others = refl
  none_loaded (suc rounds) i others =
      let here = others i (omega arith) (omega arith) in
      let rest =
        none_loaded rounds (i + 1)
          (λ j from to. others j (omega (arith, from)) (omega (arith, to))) in
      ground (arith, here, rest)

  loads_none :
      (rounds i : ℕ)
      → loads image eh rounds i ≡ []
      → (j : ℕ) → i ≤ j
      → j < i + rounds
      → (header image eh j).p_type ≢ 1
  loads_none zero i empty j from to load = omega (arith, from, to)
  loads_none (suc rounds) i empty j from to load = elim (ℕ_discrete j i) [
    | yes at ↦
        let load_here : (header image eh i).p_type ≡ 1 =
          subst (λ n. (header image eh n).p_type ≡ 1) at load in
        ground (arith, load_here, empty)
    | no later ↦
        let other : (header image eh i).p_type ≢ 1 = λ e. ground (arith, e, empty) in
        loads_none rounds (i + 1) (ground (arith, other, empty)) j (omega (arith, from, later))
          (omega (arith, to)) load
  ]

module _ (image : List ℕ) (image_size : ℕ) (region : Region) (out : Plan) (b : Bytes image)
    (hi : image_size < 2 ^ 64) (hl : region.limit < 2 ^ 64) where
  -- For an image of bytes and sizes below 2^64: an image that can be loaded is loaded, whatever
  -- the plan held before. The plan has the entry point, the number of the PT_LOAD headers, and
  -- for each of them in their order a segment with its file offset, address, size in the file,
  -- size in memory, alignment and flags, each as the bytes of that header say; its other
  -- segments are zero.
  pub plan_load_plans :
      Acceptable image image_size region
      → (segments : List Segment) × (plan_load (some image) image_size region (some out)
          ≡ (ok, some (filled (entry_of image) segments)))
        × Selected image (count_of image) 0 segments
  unfolding read_ehdr
  plan_load_plans a = (
    loads image (read_ehdr image) (count_of image) 0,
    plan_load-loads image image_size region out b hi hl a,
    loads-Selected image (count_of image) 0,
  )

  kept :
      Loadless image image_size region
      → plan_load (some image) image_size region (some out)
        ≡ (err_segcount, some (filled (entry_of image) []))
  unfolding read_ehdr read_phdr
  kept (size, headed, others) =
      plan_load_none image image_size region out b hi hl size headed
        (λ j from to load. absurd (others j (omega (arith, to)) load))
        (none_loaded image (read_ehdr image) (count_of image) 0
          (λ j from to. others j (omega (arith, to))))

  empty-Loadless :
      64 ≤ image_size
      → Headed (read_ehdr image) image_size region
      → loads image (read_ehdr image) (read_ehdr image).e_phnum 0 ≡ []
      → Loadless image image_size region
  unfolding read_ehdr read_phdr
  empty-Loadless size headed empty = (
    size,
    headed,
    λ j to.
        loads_none image (read_ehdr image) (count_of image) 0 empty j (omega arith)
          (omega (arith, to)),
  )

  Loadless-or : Loadless image image_size region ⊎ (¬ Loadless image image_size region)
  unfolding read_ehdr read_phdr
  Loadless-or = elim (dec_lt image_size 64) [
    | yes short ↦ inr (λ l. omega (arith, short, l.0))
    | no long ↦ elim (Bool-cases (is_ok (validate_header (read_ehdr image) image_size region))) [
      | inr bad ↦
          inr (λ l. ground (arith, bad, (header_lem image image_size region out b hi hl).1 l.1))
      | inl good ↦ elim (ℕ_discrete (length (loads image (read_ehdr image) (count_of image) 0)) 0) [
        | yes none_found ↦ inl (
            empty-Loadless (omega (arith, long))
              ((header_lem image image_size region out b hi hl).0 good)
              (nil_of (loads image (read_ehdr image) (count_of image) 0) none_found))
        | no some_found ↦ inr (λ (size, headed, others). some_found (
            ap length (
              none_loaded image (read_ehdr image) (count_of image) 0
                (λ j from to. others j (omega (arith, to))))))
      ]
    ]
  ]

  -- For an image of bytes and sizes below 2^64 that is refused: where it passes every check of
  -- its header and has no PT_LOAD header, the error is that of the segment count, and the plan
  -- keeps the entry point and is zero otherwise; in every other case the whole plan is zero.
  pub plan_load_fails :
      (plan_load (some image) image_size region (some out)).0 ≢ ok
      → (Loadless image image_size region
          × (plan_load (some image) image_size region (some out)
              ≡ (err_segcount, some (filled (entry_of image) []))))
        ⊎ ((¬ Loadless image image_size region)
            × ((plan_load (some image) image_size region (some out)).1 ≡ some (filled 0 [])))
  plan_load_fails bad = elim Loadless-or [
    | inl l ↦ inl (l, kept l)
    | inr found ↦ inr (
      found,
      elim (outcome image image_size region out b hi hl) [
        | inl a ↦ absurd (bad ((plan_load-Acceptable image image_size region out b hi hl).1 a))
        | inr (worse, inl clear) ↦ clear
        | inr (worse, inr (size, headed, empty)) ↦ absurd (found (empty-Loadless size headed empty))
      ],
    )
  ]
