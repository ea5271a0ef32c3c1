-- ===== src/Pmm/Range.antt =====
-- The two range functions of src/pmm.c: which frames a range of addresses frees or reserves.
use safira_uraa.Base.{
  ℕ, zero, suc, ◌+◌, ◌-◌, ◌*◌, ◌/◌, ◌^◌, ◌<◌, ◌≤◌, ◌≡◌, ◌≢◌, refl, ◌∙◌, Bool, true, false, not,
  ◌&&◌, ◌||◌, none, some, arith, ltb, leb, ◌==◌, ◌!=◌, if◌then◌else◌, length, Bool-cases, inl, inr,
  dec_lt, ℕ_discrete, min,
}
use safira_uraa.Base.Words.{u64, and_not_page}
use safira_uraa.Pmm.{
  Pmm, used, for_frames, over_range, mark_range_free, mark_range_used, align_up, align_down,
  checked_add, mark_frame_free, reserve_frame,
}
use safira_uraa.Pmm.Inv.{IsValid, Same, Marks, mark_frame_free-Marks, reserve_frame-Marks}

pub align_down_page : (x : ℕ) → x < 2 ^ 64 → align_down x 4096 ≡ x / 4096 * 4096
unfolding align_down
align_down_page x h = and_not_page x h

-- Rounding up, where it does not wrap and where it does.
pub align_up_page : (x : ℕ) → x + 4095 < 2 ^ 64 → align_up x 4096 ≡ (x + 4095) / 4096 * 4096
unfolding align_up
align_up_page x h = rw (and_not_page (u64 (x + 4096 - 1)) (omega arith)) (omega arith)

pub align_up_wraps : (x : ℕ) → 2 ^ 64 ≤ x + 4095 → x < 2 ^ 64 → align_up x 4096 ≡ 0
unfolding align_up
align_up_wraps x h l = rw (and_not_page (u64 (x + 4096 - 1)) (omega arith)) (omega arith)

Marks-none : {p : Pmm} (b : Bool) (lo hi : ℕ) → hi ≤ lo → IsValid p → Marks b lo hi p p
Marks-none b lo hi h v = record {
  valid = v;
  same = record { frame_count = refl; max_phys = refl; initialized = refl };
  frames = λ j. ground arith;
}

-- A frame, and then the frames above it.
Marks-cons :
    {b : Bool} {lo hi : ℕ} {p q r : Pmm}
    → lo < hi
    → Marks b lo (suc lo) p q
    → Marks b (suc lo) hi q r
    → Marks b lo hi p r
Marks-cons h m n = record {
  valid = n.valid;
  same = record {
    frame_count = omega (arith, m.same.frame_count, n.same.frame_count);
    max_phys = omega (arith, m.same.max_phys, n.same.max_phys);
    initialized = n.same.initialized ∙ m.same.initialized;
  };
  frames = λ j. ground (arith, m.frames j, n.frames j);
}

module _ (b : Bool) (body : Pmm → ℕ → Pmm)
    (marks : (p : Pmm)
      → IsValid p
      → (f : ℕ) → f < p.frame_count
      → Marks b f (suc f) p (body p f)) where
  for_frames-Marks :
      (fuel lo hi : ℕ) {p : Pmm}
      → hi - lo < fuel
      → hi ≤ p.frame_count
      → IsValid p
      → Marks b lo hi p (for_frames body fuel (lo * 4096) (hi * 4096) p)
  unfolding for_frames
  for_frames-Marks zero lo hi enough h v = absurd (omega arith)
  for_frames-Marks (suc fuel) lo hi {p} enough h v = elim (dec_lt lo hi) [
    | yes l ↦
        let next : u64 (lo * 4096 + 4096) ≡ suc lo * 4096 = omega (arith, v.span, v.small) in
        let frame : lo * 4096 / 4096 ≡ lo = omega arith in
        let go : ltb (lo * 4096) (hi * 4096) ≡ true = ground arith in
        let one : Marks b lo (suc lo) p (body p lo) = marks p v lo (omega arith) in
        rw (go, next, frame)
          (Marks-cons l one (
            for_frames-Marks fuel (suc lo) hi (omega arith) (omega (arith, one.same.frame_count))
              one.valid))
    | no m ↦
        let stop : ltb (lo * 4096) (hi * 4096) ≡ false = ground arith in
        rw stop (Marks-none b lo hi (omega arith) v)
  ]

  -- The frames of a clipped range of whole pages.
  pub over_range-Marks :
      (lo hi : ℕ) (p : Pmm)
      → IsValid p
      → Marks b lo (min hi p.frame_count) p (over_range body (lo * 4096) (hi * 4096) p)
  unfolding over_range
  over_range-Marks lo hi p v =
      elim (Bool-cases (leb (hi * 4096) (lo * 4096) || leb p.max_phys (lo * 4096))) [
        | inl none_left ↦ rw none_left (Marks-none b lo _ (ground (arith, v.span)) v)
        | inr some_left ↦
            let last : (if ltb p.max_phys (hi * 4096) then p.max_phys else hi * 4096)
                ≡ min hi p.frame_count * 4096 =
              ground (arith, v.span) in
            let rounds : min hi p.frame_count * 4096 / 4096 ≡ min hi p.frame_count = omega arith in
            rw (some_left, last, rounds)
              (for_frames-Marks (suc (min hi p.frame_count)) lo (min hi p.frame_count) (omega arith)
                (omega arith) v)
      ]

pub checked_add-fits : (a b : ℕ) → a + b < 2 ^ 64 → checked_add a b ≡ some (a + b)
unfolding checked_add
checked_add-fits a b h = ground arith

pub checked_add-overflow : (a b : ℕ) → a < 2 ^ 64 → 2 ^ 64 ≤ a + b → checked_add a b ≡ none
unfolding checked_add
checked_add-overflow a b l h = ground arith

-- Frame `j` and the range of `length` bytes at `base` have a byte in common.
abbrev pub overlaps : ℕ → ℕ → ℕ → Bool
overlaps base length j =
    length != 0 && (ltb base ((j + 1) * 4096) && ltb (j * 4096) (base + length))

-- Frame `j` lies in the range whole.
abbrev pub inside : ℕ → ℕ → ℕ → Bool
inside base length j = leb base (j * 4096) && leb ((j + 1) * 4096) (base + length)

-- `q` is `p` but for the marks of its frames, which are `after`.
pub record Becomes (p q : Pmm) (after : ℕ → Bool) : Type 0 where
  pub valid : IsValid q
  pub same : Same p q
  pub frames : (j : ℕ) → j < p.frame_count → used q j ≡ after j

pub Becomes-self :
    {p : Pmm} (after : ℕ → Bool)
    → IsValid p
    → ((j : ℕ) → j < p.frame_count → used p j ≡ after j)
    → Becomes p p after
Becomes-self after v same = record {
  valid = v;
  same = record { frame_count = refl; max_phys = refl; initialized = refl };
  frames = same;
}

pub Becomes-step :
    {p q r : Pmm} {f g : ℕ → Bool} (h : ℕ → Bool)
    → Becomes p q f
    → Becomes q r g
    → ((j : ℕ) → j < p.frame_count → used q j ≡ f j → g j ≡ h j)
    → Becomes p r h
Becomes-step h m n same = record {
  valid = n.valid;
  same = record {
    frame_count = omega (arith, m.same.frame_count, n.same.frame_count);
    max_phys = omega (arith, m.same.max_phys, n.same.max_phys);
    initialized = n.same.initialized ∙ m.same.initialized;
  };
  frames = λ j l. n.frames j (omega (arith, m.same.frame_count)) ∙ same j l (m.frames j l);
}

module _ {p : Pmm} (v : IsValid p) (base length : ℕ) where
  used-eq :
      length ≢ 0
      → base + length + 4095 < 2 ^ 64
      → mark_range_used p base length
        ≡ over_range reserve_frame (base / 4096 * 4096) ((base + length + 4095) / 4096 * 4096) p
  unfolding mark_range_used
  used-eq some_bytes fits =
      let test : (length == 0) ≡ false = ground arith in
      rw (
        test,
        checked_add-fits base length (omega arith),
        align_down_page base (omega arith),
        align_up_page (base + length) fits,
      )

  free-eq :
      length ≢ 0
      → base + length < 2 ^ 64
      → base + 4095 < 2 ^ 64
      → mark_range_free p base length
        ≡ over_range mark_frame_free ((base + 4095) / 4096 * 4096) ((base + length) / 4096 * 4096) p
  unfolding mark_range_free
  free-eq some_bytes fits low =
      let test : (length == 0) ≡ false = ground arith in
      rw (
        test,
        checked_add-fits base length fits,
        align_up_page base low,
        align_down_page (base + length) fits,
      )

  -- A range that ends below the last page of the address space is reserved: the frames that it
  -- touches become used, and no other frame changes.
  pub mark_range_used-Becomes :
      base + length + 4095 < 2 ^ 64
      → Becomes p (mark_range_used p base length) λ j. used p j || overlaps base length j
  unfolding mark_range_used
  mark_range_used-Becomes fits = elim (ℕ_discrete length 0) [
    | yes e ↦ rw e (Becomes-self _ v λ j l. ground arith)
    | no ne ↦
        let m =
          over_range-Marks true reserve_frame (λ q w f l. reserve_frame-Marks w f l) (base / 4096)
            ((base + length + 4095) / 4096) p v in
        rw (used-eq ne fits)
          (record { valid = m.valid; same = m.same; frames = λ j l. ground (arith, m.frames j) })
  ]

  -- A usable range is freed: the frames that lie in it whole become free, and no other changes.
  pub mark_range_free-Becomes :
      base + length < 2 ^ 64
      → base + 4095 < 2 ^ 64
      → Becomes p (mark_range_free p base length) λ j. used p j && not (inside base length j)
  unfolding mark_range_free
  mark_range_free-Becomes fits low = elim (ℕ_discrete length 0) [
    | yes e ↦ rw e (Becomes-self _ v λ j l. ground arith)
    | no ne ↦
        let m =
          over_range-Marks false mark_frame_free (λ q w f l. mark_frame_free-Marks w f l)
            ((base + 4095) / 4096) ((base + length) / 4096) p v in
        rw (free-eq ne fits low)
          (record { valid = m.valid; same = m.same; frames = λ j l. ground (arith, m.frames j) })
  ]
