-- ===== src/Pmm/Inv.antt =====
-- The representation invariant of `struct pmm_state`, and what the two marking helpers do to it.
pub mod Tally
use Tally.{tally, tally-same, tally-flip, tally-pos, tally-le}
use safira_uraa.Base.{
  ℕ, zero, suc, ◌+◌, ◌-◌, ◌*◌, ◌/◌, ◌%◌, ◌^◌, ◌<◌, ◌≤◌, ◌≡◌, ◌≢◌, refl, sym, ap, ◌∙◌, Bool, true,
  false, not, ◌&&◌, ◌||◌, Option, none, some, List, arith, ltb, leb, ◌==◌, ◌!=◌, if◌then◌else◌,
  length, get_or, Bool-cases, inl, inr, dec_lt, ℕ_discrete,
}
use safira_uraa.Base.Words.{u64}
use safira_uraa.Pmm.{Pmm, used, mark_frame_free, mark_frame_used, reserve_frame}
use safira_uraa.Pmm.Bitmap.{
  Bytes, bitmap_test, bitmap_set, bitmap_clear, bitmap_test-set, bitmap_test-clear, Bytes-set,
  Bytes-clear, length-bitmap_set, length-bitmap_clear,
}

pub record IsValid (p : Pmm) : Type 0 where
  pub bytes : Bytes p.bitmap
  pub sized : p.frame_count ≤ 8 * length p.bitmap
  pub span : p.max_phys ≡ p.frame_count * 4096
  pub small : p.max_phys < 2 ^ 64
  pub counted : p.free_frames ≡ tally (used p) p.frame_count
  pub total : p.free_frames + p.used_frames ≡ p.frame_count
  pub hint : p.next_hint ≤ p.frame_count
  pub low : (j : ℕ) → j < p.next_hint → used p j ≡ true

-- What no operation on frames changes.
pub record Same (p q : Pmm) : Type 0 where
  pub frame_count : q.frame_count ≡ p.frame_count
  pub max_phys : q.max_phys ≡ p.max_phys
  pub initialized : q.initialized ≡ p.initialized

-- `q` is `p` with the frames from `lo` up to `hi` marked `v`.
pub record Marks (v : Bool) (lo hi : ℕ) (p q : Pmm) : Type 0 where
  pub valid : IsValid q
  pub same : Same p q
  pub frames : (j : ℕ) → used q j ≡ (if leb lo j && ltb j hi then v else used p j)

-- The invariant does not speak of the counter of reserved frames, nor of the last flag.
pub IsValid-flag :
    {p : Pmm} (n : ℕ) (b : Bool)
    → IsValid p
    → IsValid (record p { reserved_frames = n; initialized = b })
IsValid-flag n b v = record {
  bytes = v.bytes;
  sized = v.sized;
  span = v.span;
  small = v.small;
  counted = v.counted;
  total = v.total;
  hint = v.hint;
  low = v.low;
}

Marks-reserved :
    {b : Bool} {lo hi : ℕ} {p q : Pmm} (n : ℕ)
    → Marks b lo hi p q
    → Marks b lo hi p (record q { reserved_frames = n })
Marks-reserved {q} n m = record {
  valid = IsValid-flag n q.initialized m.valid;
  same = record {
    frame_count = m.same.frame_count;
    max_phys = m.same.max_phys;
    initialized = m.same.initialized;
  };
  frames = m.frames;
}

module _ {p : Pmm} (v : IsValid p) (f : ℕ) (in_range : f < p.frame_count) where
  room : f / 2 ^ 3 < length p.bitmap
  room = omega (arith, v.sized)

  set_frame : Pmm
  set_frame = record p {
    bitmap = bitmap_set p.bitmap f;
    free_frames = p.free_frames - 1;
    used_frames = p.used_frames + 1;
  }

  mark_frame_used-eq : used p f ≡ false → mark_frame_used p f ≡ set_frame
  unfolding mark_frame_used set_frame
  mark_frame_used-eq e =
      ground
        (arith, v.total, v.span, v.small, v.counted, tally-pos (used p) p.frame_count f in_range e)

  set_frame-Marks : used p f ≡ false → Marks true f (suc f) p set_frame
  unfolding set_frame
  set_frame-Marks e = record {
    valid = record {
      bytes = Bytes-set p.bitmap f room v.bytes;
      sized = omega (arith, v.sized, length-bitmap_set p.bitmap f);
      span = v.span;
      small = v.small;
      counted = omega (arith, v.counted, fewer);
      total = omega (arith, v.total, v.counted, fewer);
      hint = v.hint;
      low = λ j l. ground (arith, here j, v.low j l);
    };
    same = record { frame_count = refl; max_phys = refl; initialized = refl };
    frames = λ j. ground (arith, here j);
  }
    where
      here : (j : ℕ) → bitmap_test (bitmap_set p.bitmap f) j ≡ (if f == j then true else used p j)
      here = bitmap_test-set p.bitmap f room v.bytes

      fewer :
          tally (bitmap_test (bitmap_set p.bitmap f)) p.frame_count + 1
          ≡ tally (used p) p.frame_count
      fewer =
          tally-flip (used p) _ p.frame_count f in_range e (ground (arith, here f))
            λ j ne. ground (arith, here j)

  clear_frame : Pmm
  clear_frame = record p {
    bitmap = bitmap_clear p.bitmap f;
    free_frames = p.free_frames + 1;
    used_frames = p.used_frames - 1;
    next_hint = if ltb f p.next_hint then f else p.next_hint;
  }

  cleared : (j : ℕ) → bitmap_test (bitmap_clear p.bitmap f) j ≡ (if f == j then false else used p j)
  cleared = bitmap_test-clear p.bitmap f room v.bytes

  one_more :
      used p f ≡ true
      → tally (used p) p.frame_count + 1
        ≡ tally (bitmap_test (bitmap_clear p.bitmap f)) p.frame_count
  one_more e =
      tally-flip _ (used p) p.frame_count f in_range (ground (arith, cleared f)) e
        λ j ne. ground (arith, cleared j)

  mark_frame_free-eq : used p f ≡ true → mark_frame_free p f ≡ clear_frame
  unfolding mark_frame_free clear_frame
  mark_frame_free-eq e = ground (
    arith,
    v.total,
    v.span,
    v.small,
    v.counted,
    one_more e,
    tally-le (bitmap_test (bitmap_clear p.bitmap f)) p.frame_count,
  )

  clear_frame-Marks : used p f ≡ true → Marks false f (suc f) p clear_frame
  unfolding clear_frame
  clear_frame-Marks e = record {
    valid = record {
      bytes = Bytes-clear p.bitmap f room v.bytes;
      sized = omega (arith, v.sized, length-bitmap_clear p.bitmap f);
      span = v.span;
      small = v.small;
      counted = omega (arith, v.counted, one_more e);
      total = omega (
        arith,
        v.total,
        v.counted,
        one_more e,
        tally-le (bitmap_test (bitmap_clear p.bitmap f)) p.frame_count,
      );
      hint = ground (arith, v.hint);
      low = λ j l. ground (arith, cleared j, v.low j);
    };
    same = record { frame_count = refl; max_phys = refl; initialized = refl };
    frames = λ j. ground (arith, cleared j);
  }

  unmoved-Marks : (b : Bool) → used p f ≡ b → Marks b f (suc f) p p
  unmoved-Marks b e = record {
    valid = v;
    same = record { frame_count = refl; max_phys = refl; initialized = refl };
    frames = λ j. elim (ℕ_discrete f j) [ yes same ↦ ground arith | no ne ↦ ground arith ];
  }

  mark_frame_used-same : used p f ≡ true → mark_frame_used p f ≡ p
  unfolding mark_frame_used
  mark_frame_used-same e = ground arith

  mark_frame_free-same : used p f ≡ false → mark_frame_free p f ≡ p
  unfolding mark_frame_free
  mark_frame_free-same e = ground arith

  -- Marking a frame used changes that frame alone, and keeps the invariant.
  pub mark_frame_used-Marks : Marks true f (suc f) p (mark_frame_used p f)
  mark_frame_used-Marks = elim (Bool-cases (used p f)) [
    | inl e ↦ rw (mark_frame_used-same e) (unmoved-Marks true e)
    | inr e ↦ rw (mark_frame_used-eq e) (set_frame-Marks e)
  ]

  -- Marking a frame free changes that frame alone, and keeps the invariant.
  pub mark_frame_free-Marks : Marks false f (suc f) p (mark_frame_free p f)
  mark_frame_free-Marks = elim (Bool-cases (used p f)) [
    | inl e ↦ rw (mark_frame_free-eq e) (clear_frame-Marks e)
    | inr e ↦ rw (mark_frame_free-same e) (unmoved-Marks false e)
  ]

  -- So does the body of the loop that reserves a range.
  pub reserve_frame-Marks : Marks true f (suc f) p (reserve_frame p f)
  unfolding reserve_frame
  reserve_frame-Marks = elim (Bool-cases (used p f)) [
    | inl e ↦ rw e mark_frame_used-Marks
    | inr e ↦ rw e (Marks-reserved _ mark_frame_used-Marks)
  ]
