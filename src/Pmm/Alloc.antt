-- ===== src/Pmm/Alloc.antt =====
-- `pmm_alloc_frame` hands out the lowest free frame, and `pmm_free_frame` takes one back.
use safira_uraa.Base.{
  ℕ, zero, suc, ◌+◌, ◌-◌, ◌*◌, ◌/◌, ◌%◌, ◌<◌, ◌≤◌, ◌≡◌, ◌≢◌, refl, ap, ◌∙◌, Bool, true, false, not,
  ◌&&◌, ◌||◌, none, some, arith, ◌==◌, ◌!=◌, if◌then◌else◌, Bool-cases, Option-cases, inl, inr,
  dec_lt, ℕ_discrete, ◌↔◌, ◌⊎◌,
}
use safira_uraa.Base.Words.{u64, and_page}
use safira_uraa.Pmm.{
  Pmm, used, invalid_frame, first_free, take_frame, alloc_frame, free_frame, mark_frame_free,
}
use safira_uraa.Pmm.Inv.{IsValid, Same, Marks, mark_frame_used-Marks, mark_frame_free-Marks}
use safira_uraa.Pmm.Inv.Tally.{tally, tally-pos, tally-eq-zero, tally-flip}
use safira_uraa.Pmm.Spec.{is_frame, lowest, lowest-some, lowest-none}

first_free-some :
    (p : Pmm) (fuel f limit g : ℕ)
    → f ≤ g
    → g < limit
    → limit - f < fuel
    → used p g ≡ false
    → ((j : ℕ) → j < g → used p j ≡ true)
    → first_free p fuel f limit ≡ some g
unfolding first_free
first_free-some p zero f limit g le lt enough free below = absurd (omega arith)
first_free-some p (suc fuel) f limit g le lt enough free below = elim (ℕ_discrete f g) [
  | yes e ↦ ground arith
  | no ne ↦ ground (
    arith,
    below f (omega arith),
    first_free-some p fuel (f + 1) limit g (omega arith) lt (omega arith) free below,
  )
]

first_free-none :
    (p : Pmm) (fuel f limit : ℕ)
    → ((j : ℕ) → j < limit → used p j ≡ true)
    → first_free p fuel f limit ≡ none
unfolding first_free
first_free-none p zero f limit all = refl
first_free-none p (suc fuel) f limit all = elim (dec_lt f limit) [
  | yes l ↦ ground (arith, all f l, first_free-none p fuel (f + 1) limit all)
  | no m ↦ ground arith
]

-- What a change of one frame gives.
pub record Flips (b : Bool) (f : ℕ) (p q : Pmm) : Type 0 where
  pub valid : IsValid q
  pub same : Same p q
  pub frames : (j : ℕ) → used q j ≡ (if f == j then b else used p j)

Flips-of_Marks : {b : Bool} {f : ℕ} {p q : Pmm} → Marks b f (suc f) p q → Flips b f p q
Flips-of_Marks {f} m = record {
  valid = m.valid;
  same = m.same;
  frames = λ j. ground (arith, m.frames j);
}

-- A frame that becomes used is one free frame less.
Flips-counts :
    {p q : Pmm} {f : ℕ}
    → IsValid p
    → f < p.frame_count
    → used p f ≡ false
    → Flips true f p q
    → q.free_frames + 1 ≡ p.free_frames
Flips-counts {p} {q} {f} v l unset m = omega (
  arith,
  v.counted,
  m.valid.counted,
  ap (tally (used q)) m.same.frame_count,
  tally-flip (used p) (used q) p.frame_count f l unset (ground (arith, m.frames f))
      λ j ne. ground (arith, m.frames j),
)

-- The frame that the search has found is marked, and the hint moves behind it.
pub take_frame-Flips :
    {p : Pmm} (v : IsValid p) {f : ℕ}
    → f < p.frame_count
    → ((j : ℕ) → j < f → used p j ≡ true)
    → ((take_frame p f).0 ≡ f * 4096) × Flips true f p (take_frame p f).1
unfolding take_frame
take_frame-Flips {p} v {f} l below =
    let m = mark_frame_used-Marks v f l in
    let next : u64 (f + 1) ≡ f + 1 = omega (arith, v.span, v.small) in
    let address : u64 (f * 4096) ≡ f * 4096 = omega (arith, v.span, v.small) in
    rw (next, address)
      (
        refl,
        record {
          valid = record {
            bytes = m.valid.bytes;
            sized = m.valid.sized;
            span = m.valid.span;
            small = m.valid.small;
            counted = m.valid.counted;
            total = m.valid.total;
            hint = omega (arith, m.same.frame_count);
            low = λ j k. ground (arith, m.frames j, below j);
          };
          same = record {
            frame_count = m.same.frame_count;
            max_phys = m.same.max_phys;
            initialized = m.same.initialized;
          };
          frames = λ j. ground (arith, m.frames j);
        },
      )

module _ {p : Pmm} (v : IsValid p) (on : p.initialized ≡ true) where
  -- No frame below the hint is free.
  hint_below : {f : ℕ} → f < p.frame_count → used p f ≡ false → p.next_hint ≤ f
  hint_below {f} l unset = elim (dec_lt f p.next_hint) [
    | yes below ↦ ground (arith, v.low f below)
    | no m ↦ omega arith
  ]

  pub alloc_frame-some :
      {f : ℕ} → lowest (used p) p.frame_count ≡ some f → alloc_frame p ≡ take_frame p f
  unfolding alloc_frame
  alloc_frame-some {f} e =
      let (in_range, unset, below) = lowest-some (used p) p.frame_count e in
      let after_hint : p.next_hint ≤ f = hint_below in_range unset in
      let open_test : (not p.initialized || p.free_frames == 0) ≡ false =
        ground (arith, v.counted, tally-pos (used p) p.frame_count f in_range unset) in
      rw (
        open_test,
        first_free-some p (suc p.frame_count) p.next_hint p.frame_count f after_hint in_range
            (omega arith) unset below,
      )

  pub alloc_frame-none : lowest (used p) p.frame_count ≡ none → alloc_frame p ≡ (invalid_frame, p)
  unfolding alloc_frame
  alloc_frame-none e =
      let all_used = lowest-none (used p) p.frame_count e in
      let no_free : p.free_frames ≡ 0 = v.counted ∙ tally-eq-zero _ _ all_used in ground arith

module _ {p : Pmm} (v : IsValid p) (on : p.initialized ≡ true) where
  found : 0 < p.free_frames → (f : ℕ) × (lowest (used p) p.frame_count ≡ some f)
  found some_free = elim (Option-cases (lowest (used p) p.frame_count)) [
    | inl none_left ↦ absurd (
        omega (
          arith,
          v.counted,
          tally-eq-zero (used p) p.frame_count (lowest-none (used p) p.frame_count none_left),
        ))
    | inr some_left ↦ some_left
  ]

  -- While a frame of a valid, initialised allocator is free, the allocation returns the address
  -- of the lowest free frame, marks that frame and no other, counts it, and keeps the invariant.
  pub alloc_frame_lem :
      0 < p.free_frames
      → let (address, q) = alloc_frame p in
        (f : ℕ) × (lowest (used p) p.frame_count ≡ some f)
        × (address ≡ f * 4096)
        × IsValid q
        × (q.free_frames + 1 ≡ p.free_frames)
        × ((j : ℕ) → used q j ≡ (if f == j then true else used p j))
  alloc_frame_lem some_free =
      let (f, e) = found some_free in
      let (in_range, unset, below) = lowest-some (used p) p.frame_count e in
      let taken = take_frame-Flips v in_range below in
      rw (alloc_frame-some v on e)
        (f, e, taken.0, taken.1.valid, Flips-counts v in_range unset taken.1, taken.1.frames)

  -- On a valid, initialised allocator, allocation fails exactly when no frame is free, and then,
  -- and only then, changes nothing.
  pub alloc_frame_fails :
      (((alloc_frame p).0 ≡ invalid_frame) ↔ (p.free_frames ≡ 0))
      × ((alloc_frame p ≡ (invalid_frame, p)) ↔ (p.free_frames ≡ 0))
  alloc_frame_fails = elim (Option-cases (lowest (used p) p.frame_count)) [
    | inl none_left ↦
        let no_free : p.free_frames ≡ 0 =
          v.counted ∙ tally-eq-zero _ _ (lowest-none (used p) p.frame_count none_left) in
        rw (alloc_frame-none v on none_left) ((λ _. no_free, λ _. refl), (λ _. no_free, λ _. refl))
    | inr (f, some_left) ↦
        let (in_range, unset, below) = lowest-some (used p) p.frame_count some_left in
        let some_free : 0 < p.free_frames =
          omega (arith, v.counted, tally-pos (used p) p.frame_count f in_range unset) in
        let address = (take_frame-Flips v in_range below).0 in
        rw (alloc_frame-some v on some_left) (
          (λ e. absurd (omega arith), λ e. absurd (omega arith)),
          (λ e. absurd (omega (arith, ap (λ (r : ℕ × Pmm). r.0) e)), λ e. absurd (omega arith)),
        )
  ]

-- The test that `pmm_free_frame` comes down to.
abbrev pub frees : Pmm → ℕ → Bool
frees p a = is_frame p.frame_count a && (a != 0 && used p (a / 4096))

module _ {p : Pmm} (v : IsValid p) (on : p.initialized ≡ true) (a : ℕ) where
  pub free_frame-eq :
      free_frame p a ≡ (if frees p a then (true, mark_frame_free p (a / 4096)) else (false, p))
  unfolding free_frame
  free_frame-eq = ground (arith, and_page a, v.span)

  pub freed-Flips : frees p a ≡ true → Flips false (a / 4096) p (mark_frame_free p (a / 4096))
  freed-Flips e = Flips-of_Marks (mark_frame_free-Marks v (a / 4096) (ground arith))

  -- On a valid, initialised allocator, pmm_free_frame accepts exactly the address of a used
  -- frame other than frame 0, which it then frees and no other; it keeps the invariant, and
  -- changes nothing where it refuses.
  pub free_frame_lem :
      (j : ℕ)
      → let (ok, q) = free_frame p a in
        ((ok ≡ true) ↔ ((a % 4096 ≡ 0) × (a ≢ 0) × (a < p.max_phys) × (used p (a / 4096) ≡ true)))
        × IsValid q
        × (used q j ≡ (if ok && a / 4096 == j then false else used p j))
        × ((ok ≡ true) ⊎ (free_frame p a ≡ (false, p)))
  free_frame_lem j = elim (Bool-cases (frees p a)) [
    | inl e ↦
        let m = freed-Flips e in
        rw (free_frame-eq, e)
          ((λ _. ground (arith, v.span), λ _. refl), m.valid, m.frames j, inl refl)
    | inr e ↦ rw (free_frame-eq, e) ((λ h. cc, ground (arith, v.span)), v, refl, inr refl)
  ]
