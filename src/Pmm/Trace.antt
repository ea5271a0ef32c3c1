-- ===== src/Pmm/Trace.antt =====
-- A client's calls on the allocator of src/pmm.c, against the abstract set of used frames.
use safira_uraa.Base.{
  ℕ, ◌+◌, ◌/◌, ◌^◌, ◌<◌, ◌≡◌, refl, sym, ap, ◌∙◌, Bool, true, false, ◌&&◌, none, some, List, [],
  ◌∷◌, arith, ◌==◌, ◌!=◌, if◌then◌else◌, Bool-cases, Option-cases, inl, inr,
}
use mathlib.Core.Path.{ap₂}
use safira_uraa.Base.Words.{and_page}
use safira_uraa.Pmm.{
  Pmm, used, invalid_frame, alloc_frame, free_frame, reserve_range, is_frame_free, mark_range_used,
}
use safira_uraa.Pmm.Inv.{IsValid, Same}
use safira_uraa.Pmm.Range.{mark_range_used-Becomes}
use safira_uraa.Pmm.Spec
use safira_uraa.Pmm.Spec.{
  Op, alloc, free, reserve, is_free, Reply, address, nothing, done, lowest, lowest-some,
  lowest-cong, is_frame,
}
use safira_uraa.Pmm.Alloc.{
  alloc_frame-some, alloc_frame-none, take_frame-Flips, frees, free_frame-eq, freed-Flips,
}

-- What a client sees of an address that it is given.
abbrev pub seen : ℕ → Reply
seen a = if a == invalid_frame then nothing else address a

pub call : Pmm → Op → Reply × Pmm
call p alloc = let (a, q) = alloc_frame p in (seen a, q)
call p (free a) = let (ok, q) = free_frame p a in (done ok, q)
call p (reserve base length) = let (ok, q) = reserve_range p base length in (done ok, q)
call p (is_free a) = (done (is_frame_free p a), p)

pub calls : Pmm → List Op → List Reply
calls p [] = []
calls p (op ∷ ops) = let (reply, q) = call p op in reply ∷ calls q ops

-- The ranges that the client reserves end below the last page of the address space.
abbrev pub Fits : Op → Type 0
Fits (reserve base length) = base + length + 4095 < 2 ^ 64
Fits _ = Unit

abbrev pub AllFit : List Op → Type 0
AllFit [] = Unit
AllFit (op ∷ ops) = Fits op × AllFit ops

-- A call answers as the abstract step does, and leaves a valid state with its set of frames.
record Agrees (p : Pmm) (u : ℕ → Bool) (here : Reply × Pmm) (there : Reply × (ℕ → Bool))
    : Type 0 where
  reply : here.0 ≡ there.0
  valid : IsValid here.1
  same : Same p here.1
  frames : (j : ℕ) → j < p.frame_count → used here.1 j ≡ there.1 j

module _ {p : Pmm} (v : IsValid p) (on : p.initialized ≡ true) (u : ℕ → Bool)
    (view : (j : ℕ) → j < p.frame_count → used p j ≡ u j) where
  itself : Same p p
  itself = record { frame_count = refl; max_phys = refl; initialized = refl }

  alloc-Agrees : Agrees p u (call p alloc) (Spec.step p.frame_count u alloc)
  unfolding call Spec.step
  alloc-Agrees = elim (Option-cases (lowest (used p) p.frame_count)) [
    | inl none_left ↦
        let there : lowest u p.frame_count ≡ none =
          sym (lowest-cong (used p) u p.frame_count view) ∙ none_left in
        rw (there, Spec.step, alloc_frame-none v on none_left)
          (record { reply = refl; valid = v; same = itself; frames = view })
    | inr (f, some_left) ↦
        let there : lowest u p.frame_count ≡ some f =
          sym (lowest-cong (used p) u p.frame_count view) ∙ some_left in
        let (in_range, unset, below) = lowest-some (used p) p.frame_count some_left in
        let (at, m) = take_frame-Flips v in_range below in
        rw (there, Spec.step, alloc_frame-some v on some_left, at)
          (record {
            reply = ground arith;
            valid = m.valid;
            same = m.same;
            frames = λ j l. ground (arith, m.frames j, view j l);
          })
  ]

  free-Agrees : (a : ℕ) → Agrees p u (call p (free a)) (Spec.step p.frame_count u (free a))
  unfolding call Spec.step
  free-Agrees a = elim (Bool-cases (frees p a)) [
    | inl e ↦
        let m = freed-Flips v on a e in
        let there : (is_frame p.frame_count a && (a != 0 && u (a / 4096))) ≡ true =
          ground (arith, view (a / 4096)) in
        rw (there, free_frame-eq v on a, e)
          (record {
            reply = refl;
            valid = m.valid;
            same = m.same;
            frames = λ j l. ground (arith, m.frames j, view j l);
          })
    | inr e ↦
        let there : (is_frame p.frame_count a && (a != 0 && u (a / 4096))) ≡ false =
          ground (arith, view (a / 4096)) in
        rw (there, free_frame-eq v on a, e)
          (record { reply = refl; valid = v; same = itself; frames = view })
  ]

  reserve_range-eq :
      (base length : ℕ)
      → reserve_range p base length
        ≡ (if length == 0 then (false, p) else (true, mark_range_used p base length))
  unfolding reserve_range
  reserve_range-eq base length = ground arith

  reserve-Agrees :
      (base length : ℕ)
      → base + length + 4095 < 2 ^ 64
      → Agrees p u (call p (reserve base length)) (Spec.step p.frame_count u (reserve base length))
  unfolding call Spec.step
  reserve-Agrees base length fits = elim (Bool-cases (length == 0)) [
    | inl e ↦
        rw (reserve_range-eq base length, e)
          (record {
            reply = ground arith;
            valid = v;
            same = itself;
            frames = λ j l. ground (arith, view j l);
          })
    | inr e ↦
        let m = mark_range_used-Becomes v base length fits in
        rw (reserve_range-eq base length, e)
          (record {
            reply = ground arith;
            valid = m.valid;
            same = m.same;
            frames = λ j l. ground (arith, m.frames j l, view j l);
          })
  ]

  is_free-Agrees : (a : ℕ) → Agrees p u (call p (is_free a)) (Spec.step p.frame_count u (is_free a))
  unfolding call Spec.step is_frame_free
  is_free-Agrees a = record {
    reply = ground (arith, and_page a, v.span, view (a / 4096));
    valid = v;
    same = itself;
    frames = view;
  }

  call-Agrees : (op : Op) → Fits op → Agrees p u (call p op) (Spec.step p.frame_count u op)
  call-Agrees alloc fits = alloc-Agrees
  call-Agrees (free a) fits = free-Agrees a
  call-Agrees (reserve base length) fits = reserve-Agrees base length fits
  call-Agrees (is_free a) fits = is_free-Agrees a

calls-eq-run :
    (ops : List Op) {p : Pmm} (u : ℕ → Bool)
    → AllFit ops
    → IsValid p
    → p.initialized ≡ true
    → ((j : ℕ) → j < p.frame_count → used p j ≡ u j)
    → calls p ops ≡ Spec.run p.frame_count u ops
unfolding calls Spec.run
calls-eq-run [] u fit v on view = refl
calls-eq-run (op ∷ ops) {p} u fit v on view =
    let now = call-Agrees v on u view op fit.0 in
    let rest =
      calls-eq-run ops (Spec.step p.frame_count u op).1 fit.1 now.valid (now.same.initialized ∙ on)
        λ j l. now.frames j (omega (arith, now.same.frame_count)) in
    ap₂ ◌∷◌ now.reply
      (rest ∙ ap (λ n. Spec.run n (Spec.step p.frame_count u op).1 ops) now.same.frame_count)

-- No sequence of calls whose reserved ranges end below the last page tells a valid, initialised
-- allocator from the abstract set of its used frames.
pub calls_refine :
    (ops : List Op) {p : Pmm}
    → AllFit ops
    → IsValid p
    → p.initialized ≡ true
    → calls p ops ≡ Spec.run p.frame_count (used p) ops
calls_refine ops {p} fit v on = calls-eq-run ops (used p) fit v on λ j l. refl
