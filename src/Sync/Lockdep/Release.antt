-- ===== src/Sync/Lockdep/Release.antt =====
-- `mcs_lockdep_after_release`: releases are accepted in the opposite order of the acquisitions.
use mathlib.Core.Bool.{false≢true}
use mathlib.Core.Path.{subst}
use safira_uraa.Base.{
  ℕ, zero, suc, ◌+◌, ◌-◌, ◌<◌, ◌≤◌, ◌≡◌, refl, sym, ap, ◌∙◌, false, List, [], ◌∷◌, ◌++◌, arith,
  ◌==◌, if◌then◌else◌, length, get_or, set, take, dec_lt, ℕ_discrete, ◌↔◌, length-set,
  get_or-set_self, get_or-set_ne,
}
use safira_uraa.Base.Words.{u32}
use safira_uraa.Sync.Status.{Status, ok, eperm, edeadlk, is_ok}
use safira_uraa.Sync.Lockdep.{Lockdep, violation, before_acquire, after_release}
use safira_uraa.Sync.Lockdep.Stack.{
  held, Ascends, IsValid, Admits, pushed, before_acquire-ok, pushed-IsValid, violation-IsValid,
}

Ascends-drop : (low n c : ℕ) (xs : List ℕ) → Ascends low (suc n) xs → Ascends low n (set xs n c)
Ascends-drop low zero c xs a = tt
Ascends-drop low (suc n) c [] a = elim a [ ]
Ascends-drop low (suc n) c (x ∷ xs) a = (a.0, Ascends-drop x n c xs a.1)

take-last :
    (n : ℕ) (xs : List ℕ) (c : ℕ)
    → n < length xs
    → take (suc n) xs ≡ take n (set xs n c) ++ (get_or xs n 0 ∷ [])
take-last n [] c h = absurd (omega arith)
take-last zero (x ∷ xs) c h = refl
take-last (suc n) (x ∷ xs) c h = ap (λ ys. x ∷ ys) (take-last n xs c (omega arith))

set-restore : (xs : List ℕ) (n c d : ℕ) → get_or xs n d ≡ d → set (set xs n c) n d ≡ xs
set-restore [] n c d e = refl
set-restore (x ∷ xs) zero c d e = ap (λ y. y ∷ xs) (sym e)
set-restore (x ∷ xs) (suc n) c d e = ap (λ ys. x ∷ ys) (set-restore xs n c d e)

popped : Lockdep → Lockdep
popped s = record s {
  held_class = set s.held_class (s.depth - 1) 0;
  held_name = set s.held_name (s.depth - 1) 0;
  depth = s.depth - 1;
}

-- The class at the top of the stack is `c`.
abbrev pub Tops : Lockdep → ℕ → Type 0
Tops s c = (0 < s.depth) × (get_or s.held_class (s.depth - 1) 0 ≡ c)

module _ {s : Lockdep} (v : IsValid s) (c name : ℕ) (some_class : 0 < c) where
  after_release-ok : Tops s c → after_release s c name ≡ (ok, popped s)
  unfolding after_release popped
  after_release-ok t = ground arith

  after_release-refused :
      ¬ Tops s c → after_release s c name ≡ (if s.depth == 0 then eperm else edeadlk, violation s)
  unfolding after_release
  after_release-refused t = ground (arith, t)

  popped-IsValid : Tops s c → IsValid (popped s)
  unfolding popped
  popped-IsValid t =
      let n : ℕ = s.depth - 1 in
      let whole : s.depth ≡ suc n = omega (arith, t.0) in
      record {
        classes = omega (arith, length-set s.held_class n 0, v.classes);
        names = omega (arith, length-set s.held_name n 0, v.names);
        bounded = omega (arith, v.bounded);
        ascends =
            Ascends-drop 0 n 0 s.held_class (subst (λ d. Ascends 0 d s.held_class) whole v.ascends);
        clear_class = λ i l.
            cleared s.held_class i n l (λ k. v.clear_class i (omega arith))
              (omega (arith, v.classes, v.bounded, t.0));
        clear_name = λ i l.
            cleared s.held_name i n l (λ k. v.clear_name i (omega arith))
              (omega (arith, v.names, v.bounded, t.0));
      }
    where
      cleared :
          (xs : List ℕ) (i n : ℕ)
          → n ≤ i
          → (n < i → get_or xs i 0 ≡ 0)
          → n < length xs
          → get_or (set xs n 0) i 0 ≡ 0
      cleared xs i n l above room = elim (ℕ_discrete n i) [
        | yes e ↦ rw (← e) (get_or-set_self xs n 0 0 room)
        | no ne ↦ get_or-set_ne xs n i 0 0 ne ∙ above (omega arith)
      ]

  -- What the check makes of the stack, by its status `r`.
  abbrev pub Checked : Status × Lockdep → Type 0
  Checked out =
      ((out.0 ≡ ok) ↔ Tops s c)
      × IsValid out.1
      × (held s ≡ (if is_ok out.0 then held out.1 ++ (c ∷ []) else held out.1))
      × (out.1.violation_count
          ≡ (if is_ok out.0 then s.violation_count else u32 (s.violation_count + 1)))

  accepted : (t : Tops s c) → Checked (ok, popped s)
  unfolding popped
  accepted t =
      let n : ℕ = s.depth - 1 in
      let whole : s.depth ≡ suc n = omega (arith, t.0) in
      let last = take-last n s.held_class 0 (omega (arith, v.classes, v.bounded, t.0)) in
      (
        (λ _. t, λ _. refl),
        popped-IsValid t,
        ap (λ d. take d s.held_class) whole
            ∙ last
            ∙ ap (λ x. take n (set s.held_class n 0) ++ (x ∷ [])) t.1,
        refl,
      )

  refused : (r : Status) → is_ok r ≡ false → ¬ Tops s c → Checked (r, violation s)
  refused r e t = rw e (
    (λ h. absurd (false≢true (sym e ∙ ap is_ok h)), λ h. absurd (t h)),
    violation-IsValid v c name some_class,
    refl,
    refl,
  )

  -- On a valid stack and a class that is not zero: a release is accepted exactly when the class
  -- is at the top of the stack, from which it is then taken; else the stack stays and a
  -- violation is counted. Either way the stack stays valid.
  pub after_release_lem : Checked (after_release s c name)
  after_release_lem = elim (dec_lt 0 s.depth) [
    | yes some_held ↦ elim (ℕ_discrete (get_or s.held_class (s.depth - 1) 0) c) [
      | yes here ↦ rw (after_release-ok (some_held, here)) (accepted (some_held, here))
      | no other ↦
          let t : ¬ Tops s c = λ t. other t.1 in
          rw (after_release-refused t) (refused _ (ground arith) t)
    ]
    | no empty ↦
        let t : ¬ Tops s c = λ t. empty t.0 in
        rw (after_release-refused t) (refused _ (ground arith) t)
  ]

-- On a valid stack, and for a class that is not zero and is accepted: releasing what was
-- acquired last restores the state from before, the violations included.
pub after_release-before_acquire :
    {s : Lockdep} (c name : ℕ)
    → IsValid s
    → 0 < c
    → Admits s c
    → after_release (before_acquire s c name).1 c name ≡ (ok, s)
unfolding pushed popped
after_release-before_acquire {s} c name v some_class a =
    let e : s.depth + 1 - 1 ≡ s.depth = omega arith in
    let here : get_or (set s.held_class s.depth c) (s.depth + 1 - 1) 0 ≡ c =
      rw e (get_or-set_self s.held_class s.depth c 0 (omega (arith, v.classes, a.0))) in
    rw (
      before_acquire-ok v c name some_class a,
      after_release-ok (pushed-IsValid v c name some_class a) c name some_class (omega arith, here),
      e,
      set-restore s.held_class s.depth c 0 (v.clear_class s.depth (omega arith)),
      set-restore s.held_name s.depth name 0 (v.clear_name s.depth (omega arith)),
    )
