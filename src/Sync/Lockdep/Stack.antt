-- ===== src/Sync/Lockdep/Stack.antt =====
-- The classes that a context holds form a strictly ascending stack.
use safira_uraa.Base.{
  ℕ, zero, suc, ◌+◌, ◌-◌, ◌<◌, ◌≤◌, ◌≡◌, refl, sym, ap, ◌∙◌, true, false, List, [], ◌∷◌, ◌++◌,
  arith, leb, if◌then◌else◌, length, get_or, set, take, dec_lt, ℕ_discrete, ◌↔◌, length-set,
  get_or-set_ne,
}
use mathlib.Core.Bool.{false≢true}
use native.Mathlib.Numerals.{add-one}
use safira_uraa.Base.Words.{u32}
use safira_uraa.Sync.Status.{Status, ok, edeadlk, eoverflow, is_ok}
use safira_uraa.Sync.Lockdep.{Lockdep, holds_below, violation, before_acquire}

-- The classes held, the outermost first.
abbrev pub held : Lockdep → List ℕ
held s = take s.depth s.held_class

-- The first `n` entries ascend strictly from above `low`.
abbrev pub Ascends : ℕ → ℕ → List ℕ → Type 0
Ascends low zero xs = Unit
Ascends low (suc n) [] = ⊥
Ascends low (suc n) (x ∷ xs) = (low < x) × Ascends x n xs

pub record IsValid (s : Lockdep) : Type 0 where
  pub classes : length s.held_class ≡ 16
  pub names : length s.held_name ≡ 16
  pub bounded : s.depth ≤ 16
  pub ascends : Ascends 0 s.depth s.held_class
  pub clear_class : (i : ℕ) → s.depth ≤ i → get_or s.held_class i 0 ≡ 0
  pub clear_name : (i : ℕ) → s.depth ≤ i → get_or s.held_name i 0 ≡ 0

-- The class acquired last, or `low` where none is.
abbrev pub top : ℕ → ℕ → List ℕ → ℕ
top low zero xs = low
top low (suc n) [] = low
top low (suc n) (x ∷ xs) = top x n xs

top-get_or : (low n : ℕ) (xs : List ℕ) → 0 < n → n ≤ length xs → top low n xs ≡ get_or xs (n - 1) 0
top-get_or low zero xs pos h = absurd (omega arith)
top-get_or low (suc n) [] pos h = absurd (omega arith)
top-get_or low (suc zero) (x ∷ xs) pos h = refl
top-get_or low (suc (suc n)) (x ∷ xs) pos h =
    let here : suc (suc n) - 1 ≡ suc n = omega arith in
    let there : suc n - 1 ≡ n = omega arith in
    rw here (top-get_or x (suc n) xs (omega arith) (omega arith) ∙ ap (λ k. get_or xs k 0) there)

pub low-le-top : (low n : ℕ) (xs : List ℕ) → Ascends low n xs → low ≤ top low n xs
low-le-top low zero xs a = omega arith
low-le-top low (suc n) [] a = elim a [ ]
low-le-top low (suc n) (x ∷ xs) a = omega (arith, low-le-top x n xs a.1)

-- A class above the top is not yet held.
above-top :
    (low n c : ℕ) (xs : List ℕ) → Ascends low n xs → top low n xs < c → holds_below n xs c ≡ false
unfolding holds_below
above-top low zero c xs a h = refl
above-top low (suc n) c [] a h = elim a [ ]
above-top low (suc n) c (x ∷ xs) a h =
    ground (arith, low-le-top x n xs a.1, above-top x n c xs a.1 h)

-- A class that is held is at most the top.
pub holds_below-le-top :
    (low n c : ℕ) (xs : List ℕ) → Ascends low n xs → holds_below n xs c ≡ true → c ≤ top low n xs
unfolding holds_below
holds_below-le-top low zero c xs a h = ground arith
holds_below-le-top low (suc n) c [] a h = elim a [ ]
holds_below-le-top low (suc n) c (x ∷ xs) a h =
    ground (arith, low-le-top x n xs a.1, holds_below-le-top x n c xs a.1)

-- The top is held.
top-held :
    (low n : ℕ) (xs : List ℕ) → 0 < n → n ≤ length xs → holds_below n xs (top low n xs) ≡ true
unfolding holds_below
top-held low zero xs pos h = absurd (omega arith)
top-held low (suc n) [] pos h = absurd (omega arith)
top-held low (suc zero) (x ∷ xs) pos h = ground arith
top-held low (suc (suc n)) (x ∷ xs) pos h =
    ground (arith, top-held x (suc n) xs (omega arith) (omega arith))

Ascends-set :
    (low n c : ℕ) (xs : List ℕ)
    → n < length xs
    → Ascends low n xs
    → top low n xs < c
    → Ascends low (suc n) (set xs n c)
Ascends-set low zero c [] h a t = absurd (omega arith)
Ascends-set low zero c (x ∷ xs) h a t = (t, tt)
Ascends-set low (suc n) c [] h a t = elim a [ ]
Ascends-set low (suc n) c (x ∷ xs) h a t = (a.0, Ascends-set x n c xs (omega arith) a.1 t)

take-set :
    (n c : ℕ) (xs : List ℕ) → n < length xs → take (suc n) (set xs n c) ≡ take n xs ++ (c ∷ [])
take-set n c [] h = absurd (omega arith)
take-set zero c (x ∷ xs) h = refl
take-set (suc n) c (x ∷ xs) h = ap (λ ys. x ∷ ys) (take-set n c xs (omega arith))

-- What `mcs_lockdep_before_acquire` accepts: a class above all that are held, with room left.
abbrev pub Admits : Lockdep → ℕ → Type 0
Admits s c = (s.depth < 16) × (top 0 s.depth s.held_class < c)

unfoldable pub pushed : Lockdep → ℕ → ℕ → Lockdep
pushed s c name = record s {
  held_class = set s.held_class s.depth c;
  held_name = set s.held_name s.depth name;
  depth = s.depth + 1;
}

module _ {s : Lockdep} (v : IsValid s) (c name : ℕ) (some_class : 0 < c) where
  pub before_acquire-ok : Admits s c → before_acquire s c name ≡ (ok, pushed s c name)
  unfolding before_acquire pushed
  before_acquire-ok a = ground (
    arith,
    above-top 0 s.depth c s.held_class v.ascends a.1,
    top-get_or 0 s.depth s.held_class,
    v.classes,
  )

  -- An acquisition out of order is refused: nothing but the count of violations changes.
  before_acquire-refused :
      ¬ Admits s c
      → before_acquire s c name ≡ (if leb 16 s.depth then eoverflow else edeadlk, violation s)
  unfolding before_acquire
  before_acquire-refused a = elim (ℕ_discrete c (top 0 s.depth s.held_class)) [
    | yes e ↦ ground (arith, a, top-held 0 s.depth s.held_class, v.classes, v.bounded)
    | no ne ↦ ground (arith, a, top-get_or 0 s.depth s.held_class, v.classes, v.bounded)
  ]

  pub pushed-IsValid : Admits s c → IsValid (pushed s c name)
  unfolding pushed
  pushed-IsValid a = record {
    classes = omega (arith, length-set s.held_class s.depth c, v.classes);
    names = omega (arith, length-set s.held_name s.depth name, v.names);
    bounded = omega (arith, a.0);
    ascends =
        rw add-one
          (Ascends-set 0 s.depth c s.held_class (omega (arith, v.classes, a.0)) v.ascends a.1);
    clear_class = λ i l.
        get_or-set_ne s.held_class s.depth i c 0 (omega arith) ∙ v.clear_class i (omega arith);
    clear_name = λ i l.
        get_or-set_ne s.held_name s.depth i name 0 (omega arith) ∙ v.clear_name i (omega arith);
  }

  pub violation-IsValid : IsValid (violation s)
  violation-IsValid = record {
    classes = v.classes;
    names = v.names;
    bounded = v.bounded;
    ascends = v.ascends;
    clear_class = v.clear_class;
    clear_name = v.clear_name;
  }

  -- What the check makes of the stack, by its status `r`.
  abbrev pub Checked : Status × Lockdep → Type 0
  Checked out =
      ((out.0 ≡ ok) ↔ Admits s c)
      × IsValid out.1
      × (held out.1 ≡ (if is_ok out.0 then held s ++ (c ∷ []) else held s))
      × (out.1.violation_count
          ≡ (if is_ok out.0 then s.violation_count else u32 (s.violation_count + 1)))

  accepted : (a : Admits s c) → Checked (ok, pushed s c name)
  unfolding pushed
  accepted a = (
    (λ _. a, λ _. refl),
    pushed-IsValid a,
    rw add-one (take-set s.depth c s.held_class (omega (arith, v.classes, a.0))),
    refl,
  )

  refused : (r : Status) → is_ok r ≡ false → ¬ Admits s c → Checked (r, violation s)
  refused r e a = rw e (
    (λ h. absurd (false≢true (sym e ∙ ap is_ok h)), λ h. absurd (a h)),
    violation-IsValid,
    refl,
    refl,
  )

  -- On a valid stack and a class that is not zero: the class is accepted exactly when it is
  -- above every class held and there is room for it. It is then pushed on the stack; else the
  -- stack stays and a violation is counted. Either way the stack stays strictly ascending.
  pub before_acquire_lem : Checked (before_acquire s c name)
  before_acquire_lem = elim (dec_lt s.depth 16) [
    | yes room ↦ elim (dec_lt (top 0 s.depth s.held_class) c) [
      | yes above ↦ rw (before_acquire-ok (room, above)) (accepted (room, above))
      | no below ↦
          let a : ¬ Admits s c = λ a. below a.1 in
          rw (before_acquire-refused a) (refused _ (ground arith) a)
    ]
    | no full ↦
        let a : ¬ Admits s c = λ a. full a.0 in
        rw (before_acquire-refused a) (refused _ (ground arith) a)
  ]
