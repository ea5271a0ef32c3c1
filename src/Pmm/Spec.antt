-- ===== src/Pmm/Spec.antt =====
-- What a frame allocator promises: a set of used frames, given as a test, out of which the lowest
-- free frame is handed out; and the calls of a client with the replies it sees.
use safira_uraa.Base.{
  ℕ, zero, suc, ◌*◌, ◌/◌, ◌%◌, ◌<◌, ◌≡◌, refl, Bool, true, false, not, ◌&&◌, ◌||◌, Option, none,
  some, List, [], ◌∷◌, arith, ltb, ◌==◌, ◌!=◌, if◌then◌else◌, Option-cases, inl, inr, ℕ_discrete,
}
use safira_uraa.Pmm.Range.{overlaps}

pub data Op : Type 0 where
  alloc : Op
  free : ℕ → Op
  reserve : ℕ → ℕ → Op
  is_free : ℕ → Op

pub data Reply : Type 0 where
  address : ℕ → Reply
  nothing : Reply
  done : Bool → Reply

-- The lowest number below `n` that fails the test.
unfoldable pub lowest : (ℕ → Bool) → ℕ → Option ℕ
lowest u zero = none
lowest u (suc n) = elim (lowest u n) [ some f ↦ some f | none ↦ if u n then none else some n ]

-- A frame's address is a multiple of the page size below the end of memory.
abbrev pub is_frame : ℕ → ℕ → Bool
is_frame n a = a % 4096 == 0 && ltb a (n * 4096)

unfoldable pub step : ℕ → (ℕ → Bool) → Op → Reply × (ℕ → Bool)
step n u alloc = elim (lowest u n) [
  | some f ↦ (address (f * 4096), λ j. if f == j then true else u j)
  | none ↦ (nothing, u)
]
step n u (free a) =
    if is_frame n a && (a != 0 && u (a / 4096))
    then (done true, λ j. if a / 4096 == j then false else u j)
    else (done false, u)
step n u (reserve base length) = (done (length != 0), λ j. u j || overlaps base length j)
step n u (is_free a) = (done (is_frame n a && not (u (a / 4096))), u)

unfoldable pub run : ℕ → (ℕ → Bool) → List Op → List Reply
run n u [] = []
run n u (op ∷ ops) = let (reply, u') = step n u op in reply ∷ run n u' ops

pub lowest-none : (u : ℕ → Bool) (n : ℕ) → lowest u n ≡ none → (j : ℕ) → j < n → u j ≡ true
unfolding lowest
lowest-none u zero e j l = absurd (omega arith)
lowest-none u (suc n) e j l = elim (Option-cases (lowest u n)) [
  | inl none_below ↦ elim (ℕ_discrete j n) [
    | yes same ↦ ground arith
    | no ne ↦ lowest-none u n none_below j (omega arith)
  ]
  | inr (f, found) ↦ ground arith
]

pub lowest-some :
    (u : ℕ → Bool) (n : ℕ) {f : ℕ}
    → lowest u n ≡ some f
    → (f < n) × (u f ≡ false) × ((j : ℕ) → j < f → u j ≡ true)
unfolding lowest
lowest-some u zero e = ground arith
lowest-some u (suc n) {f} e = elim (Option-cases (lowest u n)) [
  | inl none_below ↦
      let here : f ≡ n = ground arith in
      (omega arith, ground arith, λ j l. lowest-none u n none_below j (omega arith))
  | inr (g, found) ↦
      let same : g ≡ f = ground arith in
      let ih = lowest-some u n found in
      (omega (arith, ih.0), ground (arith, ih.1), λ j l. ih.2 j (omega arith))
]

-- The search sees only what the test says below the bound.
pub lowest-cong : (u v : ℕ → Bool) (n : ℕ) → ((j : ℕ) → j < n → u j ≡ v j) → lowest u n ≡ lowest v n
unfolding lowest
lowest-cong u v zero same = refl
lowest-cong u v (suc n) same = ground (arith, lowest-cong u v n λ j l. same j (omega arith), same n)
