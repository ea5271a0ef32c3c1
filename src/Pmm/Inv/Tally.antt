-- ===== src/Pmm/Inv/Tally.antt =====
-- How many numbers below a bound fail a test.
use safira_uraa.Base.{
  ℕ, zero, suc, ◌+◌, ◌<◌, ◌≤◌, ◌≡◌, ◌≢◌, refl, Bool, true, false, arith, if◌then◌else◌, ℕ_discrete,
}

pub tally : (ℕ → Bool) → ℕ → ℕ
tally g zero = 0
tally g (suc n) = tally g n + (if g n then 0 else 1)

pub tally-same : (g h : ℕ → Bool) (n : ℕ) → ((j : ℕ) → j < n → h j ≡ g j) → tally h n ≡ tally g n
unfolding tally
tally-same g h zero same = refl
tally-same g h (suc n) same = ground (arith, same n, tally-same g h n λ j l. same j (omega arith))

pub tally-le : (g : ℕ → Bool) (n : ℕ) → tally g n ≤ n
unfolding tally
tally-le g zero = omega arith
tally-le g (suc n) = ground (arith, tally-le g n)

-- One number that begins to pass lowers the tally by one.
pub tally-flip :
    (g h : ℕ → Bool) (n f : ℕ)
    → f < n
    → g f ≡ false
    → h f ≡ true
    → ((j : ℕ) → f ≢ j → h j ≡ g j)
    → tally h n + 1 ≡ tally g n
unfolding tally
tally-flip g h zero f l gf hf same = absurd (omega arith)
tally-flip g h (suc n) f l gf hf same = elim (ℕ_discrete f n) [
  | yes e ↦ ground (arith, tally-same g h n λ j b. same j (omega arith))
  | no ne ↦ ground (arith, same n ne, tally-flip g h n f (omega arith) gf hf same)
]

-- Below a bound where something fails, the tally is positive; it is zero where all pass.
pub tally-pos : (g : ℕ → Bool) (n : ℕ) (f : ℕ) → f < n → g f ≡ false → 0 < tally g n
unfolding tally
tally-pos g zero f l e = absurd (omega arith)
tally-pos g (suc n) f l e = elim (ℕ_discrete f n) [
  | yes same ↦ ground arith
  | no ne ↦ ground (arith, tally-pos g n f (omega arith) e)
]

pub tally-eq-zero : (g : ℕ → Bool) (n : ℕ) → ((j : ℕ) → j < n → g j ≡ true) → tally g n ≡ 0
unfolding tally
tally-eq-zero g zero all = refl
tally-eq-zero g (suc n) all = ground (arith, all n, tally-eq-zero g n λ j l. all j (omega arith))
