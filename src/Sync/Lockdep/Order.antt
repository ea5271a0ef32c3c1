-- ===== src/Sync/Lockdep/Order.antt =====
-- Contexts that ask `mcs_lockdep_before_acquire` before each acquisition cannot wait for one another
-- in a circle.
use mathlib.Core.Path.{subst}
use safira_uraa.Base.{
  ℕ, zero, suc, ◌-◌, ◌<◌, ◌≡◌, refl, true, List, [], ◌∷◌, arith, get_or, replicate,
}
use safira_uraa.Sync.Lockdep.{Lockdep, init, holds_below, before_acquire, after_release}
use safira_uraa.Sync.Lockdep.Stack.{Ascends, IsValid, top, low-le-top, before_acquire_lem}
use safira_uraa.Sync.Lockdep.Release.{after_release_lem}

-- What a context does to its own state.
pub data Act : Type 0 where
  acquire : (class_id name : ℕ) → Act
  release : (class_id name : ℕ) → Act

unfoldable pub act : Lockdep → Act → Lockdep
act s (acquire c name) = (before_acquire s c name).1
act s (release c name) = (after_release s c name).1

unfoldable pub acts : Lockdep → List Act → Lockdep
acts s [] = s
acts s (a ∷ rest) = acts (act s a) rest

zeros : (n i : ℕ) → get_or {A = ℕ} (replicate n 0) i 0 ≡ 0
zeros zero i = refl
zeros (suc n) zero = refl
zeros (suc n) (suc i) = zeros n i

pub init-IsValid : IsValid init
init-IsValid = record {
  classes = omega arith;
  names = omega arith;
  bounded = omega arith;
  ascends = tt;
  clear_class = λ i l. zeros 16 i;
  clear_name = λ i l. zeros 16 i;
}

act-IsValid : {s : Lockdep} (a : Act) → IsValid s → IsValid (act s a)
unfolding act before_acquire after_release
act-IsValid (acquire zero name) v = v
act-IsValid (acquire (suc c) name) v = (before_acquire_lem v (suc c) name (omega arith)).1
act-IsValid (release zero name) v = v
act-IsValid (release (suc c) name) v = (after_release_lem v (suc c) name (omega arith)).1

-- Every state that a sequence of calls reaches from a valid one is a strictly ascending stack.
pub acts-IsValid : (calls : List Act) {s : Lockdep} → IsValid s → IsValid (acts s calls)
unfolding acts
acts-IsValid [] v = v
acts-IsValid (a ∷ rest) v = acts-IsValid rest (act-IsValid a v)

-- Context `i` has asked for a class that `before_acquire` has pushed, and waits for its lock, which
-- context `j` holds: among its classes below the one that it waits for itself.
abbrev pub wanted : Lockdep → ℕ
wanted s = top 0 s.depth s.held_class

pub data WaitsFor (contexts : ℕ → Lockdep) : ℕ → ℕ → Type 0 where
  waits :
      {i j : ℕ}
      → 0 < (contexts j).depth
      → holds_below ((contexts j).depth - 1) (contexts j).held_class (wanted (contexts i)) ≡ true
      → WaitsFor contexts i j

pub data Chain (contexts : ℕ → Lockdep) : ℕ → ℕ → Type 0 where
  one : {i j : ℕ} → WaitsFor contexts i j → Chain contexts i j
  more : {i j k : ℕ} → WaitsFor contexts i j → Chain contexts j k → Chain contexts i k

top-above : (low n : ℕ) (xs : List ℕ) → Ascends low (suc n) xs → low < top low (suc n) xs
top-above low n [] a = elim a [ ]
top-above low n (x ∷ xs) a = omega (arith, low-le-top x n xs a.1)

-- What is held below the top lies strictly below it.
below-top :
    (low n c : ℕ) (xs : List ℕ)
    → Ascends low (suc n) xs
    → holds_below n xs c ≡ true
    → c < top low (suc n) xs
unfolding holds_below
below-top low zero c xs a h = cc
below-top low (suc n) c [] a h = elim a [ ]
below-top low (suc n) c (x ∷ xs) a h = ground (arith, top-above x n xs a.1, below-top x n c xs a.1)

module _ {contexts : ℕ → Lockdep} (valid : (i : ℕ) → IsValid (contexts i)) where
  -- Each context waits for a higher class than the one before it.
  waits-lt : {i j : ℕ} → WaitsFor contexts i j → wanted (contexts i) < wanted (contexts j)
  waits-lt {j} (waits some_held h) =
      let n : ℕ = (contexts j).depth - 1 in
      let whole : (contexts j).depth ≡ suc n = omega arith in
      rw whole (
        below-top 0 n _ (contexts j).held_class
          (subst (λ d. Ascends 0 d (contexts j).held_class) whole (valid j).ascends) h)

  Chain-lt : {i j : ℕ} → Chain contexts i j → wanted (contexts i) < wanted (contexts j)
  Chain-lt (one w) = waits-lt w
  Chain-lt (more w c) = omega (arith, waits-lt w, Chain-lt c)

-- No circle of contexts, each waiting for a class that the next one holds, can form among
-- contexts whose states come from any sequences of checked acquisitions and releases.
pub no_wait_cycle : (calls : ℕ → List Act) (i : ℕ) → ¬ Chain (λ k. acts init (calls k)) i i
no_wait_cycle calls i c =
    absurd (omega (arith, Chain-lt (λ k. acts-IsValid (calls k) init-IsValid) c))
