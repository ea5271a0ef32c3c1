-- ===== src/Sync/Spin/Exclusion.antt =====
-- A spinlock excludes: of all processors at most one is inside, and the lock is set exactly while
-- one is.
use mathlib.Core.Path.{subst}
use safira_uraa.Base.{ℕ, ◌≡◌, ◌≢◌, refl, sym, true, arith, ◌↔◌, ◌⊎◌, inl, inr}
use safira_uraa.Base.{update}
use safira_uraa.Sync.Spin.{
  Spinlock, spin_init, spin_try_lock, spin_unlock, spin_is_locked, Pc, outside, trying, polling,
  inside, Move, call, win, lose, poll_busy, poll_free, attempt_wins, attempt_fails, leave, System,
  Step, pick, Turn, turn, start, Steps, here, next,
}

pub record Inv (l : Spinlock) (pc : ℕ → Pc) : Type 0 where
  pub unique : (i j : ℕ) → pc i ≡ inside → pc j ≡ inside → i ≡ j
  pub owned : (l.locked ≡ 0) ⊎ ((i : ℕ) × (pc i ≡ inside) × (l.locked ≡ 1))
  pub free : (i : ℕ) → pc i ≡ inside → l.locked ≡ 1

module _ {l : Spinlock} {pc : ℕ → Pc} (inv : Inv l pc) (i : ℕ) where
  open inv use {unique, owned, free}

  Move-unique :
      {p p' : Pc} {l' : Spinlock}
      → Move l p l' p'
      → pc i ≡ p
      → (a b : ℕ) → update pc i p' a ≡ inside
      → update pc i p' b ≡ inside
      → a ≡ b
  unfolding spin_try_lock spin_unlock spin_is_locked
  Move-unique call e a b ha hb = ground (arith, unique a b)
  Move-unique (win w) e a b ha hb = ground (arith, free a, free b)
  Move-unique (attempt_wins w) e a b ha hb = ground (arith, free a, free b)
  Move-unique m e a b ha hb = ground (arith, unique a b)

  Move-free :
      {p p' : Pc} {l' : Spinlock}
      → Move l p l' p'
      → pc i ≡ p
      → (a : ℕ) → update pc i p' a ≡ inside
      → l'.locked ≡ 1
  unfolding spin_try_lock spin_unlock spin_is_locked
  Move-free call e a ha = ground (arith, free a)
  Move-free leave e a ha = ground (arith, unique i a)
  Move-free m e a ha = ground (arith, free a)

  -- Some other processor is inside, and stays there.
  stays :
      {p : Pc} (p' : Pc) (word : ℕ)
      → pc i ≡ p
      → p ≢ inside
      → (l.locked ≡ 0 → word ≡ 0)
      → (l.locked ≡ 1 → word ≡ 1)
      → (word ≡ 0) ⊎ ((a : ℕ) × (update pc i p' a ≡ inside) × (word ≡ 1))
  stays p' word e ne zero_stays one_stays = elim owned [
    | inl z ↦ inl (zero_stays z)
    | inr (a, h, z) ↦ inr (a, ground arith, one_stays z)
  ]

  Move-owned :
      {p p' : Pc} {l' : Spinlock}
      → Move l p l' p'
      → pc i ≡ p
      → (l'.locked ≡ 0) ⊎ ((a : ℕ) × (update pc i p' a ≡ inside) × (l'.locked ≡ 1))
  unfolding spin_try_lock spin_unlock spin_is_locked
  Move-owned (win w) e = inr (i, ground arith, refl)
  Move-owned (attempt_wins w) e = inr (i, ground arith, refl)
  Move-owned leave e = inl refl
  Move-owned (lose f) e = stays polling 1 e (λ h. cc) (λ z. ground arith) (λ o. refl)
  Move-owned (attempt_fails f) e = stays outside 1 e (λ h. cc) (λ z. ground arith) (λ o. refl)
  Move-owned call e = stays trying l.locked e (λ h. cc) (λ z. z) (λ o. o)
  Move-owned (poll_busy b) e = stays polling l.locked e (λ h. cc) (λ z. z) (λ o. o)
  Move-owned (poll_free b) e = stays trying l.locked e (λ h. cc) (λ z. z) (λ o. o)

  Move-Inv : {p p' : Pc} {l' : Spinlock} → Move l p l' p' → pc i ≡ p → Inv l' (update pc i p')
  Move-Inv m e = record { unique = Move-unique m e; owned = Move-owned m e; free = Move-free m e }

start-Inv :
    (l : Spinlock) (class_id name : ℕ) → Inv (start l class_id name).lock (start l class_id name).pc
unfolding start spin_init
start-Inv l class_id name = record { unique = λ i j hi hj. cc; owned = inl refl; free = λ i h. cc }

Step-Inv : {s t : System} → Step s t → Inv s.lock s.pc → Inv t.lock t.pc
Step-Inv (pick i m) inv = Move-Inv inv i m refl

Steps-Inv : {s t : System} → Steps s t → Inv s.lock s.pc → Inv t.lock t.pc
Steps-Inv here inv = inv
Steps-Inv (next r st) inv = Step-Inv st (Steps-Inv r inv)

module _ {l : Spinlock} (i : ℕ) (pc : ℕ → Pc) (unset : l.locked ≡ 0) where
  polling-Move :
      {p p' : Pc} {l' : Spinlock}
      → Move l p l' p'
      → p ≡ polling
      → (update pc i p' i ≡ trying) × (l'.locked ≡ 0)
  unfolding spin_is_locked
  polling-Move (poll_busy b) e = ground (arith, b)
  polling-Move (poll_free b) e = (ground arith, unset)
  polling-Move m e = absurd (cc)

  trying-Move :
      {p p' : Pc} {l' : Spinlock} → Move l p l' p' → p ≡ trying → update pc i p' i ≡ inside
  unfolding spin_try_lock
  trying-Move (win w) e = ground arith
  trying-Move (lose w) e = ground (arith, w)
  trying-Move m e = absurd (cc)

-- A processor that polls or is at the exchange, while the lock is free.
module _ (i : ℕ) (s : System) where
  polling-Turn :
      {t : System}
      → Turn i s t
      → s.pc i ≡ polling
      → s.lock.locked ≡ 0
      → (t.pc i ≡ trying) × (t.lock.locked ≡ 0)
  polling-Turn (turn m) e unset = polling-Move i s.pc unset m e

  trying-Turn : {t : System} → Turn i s t → s.pc i ≡ trying → s.lock.locked ≡ 0 → t.pc i ≡ inside
  trying-Turn (turn m) e unset = trying-Move i s.pc unset m e

  polling_moves : s.pc i ≡ polling → s.lock.locked ≡ 0 → (t : System) × Turn i s t
  unfolding spin_is_locked
  polling_moves e unset =
      (_, turn (subst (λ p. Move s.lock p s.lock trying) (sym e) (poll_free (ground arith))))

  trying_moves : s.pc i ≡ trying → s.lock.locked ≡ 0 → (t : System) × Turn i s t
  unfolding spin_try_lock
  trying_moves e unset =
      let takes : Move s.lock (s.pc i) (spin_try_lock s.lock).1 inside =
        subst (λ p. Move s.lock p (spin_try_lock s.lock).1 inside) (sym e) (win (ground arith)) in
      (_, turn takes)

module _ (l : Spinlock) (class_id name : ℕ) {s : System}
    (run : Steps (start l class_id name) s) where
  reached : Inv s.lock s.pc
  reached = Steps-Inv run (start-Inv l class_id name)

  -- In every state that any number of processors reach from an initialised lock, at most one of
  -- them is between acquisition and release.
  pub mutual_exclusion : (i j : ℕ) → s.pc i ≡ inside → s.pc j ≡ inside → i ≡ j
  mutual_exclusion = reached.unique

  -- In every state that any number of processors reach from an initialised lock, the lock reads
  -- as locked exactly while some processor is inside.
  pub spin_is_locked_lem : (spin_is_locked s.lock ≡ true) ↔ ((i : ℕ) × (s.pc i ≡ inside))
  unfolding spin_is_locked
  spin_is_locked_lem = (some_inside, λ (i, h). ground (arith, reached.free i h))
    where
      some_inside : spin_is_locked s.lock ≡ true → (i : ℕ) × (s.pc i ≡ inside)
      some_inside e = elim reached.owned [ inl z ↦ ground arith | inr (i, h, z) ↦ (i, h) ]

  word_free : ((j : ℕ) → s.pc j ≢ inside) → s.lock.locked ≡ 0
  word_free nobody = elim reached.owned [ inl z ↦ z | inr (i, h, z) ↦ absurd (nobody i h) ]

  -- No deadlock, in every state that any number of processors reach from an initialised lock: a
  -- processor that polls while nobody is inside can move, then can move again, and is inside
  -- after any two steps of its own with no step of another processor between.
  pub waiter_enters :
      (i : ℕ)
      → s.pc i ≡ polling
      → ((j : ℕ) → s.pc j ≢ inside)
      → ((t : System) × Turn i s t)
        × ((t : System)
            → Turn i s t
            → ((u : System) × Turn i t u) × ((u : System) → Turn i t u → u.pc i ≡ inside))
  waiter_enters i e nobody =
      let unset : s.lock.locked ≡ 0 = word_free nobody in
      (
        polling_moves i s e unset,
        λ t r.
            let (at, still) = polling-Turn i s r e unset in
            (trying_moves i t at still, λ u q. trying-Turn i t q at still),
      )
