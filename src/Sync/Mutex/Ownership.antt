-- ===== src/Sync/Mutex/Ownership.antt =====
-- A mutex excludes, and its owner field names the thread that may unlock it.
use safira_uraa.Base.{ℕ, ◌≡◌, ◌≢◌, refl, Bool, true, false, arith, ◌↔◌, ◌⊎◌, inl, inr}
use safira_uraa.Base.{update}
use safira_uraa.Sync.Mutex.{
  Mutex, mutex_init, mutex_is_locked, id_of, Pc, outside, won, lost, inside, checking, clearing,
  freeing, Move, try_wins, try_loses, retry_wins, retry_loses, answer_deadlock, answer_busy,
  answer_not_owner, is_owner, free_lock, System, Step, pick, start, Steps, here, next,
}

-- A thread that has the lock word, and one whose id is stored beside it.
abbrev pub holds : Pc → Bool
holds outside = false
holds won = true
holds inside = true
holds clearing = true
holds freeing = true
holds (lost h) = h
holds (checking h) = h

abbrev pub owns : Pc → Bool
owns outside = false
owns won = false
owns inside = true
owns clearing = true
owns freeing = false
owns (lost h) = h
owns (checking h) = h

pub record Inv (m : Mutex) (pc : ℕ → Pc) : Type 0 where
  pub unique : (i j : ℕ) → holds (pc i) ≡ true → holds (pc j) ≡ true → i ≡ j
  pub held : (m.locked ≡ 0) ⊎ ((i : ℕ) × (holds (pc i) ≡ true))
  pub set : (i : ℕ) → holds (pc i) ≡ true → m.locked ≡ 1
  pub stored : (i : ℕ) → owns (pc i) ≡ true → m.owner ≡ id_of i
  pub named : (i : ℕ) → m.owner ≡ id_of i → owns (pc i) ≡ true

-- The premise of a move, for clauses that cannot name it.
abbrev Guard : {m : Mutex} {i : ℕ} {m' : Mutex} {p p' : Pc} → Move m i p m' p' → Type 0
Guard {m} (try_wins _) = m.locked ≡ 0
Guard {m} (try_loses _) = m.locked ≢ 0
Guard {m} (retry_wins _) = m.locked ≡ 0
Guard {m} (retry_loses _) = m.locked ≢ 0
Guard {m} {i} (answer_deadlock _) = m.owner ≡ id_of i
Guard {m} {i} (answer_busy _) = m.owner ≢ id_of i
Guard {m} {i} (answer_not_owner _) = m.owner ≢ id_of i
Guard {m} {i} (is_owner _) = m.owner ≡ id_of i
Guard _ = Unit

guard : {m : Mutex} {i : ℕ} {m' : Mutex} {p p' : Pc} (mv : Move m i p m' p') → Guard mv
guard (try_wins g) = g
guard (try_loses g) = g
guard (retry_wins g) = g
guard (retry_loses g) = g
guard (answer_deadlock g) = g
guard (answer_busy g) = g
guard (answer_not_owner g) = g
guard (is_owner g) = g
guard _ = tt

module _ {m : Mutex} {pc : ℕ → Pc} (inv : Inv m pc) (i : ℕ) where
  open inv use {unique, held, set, stored, named}

  Move-unique :
      {p p' : Pc} {m' : Mutex}
      → Move m i p m' p'
      → pc i ≡ p
      → (a b : ℕ) → holds (update pc i p' a) ≡ true
      → holds (update pc i p' b) ≡ true
      → a ≡ b
  Move-unique (try_wins g) e a b ha hb = ground (arith, set a, set b)
  Move-unique mv e a b ha hb =
      ground (arith, guard mv, unique a b, unique i b, unique a i, set i, named i)

  Move-set :
      {p p' : Pc} {m' : Mutex}
      → Move m i p m' p'
      → pc i ≡ p
      → (a : ℕ) → holds (update pc i p' a) ≡ true
      → m'.locked ≡ 1
  Move-set (try_wins g) e a ha = refl
  Move-set mv e a ha = ground (arith, guard mv, unique a i, set a, named i)

  Move-stored :
      {p p' : Pc} {m' : Mutex}
      → Move m i p m' p'
      → pc i ≡ p
      → (a : ℕ) → owns (update pc i p' a) ≡ true
      → m'.owner ≡ id_of a
  Move-stored (try_wins g) e a ha = ground (arith, stored a)
  Move-stored mv e a ha = ground (arith, guard mv, stored a, unique a i, named i, set i)

  Move-named :
      {p p' : Pc} {m' : Mutex}
      → Move m i p m' p'
      → pc i ≡ p
      → (a : ℕ) → m'.owner ≡ id_of a
      → owns (update pc i p' a) ≡ true
  Move-named (try_wins g) e a ha = ground (arith, named a)
  Move-named mv e a ha = ground (arith, guard mv, named a, stored i, stored a, set i)

  -- Some other thread holds the lock word, and still does.
  Move-held :
      {p p' : Pc} {m' : Mutex}
      → Move m i p m' p'
      → pc i ≡ p
      → (m'.locked ≡ 0) ⊎ ((a : ℕ) × (holds (update pc i p' a) ≡ true))
  Move-held (try_wins g) e = inr (i, ground arith)
  Move-held free_lock e = inl refl
  Move-held (retry_wins g) e = inr (i, ground arith)
  Move-held mv e = elim held [
    | inl z ↦ inl z
    | inr (a, h) ↦ inr (a, ground (arith, guard mv, named i))
  ]

  Move-Inv : {p p' : Pc} {m' : Mutex} → Move m i p m' p' → pc i ≡ p → Inv m' (update pc i p')
  Move-Inv mv e = record {
    unique = Move-unique mv e;
    held = Move-held mv e;
    set = Move-set mv e;
    stored = Move-stored mv e;
    named = Move-named mv e;
  }

start-Inv :
    (m : Mutex) (class_id name : ℕ) → Inv (start m class_id name).mutex (start m class_id name).pc
unfolding start mutex_init
start-Inv m class_id name = record {
  unique = λ i j hi hj. cc;
  held = inl refl;
  set = λ i h. cc;
  stored = λ i h. cc;
  named = λ i h. absurd (omega arith);
}

Step-Inv : {s t : System} → Step s t → Inv s.mutex s.pc → Inv t.mutex t.pc
Step-Inv (pick i m) inv = Move-Inv inv i m refl

Steps-Inv : {s t : System} → Steps s t → Inv s.mutex s.pc → Inv t.mutex t.pc
Steps-Inv here inv = inv
Steps-Inv (next r st) inv = Step-Inv st (Steps-Inv r inv)

module _ (m : Mutex) (class_id name : ℕ) {s : System} (run : Steps (start m class_id name) s) where
  reached : Inv s.mutex s.pc
  reached = Steps-Inv run (start-Inv m class_id name)

  -- In every state that any number of threads with distinct ids reach from an initialised mutex,
  -- at most one thread has the lock word, from its exchange to the store that frees the lock.
  pub one_holder : (i j : ℕ) → holds (s.pc i) ≡ true → holds (s.pc j) ≡ true → i ≡ j
  one_holder = reached.unique

  -- In every state that threads with distinct ids reach from an initialised mutex, the owner
  -- test answers rightly in spite of the races on the owner field: a thread that has lost the
  -- exchange, or is about to unlock, finds its own id exactly when it is inside.
  pub owner_test :
      (i : ℕ) (h : Bool)
      → (s.pc i ≡ lost h) ⊎ (s.pc i ≡ checking h)
      → (s.mutex.owner ≡ id_of i) ↔ (h ≡ true)
  owner_test i h at = (
    λ e. elim at [
      | inl l ↦ ground (arith, reached.named i e)
      | inr c ↦ ground (arith, reached.named i e)
    ],
    λ e. elim at [
      | inl l ↦ ground (arith, reached.stored i)
      | inr c ↦ ground (arith, reached.stored i)
    ],
  )

  -- In every state that any number of threads with distinct ids reach from an initialised mutex,
  -- the mutex reads as locked exactly while some thread has the lock word.
  pub mutex_is_locked_lem : (mutex_is_locked s.mutex ≡ true) ↔ ((i : ℕ) × (holds (s.pc i) ≡ true))
  unfolding mutex_is_locked
  mutex_is_locked_lem = (some_holder, λ (i, h). ground (arith, reached.set i h))
    where
      some_holder : mutex_is_locked s.mutex ≡ true → (i : ℕ) × (holds (s.pc i) ≡ true)
      some_holder e = elim reached.held [ inl z ↦ ground arith | inr held ↦ held ]
