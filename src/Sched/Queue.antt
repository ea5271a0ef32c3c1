-- ===== src/Sched/Queue.antt =====
-- The list of threads that the links of mcsos/kernel/mcsos_thread.c stand for, and the invariant of
-- the scheduler.
use safira_uraa.Base.{
  ℕ, ◌≡◌, ◌≢◌, refl, sym, ap, ◌∙◌, Bool, true, false, ◌||◌, List, [], ◌∷◌, ◌++◌, length, arith,
  ◌==◌, update, update_ne, ℕ_discrete, inl, inr, Bool-cases,
}
use mathlib.Core.Path.{subst}
use safira_uraa.Sched.{State, ready, Thread, Threads, Machine, thread_magic}

abbrev pub has : ℕ → List ℕ → Bool
has a [] = false
has a (x ∷ xs) = a == x || has a xs

abbrev pub Distinct : List ℕ → Type 0
Distinct [] = Unit
Distinct (x ∷ xs) = (has x xs ≡ false) × Distinct xs

abbrev pub last_or : ℕ → List ℕ → ℕ
last_or d [] = d
last_or d (x ∷ xs) = last_or x xs

-- A thread object in a state.
abbrev pub Is : Threads → State → ℕ → Type 0
Is threads s t = (t ≢ 0) × ((threads t).magic ≡ thread_magic) × ((threads t).state ≡ s)

-- From `p` the links lead through the ready threads `q` to NULL.
abbrev pub Queue : Threads → ℕ → List ℕ → Type 0
Queue threads p [] = p ≡ 0
Queue threads p (x ∷ xs) = (p ≡ x) × Is threads ready x × Queue threads (threads x).next xs

-- The queue of the scheduler is `q`.
pub record Linked (m : Machine) (q : List ℕ) : Type 0 where
  pub live : m.sched.initialized ≢ 0
  pub queue : Queue m.threads m.sched.ready_head q
  pub tail : m.sched.ready_tail ≡ last_or 0 q
  pub count : m.sched.runnable_count ≡ length q
  pub distinct : Distinct q

pub last-member : (x : ℕ) (xs : List ℕ) → has (last_or x xs) (x ∷ xs) ≡ true
last-member x [] = ground arith
last-member x (y ∷ ys) = ground (arith, last-member y ys)

pub member_ready :
    (threads : Threads) (p a : ℕ) (q : List ℕ)
    → Queue threads p q
    → has a q ≡ true
    → Is threads ready a
member_ready threads p a [] h e = absurd (ground arith)
member_ready threads p a (x ∷ xs) (_, is, h) e = elim (ℕ_discrete a x) [
  | yes same ↦ subst (Is threads ready) (sym same) is
  | no other ↦ member_ready threads (threads x).next a xs h (ground arith)
]

-- A thread in another state is not in the queue.
pub not_member :
    (threads : Threads) (p a : ℕ) (q : List ℕ)
    → Queue threads p q
    → (threads a).state ≢ ready
    → has a q ≡ false
not_member threads p a q h other = elim (Bool-cases (has a q)) [
  | inl e ↦ absurd (other (member_ready threads p a q h e).2)
  | inr e ↦ e
]

-- What the queue reads of a thread.
abbrev pub SameLinks : Thread → Thread → Type 0
SameLinks a b = (a.magic ≡ b.magic) × (a.state ≡ b.state) × (a.next ≡ b.next)

-- A queue survives what spares the links and the states of its own threads.
pub Queue-frame :
    (threads after : Threads) (p : ℕ) (q : List ℕ)
    → Queue threads p q
    → ((a : ℕ) → has a q ≡ true → SameLinks (after a) (threads a))
    → Queue after p q
Queue-frame threads after p [] h same = h
Queue-frame threads after p (x ∷ xs) (e, is, h) same =
    let (magic, state, next) = same x (ground arith) in
    (
      e,
      (is.0, magic ∙ is.1, state ∙ is.2),
      rw next (Queue-frame threads after (threads x).next xs h (λ a i. same a (ground arith))),
    )

pub Queue-update :
    (threads : Threads) (p a : ℕ) (t : Thread) (q : List ℕ)
    → Queue threads p q
    → has a q ≡ false
    → Queue (update threads a t) p q
Queue-update threads p a t q h out = Queue-frame threads (update threads a t) p q h λ b i.
    let same = update_ne threads a t b (λ e. ground (arith, i, out, ap (λ c. has c q) e)) in
    (ap (λ z. z.magic) same, ap (λ z. z.state) same, ap (λ z. z.next) same)

abbrev pub link : Threads → ℕ → ℕ → Threads
link threads a t = update threads a (record (threads a) { next = t })

-- A ready thread is linked behind the last one.
pub Queue-append :
    (threads : Threads) (p x t : ℕ) (xs : List ℕ)
    → Queue threads p (x ∷ xs)
    → Distinct (x ∷ xs)
    → has t (x ∷ xs) ≡ false
    → Is threads ready t
    → (threads t).next ≡ 0
    → Queue (link threads (last_or x xs) t) p (x ∷ (xs ++ (t ∷ [])))
Queue-append threads p x t [] h d out is end = ground arith
Queue-append threads p x t (y ∷ ys) (e, here, h) d out is end =
    let member : has (last_or y ys) (y ∷ ys) ≡ true = last-member y ys in
    let ne : last_or y ys ≢ x = λ s. ground (arith, member, d.0, ap (λ c. has c (y ∷ ys)) s) in
    let same : link threads (last_or y ys) t x ≡ threads x =
      update_ne threads (last_or y ys) (record (threads (last_or y ys)) { next = t }) x ne in
    (
      e,
      (here.0, ap (λ z. z.magic) same ∙ here.1, ap (λ z. z.state) same ∙ here.2),
      rw same (Queue-append threads (threads x).next y t ys h d.1 (ground arith) is end),
    )

has-append : (a t : ℕ) (xs : List ℕ) → has a (xs ++ (t ∷ [])) ≡ (has a xs || a == t)
has-append a t [] = ground arith
has-append a t (x ∷ xs) = ground (arith, has-append a t xs)

pub Distinct-append : (q : List ℕ) (t : ℕ) → Distinct q → has t q ≡ false → Distinct (q ++ (t ∷ []))
Distinct-append [] t d out = (refl, tt)
Distinct-append (x ∷ xs) t d out =
    (has-append x t xs ∙ ground arith, Distinct-append xs t d.1 (ground arith))
