-- ===== src/Sched/Fair.antt =====
-- Round robin: who waits in the queue of mcsos/kernel/mcsos_thread.c, and for how long.
use safira_uraa.Base.{
  ℕ, zero, suc, ◌+◌, ◌^◌, ◌<◌, ◌≡◌, ◌≢◌, refl, ap, ◌∙◌, false, List, [], ◌∷◌, ◌++◌, length,
  length-append, arith, ◌==◌, if◌then◌else◌, inl, inr, Bool-cases,
}
use mathlib.Core.List.{append_assoc}
use mathlib.Core.Path.{subst}
use safira_uraa.Sched.{Machine, sched_yield}
use safira_uraa.Sched.Queue.{Queue}
use safira_uraa.Sched.Calls.{Between, call, call-Between}
use safira_uraa.Sched.Spec.{View, give_up, returns, turn, step}

-- The state after `n` calls of `mcsos_sched_yield`, each by the thread that runs.
pub yields : ℕ → Machine → Machine
yields zero m = m
yields (suc n) m = yields n (sched_yield m).1

-- A queue that is not empty moves on by one place, and the first thread runs.
turn-queue :
    (m : Machine) (v : View) (x : ℕ) (xs : List ℕ)
    → Between m v
    → v.queue ≡ x ∷ xs
    → ((turn v).current ≡ x) × ((turn v).queue ≡ (if returns v then xs ++ (v.current ∷ []) else xs))
unfolding turn
turn-queue m v x xs b e =
    let (_, (_, _, is_ready), _) =
      subst (Queue m.threads m.sched.ready_head) e b.shows.linked.queue in
    let ne : x ≢ v.current =
      λ same. ground (arith, b.shows.state x, is_ready, ap v.state same, b.runs) in
    let differs : (x == v.current) ≡ false = ground arith in rw (e, differs) (refl, refl)

sched_yield-Between :
    (m : Machine) (v : View)
    → Between m v
    → length v.queue + 1 < 2 ^ 64
    → Between (sched_yield m).1 (turn v)
unfolding call step
sched_yield-Between m v b small = (call-Between m v give_up b small).1

reach :
    (ahead : List ℕ) (m : Machine) (v : View) (t : ℕ) (behind : List ℕ)
    → Between m v
    → v.queue ≡ ahead ++ (t ∷ behind)
    → length v.queue + 1 < 2 ^ 64
    → (yields (suc (length ahead)) m).sched.current ≡ t
unfolding yields
reach [] m v t behind b e small =
    (sched_yield-Between m v b small).shows.current ∙ (turn-queue m v t behind b e).0
reach (x ∷ ahead) m v t behind b e small =
    let (_, moved) = turn-queue m v x (ahead ++ (t ∷ behind)) b e in
    let after = sched_yield-Between m v b small in
    elim (Bool-cases (returns v)) [
      | inl back ↦
          let line : (turn v).queue ≡ ahead ++ (t ∷ (behind ++ (v.current ∷ []))) =
            moved ∙ rw back (append_assoc ahead (t ∷ behind) (v.current ∷ [])) in
          reach ahead (sched_yield m).1 (turn v) t (behind ++ (v.current ∷ [])) after line (
            omega (
              arith,
              small,
              ap length line,
              ap length e,
              length-append {0} ahead (t ∷ behind),
              length-append {0} ahead (t ∷ (behind ++ (v.current ∷ []))),
              length-append {0} behind (v.current ∷ []),
            ))
      | inr away ↦
          let line : (turn v).queue ≡ ahead ++ (t ∷ behind) = moved ∙ rw away in
          reach ahead (sched_yield m).1 (turn v) t behind after line
            (omega (arith, small, ap length line, ap length e))
    ]

-- From every state whose links are a queue of distinct ready threads, and whose current and idle
-- threads are threads in the running state, a thread in the queue with n threads ahead of it
-- runs after n + 1 yields, where the queue is shorter than 2^64 - 1.
pub sched_yield_fair :
    (m : Machine) (v : View) (ahead behind : List ℕ) (t : ℕ)
    → Between m v
    → v.queue ≡ ahead ++ (t ∷ behind)
    → length v.queue + 1 < 2 ^ 64
    → (yields (length ahead + 1) m).sched.current ≡ t
sched_yield_fair m v ahead behind t b e small =
    let one : length ahead + 1 ≡ suc (length ahead) = omega arith in
    ap (λ n. (yields n m).sched.current) one ∙ reach ahead m v t behind b e small
