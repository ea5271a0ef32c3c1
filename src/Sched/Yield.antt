-- ===== src/Sched/Yield.antt =====
-- `mcsos_sched_yield` of mcsos/kernel/mcsos_thread.c: the next thread runs.
use safira_uraa.Base.{
  ℕ, ◌+◌, ◌^◌, ◌<◌, ◌≡◌, ◌≢◌, refl, sym, ap, ◌∙◌, true, false, not, ◌&&◌, List, [], ◌∷◌, ◌++◌,
  length, arith, ◌==◌, ◌!=◌, if◌then◌else◌, update, update_self, update_ne, ℕ_discrete, inl, inr,
  Bool-cases,
}
use mathlib.Core.Path.{subst}
use safira_uraa.Sched.{
  State, ready, running, Status, ok, is_ok, is_running, Machine, valid_thread_object, set_state,
  append, detach, requeue, switch_to, sched_enqueue, sched_pick_next, sched_yield,
}
use safira_uraa.Sched.Queue.{has, Queue, Linked, member_ready}
use safira_uraa.Sched.Shows.{
  Shows, object_iff, append-Shows, set_state-Shows, detach-Shows, switch_to-Shows,
}
use safira_uraa.Sched.Spec.{View, first_or, others, returns, turn, arrive}

-- The current and the idle thread are threads, and the idle thread runs or could.
pub record Steady (v : View) : Type 0 where
  pub current_object : v.object v.current ≡ true
  pub idle_object : v.object v.idle ≡ true
  pub idle_runs : v.state v.idle ≡ running

-- The same machine shows a view with the same states.
restate :
    {m : Machine} {v : View} (st : ℕ → State)
    → Shows m v
    → ((t : ℕ) → v.state t ≡ st t)
    → Shows m (record v { state = st })
restate st s same = record {
  linked = s.linked;
  current = s.current;
  idle = s.idle;
  state = λ t. s.state t ∙ same t;
  object = s.object;
}

module _ (m : Machine) (v : View) (s : Shows m v) where
  -- What is picked, and what is left.
  pick-empty : v.queue ≡ [] → sched_pick_next m ≡ (v.idle, m)
  unfolding sched_pick_next
  pick-empty e =
      let none_left = subst (Queue m.threads m.sched.ready_head) e s.linked.queue in
      ground (arith, s.idle, s.linked.live, none_left)

  pick-some : (x : ℕ) (xs : List ℕ) → v.queue ≡ x ∷ xs → sched_pick_next m ≡ (x, detach m)
  unfolding sched_pick_next
  pick-some x xs e =
      let (first, is, _) = subst (Queue m.threads m.sched.ready_head) e s.linked.queue in
      ground (arith, s.linked.live, first, is.0)

  -- A thread in the queue is ready, by the view.
  queued_ready : (a : ℕ) → has a v.queue ≡ true → v.state a ≡ ready
  queued_ready a e =
      sym (s.state a) ∙ (member_ready m.threads m.sched.ready_head a v.queue s.linked.queue e).2

  pub not_queued : (a : ℕ) → v.state a ≢ ready → has a v.queue ≡ false
  not_queued a ne = elim (Bool-cases (has a v.queue)) [
    | inl e ↦ absurd (ne (queued_ready a e))
    | inr e ↦ e
  ]

-- The part of the yield behind the choice of the next thread.
pub finish : Machine → ℕ → ℕ → Status × Machine
finish picked old next =
    let (rc, queued) = requeue picked old in
    if next == old
    then (ok, set_state picked old running)
    else if not (is_ok rc)
    then (rc, queued)
    else (ok, switch_to queued old next)

sched_yield-finish :
    (m picked : Machine) (next : ℕ)
    → m.sched.initialized ≢ 0
    → valid_thread_object m.threads m.sched.current ≡ true
    → sched_pick_next m ≡ (next, picked)
    → valid_thread_object picked.threads next ≡ true
    → sched_yield m ≡ finish picked m.sched.current next
unfolding sched_yield finish
sched_yield-finish m picked next live object picks next_object = ground (arith, picks)

-- The current thread goes back to the queue, or stays away from it.
module _ (p : Machine) (v : View) (s : Shows p v) (steady : Steady v) where
  requeue-back :
      returns v ≡ true
      → has v.current v.queue ≡ false
      → length v.queue + 1 < 2 ^ 64
      → (requeue p v.current ≡ (ok, append (set_state p v.current ready) v.current))
        × Shows (append (set_state p v.current ready) v.current) (record v {
          queue = v.queue ++ (v.current ∷ []);
          state = update v.state v.current ready;
        })
  unfolding requeue sched_enqueue arrive
  requeue-back back out small =
      let set = set_state-Shows p v v.current ready s out in
      let object : valid_thread_object p.threads v.current ≡ true =
        s.object v.current ∙ steady.current_object in
      let back_here : is_running (p.threads v.current).state && v.current != p.sched.idle ≡ true =
        rw (s.state v.current, s.idle) back in
      (
        ground (arith, back_here, object, s.linked.live),
        restate (update v.state v.current ready)
            (append-Shows (set_state p v.current ready)
              (record v { state = update v.state v.current ready }) v.current set
              steady.current_object out small)
            (λ t. ground arith),
      )

  requeue-away : returns v ≡ false → requeue p v.current ≡ (ok, p)
  unfolding requeue
  requeue-away away =
      let away_here : is_running (p.threads v.current).state && v.current != p.sched.idle ≡ false =
        rw (s.state v.current, s.idle) away in
      ground (arith, away_here)

-- The view once `next` has been taken off its queue and runs.
turned : View → ℕ → View
turned w next = record w {
  current = next;
  queue = if returns w then w.queue ++ (w.current ∷ []) else w.queue;
  state = update (if returns w then update w.state w.current ready else w.state) next running;
}

has-snoc : (a t : ℕ) (xs : List ℕ) → has a xs ≡ false → a ≢ t → has a (xs ++ (t ∷ [])) ≡ false
has-snoc a t [] out ne = ground arith
has-snoc a t (x ∷ xs) out ne = ground (arith, has-snoc a t xs)

finish-Shows :
    (p : Machine) (w : View) (next : ℕ)
    → Shows p w
    → Steady w
    → next ≢ w.current
    → has next w.queue ≡ false
    → has w.current w.queue ≡ false
    → length w.queue + 1 < 2 ^ 64
    → ((finish p w.current next).0 ≡ ok) × Shows (finish p w.current next).1 (turned w next)
unfolding finish turned
finish-Shows p w next s steady ne out old_out small = elim (Bool-cases (returns w)) [
  | inl back ↦
      let (did, shows) = requeue-back p w s steady back old_out small in
      let ends : finish p w.current next
          ≡ (ok, switch_to (append (set_state p w.current ready) w.current) w.current next) =
        ground (arith, did, ne) in
      rw (ends, back)
        (
          refl,
          switch_to-Shows (append (set_state p w.current ready) w.current) w.current next _ shows
              (has-snoc next w.current w.queue out ne),
        )
  | inr away ↦
      let did = requeue-away p w s steady away in
      let ends : finish p w.current next ≡ (ok, switch_to p w.current next) =
        ground (arith, did, ne) in
      rw (ends, away) (refl, switch_to-Shows p w.current next w s out)
]

turn-turned :
    (v : View)
    → first_or v.idle v.queue ≢ v.current
    → turn v ≡ turned (record v { queue = others v.queue }) (first_or v.idle v.queue)
unfolding turn turned
turn-turned v ne =
    let differs : (first_or v.idle v.queue == v.current) ≡ false = ground arith in rw differs refl

-- The idle thread goes on where no other thread is ready.
alone_lem :
    (m : Machine) (v : View)
    → Shows m v
    → Steady v
    → v.queue ≡ []
    → v.idle ≡ v.current
    → valid_thread_object m.threads m.sched.current ≡ true
    → ((sched_yield m).0 ≡ ok) × Shows (sched_yield m).1 (turn v)
unfolding turn finish
alone_lem m v s steady e alone object =
    let same : turn v ≡ v = ground (arith, e, alone) in
    let ends : sched_yield m ≡ (ok, set_state m v.current running) =
      sched_yield-finish m m v.idle s.linked.live object (pick-empty m v s e)
        (s.object v.idle ∙ steady.idle_object)
      ∙ ground (arith, alone, s.current) in
    let runs : v.state v.current ≡ running = ap v.state (sym alone) ∙ steady.idle_runs in
    rw (same, ends)
      (
        refl,
        restate v.state (set_state-Shows m v v.current running s (ap (has v.current) e))
            (λ t. kept t runs),
      )
  where
    kept : (t : ℕ) → v.state v.current ≡ running → update v.state v.current running t ≡ v.state t
    kept t runs = elim (ℕ_discrete v.current t) [
      | yes here ↦
          subst (λ c. update v.state v.current running c ≡ v.state c) here
            (update_self v.state v.current running ∙ sym runs)
      | no other ↦ update_ne v.state v.current running t other
    ]

-- The current thread runs or has just been blocked: the call succeeds, and the next thread of the
-- view has its turn.
pub sched_yield-Shows :
    (m : Machine) (v : View)
    → Shows m v
    → Steady v
    → v.state v.current ≢ ready
    → length v.queue + 1 < 2 ^ 64
    → ((sched_yield m).0 ≡ ok) × Shows (sched_yield m).1 (turn v)
sched_yield-Shows m v s steady not_ready small = by_queue v.queue refl
  where
    current_object : valid_thread_object m.threads m.sched.current ≡ true
    current_object =
        ap (valid_thread_object m.threads) s.current ∙ s.object v.current ∙ steady.current_object

    goes_on :
        (p : Machine) (next : ℕ) (xs : List ℕ)
        → sched_pick_next m ≡ (next, p)
        → valid_thread_object p.threads next ≡ true
        → Shows p (record v { queue = xs })
        → next ≢ v.current
        → has next xs ≡ false
        → has v.current xs ≡ false
        → length xs + 1 < 2 ^ 64
        → turn v ≡ turned (record v { queue = xs }) next
        → ((sched_yield m).0 ≡ ok) × Shows (sched_yield m).1 (turn v)
    goes_on p next xs picks object shows ne out old_out room turns =
        let steady_here : Steady (record v { queue = xs }) = record {
          current_object = steady.current_object;
          idle_object = steady.idle_object;
          idle_runs = steady.idle_runs;
        } in
        rw (turns, sched_yield-finish m p next s.linked.live current_object picks object, s.current)
          (finish-Shows p (record v { queue = xs }) next shows steady_here ne out old_out room)

    by_queue :
        (q : List ℕ) → v.queue ≡ q → ((sched_yield m).0 ≡ ok) × Shows (sched_yield m).1 (turn v)
    by_queue [] e = elim (ℕ_discrete v.idle v.current) [
      | yes alone ↦ alone_lem m v s steady e alone current_object
      | no other ↦
          goes_on m v.idle [] (pick-empty m v s e) (s.object v.idle ∙ steady.idle_object)
            (rw (← e) s) other refl refl (omega arith) (turn-turned v (rw e other) ∙ rw e refl)
    ]
    by_queue (x ∷ xs) e =
        let linked = subst (Linked m) e s.linked in
        let x_ready : v.state x ≡ ready = sym (s.state x) ∙ linked.queue.1.2 in
        let ne : x ≢ v.current = λ same. not_ready (ap v.state (sym same) ∙ x_ready) in
        let x_object : v.object x ≡ true =
          sym (s.object x) ∙ (object_iff m.threads x).1 (linked.queue.1.0, linked.queue.1.1) in
        let old_out : has v.current (x ∷ xs) ≡ false =
          ap (has v.current) (sym e) ∙ not_queued m v s v.current not_ready in
        goes_on (detach m) x xs (pick-some m v s x xs e)
          ((detach-Shows m v x xs s e).object x ∙ x_object) (detach-Shows m v x xs s e) ne
          linked.distinct.0 (ground arith) (omega (arith, ap length e))
          (turn-turned v (rw e ne) ∙ rw e refl)
