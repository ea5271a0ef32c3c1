-- ===== src/Sched/Calls.antt =====
-- A client's calls on the scheduler of mcsos/kernel/mcsos_thread.c, against the turns that its view
-- promises.
use safira_uraa.Base.{
  ℕ, ◌+◌, ◌^◌, ◌<◌, ◌≡◌, ◌≢◌, refl, sym, ap, ◌∙◌, Bool, true, false, not, ◌||◌, List, [], ◌∷◌,
  length, arith, ◌==◌, if◌then◌else◌, update, update_self, update_ne, ℕ_discrete, ◌⊎◌, inl, inr,
  Bool-cases,
}
use safira_uraa.Sched.{
  ready, running, blocked, Status, ok, einval, estate, is_ready, is_new, is_blocked, Machine,
  valid_thread_object, set_state, append, advance, sched_enqueue, sched_yield, sched_tick,
  thread_block_current, thread_mark_ready,
}
use safira_uraa.Sched.Queue.{Queue}
use safira_uraa.Sched.Shows.{Shows, object_iff, append-Shows, set_state-Shows, advance-Shows}
use safira_uraa.Sched.Yield.{Steady, sched_yield-Shows, not_queued}
use safira_uraa.Sched.Spec.{
  View, Op, enqueue, wake, give_up, block, tick, first_or, returns, turn, arrive, step, Proper,
}

-- The view of a machine between two calls.
pub record Between (m : Machine) (v : View) : Type 0 where
  pub shows : Shows m v
  pub steady : Steady v
  pub runs : v.state v.current ≡ running

unfoldable pub call : Machine → Op → Status × Machine
call m (enqueue t) = sched_enqueue m t
call m (wake t) = thread_mark_ready m t
call m give_up = sched_yield m
call m block = thread_block_current m
call m tick = sched_tick m

-- An arrival keeps what runs running.
arrive-Between :
    (m : Machine) (v : View) (t : ℕ)
    → Between m v
    → v.object t ≡ true
    → (is_new (v.state t) || is_blocked (v.state t)) ≡ true
    → length v.queue + 1 < 2 ^ 64
    → Between (append m t) (arrive v t)
unfolding arrive
arrive-Between m v t b object parked small =
    let apart : (a : ℕ) → v.state a ≡ running → t ≢ a =
      λ a r e. ground (arith, parked, ap v.state e, r) in
    record {
      shows =
          append-Shows m v t b.shows object
            (not_queued m v b.shows t (λ r. ground (arith, r, parked))) small;
      steady = record {
        current_object = b.steady.current_object;
        idle_object = b.steady.idle_object;
        idle_runs =
            update_ne v.state t ready v.idle (apart v.idle b.steady.idle_runs) ∙ b.steady.idle_runs;
      };
      runs = update_ne v.state t ready v.current (apart v.current b.runs) ∙ b.runs;
    }

-- The thread whose turn is next is a thread, and ready unless it is the idle one.
first_lem :
    (m : Machine) (v : View)
    → Shows m v
    → Steady v
    → (v.object (first_or v.idle v.queue) ≡ true)
      × ((first_or v.idle v.queue ≡ v.idle) ⊎ (v.state (first_or v.idle v.queue) ≡ ready))
first_lem m v s steady = by_queue v.queue s.linked.queue
  where
    by_queue :
        (q : List ℕ)
        → Queue m.threads m.sched.ready_head q
        → (v.object (first_or v.idle q) ≡ true)
          × ((first_or v.idle q ≡ v.idle) ⊎ (v.state (first_or v.idle q) ≡ ready))
    by_queue [] h = (steady.idle_object, inl refl)
    by_queue (x ∷ xs) (_, (some, magic, is_ready), _) = (
      sym (s.object x) ∙ (object_iff m.threads x).1 (some, magic),
      inr (sym (s.state x) ∙ is_ready),
    )

turn-Steady :
    (m : Machine) (v : View)
    → Shows m v
    → Steady v
    → v.state v.current ≢ ready
    → (v.state v.current ≡ running) ⊎ (v.current ≢ v.idle)
    → Steady (turn v) × ((turn v).state (turn v).current ≡ running)
unfolding turn
turn-Steady m v s steady not_ready r =
    let (object, which) = first_lem m v s steady in
    elim (Bool-cases (first_or v.idle v.queue == v.current)) [
      | inl same ↦
          let here : first_or v.idle v.queue ≡ v.current = ground arith in
          rw same (steady, stays here which r)
      | inr differs ↦ rw differs (
        record { current_object = object; idle_object = steady.idle_object; idle_runs = idle_kept },
        update_self (if returns v then update v.state v.current ready else v.state)
            (first_or v.idle v.queue) running,
      )
    ]
  where
    stays :
        first_or v.idle v.queue ≡ v.current
        → (first_or v.idle v.queue ≡ v.idle) ⊎ (v.state (first_or v.idle v.queue) ≡ ready)
        → (v.state v.current ≡ running) ⊎ (v.current ≢ v.idle)
        → v.state v.current ≡ running
    stays here which (inl runs) = runs
    stays here (inl idles) (inr apart) = absurd (apart (sym here ∙ idles))
    stays here (inr waits) (inr apart) = absurd (not_ready (ap v.state (sym here) ∙ waits))

    idle_kept :
        update
          (if returns v then update v.state v.current ready else v.state)
          (first_or v.idle v.queue)
          running
          v.idle
        ≡ running
    idle_kept = ground (arith, steady.idle_runs)

-- What a call does with a thread that may arrive or not.
module _ (m : Machine) (v : View) (t : ℕ) (parks : Bool) where
  machine_answer : Status × Machine
  machine_answer =
      if not (v.object t) then (einval, m) else if not parks then (estate, m) else (ok, append m t)

  view_answer : Status × View
  view_answer =
      if not (v.object t) then (einval, v) else if not parks then (estate, v) else (ok, arrive v t)

  answers :
      Between m v
      → (parks ≡ true → is_new (v.state t) || is_blocked (v.state t) ≡ true)
      → length v.queue + 1 < 2 ^ 64
      → (machine_answer.0 ≡ view_answer.0) × Between machine_answer.1 view_answer.1
  unfolding machine_answer view_answer
  answers b parked small = elim (Bool-cases (v.object t)) [
    | inr no_object ↦ rw no_object (refl, b)
    | inl object ↦ elim (Bool-cases parks) [
      | inr stays ↦ rw (object, stays) (refl, b)
      | inl leaves ↦ rw (object, leaves) (refl, arrive-Between m v t b object (parked leaves) small)
    ]
  ]

enqueue_lem :
    (m : Machine) (v : View) (t : ℕ)
    → Shows m v
    → v.state t ≢ ready
    → sched_enqueue m t ≡ machine_answer m v t (is_new (v.state t) || is_blocked (v.state t))
unfolding sched_enqueue machine_answer
enqueue_lem m v t s fresh = rw (s.object t, s.state t) (ground (arith, s.linked.live))

wake_lem :
    (m : Machine) (v : View) (t : ℕ)
    → Shows m v
    → thread_mark_ready m t ≡ machine_answer m v t (is_blocked (v.state t))
unfolding thread_mark_ready sched_enqueue machine_answer
wake_lem m v t s = rw (s.object t, s.state t) (ground (arith, s.linked.live))

tick-Between :
    (m : Machine) (v : View) → Between m v → ((sched_tick m).0 ≡ ok) × Between (sched_tick m).1 v
unfolding sched_tick
tick-Between m v b =
    let object : valid_thread_object m.threads m.sched.current ≡ true =
      ap (valid_thread_object m.threads) b.shows.current
      ∙ b.shows.object v.current
      ∙ b.steady.current_object in
    let ends : sched_tick m ≡ (ok, advance m) = ground (arith, object, b.shows.linked.live) in
    rw ends (refl, record { shows = advance-Shows m v b.shows; steady = b.steady; runs = b.runs })

block-idle :
    (m : Machine) (v : View)
    → Between m v
    → v.current ≡ v.idle
    → thread_block_current m ≡ (estate, m)
unfolding thread_block_current
block-idle m v b same =
    let object : valid_thread_object m.threads m.sched.current ≡ true =
      ap (valid_thread_object m.threads) b.shows.current
      ∙ b.shows.object v.current
      ∙ b.steady.current_object in
    ground (arith, object, b.shows.linked.live, b.shows.current, b.shows.idle, same)

block-Between :
    (m : Machine) (v : View)
    → Between m v
    → length v.queue + 1 < 2 ^ 64
    → v.current ≢ v.idle
    → ((thread_block_current m).0 ≡ ok)
      × Between
          (thread_block_current m).1
          (turn (record v { state = update v.state v.current blocked }))
unfolding thread_block_current
block-Between m v b small apart =
    let object : valid_thread_object m.threads m.sched.current ≡ true =
      ap (valid_thread_object m.threads) b.shows.current
      ∙ b.shows.object v.current
      ∙ b.steady.current_object in
    let asleep : View = record v { state = update v.state v.current blocked } in
    let out = not_queued m v b.shows v.current (λ r. ground (arith, r, b.runs)) in
    let shows = set_state-Shows m v v.current blocked b.shows out in
    let steady : Steady asleep = record {
      current_object = b.steady.current_object;
      idle_object = b.steady.idle_object;
      idle_runs = update_ne v.state v.current blocked v.idle apart ∙ b.steady.idle_runs;
    } in
    let now : update v.state v.current blocked v.current ≡ blocked =
      update_self v.state v.current blocked in
    let not_ready : update v.state v.current blocked v.current ≢ ready =
      λ e. ground (arith, e, now) in
    let (did, after) =
      sched_yield-Shows (set_state m v.current blocked) asleep shows steady not_ready small in
    let (kept, runs) =
      turn-Steady (set_state m v.current blocked) asleep shows steady not_ready (inr apart) in
    let ends : thread_block_current m ≡ sched_yield (set_state m v.current blocked) =
      ground (arith, object, b.shows.linked.live, b.shows.current, b.shows.idle, apart) in
    rw ends (did, record { shows = after; steady = kept; runs = runs })

-- The machine between two calls shows a view again after any proper call, which answers as the view
-- says.
pub call-Between :
    (m : Machine) (v : View) (op : Op)
    → Between m v
    → Proper v op
    → ((call m op).0 ≡ (step v op).0) × Between (call m op).1 (step v op).1
unfolding call step view_answer
call-Between m v (enqueue t) b (fresh, small) =
    rw (enqueue_lem m v t b.shows fresh)
      (answers m v t (is_new (v.state t) || is_blocked (v.state t)) b (λ e. e) small)
call-Between m v (wake t) b small =
    rw (wake_lem m v t b.shows)
      (answers m v t (is_blocked (v.state t)) b (λ e. ground (arith, e)) small)
call-Between m v give_up b small =
    let not_ready : v.state v.current ≢ ready = λ e. ground (arith, e, b.runs) in
    let (did, shows) = sched_yield-Shows m v b.shows b.steady not_ready small in
    let (steady, runs) = turn-Steady m v b.shows b.steady not_ready (inl b.runs) in
    (did, record { shows = shows; steady = steady; runs = runs })
call-Between m v block b small = elim (ℕ_discrete v.current v.idle) [
  | yes same ↦
      let idles : (v.current == v.idle) ≡ true = ground arith in
      rw (idles, block-idle m v b same) (refl, b)
  | no apart ↦
      let awake : (v.current == v.idle) ≡ false = ground arith in
      rw awake (block-Between m v b small apart)
]
call-Between m v tick b small = tick-Between m v b
