-- ===== src/Sched/Spec.antt =====
-- What the scheduler promises: threads take turns in the order of their arrival, and the idle
-- thread runs while no other can.
use safira_uraa.Base.{
  ℕ, ◌+◌, ◌^◌, ◌<◌, ◌≢◌, Bool, not, ◌&&◌, ◌||◌, List, [], ◌∷◌, ◌++◌, length, ◌==◌, ◌!=◌,
  if◌then◌else◌, update,
}
use safira_uraa.Sched.{
  State, ready, running, blocked, Status, ok, einval, estate, is_running, is_blocked, is_new,
}

-- The current and the idle thread, the queue, the states, and which addresses are threads.
pub record View : Type 0 where
  pub current : ℕ
  pub idle : ℕ
  pub queue : List ℕ
  pub state : ℕ → State
  pub object : ℕ → Bool

-- The calls of a client.
pub data Op : Type 0 where
  enqueue : ℕ → Op
  wake : ℕ → Op
  give_up block tick : Op

abbrev pub first_or : ℕ → List ℕ → ℕ
first_or d [] = d
first_or d (x ∷ xs) = x

abbrev pub others : List ℕ → List ℕ
others [] = []
others (x ∷ xs) = xs

-- Whether the current thread goes back to the queue.
abbrev pub returns : View → Bool
returns v = is_running (v.state v.current) && v.current != v.idle

-- The next thread runs.
unfoldable pub turn : View → View
turn v =
    let next : ℕ = first_or v.idle v.queue in
    if next == v.current then v else record v {
      current = next;
      queue = if returns v then others v.queue ++ (v.current ∷ []) else others v.queue;
      state = update (if returns v then update v.state v.current ready else v.state) next running;
    }

unfoldable pub arrive : View → ℕ → View
arrive v t = record v { queue = v.queue ++ (t ∷ []); state = update v.state t ready }

unfoldable pub step : View → Op → Status × View
unfolding turn arrive
step v (enqueue t) =
    if not (v.object t)
    then (einval, v)
    else if not (is_new (v.state t) || is_blocked (v.state t))
    then (estate, v)
    else (ok, arrive v t)
step v (wake t) =
    if not (v.object t)
    then (einval, v)
    else if not (is_blocked (v.state t))
    then (estate, v)
    else (ok, arrive v t)
step v give_up = (ok, turn v)
step v block =
    if v.current == v.idle
    then (estate, v)
    else (ok, turn (record v { state = update v.state v.current blocked }))
step v tick = (ok, v)

-- A client may not enqueue a thread that is in the queue, and the queue is shorter than the address
-- space.
abbrev pub Proper : View → Op → Type 0
Proper v (enqueue t) = (v.state t ≢ ready) × (length v.queue + 1 < 2 ^ 64)
Proper v _ = length v.queue + 1 < 2 ^ 64

abbrev pub AllProper : View → List Op → Type 0
AllProper v [] = Unit
AllProper v (op ∷ ops) = Proper v op × AllProper (step v op).1 ops

-- What a client sees of each call: the status, and the thread that runs after it.
unfoldable pub run : View → List Op → List (Status × ℕ)
run v [] = []
run v (op ∷ ops) = let (status, after) = step v op in (status, after.current) ∷ run after ops
