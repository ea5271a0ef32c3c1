-- ===== src/Sync/Lockdep.antt =====
-- mcsos/kernel/sync/lockdep.c: the stack of lock classes that one context holds, and the checks
-- before an acquisition and after a release. A name is its address, 0 for NULL.
pub mod Stack
pub mod Release
pub mod Order
mod Tests
use safira_uraa.Base.{
  ℕ, zero, suc, ◌+◌, ◌-◌, Bool, true, false, ◌||◌, List, [], ◌∷◌, ltb, leb, ◌==◌, if◌then◌else◌,
  get_or, set, replicate,
}
use safira_uraa.Base.Words.{u32}
use safira_uraa.Sync.Status.{Status, ok, einval, eperm, edeadlk, eoverflow}

abbrev pub max_held : ℕ
max_held = 16

-- `mcs_lockdep_state_t`
pub record Lockdep : Type 0 where
  pub held_class : List ℕ
  pub held_name : List ℕ
  pub depth : ℕ
  pub violation_count : ℕ

abbrev pub init : Lockdep
init = record {
  held_class = replicate max_held 0;
  held_name = replicate max_held 0;
  depth = 0;
  violation_count = 0;
}

-- Whether one of the first `n` entries is `class_id`: the loop over `held_class`.
pub holds_below : ℕ → List ℕ → ℕ → Bool
holds_below zero held class_id = false
holds_below (suc n) [] class_id = false
holds_below (suc n) (x ∷ held) class_id = x == class_id || holds_below n held class_id

-- The loop stops at `depth` and at the end of the array, which `holds_below` meets as the end of
-- the list.
pub is_held : Lockdep → ℕ → Bool
is_held s class_id = if class_id == 0 then false else holds_below s.depth s.held_class class_id

abbrev pub violation : Lockdep → Lockdep
violation s = record s { violation_count = u32 (s.violation_count + 1) }

pub before_acquire : Lockdep → ℕ → ℕ → Status × Lockdep
before_acquire s class_id name =
    if class_id == 0
    then (einval, s)
    else if leb max_held s.depth
    then (eoverflow, violation s)
    else if holds_below s.depth s.held_class class_id
    then (edeadlk, violation s)
    else if (if ltb 0 s.depth then ltb class_id (get_or s.held_class (s.depth - 1) 0) else false)
    then (edeadlk, violation s)
    else (
      ok,
      record s {
        held_class = set s.held_class s.depth class_id;
        held_name = set s.held_name s.depth name;
        depth = s.depth + 1;
      },
    )

pub after_release : Lockdep → ℕ → ℕ → Status × Lockdep
after_release s class_id name =
    if class_id == 0
    then (einval, s)
    else if s.depth == 0
    then (eperm, violation s)
    else if (if get_or s.held_class (s.depth - 1) 0 == class_id then false else true)
    then (edeadlk, violation s)
    else (
      ok,
      record s {
        held_class = set s.held_class (s.depth - 1) 0;
        held_name = set s.held_name (s.depth - 1) 0;
        depth = s.depth - 1;
      },
    )
