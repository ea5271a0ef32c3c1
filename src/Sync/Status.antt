-- ===== src/Sync/Status.antt =====
-- The status codes of mcsos/include/mcs_sync.h.
use mathlib.Core.Bool.{Bool, true, false}

pub data Status : Type 0 where
  ok einval ebusy eperm edeadlk eoverflow : Status

abbrev pub is_ok : Status → Bool
is_ok ok = true
is_ok _ = false
