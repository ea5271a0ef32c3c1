-- ===== src/Syscall.antt =====
-- mcsos/kernel/syscall/syscall.c and mcsos/include/mcsos/syscall.h: the system call table over the
-- operations that the kernel registers. The operations change a world of any type; one that is
-- NULL is none.
pub mod Confine
mod Tests
use safira_uraa.Base.{
  ℕ, zero, suc, ◌+◌, ◌-◌, ◌^◌, Bool, true, false, not, ◌&&◌, ◌||◌, Option, none, some, List, set,
  ltb, leb, ◌==◌, if◌then◌else◌, ℤ, pos, negsuc, to_int,
}
use safira_uraa.Base.Words.{u64, sub64}

-- `mcsos_syscall_status_t`
abbrev pub ok : ℤ
ok = pos 0

abbrev pub einval : ℤ
einval = negsuc 21

abbrev pub enosys : ℤ
enosys = negsuc 37

abbrev pub efault : ℤ
efault = negsuc 13

abbrev pub ebusy : ℤ
ebusy = negsuc 15

-- `(int64_t)n`
abbrev pub to_long : ℕ → ℤ
to_long n = let m : ℕ = u64 n in if ltb m (2 ^ 63) then pos m else negsuc (2 ^ 64 - 1 - m)

-- `mcsos_user_region_t`
pub record Region : Type 0 where
  pub base : ℕ
  pub limit : ℕ

-- `mcsos_syscall_ops_t`
pub record Ops (W : Type 0) : Type 0 where
  pub get_ticks : Option (W → ℕ × W)
  pub yield_current : Option (W → W)
  pub exit_current : Option (ℤ → W → W)
  pub write_serial : Option (ℕ → ℕ → W → ℤ × W)

pub user_check_range : Region → ℕ → ℕ → Bool
user_check_range region addr len =
    let last : ℕ = sub64 (u64 (addr + len)) 1 in
    if len == 0
    then true
    else if region.base == 0 || leb region.limit region.base
    then false
    else if ltb addr region.base
    then false
    else if ltb region.limit addr
    then false
    else if ltb last addr
    then false
    else if leb region.limit last
    then false
    else true

-- `d[i] = s[i]` for `len` bytes of the memory from `src` on, into `dst` from `i` on.
pub copy_in : (ℕ → ℕ) → ℕ → List ℕ → ℕ → ℕ → List ℕ
copy_in memory src dst i zero = dst
copy_in memory src dst i (suc len) = copy_in memory (src + 1) (set dst i (memory src)) (i + 1) len

pub copy_from_user : Region → (ℕ → ℕ) → Option (List ℕ) → ℕ → ℕ → ℤ × Option (List ℕ)
copy_from_user region memory none src len = if len == 0 then (ok, none) else (einval, none)
copy_from_user region memory (some dst) src len =
    if len == 0
    then (ok, some dst)
    else if src == 0
    then (einval, some dst)
    else if not (user_check_range region src len)
    then (efault, some dst)
    else (ok, some (copy_in memory src dst 0 len))

abbrev pub or_else : {A : Type 0} → Option A → Option A → Option A
or_else none b = b
or_else (some a) b = some a

module _ {W : Type 0} where
  pub default_write_serial : ℕ → ℕ → W → ℤ × W
  default_write_serial buf len w = (to_long len, w)

  -- `mcsos_syscall_init`, of operations or of NULL.
  pub syscall_init : Option (Ops W) → Ops W
  syscall_init none = record {
    get_ticks = none;
    yield_current = none;
    exit_current = none;
    write_serial = some default_write_serial;
  }
  syscall_init (some ops) = record {
    get_ticks = ops.get_ticks;
    yield_current = ops.yield_current;
    exit_current = ops.exit_current;
    write_serial = or_else ops.write_serial (some default_write_serial);
  }

  module _ (ops : Ops W) (region : Region) (w : W) where
    abbrev pub sys_ping : ℤ × W
    sys_ping = (pos 0x2605020A, w)

    pub sys_get_ticks : ℤ × W
    sys_get_ticks = elim ops.get_ticks [
      | none ↦ (ebusy, w)
      | some get ↦ let (ticks, after) = get w in (to_long ticks, after)
    ]

    -- A NULL `write_serial`, which `mcsos_syscall_init` leaves nowhere, is given as ENOSYS here.
    pub sys_write_serial : ℕ → ℕ → ℤ × W
    sys_write_serial ptr len =
        if ptr == 0
        then (einval, w)
        else if ltb 4096 len
        then (einval, w)
        else if not (user_check_range region ptr len)
        then (efault, w)
        else elim ops.write_serial [ none ↦ (enosys, w) | some write ↦ write ptr len w ]

    pub sys_yield : ℤ × W
    sys_yield = elim ops.yield_current [ none ↦ (ebusy, w) | some yield ↦ (ok, yield w) ]

    pub sys_exit_thread : ℕ → ℤ × W
    sys_exit_thread code = elim ops.exit_current [
      | none ↦ (ebusy, w)
      | some exit ↦ (ok, exit (to_int code) w)
    ]

    -- The table has an entry for each number below 5, and none of them is NULL.
    pub syscall_dispatch : ℕ → ℕ → ℕ → ℤ × W
    syscall_dispatch nr arg0 arg1 =
        if leb 5 nr
        then (enosys, w)
        else if nr == 0
        then sys_ping
        else if nr == 1
        then sys_get_ticks
        else if nr == 2
        then sys_write_serial arg0 arg1
        else if nr == 3
        then sys_yield
        else sys_exit_thread arg0

-- `mcsos_syscall_frame_t`
pub record Frame : Type 0 where
  pub nr : ℕ
  pub arg0 : ℕ
  pub arg1 : ℕ
  pub arg2 : ℕ
  pub arg3 : ℕ
  pub arg4 : ℕ
  pub arg5 : ℕ
  pub ret : ℤ

pub dispatch_frame : {W : Type 0} → Ops W → Region → W → Frame → Frame × W
dispatch_frame ops region w frame =
    let (ret, after) = syscall_dispatch ops region w frame.nr frame.arg0 frame.arg1 in
    (record frame { ret = ret }, after)
