-- ===== src/Sched/Prepare.antt =====
-- `mcsos_thread_prepare` of mcsos/kernel/mcsos_thread.c: the first frame on a new thread's stack.
use safira_uraa.Base.{
  ℕ, ◌+◌, ◌-◌, ◌*◌, ◌/◌, ◌%◌, ◌^◌, ◌<◌, ◌≤◌, ◌≡◌, ◌≢◌, refl, sym, ap, false, ◌||◌, Option, none,
  some, arith, leb, ltb, ◌==◌, if◌then◌else◌, ◌⊎◌, inl, inr, bit_and,
}
use safira_uraa.Base.Words.{u64, not64}
use safira_uraa.Base.Bits.{and_complement, and_mask}
use safira_uraa.Sched.{
  new, Status, ok, Thread, is_ok, stack_align, min_kernel_stack, thread_magic, zero_context, einval,
  estack,
}

unfoldable pub fresh_thread : (trampoline name entry arg stack_base stack_size id rsp : ℕ) → Thread
fresh_thread trampoline name entry arg stack_base stack_size id rsp = record {
  magic = thread_magic;
  id = id;
  name = name;
  state = new;
  context = record zero_context { rsp = rsp; rip = trampoline };
  entry = entry;
  arg = arg;
  stack_base = stack_base;
  stack_size = stack_size;
  next = 0;
  switches = 0;
  ticks = 0;
  exit_code = 0;
}

-- The address of the trampoline is `trampoline`. The result is the status, the thread, and the
-- address at which the stack gets a zero word.
pub thread_prepare :
    (trampoline : ℕ)
    → Thread
    → (name entry arg stack_base stack_size id : ℕ) → Status × Thread × Option ℕ
thread_prepare trampoline thread name entry arg stack_base stack_size id =
    let high : ℕ = u64 (stack_base + stack_size) in
    let top : ℕ = bit_and high (not64 (stack_align - 1)) in
    if entry == 0 || stack_base == 0
    then (einval, thread, none)
    else if ltb stack_size min_kernel_stack
    then (estack, thread, none)
    else if leb high stack_base
    then (estack, thread, none)
    else if leb top (u64 (stack_base + 128))
    then (estack, thread, none)
    else (
      ok,
      fresh_thread trampoline name entry arg stack_base stack_size id (top - 8),
      some (top - 8),
    )

align_lem : (v : ℕ) → v < 2 ^ 64 → bit_and v (not64 15) ≡ v / 16 * 16
align_lem v h = omega (arith, and_complement 64 v 15 h (omega arith), and_mask 4 v)

-- What a stack must be.
abbrev pub Usable : (entry stack_base stack_size : ℕ) → Type 0
Usable entry stack_base stack_size =
    (entry ≢ 0) × (stack_base ≢ 0) × (4096 ≤ stack_size) × (stack_base + stack_size < 2 ^ 64)

-- The first frame: eight bytes below the highest multiple of 16 in the stack.
abbrev first_frame : (stack_base stack_size : ℕ) → ℕ
first_frame stack_base stack_size = (stack_base + stack_size) / 16 * 16 - 8

-- A new thread that starts in the trampoline, with the first frame of its stack: field by field.
abbrev pub Prepared : (trampoline name entry arg stack_base stack_size id : ℕ) → Thread → Type 0
Prepared trampoline name entry arg stack_base stack_size id t =
    (t.magic ≡ 0x4d43534f53544852)
    × (t.id ≡ id)
    × (t.name ≡ name)
    × (t.state ≡ new)
    × (t.entry ≡ entry)
    × (t.arg ≡ arg)
    × (t.stack_base ≡ stack_base)
    × (t.stack_size ≡ stack_size)
    × (t.next ≡ 0)
    × (t.switches ≡ 0)
    × (t.ticks ≡ 0)
    × (t.exit_code ≡ 0)
    × (t.context.rip ≡ trampoline)
    × (t.context.rbp ≡ 0)
    × (t.context.rbx ≡ 0)
    × (t.context.r12 ≡ 0)
    × (t.context.r13 ≡ 0)
    × (t.context.r14 ≡ 0)
    × (t.context.r15 ≡ 0)
    × (t.context.rsp % 16 ≡ 8)
    × (stack_base + stack_size < t.context.rsp + 24)
    × (t.context.rsp + 8 ≤ stack_base + stack_size)

fresh_thread-Prepared :
    (trampoline name entry arg stack_base stack_size id : ℕ)
    → Usable entry stack_base stack_size
    → Prepared trampoline name entry arg stack_base stack_size id (
        fresh_thread trampoline name entry arg stack_base stack_size id
          (first_frame stack_base stack_size))
unfolding fresh_thread
fresh_thread-Prepared trampoline name entry arg stack_base stack_size id (a, b, large, l) = (
  refl,
  refl,
  refl,
  refl,
  refl,
  refl,
  refl,
  refl,
  refl,
  refl,
  refl,
  refl,
  refl,
  refl,
  refl,
  refl,
  refl,
  refl,
  refl,
  omega arith,
  omega arith,
  omega arith,
)

fresh_thread-rsp :
    (trampoline name entry arg stack_base stack_size id rsp : ℕ)
    → (fresh_thread trampoline name entry arg stack_base stack_size id rsp).context.rsp ≡ rsp
unfolding fresh_thread
fresh_thread-rsp trampoline name entry arg stack_base stack_size id rsp = refl

module _ (trampoline : ℕ) (thread : Thread) (name entry arg stack_base stack_size id : ℕ)
    (base : stack_base < 2 ^ 64) (size : stack_size < 2 ^ 64) where
  usable : Usable entry stack_base stack_size ⊎ (¬ Usable entry stack_base stack_size)
  usable = ground arith

  accepts :
      Usable entry stack_base stack_size
      → thread_prepare trampoline thread name entry arg stack_base stack_size id ≡ (
        ok,
        fresh_thread trampoline name entry arg stack_base stack_size id
            (first_frame stack_base stack_size),
        some (first_frame stack_base stack_size),
      )
  unfolding thread_prepare
  accepts (some_entry, some_base, large, l) =
      let high : u64 (stack_base + stack_size) ≡ stack_base + stack_size = omega arith in
      let low : u64 (stack_base + 128) ≡ stack_base + 128 = omega arith in
      rw (high, low, align_lem (stack_base + stack_size) l) (ground arith)

  refuses :
      ¬ Usable entry stack_base stack_size
      → let out = thread_prepare trampoline thread name entry arg stack_base stack_size id in
        (is_ok out.0 ≡ false) × (out ≡ (out.0, thread, none))
  unfolding thread_prepare
  refuses bad = ground (arith, bad)

  -- For a stack base and a size that are words: a thread is prepared exactly when it has an
  -- entry and a stack of at least 4096 bytes that does not reach the end of the address space.
  -- It is then a new thread with the magic number, the id, name, entry, argument and stack that
  -- were given, no link and all its counters zero; its instruction pointer is the trampoline,
  -- its stack pointer is 8 modulo 16, the zero word is written at the stack pointer and lies
  -- within the stack, its first byte less than 24 bytes below the end, and the other registers
  -- are zero. Otherwise the call fails, changes nothing and writes nothing.
  pub thread_prepare_lem :
      let out = thread_prepare trampoline thread name entry arg stack_base stack_size id in
      ((out.0 ≡ ok)
        × Usable entry stack_base stack_size
        × Prepared trampoline name entry arg stack_base stack_size id out.1
        × (out.2 ≡ some out.1.context.rsp))
      ⊎ ((¬ Usable entry stack_base stack_size)
          × (is_ok out.0 ≡ false)
          × (out ≡ (out.0, thread, none)))
  thread_prepare_lem = elim usable [
    | inl good ↦ rw (accepts good) (
        inl (
          refl,
          good,
          fresh_thread-Prepared trampoline name entry arg stack_base stack_size id good,
          ap some (
              sym (
                fresh_thread-rsp trampoline name entry arg stack_base stack_size id
                  (first_frame stack_base stack_size))),
        ))
    | inr bad ↦ let (fails, same) = refuses bad in inr (bad, fails, same)
  ]
