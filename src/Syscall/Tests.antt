-- ===== src/Syscall/Tests.antt =====
-- The system calls of mcsos/kernel/syscall/syscall.c with a serial port that keeps the last range.
use safira_uraa.Base.{
  ℕ, ◌+◌, ◌<◌, ◌≤◌, ◌≡◌, ◌⊎◌, ◌↔◌, true, none, some, [], ◌∷◌, arith, ℤ, pos, ltb, if◌then◌else◌,
}
use safira_uraa.Syscall.{Region, Ops, user_check_range, copy_from_user, syscall_dispatch}
use safira_uraa.Syscall.Confine.{
  user_check_range_lem, copy_from_user-confined, syscall_dispatch-confined,
}

abbrev region : Region
region = record { base = 0x1000; limit = 0x3000 }

user_check_range_lem_example :
    (user_check_range region 0x2ff0 16 ≡ true)
    ↔ ((◌≡◌ {A = ℕ} 16 0) ⊎ ((0 < 0x1000) × (0x1000 ≤ 0x2ff0) × (0x2ff0 + 16 ≤ 0x3000)))
user_check_range_lem_example =
    user_check_range_lem region 0x2ff0 16 (omega arith) (omega arith) (omega arith)

-- Two memories that differ above the region.
abbrev memory : ℕ → ℕ
memory a = 7

abbrev changed : ℕ → ℕ
changed a = if ltb a 0x3000 then 7 else 0

agree : (a : ℕ) → 0x1000 ≤ a → a < 0x3000 → memory a ≡ changed a
agree a p q = ground arith

copy_from_user-confined_example :
    copy_from_user region memory (some (0 ∷ 0 ∷ [])) 0x2ffe 2
    ≡ copy_from_user region changed (some (0 ∷ 0 ∷ [])) 0x2ffe 2
copy_from_user-confined_example =
    copy_from_user-confined region memory changed (some (0 ∷ 0 ∷ [])) 0x2ffe 2 (omega arith)
      (omega arith) (omega arith) agree

abbrev ops : Ops (ℕ × ℕ)
ops = record { get_ticks = none; yield_current = none; exit_current = none; write_serial = none }

abbrev write : ℕ → ℕ → (ℕ × ℕ) → ℤ × (ℕ × ℕ)
write ptr len w = (pos len, (ptr, len))

-- One that refuses longer ranges, which no call asks for.
abbrev other : ℕ → ℕ → (ℕ × ℕ) → ℤ × (ℕ × ℕ)
other ptr len w = if ltb 4096 len then (pos 0, w) else (pos len, (ptr, len))

agree_below :
    (ptr len : ℕ)
    → 0 < ptr
    → len ≤ 4096
    → (len ≡ 0) ⊎ ((0x1000 ≤ ptr) × (ptr + len ≤ 0x3000))
    → write ptr len (0, 0) ≡ other ptr len (0, 0)
agree_below ptr len p l r = ground arith

syscall_dispatch-confined_example :
    syscall_dispatch (record ops { write_serial = some write }) region (0, 0) 2 0x1000 64
    ≡ syscall_dispatch (record ops { write_serial = some other }) region (0, 0) 2 0x1000 64
syscall_dispatch-confined_example =
    syscall_dispatch-confined ops write other region (0, 0) 2 0x1000 64 (omega arith) (omega arith)
      (omega arith) agree_below
