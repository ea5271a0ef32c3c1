-- ===== src/Syscall/Confine.antt =====
-- What the checks of mcsos/kernel/syscall/syscall.c let through: user memory only.
use safira_uraa.Base.{
  ℕ, zero, suc, ◌+◌, ◌-◌, ◌^◌, ◌<◌, ◌≤◌, ◌≡◌, ◌⊎◌, ◌↔◌, inl, inr, refl, ap, ◌∙◌, true, Option, none,
  some, List, set, arith, ℕ_discrete, Bool-cases, dec_lt, ℤ,
}
use safira_uraa.Base.Words.{u64, sub64}
use safira_uraa.Syscall.{
  Region, Ops, user_check_range, copy_in, copy_from_user, sys_write_serial, syscall_dispatch,
  sys_get_ticks, sys_yield, sys_exit_thread,
}

-- A range of words passes exactly when it is empty or lies in the region, whose base is not 0;
-- no sum wraps.
pub user_check_range_lem :
    (region : Region) (addr len : ℕ)
    → region.limit < 2 ^ 64
    → addr < 2 ^ 64
    → len < 2 ^ 64
    → (user_check_range region addr len ≡ true)
      ↔ ((len ≡ 0) ⊎ ((0 < region.base) × (region.base ≤ addr) × (addr + len ≤ region.limit)))
unfolding user_check_range
user_check_range_lem region addr len hl ha hn = elim (ℕ_discrete len 0) [
  | yes z ↦ ground arith
  | no ne ↦ elim (dec_lt (addr + len) (2 ^ 64)) [
    | yes l ↦
        let last : sub64 (u64 (addr + len)) 1 ≡ addr + len - 1 = omega arith in ground (arith, last)
    | no m ↦ elim (ℕ_discrete (addr + len) (2 ^ 64)) [
      | yes e ↦
          let last : sub64 (u64 (addr + len)) 1 ≡ 2 ^ 64 - 1 = omega (arith, e) in
          ground (arith, last, e)
      | no over ↦
          let last : sub64 (u64 (addr + len)) 1 ≡ addr + len - 1 - 2 ^ 64 = omega arith in
          ground (arith, last)
    ]
  ]
]

copy_in-cong :
    (m n : ℕ → ℕ) (src : ℕ) (dst : List ℕ) (i len : ℕ)
    → ((a : ℕ) → src ≤ a → a < src + len → m a ≡ n a)
    → copy_in m src dst i len ≡ copy_in n src dst i len
unfolding copy_in
copy_in-cong m n src dst i zero same = refl
copy_in-cong m n src dst i (suc len) same =
    ap (λ v. copy_in m (src + 1) (set dst i v) (i + 1) len) (same src (omega arith) (omega arith))
    ∙ copy_in-cong m n (src + 1) (set dst i (n src)) (i + 1) len
        (λ a p q. same a (omega arith) (omega arith))

-- For words as arguments, a copy reads no memory but that of the region: memories that agree
-- there give the same result.
pub copy_from_user-confined :
    (region : Region) (m n : ℕ → ℕ) (dst : Option (List ℕ)) (src len : ℕ)
    → region.limit < 2 ^ 64
    → src < 2 ^ 64
    → len < 2 ^ 64
    → ((a : ℕ) → region.base ≤ a → a < region.limit → m a ≡ n a)
    → copy_from_user region m dst src len ≡ copy_from_user region n dst src len
unfolding copy_from_user
copy_from_user-confined region m n none src len hl hs hn same = refl
copy_from_user-confined region m n (some dst) src len hl hs hn same =
    elim (Bool-cases (user_check_range region src len)) [
      | inr bad ↦ ground (arith, bad)
      | inl good ↦
          let range = (user_check_range_lem region src len hl hs hn).0 good in
          let copied : copy_in m src dst 0 len ≡ copy_in n src dst 0 len =
            copy_in-cong m n src dst 0 len
              (λ a p q. same a (ground (arith, range)) (ground (arith, range))) in
          ground (arith, good, copied)
    ]

-- A system call hands its serial operation nothing but at most 4096 bytes of user memory: for
-- words as arguments, operations that agree on such ranges give the same result for every system
-- call.
pub syscall_dispatch-confined :
    {W : Type 0} (ops : Ops W) (write other : ℕ → ℕ → W → ℤ × W) (region : Region) (w : W)
    (nr arg0 arg1 : ℕ)
    → region.limit < 2 ^ 64
    → arg0 < 2 ^ 64
    → arg1 < 2 ^ 64
    → ((ptr len : ℕ)
        → 0 < ptr
        → len ≤ 4096
        → (len ≡ 0) ⊎ ((region.base ≤ ptr) × (ptr + len ≤ region.limit))
        → write ptr len w ≡ other ptr len w)
    → syscall_dispatch (record ops { write_serial = some write }) region w nr arg0 arg1
      ≡ syscall_dispatch (record ops { write_serial = some other }) region w nr arg0 arg1
unfolding syscall_dispatch sys_write_serial sys_get_ticks sys_yield sys_exit_thread
syscall_dispatch-confined ops write other region w nr arg0 arg1 hl ha hn same =
    elim (Bool-cases (user_check_range region arg0 arg1)) [
      | inr bad ↦ rw bad refl
      | inl good ↦
          let range = (user_check_range_lem region arg0 arg1 hl ha hn).0 good in
          ground (arith, good, range, same arg0 arg1)
    ]
