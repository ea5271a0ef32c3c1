-- ===== src/Vfs/Fd/Table.antt =====
-- The descriptors of mcsos/kernel/vfs/fd.c: which one a call hands out, and what closing does.
use safira_uraa.Base.{
  ℕ, zero, suc, ◌+◌, ◌<◌, ◌≤◌, ◌≡◌, ◌≢◌, ◌⊎◌, inl, inr, refl, sym, ap, ◌∙◌, Bool, true, false,
  Option, none, some, List, set, length, arith, get_or-set_self, get_or-set_ne, dec_lt, ◌!=◌, ℤ,
  pos, negsuc, ℕ_discrete,
}
use mathlib.Core.Path.{subst}
use safira_uraa.Vfs.{ebadf, enfile, Result, fail, good, File}
use safira_uraa.Vfs.Fd.{file_at, closed, fd_get, alloc_from, fd_alloc, vfs_close}

-- Whether a descriptor is open.
abbrev pub open_at : List File → ℕ → Bool
open_at table fd = (file_at table fd).used != 0

-- The loop stops at the first file that is not open.
abbrev pub Found : List File → ℕ → ℕ → Option ℕ → Type 0
Found table rounds i none = (j : ℕ) → i ≤ j → j < i + rounds → open_at table j ≡ true
Found table rounds i (some k) =
    (i ≤ k)
    × (k < i + rounds)
    × (open_at table k ≡ false)
    × ((j : ℕ) → i ≤ j → j < k → open_at table j ≡ true)

widen :
    (table : List File) (rounds i : ℕ) (o : Option ℕ)
    → open_at table i ≡ true
    → Found table rounds (i + 1) o
    → Found table (suc rounds) i o
widen table rounds i none taken h = λ j p q. elim (ℕ_discrete i j) [
  | yes here ↦ ap (open_at table) (sym here) ∙ taken
  | no other ↦ h j (omega arith) (omega arith)
]
widen table rounds i (some k) taken (p, q, unused, h) = (
  omega arith,
  omega arith,
  unused,
  λ j l m. elim (ℕ_discrete i j) [
    | yes here ↦ ap (open_at table) (sym here) ∙ taken
    | no other ↦ h j (omega arith) m
  ],
)

alloc_from-Found :
    (table : List File) (rounds i : ℕ) → Found table rounds i (alloc_from table rounds i)
unfolding alloc_from
alloc_from-Found table zero i = λ j p q. absurd (omega arith)
alloc_from-Found table (suc rounds) i = elim (ℕ_discrete (file_at table i).used 0) [
  | yes unused ↦
      let hit : alloc_from table (suc rounds) i ≡ some i = ground arith in
      subst (Found table (suc rounds) i) (sym hit)
        (omega arith, omega arith, ground arith, λ j p q. absurd (omega arith))
  | no taken ↦
      let miss : alloc_from table (suc rounds) i ≡ alloc_from table rounds (i + 1) = ground arith in
      subst (Found table (suc rounds) i) (sym miss)
        (widen table rounds i _ (ground arith) (alloc_from-Found table rounds (i + 1)))
]

-- What a descriptor allocation makes of the table, by its result.
abbrev pub Allocated : List File → Result ℕ × List File → Type 0
Allocated table out =
    ((i : ℕ) × (i < 16)
      × (out.0 ≡ good i)
      × (open_at table i ≡ false)
      × ((j : ℕ) → j < i → open_at table j ≡ true)
      × (open_at out.1 i ≡ true)
      × ((j : ℕ) → j ≢ i → file_at out.1 j ≡ file_at table j))
    ⊎ ((out ≡ (fail enfile, table)) × ((j : ℕ) → j < 16 → open_at table j ≡ true))

-- In a table of sixteen files, the lowest descriptor that is not open is handed out, and no
-- other file changes; where all are open, the call fails and changes nothing.
pub fd_alloc_lem : (table : List File) → length table ≡ 16 → Allocated table (fd_alloc table)
unfolding fd_alloc
fd_alloc_lem table whole = go (alloc_from table 16 0) refl
  where
    go : (o : Option ℕ) → alloc_from table 16 0 ≡ o → Allocated table (fd_alloc table)
    go none e =
        let all = subst (Found table 16 0) e (alloc_from-Found table 16 0) in
        inr (ground (arith, e), λ j l. all j (omega arith) (omega arith))
    go (some i) e =
        let (_, below, unused, lower) = subst (Found table 16 0) e (alloc_from-Found table 16 0) in
        let taken : fd_alloc table ≡ (good i, set table i (record (file_at table i) { used = 1 })) =
          ground (arith, e) in
        rw taken (
          inl (
            i,
            omega arith,
            refl,
            unused,
            (λ j l. lower j (omega arith) l),
            ap (λ (f : File). f.used != 0)
                (get_or-set_self table i (record (file_at table i) { used = 1 }) closed
                  (omega arith)),
            λ j ne. get_or-set_ne table i j _ closed (λ s. ne (sym s)),
          ))

-- A descriptor that names an open file.
abbrev pub Names : List File → ℤ → ℕ → Type 0
Names table fd k = (fd ≡ pos k) × (k < 16) × (open_at table k ≡ true)

abbrev value : ℤ → ℕ
value (pos n) = n
value (negsuc n) = n

fd_get-none_or :
    (table : List File) (fd : ℤ)
    → ((k : ℕ) × (fd_get table fd ≡ some k) × Names table fd k)
      ⊎ ((fd_get table fd ≡ none) × ((k : ℕ) → ¬ Names table fd k))
unfolding fd_get
fd_get-none_or table (negsuc n) = inr (refl, λ k (e, l, o). ground (arith, e))
fd_get-none_or table (pos k) = elim (dec_lt k 16) [
  | no out ↦ inr (ground arith, λ j (e, l, _). ground (arith, e, l))
  | yes inside ↦ elim (ℕ_discrete (file_at table k).used 0) [
    | yes unused ↦ inr (
      ground arith,
      λ j (e, l, o). ground (arith, unused, ap (λ z. open_at table (value z)) e, o),
    )
    | no taken ↦ inl (k, ground arith, (refl, inside, ground arith))
  ]
]

-- What closing a descriptor makes of the table.
abbrev pub Closed : List File → ℤ → Result {0} Unit × List File → Type 0
Closed table fd out =
    ((k : ℕ) × Names table fd k
      × (out.0 ≡ good tt)
      × (fd_get out.1 fd ≡ none)
      × ((j : ℕ) → j ≢ k → file_at out.1 j ≡ file_at table j))
    ⊎ (((k : ℕ) → ¬ Names table fd k) × (out ≡ (fail ebadf, table)))

closed-unnamed :
    (table : List File) (k : ℕ) → k < length table → fd_get (set table k closed) (pos k) ≡ none
unfolding fd_get
closed-unnamed table k l =
    ground (arith, ap (λ (f : File). f.used) (get_or-set_self table k closed closed l))

-- In a table of sixteen files, closing a descriptor that is open succeeds: the descriptor is not
-- open any more, and no other file changes. Any other number is refused, and nothing changes.
pub vfs_close_lem :
    (table : List File) (fd : ℤ) → length table ≡ 16 → Closed table fd (vfs_close table fd)
unfolding vfs_close
vfs_close_lem table fd whole = elim (fd_get-none_or table fd) [
  | inr (unnamed, no_name) ↦ inr (no_name, ground (arith, unnamed))
  | inl (k, at, name) ↦
      let done : vfs_close table fd ≡ (good tt, set table k closed) = ground (arith, at) in
      let gone : fd_get (set table k closed) fd ≡ none =
        ap (fd_get (set table k closed)) name.0 ∙ closed-unnamed table k (omega (arith, name.1)) in
      rw done
        (inl (k, name, refl, gone, λ j ne. get_or-set_ne table k j closed closed (λ s. ne (sym s))))
]
