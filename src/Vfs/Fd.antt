-- ===== src/Vfs/Fd.antt =====
-- mcsos/kernel/vfs/fd.c: the table of open files, and the calls that open, close and duplicate a
-- descriptor.
pub mod Table
use safira_uraa.Base.{
  ℕ, zero, suc, ◌+◌, ◌-◌, ◌*◌, Bool, true, false, not, ◌&&◌, ◌||◌, Option, none, some, List, [],
  ◌∷◌, get_or, set, drop, take, replicate, length, ltb, leb, ◌==◌, ◌!=◌, if◌then◌else◌, min,
  bit_and, bit_or, ℤ, pos, negsuc, offset_by, to_int,
}
use safira_uraa.Base.Words.{u64}
use safira_uraa.Vfs.{
  Status, ebadf, eacces, eisdir, einval, enfile, enospc, Result, fail, good, max_open_files, is_dir,
  Vnode, Ramfs, File, node_at, copy_bytes,
}
use safira_uraa.Vfs.Tree.{ramfs_lookup, create_file}

abbrev pub o_rdonly : ℕ
o_rdonly = 0x1

abbrev pub o_wronly : ℕ
o_wronly = 0x2

abbrev pub o_rdwr : ℕ
o_rdwr = 0x4

abbrev pub o_creat : ℕ
o_creat = 0x100

abbrev pub o_trunc : ℕ
o_trunc = 0x200

abbrev pub o_append : ℕ
o_append = 0x400

abbrev pub has : ℕ → ℕ → Bool
has flags flag = bit_and flags flag != 0

abbrev pub can_read : ℕ → Bool
can_read flags = has flags o_rdonly || has flags o_rdwr

abbrev pub can_write : ℕ → Bool
can_write flags = has flags o_wronly || has flags o_rdwr

abbrev pub closed : File
closed = record { used = 0; flags = 0; offset = 0; node = none }

-- `mcs_fd_table_init`
abbrev pub table_init : List File
table_init = replicate max_open_files closed

abbrev pub file_at : List File → ℕ → File
file_at table fd = get_or table fd closed

pub fd_get : List File → ℤ → Option ℕ
fd_get table (negsuc n) = none
fd_get table (pos fd) =
    if leb max_open_files fd then none else if (file_at table fd).used == 0 then none else some fd

-- The loop of `mcs_fd_alloc`: the first unused of `rounds` files from index `i` on.
pub alloc_from : List File → ℕ → ℕ → Option ℕ
alloc_from table zero i = none
alloc_from table (suc rounds) i =
    let rest = alloc_from table rounds (i + 1) in
    if (file_at table i).used == 0 then some i else rest

pub fd_alloc : List File → Result ℕ × List File
fd_alloc table = elim (alloc_from table max_open_files 0) [
  | some i ↦ (good i, set table i (record (file_at table i) { used = 1 }))
  | none ↦ (fail enfile, table)
]

-- The node that `mcs_vfs_open` opens, which it may create.
pub find_or_create : Ramfs → List ℕ → ℕ → Result ℕ × Ramfs
find_or_create fs path flags = elim (ramfs_lookup fs path) [
  | good i ↦ (good i, fs)
  | fail rc ↦ if not (has flags o_creat) then (fail rc, fs) else create_file fs path
]

-- What `mcs_vfs_open` does once it has the node `i`.
pub open_node : List File → Ramfs → ℕ → ℕ → Result ℕ × List File × Ramfs
open_node table fs i flags =
    let node = node_at fs i in
    let (slot, taken) = fd_alloc table in
    if is_dir node.kind && can_write flags then (fail eisdir, table, fs) else elim slot [
      | fail rc ↦ (fail rc, taken, fs)
      | good fd ↦
          if has flags o_trunc
          then (if not (can_write flags)
              then (
                fail eacces,
                set taken fd (record {
                  used = 0;
                  flags = flags;
                  offset = if has flags o_append then node.size else 0;
                  node = none;
                }),
                fs,
              )
              else (
                good fd,
                set taken fd (record { used = 1; flags = flags; offset = 0; node = some i }),
                record fs { nodes = set fs.nodes i (record node { size = 0 }) },
              ))
          else (
            good fd,
            set taken fd (record {
              used = 1;
              flags = flags;
              offset = if has flags o_append then node.size else 0;
              node = some i;
            }),
            fs,
          )
    ]

pub vfs_open : List File → Ramfs → List ℕ → ℕ → Result ℕ × List File × Ramfs
vfs_open table fs path flags =
    let mode =
      if bit_and flags (o_rdonly + o_wronly + o_rdwr) == 0 then bit_or flags o_rdonly else flags in
    let (found, after) = find_or_create fs path mode in
    elim found [ fail rc ↦ (fail rc, table, after) | good i ↦ open_node table after i mode ]

pub vfs_close : List File → ℤ → Result {0} Unit × List File
vfs_close table fd = elim (fd_get table fd) [
  | none ↦ (fail ebadf, table)
  | some k ↦ (good tt, set table k closed)
]

pub vfs_dup : List File → ℤ → Result ℕ × List File
vfs_dup table fd = elim (fd_get table fd) [
  | none ↦ (fail ebadf, table)
  | some k ↦
      let (slot, taken) = fd_alloc table in
      elim slot [
        | fail rc ↦ (fail rc, taken)
        | good copy ↦ (good copy, set taken copy (record (file_at taken k) { used = 1 }))
      ]
]
