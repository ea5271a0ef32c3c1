-- ===== src/Vfs/Transfer.antt =====
-- mcsos/kernel/vfs/fd.c: reads, writes and seeks on open files. A buffer that may be NULL is an
-- option; the caller's bytes are a list of the length that it gives.
pub mod Io
use safira_uraa.Base.{
  ℕ, zero, suc, ◌+◌, ◌-◌, ◌*◌, Bool, true, false, not, ◌&&◌, ◌||◌, Option, none, some, List, [],
  ◌∷◌, get_or, set, drop, take, replicate, length, ltb, leb, ◌==◌, ◌!=◌, if◌then◌else◌, min,
  bit_and, bit_or, ℤ, pos, negsuc, offset_by, to_int,
}
use safira_uraa.Base.Words.{u64}
use safira_uraa.Vfs.{
  Status, ebadf, eacces, eisdir, einval, enfile, enospc, Result, fail, good, max_open_files, is_dir,
  Vnode, Ramfs, File, node_at, copy_bytes,
}
use safira_uraa.Vfs.Tree.{ramfs_lookup, create_file}
use safira_uraa.Vfs.Fd.{can_read, can_write, has, o_append, file_at, fd_get}

-- The bytes that a read of a file gives, and its new offset.
pub read_file : Ramfs → File → ℕ → Result (List ℕ × File)
read_file fs f len = if not (can_read f.flags) then fail eacces else elim f.node [
  | none ↦ fail einval
  | some i ↦
      let node = node_at fs i in
      let n = min len (node.size - f.offset) in
      if is_dir node.kind
      then fail eisdir
      else if leb node.size f.offset
      then good ([], f)
      else good (
        take n (drop (node.data_offset + f.offset) fs.bytes),
        record f { offset = u64 (f.offset + n) },
      )
]

-- The count is the length of the bytes. `buf` tells whether the buffer is not NULL.
pub vfs_read : List File → Ramfs → ℤ → Bool → ℕ → Result (List ℕ) × List File
vfs_read table fs fd buf len =
    if not buf && len != 0 then (fail einval, table) else elim (fd_get table fd) [
      | none ↦ (fail ebadf, table)
      | some k ↦ elim (read_file fs (file_at table k) len) [
        | fail rc ↦ (fail rc, table)
        | good (read, f) ↦ (good read, set table k f)
      ]
    ]

-- The same of a write: the offset moves to the end first where the file is opened to append, also
-- when the write then fails.
pub write_file : Ramfs → File → List ℕ → Result ℕ × File × Ramfs
write_file fs f content = if not (can_write f.flags) then (fail eacces, f, fs) else elim f.node [
  | none ↦ (fail einval, f, fs)
  | some i ↦
      let node = node_at fs i in
      let start = if has f.flags o_append then node.size else f.offset in
      let moved : File = record f { offset = start } in
      let n = min (length content) (node.data_capacity - start) in
      let stop = u64 (start + n) in
      if is_dir node.kind
      then (fail eisdir, f, fs)
      else if ltb node.data_capacity start
      then (fail einval, moved, fs)
      else if ltb n (length content)
      then (fail enospc, moved, fs)
      else (
        good n,
        record f { offset = stop },
        record fs {
          nodes =
              set fs.nodes i
                (record node { size = if ltb node.size stop then stop else node.size });
          bytes = copy_bytes fs.bytes (node.data_offset + start) content n;
        },
      )
]

-- A buffer that is NULL gives no bytes.
abbrev pub bytes_of : Option (List ℕ) → List ℕ
bytes_of none = []
bytes_of (some buf) = buf

abbrev pub is_null : Option (List ℕ) → Bool
is_null none = true
is_null (some buf) = false

pub vfs_write : List File → Ramfs → ℤ → Option (List ℕ) → ℕ → Result ℕ × List File × Ramfs
vfs_write table fs fd buf len =
    if is_null buf && len != 0 then (fail einval, table, fs) else elim (fd_get table fd) [
      | none ↦ (fail ebadf, table, fs)
      | some k ↦
          let (count, f, after) = write_file fs (file_at table k) (take len (bytes_of buf)) in
          (count, set table k f, after)
    ]

-- Where a seek starts, for `whence` 0, 1 and 2.
pub seek_base : Vnode → File → ℕ → Option ℕ
seek_base node f whence =
    if whence == 0
    then some 0
    else if whence == 1
    then some f.offset
    else if whence == 2
    then some node.size
    else none

-- Where it ends, for offsets at which `long` arithmetic does not overflow.
pub seek_file : Ramfs → File → ℤ → ℕ → Result File
seek_file fs f offset whence = elim f.node [
  | none ↦ fail eisdir
  | some i ↦
      if is_dir (node_at fs i).kind then fail eisdir else elim (seek_base (node_at fs i) f whence) [
        | none ↦ fail einval
        | some base ↦ elim (offset_by base offset) [
          | negsuc n ↦ fail einval
          | pos next ↦ good (record f { offset = next })
        ]
      ]
]

pub vfs_lseek : List File → Ramfs → ℤ → ℤ → ℕ → Result ℤ × List File
vfs_lseek table fs fd offset whence = elim (fd_get table fd) [
  | none ↦ (fail ebadf, table)
  | some k ↦ elim (seek_file fs (file_at table k) offset whence) [
    | fail rc ↦ (fail rc, table)
    | good f ↦ (good (to_int f.offset), set table k f)
  ]
]
