-- ===== src/Vfs/Process.antt =====
-- mcsos/kernel/vfs/fd.c: the system calls of a process on its own table of open files.
use safira_uraa.Base.{ℕ, Bool, not, ◌&&◌, Option, none, some, List, ◌!=◌, if◌then◌else◌, ℤ}
use safira_uraa.Vfs.{einval, Result, fail, Ramfs, File}
use safira_uraa.Vfs.Fd.{vfs_open, vfs_close}
use safira_uraa.Vfs.Transfer.{vfs_read, vfs_write, vfs_lseek, is_null}

-- `mcs_process_t`
pub record Process : Type 0 where
  pub pid : ℕ
  pub fd_table : List File

-- The system calls, of a process that is not NULL.
pub sys_open : Process → Ramfs → Option (List ℕ) → ℕ → Result ℕ × Process × Ramfs
sys_open proc fs none flags = (fail einval, proc, fs)
sys_open proc fs (some path) flags =
    let (fd, table, after) = vfs_open proc.fd_table fs path flags in
    (fd, record proc { fd_table = table }, after)

pub sys_read : Process → Ramfs → ℤ → Bool → ℕ → Result (List ℕ) × Process
sys_read proc fs fd buf len =
    let (read, table) = vfs_read proc.fd_table fs fd buf len in
    if not buf && len != 0 then (fail einval, proc) else (read, record proc { fd_table = table })

pub sys_write : Process → Ramfs → ℤ → Option (List ℕ) → ℕ → Result ℕ × Process × Ramfs
sys_write proc fs fd buf len =
    let (count, table, after) = vfs_write proc.fd_table fs fd buf len in
    if is_null buf && len != 0
    then (fail einval, proc, fs)
    else (count, record proc { fd_table = table }, after)

pub sys_close : Process → ℤ → Result {0} Unit × Process
sys_close proc fd =
    let (done, table) = vfs_close proc.fd_table fd in (done, record proc { fd_table = table })

pub sys_lseek : Process → Ramfs → ℤ → ℤ → ℕ → Result ℤ × Process
sys_lseek proc fs fd offset whence =
    let (at, table) = vfs_lseek proc.fd_table fs fd offset whence in
    (at, record proc { fd_table = table })
