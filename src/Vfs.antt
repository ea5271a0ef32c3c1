-- ===== src/Vfs.antt =====
-- mcsos/include/mcs_vfs.h: the tree of nodes in memory, and the table of open files. A node is
-- named by its index in `nodes`. A string is a list of characters that ends at its first zero, or
-- at its end.
pub mod Copy
pub mod Tree
pub mod Fd
pub mod Transfer
pub mod Process
mod Tests
use safira_uraa.Base.{
  ℕ, zero, suc, ◌+◌, Bool, true, false, List, [], ◌∷◌, get_or, set, replicate, ◌==◌, ◌||◌,
  if◌then◌else◌, Option,
}

-- `mcs_vfs_status_t` without MCS_OK, which is a result of its own.
pub data Status : Type 0 where
  enoent ebadf eacces eexist enotdir eisdir einval enfile enospc enametoolong : Status

pub data Result {ℓ} (A : Type ℓ) : Type ℓ where
  fail : Status → Result A
  good : A → Result A

abbrev pub max_name : ℕ
max_name = 32

abbrev pub max_path : ℕ
max_path = 128

abbrev pub max_nodes : ℕ
max_nodes = 64

abbrev pub max_open_files : ℕ
max_open_files = 16

abbrev pub data_bytes : ℕ
data_bytes = 8192

-- `mcs_vnode_type_t`
pub data Kind : Type 0 where
  dir file : Kind

abbrev pub is_dir : Kind → Bool
is_dir dir = true
is_dir file = false

-- `mcs_vnode_t`
pub record Vnode : Type 0 where
  pub used : ℕ
  pub id : ℕ
  pub parent : ℕ
  pub kind : Kind
  pub name : List ℕ
  pub size : ℕ
  pub data_offset : ℕ
  pub data_capacity : ℕ

-- `mcs_ramfs_t`
pub record Ramfs : Type 0 where
  pub nodes : List Vnode
  pub node_count : ℕ
  pub bytes : List ℕ
  pub data_used : ℕ

-- `mcs_file_t`; the file system is the one that every call is given.
pub record File : Type 0 where
  pub used : ℕ
  pub flags : ℕ
  pub offset : ℕ
  pub node : Option ℕ

abbrev pub no_node : Vnode
no_node = record {
  used = 0;
  id = 0;
  parent = 0;
  kind = file;
  name = [];
  size = 0;
  data_offset = 0;
  data_capacity = 0;
}

abbrev pub node_at : Ramfs → ℕ → Vnode
node_at fs i = get_or fs.nodes i no_node

abbrev pub head : List ℕ → ℕ
head [] = 0
head (c ∷ s) = c

abbrev pub tail : List ℕ → List ℕ
tail [] = []
tail (c ∷ s) = s

-- `dst[at + i] = src[i]` for `i < n`
unfoldable pub copy_bytes : List ℕ → ℕ → List ℕ → ℕ → List ℕ
copy_bytes dst at src zero = dst
copy_bytes dst at src (suc n) = copy_bytes (set dst at (head src)) (at + 1) (tail src) n
