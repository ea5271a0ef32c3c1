-- ===== src/Vfs/Tests.antt =====
-- Two files in a small file system, and a table with one of them open.
use safira_uraa.Base.{ℕ, ◌≡◌, inl, refl, some, List, [], ◌∷◌, replicate, arith, pos, set}
use safira_uraa.Vfs.{good, File, Vnode, Ramfs, file}
use safira_uraa.Vfs.Tree.{ramfs_init, create_file, root}
use safira_uraa.Vfs.Tree.Inv.{IsValid, ramfs_init-IsValid, create_file-IsValid}
use safira_uraa.Vfs.Fd.{table_init, vfs_close, fd_alloc}
use safira_uraa.Vfs.Transfer.{read_file, write_file}
use safira_uraa.Vfs.Fd.Table.{Allocated, Closed, fd_alloc_lem, vfs_close_lem}
use safira_uraa.Vfs.Transfer.Io.{Placed, start, read_file-write_file, write_file-isolates}

-- "/a"
abbrev path : List ℕ
path = b'/' ∷ b'a' ∷ []

create_file-IsValid_example : IsValid (create_file ramfs_init path).1
create_file-IsValid_example = create_file-IsValid ramfs_init path ramfs_init-IsValid

abbrev node_of : ℕ → ℕ → Vnode
node_of i at = record {
  used = 1;
  id = i;
  parent = 0;
  kind = file;
  name = [];
  size = 2;
  data_offset = at;
  data_capacity = 8;
}

abbrev fs : Ramfs
fs = record {
  nodes = root ∷ node_of 1 0 ∷ node_of 2 8 ∷ [];
  node_count = 3;
  bytes = replicate 16 7;
  data_used = 16;
}

-- Open to read and write.
abbrev opened : ℕ → File
opened i = record { used = 1; flags = 4; offset = 1; node = some i }

abbrev table : List File
table = set table_init 0 (opened 1)

first_Placed : Placed fs 1
first_Placed = (omega arith, refl, omega arith, omega arith, omega arith)

second_Placed : Placed fs 2
second_Placed = (omega arith, refl, omega arith, omega arith, omega arith)

fd_alloc_lem_example : Allocated table (fd_alloc table)
fd_alloc_lem_example = fd_alloc_lem table refl

vfs_close_lem_example : Closed table (pos 0) (vfs_close table (pos 0))
vfs_close_lem_example = vfs_close_lem table (pos 0) refl

read_file-write_file_example :
    let (count, g, after) = write_file fs (opened 1) (4 ∷ 5 ∷ []) in
    (count ≡ good 2)
    × (read_file after (record g { offset = start fs (opened 1) 1 }) 2 ≡ good (4 ∷ 5 ∷ [], g))
read_file-write_file_example =
    read_file-write_file fs (opened 1) 1 (4 ∷ 5 ∷ []) refl first_Placed refl refl (omega arith)
      (omega arith)

write_file-isolates_example :
    read_file (write_file fs (opened 1) (4 ∷ 5 ∷ [])).2 (opened 2) 3 ≡ read_file fs (opened 2) 3
write_file-isolates_example =
    write_file-isolates fs (opened 1) (opened 2) 1 2 (4 ∷ 5 ∷ []) 3 refl refl first_Placed
      second_Placed (omega arith) (inl (omega arith))
