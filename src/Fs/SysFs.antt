-- ===== src/Fs/SysFs.antt =====
-- The /sys file system: kernel/src/fs/sys_fs.rs.
use Prim.{Unit}
use compute_kernel.Common.{ℕ, List, [], ◌∷◌, ◌++◌, ltb, ◌||◌, if◌then◌else◌, codes, bytes_eq, ◌==◌}
use compute_kernel.Fs.{
  not_found, permission_denied, not_a_directory, InodeKind, regular_file, directory, Result, ok,
  err, Inode, new, DirEntry, FileSystem, copy_into,
}

unfoldable pub lookup : List ℕ → Result Inode
lookup path =
    if bytes_eq path (codes "/") || bytes_eq path []
    then ok (new 1 directory)
    else if bytes_eq path (codes "/kernel")
    then ok (new 2 directory)
    else if bytes_eq path (codes "/kernel/hostname")
    then ok (new 3 regular_file)
    else err not_found

-- Past the first byte there is nothing, whatever the file.
unfoldable pub read : ℕ → Inode → ℕ → List ℕ → Result (ℕ × List ℕ)
read ticks inode offset buf =
    if ltb 0 offset
    then ok (0, buf)
    else if inode.inode_num == 3
    then ok (copy_into buf (codes "computekernel" ++ (10 ∷ [])))
    else err not_found

unfoldable pub write : Inode → ℕ → List ℕ → Result ℕ × List ℕ
write inode offset buf = (err permission_denied, [])

unfoldable pub readdir : Inode → Result (List DirEntry)
readdir inode =
    if inode.inode_num == 1
    then ok (record { name = codes "kernel"; inode_num = 2; kind = directory } ∷ [])
    else if inode.inode_num == 2
    then ok (record { name = codes "hostname"; inode_num = 3; kind = regular_file } ∷ [])
    else err not_a_directory

unfoldable pub create : Inode → List ℕ → InodeKind → ℕ → Result Inode
create parent name kind mode = err permission_denied

unfoldable pub unlink : Inode → List ℕ → Result Unit
unlink parent name = err permission_denied

abbrev pub sys_fs : FileSystem
sys_fs = record {
  name = codes "sysfs";
  lookup = lookup;
  read = read;
  write = write;
  readdir = readdir;
  create = create;
  unlink = unlink;
}
