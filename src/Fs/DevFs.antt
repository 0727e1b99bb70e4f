-- ===== src/Fs/DevFs.antt =====
-- The /dev file system: kernel/src/fs/dev_fs.rs.
use Prim.{Unit}
use compute_kernel.Common.{
  ℕ, List, [], ◌∷◌, ◌||◌, if◌then◌else◌, codes, bytes_eq, ◌==◌, length, replicate,
}
use compute_kernel.Fs.{
  not_found, permission_denied, not_a_directory, no_space, InodeKind, directory, char_device,
  Result, ok, err, Inode, new, DirEntry, FileSystem,
}
use compute_kernel.Syscall.Io.{char_bytes}

-- The modes are 0o666 and 0o660.
unfoldable pub lookup : List ℕ → Result Inode
lookup path =
    if bytes_eq path (codes "/") || bytes_eq path []
    then ok (new 1 directory)
    else if bytes_eq path (codes "/null")
    then ok (record (new 2 char_device) { mode = 438 })
    else if bytes_eq path (codes "/zero")
    then ok (record (new 3 char_device) { mode = 438 })
    else if bytes_eq path (codes "/full")
    then ok (record (new 4 char_device) { mode = 438 })
    else if bytes_eq path (codes "/ttyS0")
    then ok (record (new 5 char_device) { mode = 432 })
    else err not_found

unfoldable pub read : ℕ → Inode → ℕ → List ℕ → Result (ℕ × List ℕ)
read ticks inode offset buf =
    if inode.inode_num == 2
    then ok (0, buf)
    else if inode.inode_num == 3 || inode.inode_num == 4
    then ok (length buf, replicate (length buf) 0)
    else if inode.inode_num == 5
    then ok (0, buf)
    else err not_found

unfoldable pub write : Inode → ℕ → List ℕ → Result ℕ × List ℕ
write inode offset buf =
    if inode.inode_num == 2
    then (ok (length buf), [])
    else if inode.inode_num == 3
    then (ok (length buf), [])
    else if inode.inode_num == 4
    then (err no_space, [])
    else if inode.inode_num == 5
    then (ok (length buf), char_bytes buf)
    else (err not_found, [])

unfoldable pub readdir : Inode → Result (List DirEntry)
readdir inode =
    if inode.inode_num == 1
    then ok (
        record { name = codes "null"; inode_num = 2; kind = char_device }
        ∷ record { name = codes "zero"; inode_num = 3; kind = char_device }
        ∷ record { name = codes "full"; inode_num = 4; kind = char_device }
        ∷ record { name = codes "ttyS0"; inode_num = 5; kind = char_device }
        ∷ [])
    else err not_a_directory

unfoldable pub create : Inode → List ℕ → InodeKind → ℕ → Result Inode
create parent name kind mode = err permission_denied

unfoldable pub unlink : Inode → List ℕ → Result Unit
unlink parent name = err permission_denied

abbrev pub dev_fs : FileSystem
dev_fs = record {
  name = codes "devfs";
  lookup = lookup;
  read = read;
  write = write;
  readdir = readdir;
  create = create;
  unlink = unlink;
}
