-- ===== src/Fs/ProcFs.antt =====
-- The /proc file system: kernel/src/fs/proc_fs.rs.
use Prim.{Unit}
use compute_kernel.Common.{
  ℕ, ◌/◌, Option, none, some, List, [], ◌∷◌, ◌++◌, leb, ◌||◌, if◌then◌else◌, codes, bytes_eq,
  length, drop, show_u64, ◌==◌,
}
use compute_kernel.Fs.{
  not_found, permission_denied, not_a_directory, InodeKind, regular_file, directory, Result, ok,
  err, Inode, new, DirEntry, FileSystem, copy_into,
}

abbrev pub version_content : List ℕ
version_content = codes "ComputeKERNEL version 1.0.0 (Rust nightly)" ++ (10 ∷ [])

-- 100 ticks a second.
abbrev pub uptime_content : ℕ → List ℕ
uptime_content ticks =
    let seconds = show_u64 (ticks / 100) in
    seconds ++ (codes ".00 " ++ (seconds ++ (codes ".00" ++ (10 ∷ []))))

abbrev pub meminfo_content : List ℕ
meminfo_content =
    codes "MemTotal:         102400 kB" ++ (10 ∷ (codes "MemFree:           51200 kB" ++ (10 ∷ [])))

unfoldable pub lookup : List ℕ → Result Inode
lookup path =
    if bytes_eq path (codes "/") || bytes_eq path []
    then ok (new 1 directory)
    else if bytes_eq path (codes "/version")
    then ok (new 2 regular_file)
    else if bytes_eq path (codes "/uptime")
    then ok (new 3 regular_file)
    else if bytes_eq path (codes "/meminfo")
    then ok (new 4 regular_file)
    else err not_found

-- `match inode.inode_num` of `read`.
abbrev pub content_of : ℕ → ℕ → Option (List ℕ)
content_of ticks inode_num =
    if inode_num == 2
    then some version_content
    else if inode_num == 3
    then some (uptime_content ticks)
    else if inode_num == 4
    then some meminfo_content
    else none

unfoldable pub read : ℕ → Inode → ℕ → List ℕ → Result (ℕ × List ℕ)
read ticks inode offset buf = elim (content_of ticks inode.inode_num) [
  | none ↦ err not_found
  | some content ↦
      if leb (length content) offset then ok (0, buf) else ok (copy_into buf (drop offset content))
]

unfoldable pub write : Inode → ℕ → List ℕ → Result ℕ × List ℕ
write inode offset buf = (err permission_denied, [])

unfoldable pub readdir : Inode → Result (List DirEntry)
readdir inode =
    if inode.inode_num == 1
    then ok (
        record { name = codes "version"; inode_num = 2; kind = regular_file }
        ∷ record { name = codes "uptime"; inode_num = 3; kind = regular_file }
        ∷ record { name = codes "meminfo"; inode_num = 4; kind = regular_file }
        ∷ [])
    else err not_a_directory

unfoldable pub create : Inode → List ℕ → InodeKind → ℕ → Result Inode
create parent name kind mode = err permission_denied

unfoldable pub unlink : Inode → List ℕ → Result Unit
unlink parent name = err permission_denied

abbrev pub proc_fs : FileSystem
proc_fs = record {
  name = codes "proc";
  lookup = lookup;
  read = read;
  write = write;
  readdir = readdir;
  create = create;
  unlink = unlink;
}
