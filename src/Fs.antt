-- ===== src/Fs.antt =====
-- The virtual file system: kernel/src/fs/vfs.rs, its types and the trait that the file systems
-- implement.
--
-- A path or a name is its bytes. A call that fails gives an error as a value. What a file system
-- reads or changes outside itself is explicit: a read is given the timer's ticks, a write gives the
-- bytes that it sends to the serial port besides its result.
pub mod ProcFs
pub mod SysFs
pub mod DevFs
pub mod Ext4
pub mod Initramfs
pub mod Tree
pub mod Agree
mod Tests
use Prim.{Unit}
use compute_kernel.Common.{ℕ, ◌+◌, min, Bool, List, ◌++◌, length, take, drop}

pub data VfsError : Type 0 where
  not_found permission_denied not_a_directory is_a_directory no_space invalid_path not_supported
        io :
      VfsError

pub data InodeKind : Type 0 where
  regular_file directory symlink char_device block_device pipe socket : InodeKind

-- `Result<T, VfsError>`.
pub data Result (A : Type 0) : Type 0 where
  ok : A → Result A
  err : VfsError → Result A

-- `FileMode::DEFAULT_FILE` is 0o644, `FileMode::DEFAULT_DIR` 0o755.
abbrev pub default_file : ℕ
default_file = 420

abbrev pub default_dir : ℕ
default_dir = 493

pub record Inode : Type 0 where
  pub inode_num : ℕ
  pub kind : InodeKind
  pub mode : ℕ
  pub size : ℕ
  pub uid : ℕ
  pub gid : ℕ
  pub link_count : ℕ
  pub atime : ℕ
  pub mtime : ℕ
  pub ctime : ℕ

abbrev pub default_mode : InodeKind → ℕ
default_mode directory = default_dir
default_mode _ = default_file

abbrev pub new : ℕ → InodeKind → Inode
new inode_num kind = record {
  inode_num = inode_num;
  kind = kind;
  mode = default_mode kind;
  size = 0;
  uid = 0;
  gid = 0;
  link_count = 1;
  atime = 0;
  mtime = 0;
  ctime = 0;
}

pub record DirEntry : Type 0 where
  pub name : List ℕ
  pub inode_num : ℕ
  pub kind : InodeKind

-- The trait `FileSystem`: a read is given the ticks, the offset and the buffer, and returns the
-- count and the buffer; a write returns its result and what it sends to the serial port.
pub record FileSystem : Type 0 where
  pub name : List ℕ
  pub lookup : List ℕ → Result Inode
  pub read : ℕ → Inode → ℕ → List ℕ → Result (ℕ × List ℕ)
  pub write : Inode → ℕ → List ℕ → Result ℕ × List ℕ
  pub readdir : Inode → Result (List DirEntry)
  pub create : Inode → List ℕ → InodeKind → ℕ → Result Inode
  pub unlink : Inode → List ℕ → Result Unit

-- An entry of the mount table, which nothing in the code fills.
pub record MountPoint : Type 0 where
  pub path : List ℕ
  pub fs : FileSystem

-- `n = min(buf.len(), available.len()); buf[..n].copy_from_slice(&available[..n])`.
abbrev pub copy_into : List ℕ → List ℕ → ℕ × List ℕ
copy_into buf available =
    let n = min (length buf) (length available) in (n, take n available ++ drop n buf)
