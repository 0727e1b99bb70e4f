-- ===== src/Fs/Ext4.antt =====
-- The ext4 stub: kernel/src/fs/ext4.rs, whose every operation is refused.
use compute_kernel.Common.{ℕ, List, [], codes}
use compute_kernel.Fs.{not_supported, err, FileSystem}

-- `Ext4Fs` of a device path.
pub record Ext4Fs : Type 0 where
  pub device : List ℕ

-- `Ext4Fs::new`.
abbrev pub new : List ℕ → Ext4Fs
new device = record { device = device }

abbrev pub ext4 : Ext4Fs → FileSystem
ext4 fs = record {
  name = codes "ext4";
  lookup = λ path. err not_supported;
  read = λ ticks inode offset buf. err not_supported;
  write = λ inode offset buf. (err not_supported, []);
  readdir = λ inode. err not_supported;
  create = λ parent name kind mode. err not_supported;
  unlink = λ parent name. err not_supported;
}
