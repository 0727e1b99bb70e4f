-- ===== src/Fs/Tests.antt =====
-- The pseudo file systems of kernel/src/fs on concrete paths, and the theorems at them.
use compute_kernel.Common.{◌≡◌, ◌≢◌, refl, List, [], ◌∷◌, ◌++◌, codes, inr}
use compute_kernel.Process.{boot}
use compute_kernel.Syscall.{System, proc_version}
use compute_kernel.Syscall.Io.{read_static, node_bytes}
use compute_kernel.Fs.{err, no_space, not_found, new, directory, regular_file, DirEntry}
use compute_kernel.Fs.SysFs
use compute_kernel.Fs.SysFs.{sys_fs}
use compute_kernel.Fs.DevFs.{dev_fs}
use compute_kernel.Fs.DevFs
use compute_kernel.Fs.Tree.{proc, sys, file_system}
use compute_kernel.Fs.Agree.{fs_of, inode_of, filled, read_agrees}

abbrev demo : System
demo = record { kernel = boot; files = []; memory = λ a. 0; serial = 62 ∷ []; screen = [] }

full_device : (dev_fs.write (new 4 directory) 0 (1 ∷ [])).0 ≡ err no_space
unfolding DevFs.write
full_device = refl

no_such_path : sys_fs.lookup (codes "/kernel/") ≡ err not_found
unfolding SysFs.lookup
no_such_path = refl

abbrev kernel_entries : List DirEntry
kernel_entries = record { name = codes "hostname"; inode_num = 3; kind = regular_file } ∷ []

proc_ne_sys : proc ≢ sys
proc_ne_sys e = cc

read_agrees_example :
    (file_system (fs_of proc_version)).read 0 (inode_of proc_version) 40 (9 ∷ 9 ∷ 9 ∷ 9 ∷ [])
    ≡ filled (9 ∷ 9 ∷ 9 ∷ 9 ∷ []) (codes "y)" ++ (10 ∷ []))
unfolding node_bytes read_static
read_agrees_example =
    read_agrees proc_version 40 (9 ∷ 9 ∷ 9 ∷ 9 ∷ []) boot (inr (λ e. proc_ne_sys e))
