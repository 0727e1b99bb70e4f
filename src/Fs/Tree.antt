-- ===== src/Fs/Tree.antt =====
-- The directories of the pseudo file systems (kernel/src/fs/proc_fs.rs, sys_fs.rs, dev_fs.rs):
-- `readdir` against `lookup`.
use compute_kernel.Common.{
  ℕ, ◌≡◌, refl, List, [], ◌∷◌, ◌++◌, arith, ◌||◌, if◌then◌else◌, codes, bytes_eq, bytes_eq_sound,
  All, Bool-cases, inl, inr,
}
use compute_kernel.Fs.{VfsError, ok, err, Inode, new, DirEntry, FileSystem}
use compute_kernel.Fs.ProcFs
use compute_kernel.Fs.SysFs
use compute_kernel.Fs.DevFs
use compute_kernel.Fs.ProcFs.{proc_fs}
use compute_kernel.Fs.SysFs.{sys_fs}
use compute_kernel.Fs.DevFs.{dev_fs}

-- The file systems that live in memory.
pub data PseudoFs : Type 0 where
  proc sys dev : PseudoFs

abbrev pub file_system : PseudoFs → FileSystem
file_system proc = proc_fs
file_system sys = sys_fs
file_system dev = dev_fs

-- A directory's path and a name in it.
abbrev pub join : List ℕ → List ℕ → List ℕ
join path name =
    if bytes_eq path (codes "/") || bytes_eq path [] then 47 ∷ name else path ++ (47 ∷ name)

-- The entry's name, in the directory at this path, leads to its inode.
abbrev pub Resolves : FileSystem → List ℕ → DirEntry → Type 0
Resolves fs path e =
    (inode : Inode) × (fs.lookup (join path e.name) ≡ ok inode)
    × (inode.inode_num ≡ e.inode_num)
    × (inode.kind ≡ e.kind)

directory_at :
    (fs : FileSystem) (p : List ℕ) {path : List ℕ} {inode₀ : Inode} {es₀ : List DirEntry}
    → path ≡ p
    → fs.lookup p ≡ ok inode₀
    → fs.readdir inode₀ ≡ ok es₀
    → All (Resolves fs p) es₀
    → {inode : Inode} {es : List DirEntry} → fs.lookup path ≡ ok inode
    → fs.readdir inode ≡ ok es
    → All (Resolves fs path) es
directory_at fs p {path} {inode₀} {es₀} at found listed all {inode} {es} e r =
    let same : inode ≡ inode₀ = cc in let same_entries : es ≡ es₀ = cc in rw (same_entries, at) all

file_at :
    (fs : FileSystem) (p : List ℕ) {path : List ℕ} {inode₀ : Inode} {x : VfsError}
    → path ≡ p
    → fs.lookup p ≡ ok inode₀
    → fs.readdir inode₀ ≡ err x
    → {inode : Inode} {es : List DirEntry} → fs.lookup path ≡ ok inode
    → fs.readdir inode ≡ ok es
    → All (Resolves fs path) es
file_at fs p {path} {inode₀} at found refused {inode} e r = let same : inode ≡ inode₀ = cc in cc

sys_tree :
    (path : List ℕ) {inode : Inode} {es : List DirEntry}
    → sys_fs.lookup path ≡ ok inode
    → sys_fs.readdir inode ≡ ok es
    → All (Resolves sys_fs path) es
unfolding SysFs.lookup SysFs.readdir
sys_tree path e r = elim (Bool-cases (bytes_eq path (codes "/"))) [
  | inl root ↦
      directory_at sys_fs (codes "/") (bytes_eq_sound path (codes "/") root) refl refl
        ((new 2 _, refl, refl, refl), tt) e r
  | inr not_root ↦ elim (Bool-cases (bytes_eq path [])) [
    | inl empty ↦
        directory_at sys_fs [] (bytes_eq_sound path [] empty) refl refl
          ((new 2 _, refl, refl, refl), tt) e r
    | inr not_empty ↦ elim (Bool-cases (bytes_eq path (codes "/kernel"))) [
      | inl kernel ↦
          directory_at sys_fs (codes "/kernel") (bytes_eq_sound path (codes "/kernel") kernel) refl
            refl ((new 3 _, refl, refl, refl), tt) e r
      | inr not_kernel ↦ elim (Bool-cases (bytes_eq path (codes "/kernel/hostname"))) [
        | inl hostname ↦
            file_at sys_fs (codes "/kernel/hostname")
              (bytes_eq_sound path (codes "/kernel/hostname") hostname) refl refl e r
        | inr other ↦ ground arith
      ]
    ]
  ]
]

proc_tree :
    (path : List ℕ) {inode : Inode} {es : List DirEntry}
    → proc_fs.lookup path ≡ ok inode
    → proc_fs.readdir inode ≡ ok es
    → All (Resolves proc_fs path) es
unfolding ProcFs.lookup ProcFs.readdir
proc_tree path e r = elim (Bool-cases (bytes_eq path (codes "/"))) [
  | inl root ↦
      directory_at proc_fs (codes "/") (bytes_eq_sound path (codes "/") root) refl refl
        ((_, refl, refl, refl), ((_, refl, refl, refl), ((_, refl, refl, refl), tt))) e r
  | inr not_root ↦ elim (Bool-cases (bytes_eq path [])) [
    | inl empty ↦
        directory_at proc_fs [] (bytes_eq_sound path [] empty) refl refl
          ((_, refl, refl, refl), ((_, refl, refl, refl), ((_, refl, refl, refl), tt))) e r
    | inr not_empty ↦ elim (Bool-cases (bytes_eq path (codes "/version"))) [
      | inl version ↦
          file_at proc_fs (codes "/version") (bytes_eq_sound path (codes "/version") version) refl
            refl e r
      | inr not_version ↦ elim (Bool-cases (bytes_eq path (codes "/uptime"))) [
        | inl uptime ↦
            file_at proc_fs (codes "/uptime") (bytes_eq_sound path (codes "/uptime") uptime) refl
              refl e r
        | inr not_uptime ↦ elim (Bool-cases (bytes_eq path (codes "/meminfo"))) [
          | inl meminfo ↦
              file_at proc_fs (codes "/meminfo") (bytes_eq_sound path (codes "/meminfo") meminfo)
                refl refl e r
          | inr not_meminfo ↦ ground arith
        ]
      ]
    ]
  ]
]

dev_tree :
    (path : List ℕ) {inode : Inode} {es : List DirEntry}
    → dev_fs.lookup path ≡ ok inode
    → dev_fs.readdir inode ≡ ok es
    → All (Resolves dev_fs path) es
unfolding DevFs.lookup DevFs.readdir
dev_tree path e r = elim (Bool-cases (bytes_eq path (codes "/"))) [
  | inl root ↦
      directory_at dev_fs (codes "/") (bytes_eq_sound path (codes "/") root) refl refl
        (
          (_, refl, refl, refl),
          ((_, refl, refl, refl), ((_, refl, refl, refl), ((_, refl, refl, refl), tt))),
        )
        e r
  | inr not_root ↦ elim (Bool-cases (bytes_eq path [])) [
    | inl empty ↦
        directory_at dev_fs [] (bytes_eq_sound path [] empty) refl refl
          (
            (_, refl, refl, refl),
            ((_, refl, refl, refl), ((_, refl, refl, refl), ((_, refl, refl, refl), tt))),
          )
          e r
    | inr not_empty ↦ elim (Bool-cases (bytes_eq path (codes "/null"))) [
      | inl null ↦
          file_at dev_fs (codes "/null") (bytes_eq_sound path (codes "/null") null) refl refl e r
      | inr not_null ↦ elim (Bool-cases (bytes_eq path (codes "/zero"))) [
        | inl zeros ↦
            file_at dev_fs (codes "/zero") (bytes_eq_sound path (codes "/zero") zeros) refl refl e r
        | inr not_zeros ↦ elim (Bool-cases (bytes_eq path (codes "/full"))) [
          | inl full ↦
              file_at dev_fs (codes "/full") (bytes_eq_sound path (codes "/full") full) refl refl e
                r
          | inr not_full ↦ elim (Bool-cases (bytes_eq path (codes "/ttyS0"))) [
            | inl tty ↦
                file_at dev_fs (codes "/ttyS0") (bytes_eq_sound path (codes "/ttyS0") tty) refl refl
                  e r
            | inr not_tty ↦ ground arith
          ]
        ]
      ]
    ]
  ]
]

-- Every entry that a directory of /proc, /sys or /dev lists is found under the directory's path,
-- with the inode number and the kind that the entry names.
listed_found :
    (fs : PseudoFs) (path : List ℕ) {inode : Inode} {es : List DirEntry}
    → (file_system fs).lookup path ≡ ok inode
    → (file_system fs).readdir inode ≡ ok es
    → All (Resolves (file_system fs) path) es
listed_found proc path e r = proc_tree path e r
listed_found sys path e r = sys_tree path e r
listed_found dev path e r = dev_tree path e r
