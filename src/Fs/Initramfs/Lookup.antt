-- ===== src/Fs/Initramfs/Lookup.antt =====
-- What `lookup` of kernel/src/fs/initramfs.rs finds in an archive that the writer wrote, and what a
-- `read` of it gives.
use compute_kernel.Common.{ℕ, ◌≡◌, Bool, false, ◌||◌, List, [], ◌∷◌, ◌==◌, bytes_eq, All}
use compute_kernel.Fs.Initramfs.{trim_slashes}
use compute_kernel.Fs.Initramfs.Writer.{CpioFile}

-- A path as archives hold it: not empty, and without a slash in front.
pub data IsRelative : List ℕ → Type 0 where
  relative : (c : ℕ) (cs : List ℕ) → (c == b'/') ≡ false → IsRelative (c ∷ cs)

-- The paths of an archive are relative, and no two are the same.
unfoldable pub HasPaths : List CpioFile → Type 0
HasPaths [] = Unit
HasPaths (f ∷ fs) =
    IsRelative f.path × (All (λ (g : CpioFile). bytes_eq f.path g.path ≡ false) fs × HasPaths fs)

-- The test that `find` makes on an entry's path, for an absolute path.
abbrev finds : List ℕ → List ℕ → Bool
finds path entry = bytes_eq entry (b'/' ∷ path) || bytes_eq entry (trim_slashes (b'/' ∷ path))
