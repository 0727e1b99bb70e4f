-- ===== src/Fs/Initramfs/Writer.antt =====
-- A writer of cpio archives in the newc format, against which the parser of
-- kernel/src/fs/initramfs.rs is checked.
use compute_kernel.Common.{
  ℕ, zero, ◌+◌, ◌-◌, ◌*◌, ◌/◌, ◌^◌, ◌<◌, ◌≤◌, ◌≡◌, List, [], ◌∷◌, ◌++◌, arith, codes, length,
  replicate, length-append, length-replicate, bit_and-low, bit_and-digit,
}
use compute_kernel.Fs.Initramfs.{align4}
use compute_kernel.Fs.Initramfs.Hex.{hex8}

pub record CpioFile : Type 0 where
  pub path : List ℕ
  pub mode : ℕ
  pub content : List ℕ

-- The file that ends an archive.
abbrev pub trailer : CpioFile
trailer = record { path = codes "TRAILER!!!"; mode = 0; content = [] }

-- Inode, owner, links, time, devices and check sum are zero.
abbrev pub header : CpioFile → List ℕ
header f =
    codes "070701"
    ++ (codes "00000000"
        ++ (hex8 f.mode
            ++ (codes "00000000000000000000000000000000"
                ++ (hex8 (length f.content)
                    ++ (codes "00000000000000000000000000000000"
                        ++ (hex8 (length f.path + 1) ++ codes "00000000"))))))

-- The next multiple of four, where the format has what follows a name and a file's data.
abbrev pub pad4 : ℕ → ℕ
pad4 x = (x + 3) / 4 * 4

-- Where the name of a file that starts at an offset ends, where its data starts, and where the next
-- file starts.
abbrev pub name_end : ℕ → CpioFile → ℕ
name_end offset f = offset + 110 + (length f.path + 1)

abbrev pub data_start : ℕ → CpioFile → ℕ
data_start offset f = pad4 (name_end offset f)

abbrev pub next_start : ℕ → CpioFile → ℕ
next_start offset f = pad4 (data_start offset f + length f.content)

-- The data of a file, and what fills up to the next one.
abbrev pub file_data : ℕ → CpioFile → List ℕ
file_data offset f =
    f.content ++ replicate (next_start offset f - (data_start offset f + length f.content)) 0

abbrev pub file_bytes : ℕ → CpioFile → List ℕ
file_bytes offset f =
    header f
    ++ (f.path
        ++ (0 ∷ (replicate (data_start offset f - name_end offset f) 0 ++ file_data offset f)))

-- An archive from an offset on, up to its trailer.
abbrev pub archive_from : ℕ → List CpioFile → List ℕ
archive_from offset [] = file_bytes offset trailer
archive_from offset (f ∷ fs) = file_bytes offset f ++ archive_from (next_start offset f) fs

pub align4_lem : (x : ℕ) → x + 3 < 2 ^ 64 → align4 x ≡ pad4 x
unfolding align4
align4_lem x h =
    let y : (x + 3) / 2 / 2 ≡ (x + 3) / 4 = omega arith in
    let low = bit_and-low 62 ((x + 3) / 2 / 2) (2 ^ 62 - 1) (omega arith) in
    omega (arith, bit_and-digit (x + 3) (2 ^ 64 - 4), bit_and-digit ((x + 3) / 2) (2 ^ 63 - 2), low)

pub align4_bounds : (x : ℕ) → x + 3 < 2 ^ 64 → (x ≤ align4 x) × (align4 x ≤ x + 3)
align4_bounds x h = omega (arith, align4_lem x h)

pub length-file_bytes :
    (offset : ℕ) (f : CpioFile)
    → offset + length f.path + length f.content < 2 ^ 63
    → offset + length (file_bytes offset f) ≡ next_start offset f
length-file_bytes offset f h =
    let pad = replicate (next_start offset f - (data_start offset f + length f.content)) (zero) in
    let gap = replicate (data_start offset f - name_end offset f) (zero) in
    omega (
      arith,
      align4_bounds (name_end offset f) (omega arith),
      align4_bounds (data_start offset f + length f.content)
          (omega (arith, align4_bounds (name_end offset f) (omega arith))),
      length-append f.path (0 ∷ (gap ++ file_data offset f)),
      length-append gap (file_data offset f),
      length-append f.content pad,
      length-replicate (next_start offset f - (data_start offset f + length f.content)) zero,
      length-replicate (data_start offset f - name_end offset f) zero,
    )
