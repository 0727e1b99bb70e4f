-- ===== src/Fs/Initramfs/Entries.antt =====
-- One round of the parser of kernel/src/fs/initramfs.rs on a file that the writer wrote.
use mathlib.Core.List.{append_assoc}
use compute_kernel.Common.{
  ℕ, ◌+◌, ◌-◌, ◌^◌, ◌<◌, ◌≡◌, refl, sym, ap, ◌∙◌, true, false, List, ◌∷◌, ◌++◌, some, arith, ltb,
  leb, le→leb, ge→ltb, if◌then◌else◌, codes, bytes_eq, length, take, drop, replicate, length-append,
  drop-append_add, is_utf8, done, slice, slice_middle,
}
use compute_kernel.Fs.Initramfs.{
  CpioEntry, cpio_newc_magic, field_at, entry, stop, parse_name, parse_entry,
}
use compute_kernel.Fs.Initramfs.Hex.{hex8, parse_hex8-hex8}
use compute_kernel.Fs.Initramfs.Writer.{
  CpioFile, header, name_end, data_start, next_start, file_data, file_bytes, pad4, align4_lem,
}

field_read :
    (before rest : List ℕ) (k n : ℕ)
    → n < 2 ^ 32
    → take 8 (drop k rest) ≡ hex8 n
    → field_at (before ++ rest) (length before + k) ≡ some n
unfolding field_at
field_read before rest k n h e = rw (drop-append_add before rest k, e) (parse_hex8-hex8 n h)

-- The numbers of a file fit its header's fields.
pub record FitsHeader (f : CpioFile) : Type 0 where
  pub mode_lt : f.mode < 2 ^ 32
  pub path_lt : length f.path + 1 < 2 ^ 32
  pub content_lt : length f.content < 2 ^ 32

-- A file that can stand in an archive: its name is text and not the trailer's.
pub record IsFile (f : CpioFile) : Type 0 where
  pub utf8 : is_utf8 f.path ≡ true
  pub named : bytes_eq f.path (codes "TRAILER!!!") ≡ false
  pub fits : FitsHeader f

-- The header of a file is read back.
header_read :
    (before : List ℕ) (f : CpioFile) (inode_num : ℕ) (rest : List ℕ)
    → FitsHeader f
    → let archive = before ++ (header f ++ rest) in
      parse_entry archive (length before) inode_num
      ≡ parse_name archive (length before) inode_num (length f.path + 1) (length f.content) f.mode
unfolding parse_entry
header_read before f inode_num rest h =
    let text = header f ++ rest in
    let namesize = field_read before text 94 (length f.path + 1) h.path_lt refl in
    let filesize = field_read before text 54 (length f.content) h.content_lt refl in
    let mode = field_read before text 14 f.mode h.mode_lt refl in
    let magic : take 6 (drop (length before) (before ++ text)) ≡ cpio_newc_magic =
      ap (λ (n : ℕ). take 6 (drop n (before ++ text))) (omega arith)
      ∙ ap (take 6) (drop-append_add before text 0) in
    let room : leb (length before + 110) (length (before ++ text)) ≡ true =
      le→leb _ _ (omega (arith, length-append before text)) in
    rw (room, magic, namesize, filesize, mode) refl

-- The bytes of a file behind its name.
abbrev pub behind_name : ℕ → CpioFile → List ℕ
behind_name offset f =
    0 ∷ (replicate (data_start offset f - name_end offset f) 0 ++ file_data offset f)

name_slice :
    (before : List ℕ) (f : CpioFile) (behind : List ℕ)
    → let offset = length before + 110 in
      slice offset (offset + (length f.path + 1) - 1) (before ++ (header f ++ (f.path ++ behind)))
      ≡ done f.path
name_slice before f behind =
    let offset = length before + 110 in
    let head : offset ≡ length (before ++ header f) =
      omega (arith, length-append before (header f)) in
    let middle =
      slice_middle (before ++ header f) f.path behind offset (offset + (length f.path + 1) - 1) head
        (omega arith) in
    rw (sym (append_assoc before (header f) (f.path ++ behind))) middle

-- The entry of a file that starts at an offset.
abbrev pub entry_at : ℕ → ℕ → CpioFile → CpioEntry
entry_at offset inode_num f = record {
  path = f.path;
  inode_num = inode_num;
  mode = f.mode;
  size = length f.content;
  data_offset = data_start offset f;
}

-- What follows the header is read back: a file, or the end.
name_read :
    (before : List ℕ) (f : CpioFile) (inode_num : ℕ) (behind : List ℕ)
    → is_utf8 f.path ≡ true
    → 0 < length behind
    → length before + length f.path < 2 ^ 63
    → length f.content < 2 ^ 32
    → parse_name
        (before ++ (header f ++ (f.path ++ behind)))
        (length before)
        inode_num
        (length f.path + 1)
        (length f.content)
        f.mode
      ≡ (if bytes_eq f.path (codes "TRAILER!!!")
          then stop
          else entry (entry_at (length before) inode_num f) (next_start (length before) f))
unfolding parse_name
name_read before f inode_num behind utf8 h near small =
    let archive = before ++ (header f ++ (f.path ++ behind)) in
    let room : ltb (length archive) (length before + 110 + (length f.path + 1)) ≡ false =
      ge→ltb _ _ (
        omega (
          arith,
          length-append before (header f ++ (f.path ++ behind)),
          length-append f.path behind,
        )) in
    let end = name_end (length before) f in
    let first = align4_lem end (omega arith) in
    let after = align4_lem (pad4 end + length f.content) (omega arith) in
    rw (room, name_slice before f behind, utf8, first, after) refl

-- One round of the parser on a file of the writer.
pub file_read :
    (before : List ℕ) (f : CpioFile) (inode_num : ℕ) (rest : List ℕ)
    → is_utf8 f.path ≡ true
    → FitsHeader f
    → length before + length f.path < 2 ^ 63
    → parse_entry (before ++ (file_bytes (length before) f ++ rest)) (length before) inode_num ≡ (
        if bytes_eq f.path (codes "TRAILER!!!")
        then stop
        else entry (entry_at (length before) inode_num f) (next_start (length before) f))
file_read before f inode_num rest utf8 fits near =
    let behind = behind_name (length before) f in
    let split : f.path ++ behind ++ rest ≡ f.path ++ (behind ++ rest) =
      append_assoc f.path behind rest in
    header_read before f inode_num (f.path ++ behind ++ rest) fits
    ∙ (ap
          (λ (t : List ℕ).
            parse_name (before ++ (header f ++ t)) (length before) inode_num (length f.path + 1)
              (length f.content) f.mode)
          split
        ∙ name_read before f inode_num (behind ++ rest) utf8 (omega arith) near fits.content_lt)
