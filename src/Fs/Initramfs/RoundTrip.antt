-- ===== src/Fs/Initramfs/RoundTrip.antt =====
-- The parser of kernel/src/fs/initramfs.rs on archives that the writer wrote: what
-- `InitramFs::new` loads.
use mathlib.Core.List.{append_assoc}
use compute_kernel.Common.{
  ℕ, zero, suc, ◌+◌, ◌-◌, ◌^◌, ◌<◌, ◌≤◌, ◌≡◌, refl, sym, ap, ◌∙◌, true, List, [], ◌∷◌, ◌++◌, arith,
  length, replicate, length-append, append-nil, is_utf8, All,
}
use compute_kernel.Fs.Initramfs.{CpioEntry, entry, stop, parse_entry, loaded, parse_entries, load}
use compute_kernel.Fs.Initramfs.Writer.{
  CpioFile, trailer, name_end, data_start, next_start, file_data, file_bytes, archive_from,
  length-file_bytes,
}
use compute_kernel.Fs.Initramfs.Entries.{FitsHeader, IsFile, behind_name, entry_at, file_read}

-- The entries of the files from an offset and an inode number on.
abbrev pub entries_from : ℕ → ℕ → List CpioFile → List CpioEntry
entries_from offset inode_num [] = []
entries_from offset inode_num (f ∷ fs) =
    entry_at offset inode_num f ∷ entries_from (next_start offset f) (inode_num + 1) fs

-- A file is not longer than its bytes in the archive.
pub content_le :
    (offset : ℕ) (f : CpioFile)
    → 110 + length f.path + length f.content ≤ length (file_bytes offset f)
content_le offset f =
    let pad = replicate (next_start offset f - (data_start offset f + length f.content)) (zero) in
    let gap = replicate (data_start offset f - name_end offset f) (zero) in
    omega (
      arith,
      length-append f.path (behind_name offset f),
      length-append gap (file_data offset f),
      length-append f.content pad,
    )

-- A file of an archive ends in it.
within :
    (before : List ℕ) (f : CpioFile) (rest : List ℕ) (offset : ℕ) (archive : List ℕ)
    → archive ≡ before ++ (file_bytes offset f ++ rest)
    → length archive < 2 ^ 63
    → length before + length f.path + length f.content < 2 ^ 63
within before f rest offset archive q small =
    let bytes = file_bytes offset f in
    let size : length archive ≡ length before + (length bytes + length rest) =
      ap length q
      ∙ (length-append before (bytes ++ rest)
          ∙ ap (◌+◌ (length before)) (length-append bytes rest)) in
    omega (arith, size, content_le offset f)

-- Where the bytes of a file end, the next one starts.
pub next_start_eq :
    (before : List ℕ) (f : CpioFile) (rest : List ℕ) (offset : ℕ) (archive : List ℕ)
    → offset ≡ length before
    → archive ≡ before ++ (file_bytes offset f ++ rest)
    → length archive < 2 ^ 63
    → next_start offset f ≡ length (before ++ file_bytes offset f)
next_start_eq before f rest offset archive p q small =
    let bytes = file_bytes offset f in
    let room : offset + length f.path + length f.content < 2 ^ 63 =
      omega (arith, within before f rest offset archive q small) in
    sym (
      length-append before bytes
      ∙ (ap (λ (n : ℕ). n + length bytes) (sym p) ∙ length-file_bytes offset f room))

trailer-FitsHeader : FitsHeader trailer
trailer-FitsHeader = record {
  mode_lt = omega arith;
  path_lt = omega arith;
  content_lt = omega arith;
}

trailer-utf8 : is_utf8 trailer.path ≡ true
unfolding is_utf8
trailer-utf8 = refl

-- The bytes of the trailer end the loop.
trailer_read :
    (before : List ℕ) (inode_num : ℕ)
    → length before + 10 < 2 ^ 63
    → parse_entry (before ++ archive_from (length before) []) (length before) inode_num ≡ stop
trailer_read before inode_num near =
    let end = file_read before trailer inode_num [] trailer-utf8 trailer-FitsHeader near in
    ap (λ (t : List ℕ). parse_entry (before ++ t) (length before) inode_num)
      (sym (append-nil (file_bytes (length before) trailer)))
    ∙ end

round_stop :
    (fuel : ℕ) (archive : List ℕ) (offset inode_num : ℕ) (entries : List CpioEntry)
    → parse_entry archive offset inode_num ≡ stop
    → parse_entries (suc fuel) archive offset inode_num entries
      ≡ loaded (record { archive = archive; entries = entries })
unfolding parse_entries
round_stop fuel archive offset inode_num entries h = rw (h, parse_entries) refl

round_entry :
    (fuel : ℕ) (archive : List ℕ) (offset inode_num : ℕ) (entries : List CpioEntry) {e : CpioEntry}
    {next : ℕ}
    → parse_entry archive offset inode_num ≡ entry e next
    → parse_entries (suc fuel) archive offset inode_num entries
      ≡ parse_entries fuel archive next (inode_num + 1) (entries ++ (e ∷ []))
unfolding parse_entries
round_entry fuel archive offset inode_num entries h = rw (h, parse_entries) refl

entries_read :
    (fuel : ℕ) (before : List ℕ) (files : List CpioFile) (offset inode_num : ℕ)
    (entries : List CpioEntry) (archive : List ℕ)
    → All IsFile files
    → offset ≡ length before
    → archive ≡ before ++ archive_from offset files
    → length archive < 2 ^ 63
    → length files < fuel
    → parse_entries fuel archive offset inode_num entries
      ≡ loaded
          (record { archive = archive; entries = entries ++ entries_from offset inode_num files })
entries_read zero before files offset inode_num entries archive hs p q small enough =
    absurd (omega arith)
entries_read (suc fuel) before [] offset inode_num entries archive hs p q small enough =
    let end : parse_entry archive offset inode_num ≡ stop =
      let whole = q ∙ ap (◌++◌ before) (sym (append-nil (file_bytes offset trailer))) in
      rw (q, p)
        (trailer_read before inode_num
          (omega (arith, within before trailer [] offset archive whole small))) in
    round_stop fuel archive offset inode_num entries end
    ∙ ap (λ (es : List CpioEntry). loaded (record { archive = archive; entries = es }))
        (sym (append-nil entries))
entries_read (suc fuel) before (f ∷ fs) offset inode_num entries archive hs p q small enough =
    let bytes = file_bytes offset f in
    let next = next_start offset f in
    let e = entry_at offset inode_num f in
    let rest = archive_from next fs in
    let read : parse_entry archive offset inode_num ≡ entry e next =
      rw (q, p)
        (file_read before f inode_num (archive_from (next_start (length before) f) fs) hs.0.utf8
            hs.0.fits (omega (arith, within before f rest offset archive q small))
          ∙ rw (hs.0.named) refl) in
    let next_eq = next_start_eq before f rest offset archive p q small in
    let more =
      entries_read fuel (before ++ bytes) fs next (inode_num + 1) (entries ++ (e ∷ [])) archive hs.1
        next_eq (q ∙ sym (append_assoc before bytes rest)) small (omega arith) in
    round_entry fuel archive offset inode_num entries read
    ∙ (more
        ∙ ap (λ (es : List CpioEntry). loaded (record { archive = archive; entries = es }))
            (append_assoc entries (e ∷ []) (entries_from next (inode_num + 1) fs)))

pub files_le :
    (offset : ℕ) (files : List CpioFile) → length files ≤ length (archive_from offset files)
files_le offset [] = omega arith
files_le offset (f ∷ fs) = omega (
  arith,
  content_le offset f,
  files_le (next_start offset f) fs,
  length-append (file_bytes offset f) (archive_from (next_start offset f) fs),
)

-- `InitramFs::new` on an archive of less than 2 ^ 63 bytes that the writer wrote, of files whose names
-- are UTF-8 and not the trailer's and whose numbers fit a header, keeps its bytes, and has one entry
-- for each file, in order, numbered from 2, with its data at the multiple of four behind its name.
pub load_lem :
    (files : List CpioFile)
    → All IsFile files
    → length (archive_from 0 files) < 2 ^ 63
    → load (archive_from 0 files)
      ≡ loaded (record { archive = archive_from 0 files; entries = entries_from 0 2 files })
unfolding load
load_lem files hs small =
    entries_read (suc (length (archive_from 0 files))) [] files 0 2 [] (archive_from 0 files) hs
      refl refl small (omega (arith, files_le 0 files))
