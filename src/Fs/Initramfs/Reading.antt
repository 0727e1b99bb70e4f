-- ===== src/Fs/Initramfs/Reading.antt =====
-- What `read` of kernel/src/fs/initramfs.rs gives of a file in an archive that the writer wrote.
use compute_kernel.Common.{
  ℕ, zero, suc, ◌+◌, ◌-◌, ◌^◌, ◌<◌, ◌≤◌, ◌≡◌, refl, sym, ap, ◌∙◌, Bool, true, false, List, [], ◌∷◌,
  ◌++◌, append_assoc, Option, some, arith, ltb, leb, ◌==◌, length, drop, replicate, length-append,
  length-replicate, le→leb, gt→leb, eq→==, lt_cases, inl, inr, drop_all, min, ne→==, lt→ltb, find?,
  get_elem?, done, slice, slice_tail,
}
use compute_kernel.Fs.{Inode, ok, copy_into}
use compute_kernel.Fs.Initramfs.{CpioEntry, InitramFs, entry_of, read}
use compute_kernel.Fs.Initramfs.Writer.{
  CpioFile, header, name_end, data_start, next_start, file_bytes, archive_from, align4_bounds,
}
use compute_kernel.Fs.Initramfs.Entries.{entry_at}
use compute_kernel.Fs.Initramfs.RoundTrip.{entries_from, next_start_eq, content_le}

-- Where the data of a file lies in an archive.
record Placed (archive : List ℕ) (found : Option CpioEntry) (f : CpioFile) : Type 0 where
  at : CpioEntry
  front : List ℕ
  behind : List ℕ
  is_found : found ≡ some at
  data_at : at.data_offset ≡ length front
  size_is : at.size ≡ length f.content
  parts : archive ≡ front ++ (f.content ++ behind)

regroup :
    (before h p : List ℕ) (z : ℕ) (g c pad rest : List ℕ)
    → before ++ (h ++ (p ++ (z ∷ (g ++ (c ++ pad)))) ++ rest)
      ≡ before ++ (h ++ (p ++ (z ∷ g))) ++ (c ++ (pad ++ rest))
regroup before h p z g c pad rest = simp append_assoc

-- The list in front of a file's data is as long as the offset of its data.
front_length :
    (before : List ℕ) (f : CpioFile)
    → length before + length f.path < 2 ^ 63
    → data_start (length before) f
      ≡ length (
          before
          ++ (header f
              ++ (f.path
                  ++ (0
                      ∷ replicate (data_start (length before) f - name_end (length before) f) 0))))
front_length before f h =
    let gap = replicate (data_start (length before) f - name_end (length before) f) (zero) in
    omega (
      arith,
      align4_bounds (name_end (length before) f) (omega arith),
      length-append before (header f ++ (f.path ++ (0 ∷ gap))),
      length-append f.path (0 ∷ gap),
      length-replicate (data_start (length before) f - name_end (length before) f) zero,
    )

first-Placed :
    (before : List ℕ) (f : CpioFile) (rest : List ℕ) (inode_num : ℕ)
    → length before + length f.path < 2 ^ 63
    → Placed
        (before ++ (file_bytes (length before) f ++ rest))
        (some (entry_at (length before) inode_num f))
        f
first-Placed before f rest inode_num h =
    let gap = replicate (data_start (length before) f - name_end (length before) f) (zero) in
    let end = data_start (length before) f + length f.content in
    let pad = replicate (next_start (length before) f - end) (zero) in
    record {
      at = entry_at (length before) inode_num f;
      front = before ++ (header f ++ (f.path ++ (0 ∷ gap)));
      behind = pad ++ rest;
      is_found = refl;
      data_at = front_length before f h;
      size_is = refl;
      parts = regroup before (header f) f.path 0 gap f.content pad rest;
    }

placed :
    (before : List ℕ) (files : List CpioFile) (offset inode_num j m : ℕ) (archive : List ℕ)
    {f : CpioFile}
    → offset ≡ length before
    → archive ≡ before ++ archive_from offset files
    → length archive < 2 ^ 63
    → m ≡ inode_num + j
    → get_elem? files j ≡ some f
    → Placed archive (find? (λ e. e.inode_num == m) (entries_from offset inode_num files)) f
placed before [] offset inode_num j m archive p q small n h = cc
placed before (g ∷ fs) offset inode_num zero m archive {f} p q small n h =
    let same : g ≡ f = cc in
    let this : (inode_num == m) ≡ true = eq→== (omega arith) in
    let size : length archive ≡ length before + length (archive_from offset (g ∷ fs)) =
      ap length q ∙ length-append before _ in
    let room : length before + length g.path < 2 ^ 63 = omega (
      arith,
      size,
      length-append (file_bytes offset g) (archive_from (next_start offset g) fs),
      content_le offset g,
    ) in
    rw (sym same, this, q, p)
      (first-Placed before g (archive_from (next_start (length before) g) fs) inode_num room)
placed before (g ∷ fs) offset inode_num (suc j) m archive p q small n h =
    let other : (inode_num == m) ≡ false = ne→== (omega arith) in
    let bytes = file_bytes offset g in
    let next = next_start offset g in
    let next_eq = next_start_eq before g (archive_from next fs) offset archive p q small in
    rw other (
      placed (before ++ bytes) fs next (inode_num + 1) j m archive next_eq
        (q ∙ sym (append_assoc before bytes (archive_from next fs))) small (omega arith) h)

-- A slice of a file's data from a place on.
data_slice :
    (archive : List ℕ) (found : Option CpioEntry) (f : CpioFile) (k : ℕ)
    (at : Placed archive found f)
    → k ≤ length f.content
    → slice (at.at.data_offset + k) (at.at.data_offset + at.at.size) archive
      ≡ done (drop k f.content)
data_slice archive found f k at h =
    rw (at.data_at, at.size_is, at.parts) (slice_tail at.front f.content at.behind k h)

Placed-end :
    (archive : List ℕ) (found : Option CpioEntry) (f : CpioFile) (at : Placed archive found f)
    → at.at.data_offset + at.at.size ≤ length archive
Placed-end archive found f at = omega (
  arith,
  at.data_at,
  at.size_is,
  ap length at.parts,
  length-append at.front (f.content ++ at.behind),
  length-append f.content at.behind,
)

copy_into_nil : (buf : List ℕ) → copy_into buf [] ≡ (0, buf)
copy_into_nil buf = let none_copied : min (length buf) 0 ≡ 0 = omega arith in rw none_copied refl

read-Placed :
    (checks : Bool) (fs : InitramFs) (inode : Inode) (k : ℕ) (buf : List ℕ) (f : CpioFile)
    → Placed fs.archive (entry_of fs inode.inode_num) f
    → length fs.archive < 2 ^ 63
    → k < 2 ^ 63
    → read checks fs inode k buf ≡ done (ok (copy_into buf (drop k f.content)))
unfolding read
read-Placed checks fs inode k buf f at small h =
    let found = at.is_found in
    let start = at.at.data_offset + k in
    let end = at.at.data_offset + at.at.size in
    let last = Placed-end fs.archive (entry_of fs inode.inode_num) f at in
    let sum : ltb start (2 ^ 64) ≡ true = lt→ltb _ _ (omega arith) in
    elim (lt_cases k (length f.content)) [
      | inl inside ↦
          let more : leb end start ≡ false = gt→leb _ _ (omega (arith, at.size_is)) in
          rw
            (
              read,
              found,
              sum,
              more,
              data_slice fs.archive (entry_of fs inode.inode_num) f k at (omega arith),
            )
            refl
      | inr past ↦
          let over : leb end start ≡ true = le→leb _ _ (omega (arith, at.size_is)) in
          rw (read, found, sum, over, drop_all f.content k past, copy_into_nil buf) refl
    ]

-- The file `j` of a written archive has the inode number `j + 2`, and `read` gives what its content
-- has from the offset on, as much as the buffer takes.
pub read_lem :
    (checks : Bool) (files : List CpioFile) (j : ℕ) (inode : Inode) (k : ℕ) (buf : List ℕ)
    {f : CpioFile}
    → get_elem? files j ≡ some f
    → inode.inode_num ≡ 2 + j
    → length (archive_from 0 files) < 2 ^ 63
    → k < 2 ^ 63
    → read checks
        (record { archive = archive_from 0 files; entries = entries_from 0 2 files })
        inode
        k
        buf
      ≡ done (ok (copy_into buf (drop k f.content)))
read_lem checks files j inode k buf {f} h n small room =
    read-Placed checks (record { archive = archive_from 0 files; entries = entries_from 0 2 files })
      inode k buf f
      (placed [] files 0 2 j inode.inode_num (archive_from 0 files) refl refl small n h) small room
