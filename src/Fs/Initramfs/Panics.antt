-- ===== src/Fs/Initramfs/Panics.antt =====
-- Where the code of kernel/src/fs/initramfs.rs panics: on an entry with an empty name, and on the
-- data of a file that the archive does not hold.
use compute_kernel.Common.{
  ℕ, ◌+◌, ◌-◌, ◌^◌, ◌<◌, ◌≤◌, ◌≡◌, ◌≢◌, ◌↔◌, inl, inr, refl, ap, sym, ◌∙◌, Bool, false, Bool-cases,
  List, Option, none, some, true, arith, ltb, leb, leb→le, ge→ltb, lt→ltb, gt→leb, le→leb, codes,
  bytes_eq, length, take, drop, is_utf8, done, panic, slice, lt_cases,
}
use compute_kernel.Fs.{Inode}
use compute_kernel.Fs.Initramfs.{
  CpioEntry, InitramFs, entry, stop, refused, crash, align4, parse_name, parse_entry, field_at,
  cpio_newc_magic, entry_of, read,
}

-- A name that ends in the archive is cut out of it, unless it is empty.
named_no_crash :
    (archive : List ℕ) (offset inode_num namesize filesize mode : ℕ)
    → offset + 110 + namesize ≤ length archive
    → 0 < namesize
    → parse_name archive offset inode_num namesize filesize mode ≢ crash
unfolding parse_name
named_no_crash archive offset inode_num namesize filesize mode room some_name h =
    let start = offset + 110 in
    let end = offset + 110 + namesize in
    let path = take (end - 1 - start) (drop start archive) in
    let whole : slice start (end - 1) archive ≡ done path =
      rw (le→leb start (end - 1) (omega arith), le→leb (end - 1) (length archive) (omega arith))
        refl in
    let inside : ltb (length archive) end ≡ false = ge→ltb _ _ room in
    elim (Bool-cases (is_utf8 path)) [
      | inr u ↦ let out : refused ≡ crash = sym (rw (parse_name, inside, whole, u) refl) ∙ h in cc
      | inl u ↦ elim (Bool-cases (bytes_eq path (codes "TRAILER!!!"))) [
        | inl t ↦ let out : stop ≡ crash = sym (rw (parse_name, inside, whole, u, t) refl) ∙ h in cc
        | inr t ↦
            let x : CpioEntry = record {
              path = path;
              inode_num = inode_num;
              mode = mode;
              size = filesize;
              data_offset = align4 end;
            } in
            let out : entry x (align4 (align4 end + filesize)) ≡ crash =
              sym (rw (parse_name, inside, whole, u, t) refl) ∙ h in
            cc
      ]
    ]

-- With a header that has been read and a name that lies in the archive, `namesize` zero is a panic,
-- and nothing else is.
name_crash :
    (archive : List ℕ) (offset inode_num namesize filesize mode : ℕ)
    → offset + 110 + namesize ≤ length archive
    → (parse_name archive offset inode_num namesize filesize mode ≡ crash) ↔ (namesize ≡ 0)
unfolding parse_name
name_crash archive offset inode_num namesize filesize mode room =
    let start = offset + 110 in
    let end = offset + 110 + namesize in
    let inside : ltb (length archive) end ≡ false = ge→ltb _ _ room in
    (
      (λ h. elim (lt_cases 0 namesize) [
        | inl some_name ↦
            absurd (named_no_crash archive offset inode_num namesize filesize mode room some_name h)
        | inr z ↦ omega arith
      ]),
      λ z.
          let before : leb start (end - 1) ≡ false = gt→leb _ _ (omega arith) in
          rw (parse_name, inside, before) refl,
    )

-- A name that does not end in the archive ends the loop.
name_in_archive :
    (archive : List ℕ) (offset inode_num namesize filesize mode : ℕ)
    → parse_name archive offset inode_num namesize filesize mode ≡ crash
    → offset + 110 + namesize ≤ length archive
unfolding parse_name
name_in_archive archive offset inode_num namesize filesize mode h =
    elim (lt_cases (length archive) (offset + 110 + namesize)) [
      | inr room ↦ room
      | inl out ↦
          let past = lt→ltb _ _ out in
          absurd (let clash : stop ≡ crash = sym (rw (parse_name, past) refl) ∙ h in cc)
    ]

-- A header lies in the archive, begins with the magic bytes, and its three fields are numbers.
pub record HasHeader (archive : List ℕ) (offset namesize filesize mode : ℕ) : Type 0 where
  pub header_inside : offset + 110 ≤ length archive
  pub magic_read : bytes_eq (take 6 (drop offset archive)) cpio_newc_magic ≡ true
  pub namesize_read : field_at archive (offset + 94) ≡ some namesize
  pub filesize_read : field_at archive (offset + 54) ≡ some filesize
  pub mode_read : field_at archive (offset + 14) ≡ some mode

header_crash :
    (archive : List ℕ) (offset inode_num : ℕ) (x y z : Option ℕ)
    → field_at archive (offset + 94) ≡ x
    → field_at archive (offset + 54) ≡ y
    → field_at archive (offset + 14) ≡ z
    → parse_entry archive offset inode_num ≡ crash
    → (filesize : ℕ) × ((mode : ℕ) × HasHeader archive offset 0 filesize mode)
unfolding parse_entry
header_crash archive offset inode_num none y z p q r h = absurd (ground (arith, h, p))
header_crash archive offset inode_num (some a) none z p q r h = absurd (ground (arith, h, p, q))
header_crash archive offset inode_num (some a) (some b) none p q r h =
    absurd (ground (arith, h, p, q, r))
header_crash archive offset inode_num (some a) (some b) (some c) p q r h =
    elim (Bool-cases (leb (offset + 110) (length archive))) [
      | inr t ↦ absurd (ground (arith, h, t))
      | inl t ↦ elim (Bool-cases (bytes_eq (take 6 (drop offset archive)) cpio_newc_magic)) [
        | inr m ↦ absurd (ground (arith, h, t, m))
        | inl m ↦
            let name = sym (rw (parse_entry, t, m, p, q, r) refl) ∙ h in
            let room = name_in_archive archive offset inode_num a b c name in
            let empty : a ≡ 0 = (name_crash archive offset inode_num a b c room).0 name in
            (
              b,
              (
                c,
                record {
                  header_inside = leb→le _ _ t;
                  magic_read = m;
                  namesize_read = p ∙ ap some empty;
                  filesize_read = q;
                  mode_read = r;
                },
              ),
            )
      ]
    ]

-- A round of the parser panics exactly at an entry whose header lies in the archive, begins with the
-- magic bytes and has three fields that are numbers, and whose `namesize` is zero.
pub entry_crash :
    (archive : List ℕ) (offset inode_num : ℕ)
    → (parse_entry archive offset inode_num ≡ crash)
      ↔ (filesize : ℕ) × ((mode : ℕ) × HasHeader archive offset 0 filesize mode)
unfolding parse_entry
entry_crash archive offset inode_num = (
  header_crash archive offset inode_num _ _ _ refl refl refl,
  λ (filesize, (mode, v)).
      let inside = le→leb (offset + 110) (length archive) v.header_inside in
      let name =
        (name_crash archive offset inode_num 0 filesize mode (omega (arith, v.header_inside))).1
          refl in
      rw (parse_entry, inside, v.magic_read, v.namesize_read, v.filesize_read, v.mode_read) name,
)

-- A read below the size of a file panics when the archive ends before the file does, whatever the
-- file system has been loaded from.
pub truncated_panics :
    (checks : Bool) (fs : InitramFs) (inode : Inode) (offset : ℕ) (buf : List ℕ) {e : CpioEntry}
    → entry_of fs inode.inode_num ≡ some e
    → e.data_offset + offset < 2 ^ 64
    → offset < e.size
    → length fs.archive < e.data_offset + e.size
    → read checks fs inode offset buf ≡ panic
unfolding read
truncated_panics checks fs inode offset buf {e} found fits below short =
    let start = e.data_offset + offset in
    let end = e.data_offset + e.size in
    rw
      (
        read,
        found,
        lt→ltb start (2 ^ 64) fits,
        gt→leb end start (omega arith),
        le→leb start end (omega arith),
        gt→leb end (length fs.archive) short,
      )
      refl
