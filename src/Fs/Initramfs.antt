-- ===== src/Fs/Initramfs.antt =====
-- The initramfs: kernel/src/fs/initramfs.rs, a parser of cpio archives in the newc format and the
-- file system on its entries.
--
-- The loop of `InitramFs::new` runs on fuel, one round for each entry. A slice out of range and an
-- overflow are panics. The lines of the serial log are left out.
pub mod Hex
pub mod Writer
pub mod Entries
pub mod RoundTrip
pub mod Reading
pub mod Lookup
pub mod Ending
pub mod Panics
mod Tests
use Prim.{Unit}
use compute_kernel.Common.{
  ℕ, zero, suc, ◌+◌, ◌-◌, ◌*◌, ◌%◌, ◌^◌, ◌&&◌, ◌||◌, not, Bool, true, false, Option, none, some,
  List, [], ◌∷◌, ◌++◌, ◌==◌, leb, ltb, if◌then◌else◌, codes, bytes_eq, length, take, drop, find?,
  any, bit_and, is_utf8, Outcome, done, panic, ◌>>=◌, slice, add_u64, in_range,
}
use compute_kernel.Fs.{
  not_found, permission_denied, InodeKind, regular_file, directory, symlink, Result, ok, err, Inode,
  new, DirEntry, copy_into,
}

pub record CpioEntry : Type 0 where
  pub path : List ℕ
  pub inode_num : ℕ
  pub mode : ℕ
  pub size : ℕ
  pub data_offset : ℕ

pub record InitramFs : Type 0 where
  pub archive : List ℕ
  pub entries : List CpioEntry

abbrev pub cpio_newc_magic : List ℕ
cpio_newc_magic = codes "070701"

abbrev pub header_size : ℕ
header_size = 110

-- A digit of `from_str_radix` at base 16.
unfoldable pub hex_digit : ℕ → Option ℕ
hex_digit c =
    if in_range b'0' b'9' c
    then some (c - b'0')
    else if in_range b'a' b'f' c
    then some (c - b'a' + 10)
    else if in_range b'A' b'F' c
    then some (c - b'A' + 10)
    else none

-- Its loop, which refuses what does not fit a u32.
pub hex_value : ℕ → List ℕ → Option ℕ
hex_value acc [] = some acc
hex_value acc (c ∷ cs) = elim (hex_digit c) [
  | none ↦ none
  | some d ↦
      let rest = hex_value (acc * 16 + d) cs in if ltb (acc * 16 + d) (2 ^ 32) then rest else none
]

-- `u32::from_str_radix(s, 16)`: no digits are refused, and one `+` may stand in front.
pub from_str_radix_16 : List ℕ → Option ℕ
unfolding hex_value hex_digit
from_str_radix_16 [] = none
from_str_radix_16 (c ∷ []) = hex_value 0 (c ∷ [])
from_str_radix_16 (c ∷ d ∷ cs) =
    if c == b'+' then hex_value 0 (d ∷ cs) else hex_value 0 (c ∷ d ∷ cs)

unfoldable pub parse_hex8 : List ℕ → Option ℕ
unfolding from_str_radix_16
parse_hex8 buf = if is_utf8 buf then from_str_radix_16 buf else none

-- `(x + 3) & !3`.
unfoldable pub align4 : ℕ → ℕ
align4 x = bit_and (x + 3) (2 ^ 64 - 4)

-- A header field of eight characters. (The header lies inside the archive, so the slice does.)
unfoldable pub field_at : List ℕ → ℕ → Option ℕ
unfolding parse_hex8
field_at archive start = parse_hex8 (take 8 (drop start archive))

-- One round of the loop: the `break`s, the `?`s, the panic of an empty name, or an entry with the
-- offset of the next.
pub data Round : Type 0 where
  stop refused crash : Round
  entry : CpioEntry → ℕ → Round

-- What follows the header's fields.
unfoldable pub parse_name : List ℕ → ℕ → ℕ → ℕ → ℕ → ℕ → Round
unfolding align4
parse_name archive offset inode_num namesize filesize mode =
    let name_offset = offset + header_size in
    let name_end = name_offset + namesize in
    if ltb (length archive) name_end
    then stop
    else elim (slice name_offset (name_end - 1) archive) [
      | panic ↦ crash
      | done path ↦
          let data_start = align4 name_end in
          if is_utf8 path
          then if bytes_eq path (codes "TRAILER!!!")
            then stop
            else entry
                (record {
                  path = path;
                  inode_num = inode_num;
                  mode = mode;
                  size = filesize;
                  data_offset = data_start;
                })
                (align4 (data_start + filesize))
          else refused
    ]

unfoldable pub parse_entry : List ℕ → ℕ → ℕ → Round
unfolding field_at parse_name
parse_entry archive offset inode_num =
    if leb (offset + header_size) (length archive)
    then if bytes_eq (take 6 (drop offset archive)) cpio_newc_magic
      then elim (field_at archive (offset + 94)) [
        | none ↦ refused
        | some namesize ↦ elim (field_at archive (offset + 54)) [
          | none ↦ refused
          | some filesize ↦ elim (field_at archive (offset + 14)) [
            | none ↦ refused
            | some mode ↦ parse_name archive offset inode_num namesize filesize mode
          ]
        ]
      ]
      else stop
    else stop

-- What `InitramFs::new` gives: the file system, `None`, a panic, or no end within the fuel.
pub data Loaded : Type 0 where
  loaded : InitramFs → Loaded
  malformed panicked unfinished : Loaded

unfoldable pub parse_entries : ℕ → List ℕ → ℕ → ℕ → List CpioEntry → Loaded
unfolding parse_entry
parse_entries zero archive offset inode_num entries = unfinished
parse_entries (suc fuel) archive offset inode_num entries =
    elim (parse_entry archive offset inode_num) [
      | stop ↦ loaded (record { archive = archive; entries = entries })
      | refused ↦ malformed
      | crash ↦ panicked
      | entry e next ↦ parse_entries fuel archive next (inode_num + 1) (entries ++ (e ∷ []))
    ]

-- `InitramFs::new`.
unfoldable pub load : List ℕ → Loaded
unfolding parse_entries
load archive = parse_entries (suc (length archive)) archive 0 2 []

-- `trim_start_matches('/')`.
pub trim_slashes : List ℕ → List ℕ
trim_slashes [] = []
trim_slashes (c ∷ cs) = if c == b'/' then trim_slashes cs else c ∷ cs

unfoldable pub find : InitramFs → List ℕ → Option CpioEntry
unfolding trim_slashes
find fs path = find? (λ e. bytes_eq e.path path || bytes_eq e.path (trim_slashes path)) fs.entries

-- `entry.mode & 0o170000 == 0o040000`.
abbrev pub is_dir : CpioEntry → Bool
is_dir e = bit_and e.mode 0xf000 == 0x4000

-- `entry.mode & 0o170000 == 0o120000`.
abbrev pub is_link : CpioEntry → Bool
is_link e = bit_and e.mode 0xf000 == 0xa000

abbrev pub kind_of : CpioEntry → InodeKind
kind_of e = if is_dir e then directory else if is_link e then symlink else regular_file

abbrev pub inode_of : CpioEntry → Inode
inode_of e = record (new e.inode_num (kind_of e)) { size = e.size; mode = e.mode % 2 ^ 16 }

unfoldable pub lookup : InitramFs → List ℕ → Result Inode
unfolding find
lookup fs path =
    if bytes_eq path (codes "/") || bytes_eq path []
    then ok (new 1 directory)
    else elim (find fs path) [ none ↦ err not_found | some e ↦ ok (inode_of e) ]

-- `self.entries.iter().find(|e| e.inode_num == inode.inode_num)`.
abbrev pub entry_of : InitramFs → ℕ → Option CpioEntry
entry_of fs inode_num = find? (λ e. e.inode_num == inode_num) fs.entries

-- The sum with the size is one that the parser has taken before.
unfoldable pub read : Bool → InitramFs → Inode → ℕ → List ℕ → Outcome (Result (ℕ × List ℕ))
read checks fs inode offset buf = elim (entry_of fs inode.inode_num) [
  | none ↦ done (err not_found)
  | some e ↦ do
    start ← add_u64 checks e.data_offset offset
    let end = e.data_offset + e.size
    if leb end start
        then done (ok (0, buf))
        else do available ← slice start end fs.archive; done (ok (copy_into buf available))
]

unfoldable pub write : InitramFs → Inode → ℕ → List ℕ → Result ℕ
write fs inode offset buf = err permission_denied

-- `s.starts_with(prefix)`, with what stands behind the prefix.
pub strip_prefix : List ℕ → List ℕ → Option (List ℕ)
strip_prefix [] s = some s
strip_prefix (p ∷ ps) [] = none
strip_prefix (p ∷ ps) (c ∷ cs) = if p == c then strip_prefix ps cs else none

-- The directory entry of one archive entry, under a prefix.
unfoldable pub listed : List ℕ → CpioEntry → Option DirEntry
unfolding strip_prefix trim_slashes
listed prefix e = elim (strip_prefix prefix e.path) [
  | none ↦ none
  | some rest ↦
      let name = trim_slashes rest in
      if any (λ c. c == b'/') name || bytes_eq name []
      then none
      else some (record {
        name = name;
        inode_num = e.inode_num;
        kind = if is_dir e then directory else regular_file;
      })
]

unfoldable pub listing : List ℕ → List CpioEntry → List DirEntry
listing prefix [] = []
listing prefix (e ∷ es) = elim (listed prefix e) [
  | none ↦ listing prefix es
  | some d ↦ d ∷ listing prefix es
]

unfoldable pub readdir : InitramFs → Inode → Result (List DirEntry)
readdir fs inode =
    if inode.inode_num == 1
    then ok (listing [] fs.entries)
    else elim (entry_of fs inode.inode_num) [
      | none ↦ err not_found
      | some e ↦ ok (listing e.path fs.entries)
    ]

unfoldable pub create : InitramFs → Inode → List ℕ → InodeKind → ℕ → Result Inode
create fs parent name kind mode = err permission_denied

unfoldable pub unlink : InitramFs → Inode → List ℕ → Result (Unit {0})
unlink fs parent name = err permission_denied
