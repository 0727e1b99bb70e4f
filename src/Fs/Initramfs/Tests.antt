-- ===== src/Fs/Initramfs/Tests.antt =====
-- The initramfs (kernel/src/fs/initramfs.rs) on an archive of two files, and its theorems at it.
use compute_kernel.Common.{
  ℕ, ◌^◌, ◌<◌, ◌≡◌, ◌≢◌, ◌↔◌, refl, some, List, [], ◌∷◌, ◌++◌, arith, codes, length, replicate,
  is_utf8, All,
}
use compute_kernel.Fs.{regular_file}
use compute_kernel.Fs.Initramfs.{
  align4, field_at, hex_digit, parse_hex8, parse_entry, crash, loaded, unfinished, load, listed,
  strip_prefix, trim_slashes,
}
use compute_kernel.Fs.Initramfs.Writer.{CpioFile, archive_from}
use compute_kernel.Fs.Initramfs.Entries.{IsFile}
use compute_kernel.Fs.Initramfs.RoundTrip.{entries_from, load_lem}
use compute_kernel.Fs.Initramfs.Ending.{load_ends}
use compute_kernel.Fs.Initramfs.Panics.{HasHeader, entry_crash}

-- Two files of an archive.
abbrev bin_dir : CpioFile
bin_dir = record { path = codes "bin"; mode = 0x41ed; content = [] }

abbrev shell_file : CpioFile
shell_file = record { path = codes "bin/sh"; mode = 0x81ed; content = codes "elf" }

abbrev two_files : List CpioFile
two_files = bin_dir ∷ shell_file ∷ []

two_files-IsFile : All IsFile two_files
unfolding is_utf8
two_files-IsFile = (
  record {
    utf8 = refl;
    named = refl;
    fits = record { mode_lt = omega arith; path_lt = omega arith; content_lt = omega arith };
  },
  (
    record {
      utf8 = refl;
      named = refl;
      fits = record { mode_lt = omega arith; path_lt = omega arith; content_lt = omega arith };
    },
    tt,
  ),
)

length-two_files : length (archive_from 0 two_files) ≡ 364
unfolding align4
length-two_files = refl

two_files_lt : length (archive_from 0 two_files) < 2 ^ 63
two_files_lt = omega (arith, length-two_files)

load_lem_example :
    load (archive_from 0 two_files)
    ≡ loaded (record { archive = archive_from 0 two_files; entries = entries_from 0 2 two_files })
load_lem_example = load_lem two_files two_files-IsFile two_files_lt

load_ends_example : load (codes "070701") ≢ unfinished
load_ends_example = load_ends (codes "070701") (omega arith)

-- A header of zeros behind the magic bytes: its name is empty.
abbrev nameless : List ℕ
nameless = codes "070701" ++ replicate 104 b'0'

entry_crash_example :
    (parse_entry nameless 0 2 ≡ crash)
    ↔ (filesize : ℕ) × ((mode : ℕ) × HasHeader nameless 0 0 filesize mode)
entry_crash_example = entry_crash nameless 0 2

nameless-HasHeader : HasHeader nameless 0 0 0 0
unfolding field_at hex_digit parse_hex8 is_utf8
nameless-HasHeader = record {
  header_inside = omega arith;
  magic_read = refl;
  namesize_read = refl;
  filesize_read = refl;
  mode_read = refl;
}

nameless_crashes : parse_entry nameless 0 2 ≡ crash
nameless_crashes = entry_crash_example.1 (0, (0, nameless-HasHeader))

-- A directory's entries are those whose path begins with its own: `foobar` is listed in `foo`.
foobar_in_foo :
    listed
      (codes "foo")
      (record { path = codes "foobar"; inode_num = 3; mode = 0x81a4; size = 0; data_offset = 0 })
    ≡ some (record { name = codes "bar"; inode_num = 3; kind = regular_file })
unfolding listed strip_prefix trim_slashes
foobar_in_foo = refl
