-- ===== src/Initrd/Tests.antt =====
-- The lookup in an archive of one file: 3 bytes from offset 116 on.
use os.Base.{◌≡◌, refl, some, none, [], ◌∷◌}
use os.Cpio.{
  for_each_cpio_newc_file, visit_from, visit_round, read_entry, place_entry, checked_add,
  align_up_checked, bytes_match, parse_hex_from, c_string, next_offset, cpio_newc_paths_equal,
  strings_equal, normalize_archive_path,
}
use os.Cpio.Tests.{archive, archive_size}
use os.Initrd.{BootModule, find_initrd_file, for_each_initrd_file}

abbrev initrd : BootModule
initrd = record { bytes = archive; size = archive_size }

found : find_initrd_file (some initrd) (47 ∷ 97 ∷ []) ≡ some (some 116, 3)
unfolding find_initrd_file for_each_initrd_file for_each_cpio_newc_file visit_from visit_round
    read_entry place_entry checked_add align_up_checked bytes_match parse_hex_from c_string
    next_offset cpio_newc_paths_equal strings_equal normalize_archive_path
found = refl

missing : find_initrd_file (some initrd) (47 ∷ 98 ∷ []) ≡ some (none, 0)
unfolding find_initrd_file for_each_initrd_file for_each_cpio_newc_file visit_from visit_round
    read_entry place_entry checked_add align_up_checked bytes_match parse_hex_from c_string
    next_offset cpio_newc_paths_equal strings_equal normalize_archive_path
missing = refl
