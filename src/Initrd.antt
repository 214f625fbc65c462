-- ===== src/Initrd.antt =====
-- The initrd of src/kernel/fs/initrd.cpp: the first boot module, looked up by path.
pub mod Lookup
pub mod Tests
use os.Base.{ℕ, Bool, true, false, Option, none, some, List, if◌then◌else◌}
use os.Cpio.{Archive, Visitor, for_each_cpio_newc_file, cpio_newc_paths_equal}

-- The first module: its bytes and `length`. `none` stands for a null `g_boot_info` or for no module.
pub record BootModule : Type 0 where
  pub bytes : Archive
  pub size : ℕ

-- `data` is an offset in the module, `none` where the pointer is null.
pub record InitrdLookupContext : Type 0 where
  pub path : List ℕ
  pub file_data : Option ℕ
  pub size : ℕ

-- `match_initrd_file(archive_name, file_data, file_size, context)`
abbrev pub match_initrd_file : Visitor InitrdLookupContext
match_initrd_file archive_name file_data file_size lookup =
    if cpio_newc_paths_equal archive_name lookup.path
    then (record lookup { file_data = some file_data; size = file_size }, false)
    else (lookup, true)

-- `for_each_initrd_file(visitor, context)`
unfoldable pub for_each_initrd_file :
    {C : Type 0} → Option BootModule → Visitor C → C → Option (C × Bool)
for_each_initrd_file none visitor c = some (c, false)
for_each_initrd_file (some m) visitor c = for_each_cpio_newc_file m.bytes m.size visitor c

abbrev pub looked_up : Option (InitrdLookupContext × Bool) → Option (Option ℕ × ℕ)
looked_up none = none
looked_up (some (lookup, _)) = some (lookup.file_data, lookup.size)

-- `find_initrd_file(path, data, size)`: the data and the size; the result is whether data is not null.
unfoldable pub find_initrd_file : Option BootModule → List ℕ → Option (Option ℕ × ℕ)
find_initrd_file initrd path = looked_up (
    for_each_initrd_file initrd match_initrd_file
      (record { path = path; file_data = none; size = 0 }))
