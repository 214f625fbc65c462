-- ===== src/Cpio/Tests.antt =====
-- The archive theorems on an archive of one file and the trailer.
use os.Base.{
  ℕ, ◌+◌, ◌<◌, ◌≡◌, refl, true, some, List, [], ◌∷◌, ◌++◌, length, get_or, arith, ltb,
  if◌then◌else◌,
}
use os.Cpio.{
  Archive, Visitor, for_each_cpio_newc_file, visit_from, visit_round, read_entry, place_entry,
  checked_add, align_up_checked, bytes_match, parse_hex_from, c_string, next_offset,
  cpio_newc_paths_equal, strings_equal, normalize_archive_path, copy_cpio_newc_path, copy_bytes,
}
use os.Cpio.Local.{for_each_cpio_newc_file-same}
use os.Base.{false, false≢true, sym, ap, ◌==◌, Bool}
use os.Cpio.{trailer_name}
use os.Cpio.Written.{Item, IsWritten}
use os.Cpio.Contents.{HoldsItems}

abbrev zero_digits : List ℕ
zero_digits = 48 ∷ 48 ∷ 48 ∷ 48 ∷ 48 ∷ 48 ∷ 48 ∷ 48 ∷ []

-- A header: the type of file, the last digit of the size of the file and that of the name.
abbrev header : ℕ → ℕ → ℕ → List ℕ
header kind file name =
    (48 ∷ 55 ∷ 48 ∷ 55 ∷ 48 ∷ 49 ∷ [])
    ++ (zero_digits
        ++ ((48 ∷ 48 ∷ 48 ∷ 48 ∷ kind ∷ 48 ∷ 48 ∷ 48 ∷ [])
            ++ (zero_digits
                ++ (zero_digits
                    ++ (zero_digits
                        ++ (zero_digits
                            ++ ((48 ∷ 48 ∷ 48 ∷ 48 ∷ 48 ∷ 48 ∷ 48 ∷ file ∷ [])
                                ++ (zero_digits
                                    ++ (zero_digits
                                        ++ (zero_digits
                                            ++ (zero_digits
                                                ++ ((48 ∷ 48 ∷ 48 ∷ 48 ∷ 48 ∷ 48 ∷ 48 ∷ name ∷ [])
                                                    ++ zero_digits))))))))))))

-- "./a" with the bytes 1 2 3, and the trailer.
abbrev bytes : List ℕ
bytes =
    header 56 51 52
    ++ ((46 ∷ 47 ∷ 97 ∷ 0 ∷ 0 ∷ 0 ∷ [])
        ++ ((1 ∷ 2 ∷ 3 ∷ 0 ∷ [])
            ++ (header 48 48 98
                ++ (84 ∷ 82 ∷ 65 ∷ 73 ∷ 76 ∷ 69 ∷ 82 ∷ 33 ∷ 33 ∷ 33 ∷ 0 ∷ 0 ∷ 0 ∷ 0 ∷ []))))

abbrev pub archive : Archive
archive i = get_or bytes i 0

abbrev pub archive_size : ℕ
archive_size = length bytes

abbrev count : Visitor ℕ
count name offset size n = (n + size, true)

-- The size of the files is 3.
count_bytes : for_each_cpio_newc_file archive archive_size count 0 ≡ some (3, true)
unfolding for_each_cpio_newc_file visit_from visit_round read_entry place_entry checked_add
    align_up_checked bytes_match parse_hex_from c_string next_offset cpio_newc_paths_equal
    strings_equal normalize_archive_path
count_bytes = refl

-- The same archive in a memory that goes on with other bytes.
abbrev extended : Archive → ℕ → Archive
extended a n i = if ltb i n then a i else 255

abbrev longer : Archive
longer = extended archive archive_size

extended_below : (a : Archive) (n i : ℕ) → i < n → a i ≡ extended a n i
extended_below a n i h = ground (arith, h)

for_each_cpio_newc_file-same_example :
    for_each_cpio_newc_file archive archive_size count 0
    ≡ for_each_cpio_newc_file longer archive_size count 0
for_each_cpio_newc_file-same_example =
    for_each_cpio_newc_file-same archive_size archive longer count 0
      (extended_below archive archive_size)

copy_name : copy_cpio_newc_path 4 (46 ∷ 47 ∷ 97 ∷ []) ≡ 47 ∷ 97 ∷ 0 ∷ 0 ∷ []
unfolding copy_cpio_newc_path copy_bytes normalize_archive_path
copy_name = refl

-- The file, and the trailer.
abbrev pub item : Item
item = record { path = 97 ∷ []; dotted = true; upper = true; type = 8; permissions = 0; size = 3 }

abbrev trailer : Item
trailer = record {
  path = trailer_name;
  dotted = false;
  upper = false;
  type = 0;
  permissions = 0;
  size = 0;
}

item-IsWritten : IsWritten archive archive_size 0 item
item-IsWritten = record {
  magic = (refl, (refl, (refl, (refl, (refl, (refl, tt))))));
  mode = (refl, (refl, (refl, (refl, (refl, (refl, (refl, (refl, tt))))))));
  file_size = (refl, (refl, (refl, (refl, (refl, (refl, (refl, (refl, tt))))))));
  name_size = (refl, (refl, (refl, (refl, (refl, (refl, (refl, (refl, tt))))))));
  name = (refl, (refl, (refl, (refl, tt))));
  no_null = (omega arith, (omega arith, (omega arith, tt)));
  small_type = omega arith;
  small_permissions = omega arith;
  small_size = omega arith;
  small_name = omega arith;
  inside = omega arith;
}

trailer-IsWritten : IsWritten archive archive_size 120 trailer
trailer-IsWritten = record {
  magic = (refl, (refl, (refl, (refl, (refl, (refl, tt))))));
  mode = (refl, (refl, (refl, (refl, (refl, (refl, (refl, (refl, tt))))))));
  file_size = (refl, (refl, (refl, (refl, (refl, (refl, (refl, (refl, tt))))))));
  name_size = (refl, (refl, (refl, (refl, (refl, (refl, (refl, (refl, tt))))))));
  name = (refl, (refl, (refl, (refl, (refl, (refl, (refl, (refl, (refl, (refl, (refl, tt)))))))))));
  no_null = (
    omega arith,
    (
      omega arith,
      (
        omega arith,
        (
          omega arith,
          (
            omega arith,
            (omega arith, (omega arith, (omega arith, (omega arith, (omega arith, tt))))),
          ),
        ),
      ),
    ),
  );
  small_type = omega arith;
  small_permissions = omega arith;
  small_size = omega arith;
  small_name = omega arith;
  inside = omega arith;
}

pub archive-HoldsItems : HoldsItems archive archive_size 0 (item ∷ [])
archive-HoldsItems = (
  (omega arith, omega arith),
  (λ e. false≢true (sym (ap begins e))),
  item-IsWritten,
  (trailer, refl, trailer-IsWritten),
)
  where
    begins : List ℕ → Bool
    begins [] = false
    begins (c ∷ cs) = c == 97
