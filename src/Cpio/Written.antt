-- ===== src/Cpio/Written.antt =====
-- Archives as a writer makes them, read back.
use os.Base.{
  ℕ, zero, suc, ◌+◌, ◌-◌, ◌*◌, ◌/◌, ◌%◌, ◌^◌, ◌<◌, ◌≤◌, ◌≡◌, ◌≢◌, refl, Bool, true, false, some,
  List, [], ◌∷◌, ◌++◌, length, arith, ltb, leb, ◌==◌, if◌then◌else◌, ap, ◌∙◌, le→leb,
}
use os.Cpio.{
  Archive, Entry, read_entry, place_entry, checked_add, align_up_checked, c_string, bytes_match,
  parse_hex_from, parse_hex, hex_nibble, magic_matches, header_size,
}

-- The character of a digit below 16: 0 to 9, then A to F for `upper` or a to f.
abbrev pub digit_character : Bool → ℕ → ℕ
digit_character upper d = if ltb d 10 then 48 + d else if upper then 55 + d else 87 + d

-- The bytes at `offset` are those of the list.
abbrev pub Holds : Archive → ℕ → List ℕ → Type 0
Holds archive offset [] = Unit
Holds archive offset (b ∷ bs) = (archive offset ≡ b) × Holds archive (offset + 1) bs

-- A number of 32 bits in eight hexadecimal digits, the highest first.
abbrev pub digits_of : Bool → ℕ → List ℕ
digits_of upper n =
    digit_character upper (n / 0x10000000 % 16)
    ∷ digit_character upper (n / 0x1000000 % 16)
    ∷ digit_character upper (n / 0x100000 % 16)
    ∷ digit_character upper (n / 0x10000 % 16)
    ∷ digit_character upper (n / 0x1000 % 16)
    ∷ digit_character upper (n / 0x100 % 16)
    ∷ digit_character upper (n / 0x10 % 16)
    ∷ digit_character upper (n % 16)
    ∷ []

hex_nibble_digit : (upper : Bool) (d : ℕ) → d < 16 → hex_nibble (digit_character upper d) ≡ some d
hex_nibble_digit true d h = ground (arith, h)
hex_nibble_digit false d h = ground (arith, h)

-- One digit of the loop.
parse_hex_digit :
    (upper : Bool) (archive : Archive) (offset digits value d : ℕ)
    → d < 16
    → archive offset ≡ digit_character upper d
    → parse_hex_from archive offset (suc digits) value
      ≡ parse_hex_from archive (offset + 1) digits (value * 16 % 2 ^ 32 + d)
unfolding parse_hex_from
parse_hex_digit upper archive offset digits value d h e = rw (e, hex_nibble_digit upper d h) refl

parse_hex_digits :
    (upper : Bool) (archive : Archive) (offset n : ℕ)
    → n < 2 ^ 32
    → Holds archive offset (digits_of upper n)
    → parse_hex archive offset 8 ≡ some n
unfolding parse_hex_from
parse_hex_digits upper archive offset n h e =
    parse_hex_digit upper archive offset 7 0 (n / 0x10000000 % 16) (omega arith) e.0
    ∙ parse_hex_digit upper archive (offset + 1) 6 _ (n / 0x1000000 % 16) (omega arith) e.1.0
    ∙ parse_hex_digit upper archive (offset + 1 + 1) 5 _ (n / 0x100000 % 16) (omega arith) e.1.1.0
    ∙ parse_hex_digit upper archive (offset + 1 + 1 + 1) 4 _ (n / 0x10000 % 16) (omega arith)
        e.1.1.1.0
    ∙ parse_hex_digit upper archive (offset + 1 + 1 + 1 + 1) 3 _ (n / 0x1000 % 16) (omega arith)
        e.1.1.1.1.0
    ∙ parse_hex_digit upper archive (offset + 1 + 1 + 1 + 1 + 1) 2 _ (n / 0x100 % 16) (omega arith)
        e.1.1.1.1.1.0
    ∙ parse_hex_digit upper archive (offset + 1 + 1 + 1 + 1 + 1 + 1) 1 _ (n / 0x10 % 16)
        (omega arith) e.1.1.1.1.1.1.0
    ∙ parse_hex_digit upper archive (offset + 1 + 1 + 1 + 1 + 1 + 1 + 1) 0 _ (n % 16) (omega arith)
        e.1.1.1.1.1.1.1.0
    ∙ ap some (omega arith)

abbrev pub NoNull : List ℕ → Type 0
NoNull [] = Unit
NoNull (b ∷ bs) = (b ≢ 0) × NoNull bs

-- A string, without its null byte, and the null byte behind it.
c_string-Holds :
    (archive : Archive) (name : List ℕ) (offset fuel : ℕ)
    → length name < fuel
    → NoNull name
    → Holds archive offset (name ++ 0 ∷ [])
    → c_string archive offset fuel ≡ name
unfolding c_string
c_string-Holds archive name offset zero l n e = absurd (omega (arith, l))
c_string-Holds archive [] offset (suc fuel) l n e = rw e.0 refl
c_string-Holds archive (b ∷ bs) offset (suc fuel) l n e =
    let here : (b == 0) ≡ false = ground (arith, n.0) in
    rw (e.0, here, c_string-Holds archive bs (offset + 1) fuel (omega (arith, l)) n.1 e.1) refl

-- An entry: the path of a file, its type (8 is a regular file) and permissions, and its size. `dotted`
-- says whether the writer puts "./" before the path, and `upper` whether it writes digits A to F.
pub record Item : Type 0 where
  pub path : List ℕ
  pub dotted : Bool
  pub upper : Bool
  pub type : ℕ
  pub permissions : ℕ
  pub size : ℕ

abbrev pub stored_name : Item → List ℕ
stored_name x = if x.dotted then 46 ∷ 47 ∷ x.path else x.path

-- Padded to a multiple of 4.
abbrev pub padded : ℕ → ℕ
padded n = (n + 3) / 4 * 4

abbrev pub data_offset : ℕ → Item → ℕ
data_offset offset x = padded (offset + 110 + (length (stored_name x) + 1))

abbrev pub data_end : ℕ → Item → ℕ
data_end offset x = data_offset offset x + x.size

-- The archive holds the entry at `offset`: the magic number, the fields of the header, the name and
-- room for the data.
pub record IsWritten (archive : Archive) (archive_size offset : ℕ) (x : Item) : Type 0 where
  pub magic : Holds archive offset (48 ∷ 55 ∷ 48 ∷ 55 ∷ 48 ∷ 49 ∷ [])
  pub mode : Holds archive (offset + 14) (digits_of x.upper (x.type * 0x1000 + x.permissions))
  pub file_size : Holds archive (offset + 54) (digits_of x.upper x.size)
  pub name_size : Holds archive (offset + 94) (digits_of x.upper (length (stored_name x) + 1))
  pub name : Holds archive (offset + 110) (stored_name x ++ 0 ∷ [])
  pub no_null : NoNull (stored_name x)
  pub small_type : x.type < 16
  pub small_permissions : x.permissions < 0x1000
  pub small_size : x.size < 2 ^ 32
  pub small_name : length (stored_name x) + 1 < 2 ^ 32
  pub inside : data_end offset x ≤ archive_size

abbrev pub entry_of : ℕ → Item → Entry
entry_of offset x = record {
  mode = x.type * 0x1000 + x.permissions;
  name = stored_name x;
  file_offset = data_offset offset x;
  file_size = x.size;
  file_end = data_end offset x;
}

bytes_match-Holds :
    (archive : Archive) (offset : ℕ) (bs : List ℕ)
    → Holds archive offset bs
    → bytes_match archive offset bs ≡ true
unfolding bytes_match
bytes_match-Holds archive offset [] h = refl
bytes_match-Holds archive offset (b ∷ bs) h =
    let here : (archive offset == b) ≡ true = ground (arith, h.0) in
    rw (here, bytes_match-Holds archive (offset + 1) bs h.1) refl

last_null :
    (archive : Archive) (name : List ℕ) (offset : ℕ)
    → Holds archive offset (name ++ 0 ∷ [])
    → archive (offset + length name) ≡ 0
last_null archive [] offset h =
    let place : offset + 0 ≡ offset = omega arith in ap archive place ∙ h.0
last_null archive (b ∷ bs) offset h =
    let place : offset + length (b ∷ bs) ≡ offset + 1 + length bs = omega arith in
    ap archive place ∙ last_null archive bs (offset + 1) h.1

suc_nonzero : (n : ℕ) → (n + 1 == 0) ≡ false
suc_nonzero n = ground arith

is_zero : (n : ℕ) → n ≡ 0 → (n == 0) ≡ true
is_zero n h = ground (arith, h)

checked_add_fits : (a b : ℕ) → a + b < 2 ^ 64 → checked_add a b ≡ some (a + b)
unfolding checked_add
checked_add_fits a b h = ground (arith, h)

pub align_up_fits : (a : ℕ) → a + 3 < 2 ^ 64 → align_up_checked a 4 ≡ some (padded a)
unfolding align_up_checked checked_add
align_up_fits a h = ground (arith, h)

module _ (archive : Archive) (archive_size offset : ℕ) (x : Item)
    (w : IsWritten archive archive_size offset x) (small : archive_size < 2 ^ 63) where
  -- The numbers of the entry.
  pub room : (offset + 110 + (length (stored_name x) + 1)) ≤ archive_size
  room = let inside = w.inside in omega (arith, inside)

  data_room : data_offset offset x ≤ archive_size
  data_room = let inside = w.inside in omega (arith, inside)

  place_entry-IsWritten :
      place_entry archive archive_size
        (offset + 110)
        (x.type * 0x1000 + x.permissions)
        (length (stored_name x) + 1)
        x.size
      ≡ some (entry_of offset x)
  unfolding place_entry
  place_entry-IsWritten =
      let n : ℕ = length (stored_name x) + 1 in
      let inside : data_end offset x ≤ archive_size = w.inside in
      let some_name : (n == 0) ≡ false = suc_nonzero (length (stored_name x)) in
      let named : checked_add (offset + 110) n ≡ some (offset + 110 + n) =
        checked_add_fits (offset + 110) n (omega (arith, room, small)) in
      let fits : leb (offset + 110 + n) archive_size ≡ true = le→leb _ _ room in
      let place : offset + 110 + n - 1 ≡ offset + 110 + length (stored_name x) = omega arith in
      let null : (archive (offset + 110 + n - 1) == 0) ≡ true =
        is_zero _ (ap archive place ∙ last_null archive (stored_name x) (offset + 110) w.name) in
      let starts : align_up_checked (offset + 110 + n) 4 ≡ some (data_offset offset x) =
        align_up_fits (offset + 110 + n) (omega (arith, room, small)) in
      let starts_inside : leb (data_offset offset x) archive_size ≡ true = le→leb _ _ data_room in
      let ends : checked_add (data_offset offset x) x.size ≡ some (data_end offset x) =
        checked_add_fits (data_offset offset x) x.size (omega (arith, inside, small)) in
      let ends_inside : leb (data_end offset x) archive_size ≡ true = le→leb _ _ inside in
      let text : c_string archive (offset + 110) (2 ^ 64) ≡ stored_name x =
        c_string-Holds archive (stored_name x) (offset + 110) (2 ^ 64) (omega (arith, w.small_name))
          w.no_null w.name in
      rw (some_name, named, fits, null, starts, starts_inside, ends, ends_inside, text, place_entry)
        refl

  pub read_entry-IsWritten : read_entry archive archive_size offset ≡ some (entry_of offset x)
  unfolding read_entry
  read_entry-IsWritten =
      let headed : checked_add offset header_size ≡ some (offset + 110) =
        checked_add_fits offset 110 (omega (arith, room, small)) in
      let fits : leb (offset + 110) archive_size ≡ true = le→leb _ _ (omega (arith, room)) in
      let magic : magic_matches archive offset ≡ true =
        bytes_match-Holds archive offset _ w.magic in
      let mode =
        parse_hex_digits x.upper archive (offset + 14) (x.type * 0x1000 + x.permissions)
          (omega (arith, w.small_type, w.small_permissions)) w.mode in
      let name =
        parse_hex_digits x.upper archive (offset + 94) (length (stored_name x) + 1) w.small_name
          w.name_size in
      let file = parse_hex_digits x.upper archive (offset + 54) x.size w.small_size w.file_size in
      rw (headed, fits, magic, mode, name, file, read_entry) place_entry-IsWritten
