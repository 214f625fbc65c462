-- ===== src/Cpio/Path.antt =====
-- `copy_cpio_newc_path` and `cpio_newc_paths_equal`.
use os.Base.{ℕ, zero, suc, ◌≡◌, refl, List, [], ◌∷◌, ◌++◌, length, take, ap, ◌∙◌}
use os.Cpio.{copy_bytes, copy_cpio_newc_path, with_slash, normalize_archive_path}

abbrev pub zeros : ℕ → List ℕ
zeros zero = []
zeros (suc n) = 0 ∷ zeros n

-- The bytes of a source that fit before a null byte, and null bytes to the end.
abbrev pub Filled : ℕ → List ℕ → List ℕ → Type 0
Filled space source bytes =
    (n : ℕ) × (bytes ≡ take space source ++ zeros (suc n)) × (length bytes ≡ suc space)

take-nil : (k : ℕ) → take {A = ℕ} k [] ≡ []
take-nil zero = refl
take-nil (suc k) = refl

copy_bytes-Filled :
    (space : ℕ) (source : List ℕ) → Filled space source (copy_bytes (suc space) source)
unfolding copy_bytes
copy_bytes-Filled zero source = (0, refl, refl)
copy_bytes-Filled (suc space) [] =
    let (n, e, l) = copy_bytes-Filled space [] in
    (suc n, ap (λ t. 0 ∷ t) (e ∙ ap (λ t. t ++ zeros (suc n)) (take-nil space)), ap suc l)
copy_bytes-Filled (suc space) (b ∷ bs) =
    let (n, e, l) = copy_bytes-Filled space bs in (n, ap (λ t. b ∷ t) e, ap suc l)

-- `copy_cpio_newc_path` fills a destination that is not empty: with a slash and the normalized name, as far as
-- they fit before a null byte, or with nothing for an empty name, and with null bytes to the end.
pub copy_cpio_newc_path_lem :
    (space : ℕ) (archive_name : List ℕ)
    → Filled space
        (with_slash (normalize_archive_path archive_name))
        (copy_cpio_newc_path (suc space) archive_name)
unfolding copy_cpio_newc_path
copy_cpio_newc_path_lem space archive_name =
    copy_bytes-Filled space (with_slash (normalize_archive_path archive_name))
