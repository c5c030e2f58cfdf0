-- ===== src/Archive/Preflight/Tests.antt =====
-- A ZIP file with one entry, and one whose directory promises another.
use goblin_ftp.Base.{ℕ, ◌≡◌, refl, true, false, [], ◌∷◌, ◌++◌, Bytes, bytes_has_eq, some, suc, zero}
use goblin_ftp.Text.Slice.{take, drop}
use goblin_ftp.Archive.Preflight.{
  Directory, uint16, uint32, read_at, is_end, find_end, directory_of, find_directory, is_header,
  extra_length, walk, has_bounds, preflight_zip,
}
use goblin_ftp.Archive.Preflight.Records.{IsBounded, preflight_zip_sound}

abbrev zeros : ℕ → Bytes
zeros zero = []
zeros (suc n) = 0 ∷ zeros n

abbrev header : Bytes
header = 0x50 ∷ 0x4b ∷ 1 ∷ 2 ∷ zeros 42

abbrev end_of : ℕ → Bytes
end_of count = 0x50 ∷ 0x4b ∷ 5 ∷ 6 ∷ zeros 4 ++ (count ∷ 0 ∷ count ∷ 0 ∷ 46 ∷ zeros 9)

one_entry : preflight_zip (header ++ end_of 1) 68 ≡ true
unfolding preflight_zip find_directory directory_of find_end is_end read_at uint16 uint32 has_bounds
    walk is_header extra_length take drop
one_entry = refl

one_missing : preflight_zip (header ++ end_of 2) 68 ≡ false
unfolding preflight_zip find_directory directory_of find_end is_end read_at uint16 uint32 has_bounds
    walk is_header extra_length take drop
one_missing = refl

preflight_zip_sound_example :
    (d : Directory) × (find_directory (header ++ end_of 1) 68 ≡ some d)
    × IsBounded (header ++ end_of 1) d
preflight_zip_sound_example = preflight_zip_sound (header ++ end_of 1) 68 one_entry
