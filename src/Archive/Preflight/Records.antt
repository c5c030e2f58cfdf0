-- ===== src/Archive/Preflight/Records.antt =====
-- What preflightZip of backend/internal/api/zip_preflight.go accepts is a directory within the bounds
-- that archive/zip is given.
use goblin_ftp.Base.{
  ℕ, zero, suc, ◌+◌, ◌≤◌, ◌≡◌, ◌∙◌, refl, ap, sym, subst, true, [], ◌∷◌, ◌++◌, Bytes, bytes_has_eq,
  bytes_eq_iff, some, length, arith, Option-cases, inl, inr,
}
use goblin_ftp.Text.Slice.{take, drop, take-drop}
use goblin_ftp.Archive.Preflight.{
  Directory, is_header, extra_length, walk, find_directory, has_bounds, preflight_zip,
}

-- A section that is one directory record after another, so many.
pub data IsRecords : ℕ → Bytes → Type 0 where
  ends : IsRecords 0 []
  then_record :
      {n : ℕ} {rest : Bytes} (header extra : Bytes)
      → length header ≡ 46
      → is_header header ≡ true
      → length extra ≡ extra_length header
      → IsRecords n rest
      → IsRecords (suc n) (header ++ (extra ++ rest))

length-take_long : (n : ℕ) (s : Bytes) → n ≤ length s → length (take n s) ≡ n
unfolding take
length-take_long zero s h = refl
length-take_long (suc n) [] h = absurd (omega arith)
length-take_long (suc n) (c ∷ s) h = ap suc (length-take_long n s (omega arith))

-- The tests of one step of the walk.
walk-inversion :
    (count : ℕ) (section : Bytes)
    → walk (suc count) section ≡ true
    → (46 ≤ length section)
      × (is_header (take 46 section) ≡ true)
      × (extra_length (take 46 section) ≤ length (drop 46 section))
      × (walk count (drop (extra_length (take 46 section)) (drop 46 section)) ≡ true)
unfolding walk
walk-inversion count section h = ground arith

pub walk-IsRecords :
    (count : ℕ) (section : Bytes) → walk count section ≡ true → IsRecords count section
unfolding walk
walk-IsRecords zero section h = subst (IsRecords 0) (sym ((bytes_eq_iff section []).0 h)) ends
walk-IsRecords (suc count) section h =
    let (long, header_ok, extra_fits, rest_ok) = walk-inversion count section h in
    let header = take 46 section in
    let behind = drop 46 section in
    let n = extra_length header in
    subst (IsRecords (suc count))
      (ap (λ s. header ++ s) (take-drop n behind) ∙ take-drop 46 section)
      (then_record header (take n behind) (length-take_long 46 section long) header_ok
        (length-take_long n behind extra_fits) (walk-IsRecords count (drop n behind) rest_ok))

-- A directory of the file within the bounds, made of its records.
pub record IsBounded (file : Bytes) (d : Directory) : Type 0 where
  pub few : d.count ≤ 10000
  pub small : d.bytes ≤ 4194304
  pub ends_at : d.start + d.bytes ≡ d.stop
  pub records : IsRecords d.count (take d.bytes (drop d.start file))

bounds :
    (d : Directory)
    → has_bounds d ≡ true
    → (d.count ≤ 10000) × (d.bytes ≤ 4194304) × (d.start + d.bytes ≡ d.stop)
unfolding has_bounds
bounds d h = ground arith

-- A file that preflightZip accepts has a directory, found from its end, of at most 10000 records and
-- 4 MiB, which ends where the record of its end begins, and whose bytes are exactly that many
-- records, each a header with its signature, on the first disk, and its name, extra field and
-- comment.
pub preflight_zip_sound :
    (file : Bytes) (size : ℕ)
    → preflight_zip file size ≡ true
    → (d : Directory) × (find_directory file size ≡ some d) × IsBounded file d
unfolding preflight_zip
preflight_zip_sound file size h = elim (Option-cases (find_directory file size)) [
  | inl e ↦ absurd (ground (arith, h, e))
  | inr (d, e) ↦
      let section = take d.bytes (drop d.start file) in
      let both : (has_bounds d ≡ true) × (walk d.count section ≡ true) = ground (arith, h, e) in
      let (few, small, ends_at) = bounds d both.0 in
      (
        d,
        e,
        record {
          few = few;
          small = small;
          ends_at = ends_at;
          records = walk-IsRecords d.count section both.1;
        },
      )
]
