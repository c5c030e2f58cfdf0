-- ===== src/Files/Copy.antt =====
-- Where CopyFile of backend/internal/api/files.go writes: at or below the destination, in a walk of
-- bounded depth.
use goblin_ftp.Base.{
  ℕ, zero, suc, ◌≡◌, ◌∙◌, ap, sym, subst, true, List, [], ◌∷◌, ◌++◌, Bytes, Option, none, inl, inr,
  All, All-append, arith, Bool-cases, Option-cases, Sum-cases, append_assoc, append-nil,
}
use goblin_ftp.Errors.Chain.{GoError}
use goblin_ftp.Text.{segments, path_join}
use goblin_ftp.Text.Clean.{IsRooted, IsSegment}
use goblin_ftp.Paths.{validate_child_name}
use goblin_ftp.Paths.Join.{IsBelow, child_of}
use goblin_ftp.Remote.{FileInfo, Reader, Client}
use goblin_ftp.Remote.Keeps.{StatResult-cases}
use goblin_ftp.Files.Tree.{
  Host, check_names, visit, join_errors, copy_error, close_error, upload_copy, copy_file,
  copy_entries, list_names, make_missing, copy_directory, copy_at, copy_tree_depth, copy_tree,
}

-- `I` holds of a server whatever is looked at, listed or read, and whatever is made or uploaded at
-- or below `top`.
pub record Keeps {R : Type 0} (client : Client R) (top : Bytes) (I : R → Type 0) : Type 0 where
  pub stat_keeps : (r : R) (p : Bytes) → I r → I (client.stat r p).0
  pub list_keeps : (r : R) (p : Bytes) → I r → I (client.list r p).0
  pub download_keeps : (r : R) (p : Bytes) → I r → I (client.download r p).0
  pub make_dir_keeps : (r : R) (p : Bytes) → IsBelow top p → I r → I (client.make_dir r p).0
  pub upload_keeps :
      (r : R) (p : Bytes) (reader : Reader) → IsBelow top p → I r → I (client.upload r p reader).0

-- A directory at or below the top, and every entry of it under an accepted name.
abbrev Inside : Bytes → Bytes → Type 0
Inside top p = IsBelow top p × IsRooted p

child-Inside :
    (top p name : Bytes)
    → Inside top p
    → validate_child_name name true ≡ none
    → Inside top (path_join p name)
child-Inside top p name ((rest, (at, inside)), rooted) ok =
    let (same, (plain, root)) = child_of p name true rooted ok in
    (
      (
        rest ++ (name ∷ []),
        (
          same ∙ ap (λ l. l ++ (name ∷ [])) at ∙ append_assoc (segments top) rest (name ∷ []),
          All-append IsSegment rest (name ∷ []) inside (plain, tt),
        ),
      ),
      root,
    )

abbrev Accepted : List FileInfo → Type 0
Accepted entries = All (λ info. validate_child_name info.name true ≡ none) entries

check_names-Accepted : (entries : List FileInfo) → check_names entries ≡ none → Accepted entries
unfolding check_names
check_names-Accepted [] h = tt
check_names-Accepted (info ∷ entries) h = elim (Option-cases (validate_child_name info.name true)) [
  | inl ok ↦ (ok, check_names-Accepted entries (ground (arith, ok, h)))
  | inr (bad, n) ↦ absurd (ground (arith, n, h))
]

module _ {R : Type 0} (client : Client R) (top : Bytes) (I : R → Type 0)
    (keeps : Keeps client top I) where
  -- A copy that keeps `I` wherever it goes inside the top.
  abbrev Safe : (R × ℕ → Bytes → Bytes → (R × ℕ) × Option GoError) → Type 0
  Safe copy = (w : R × ℕ) (src dst : Bytes) → Inside top dst → I w.0 → I (copy w src dst).0.0

  upload_copy_keeps :
      (host : Host) (r : R) (dst : Bytes) (reader : Reader)
      → IsBelow top dst
      → I r
      → I (upload_copy client host r dst reader).0
  unfolding upload_copy
  upload_copy_keeps host r dst reader below h =
      elim (Option-cases (join_errors host (copy_error host reader) (close_error host reader))) [
        | inr (err, e) ↦ rw (upload_copy, e) h
        | inl e ↦ elim (Option-cases host.rewind) [
          | inr (err, f) ↦ rw (upload_copy, e, f) h
          | inl f ↦ rw (upload_copy, e, f) (keeps.upload_keeps r dst _ below h)
        ]
      ]

  copy_file_keeps :
      (host : Host) (r : R) (src dst : Bytes)
      → IsBelow top dst
      → I r
      → I (copy_file client host r src dst).0
  unfolding copy_file
  copy_file_keeps host r src dst below h =
      let read = keeps.download_keeps r src h in
      elim (Sum-cases (client.download r src).1) [
        | inl (err, e) ↦ rw (copy_file, e) read
        | inr (reader, e) ↦ elim (Option-cases host.create) [
          | inr (err, f) ↦ rw (copy_file, e, f) read
          | inl f ↦ rw (copy_file, e, f) (upload_copy_keeps host _ dst reader below read)
        ]
      ]

  copy_entries_keeps :
      (copy : R × ℕ → Bytes → Bytes → (R × ℕ) × Option GoError)
      → Safe copy
      → (w : R × ℕ) (src dst : Bytes) (entries : List FileInfo) → Inside top dst
      → Accepted entries
      → I w.0
      → I (copy_entries client copy w src dst entries).0.0
  unfolding copy_entries
  copy_entries_keeps copy safe w src dst [] inside ok h = h
  copy_entries_keeps copy safe w src dst (info ∷ entries) inside ok h =
      let to = path_join dst info.name in
      let call = copy w (path_join src info.name) to in
      let kept =
        safe w (path_join src info.name) to (child-Inside top dst info.name inside ok.0) h in
      elim (Option-cases call.1) [
        | inl n ↦
            rw (copy_entries, n)
              (copy_entries_keeps copy safe call.0 src dst entries inside ok.1 kept)
        | inr (err, n) ↦ rw (copy_entries, n) kept
      ]

  make_missing_keeps :
      (r : R) (dst : Bytes) → IsBelow top dst → I r → I (make_missing client r dst).0
  unfolding make_missing
  make_missing_keeps r dst below h =
      let seen = keeps.stat_keeps r dst h in
      elim (StatResult-cases (client.stat r dst).1) [
        | inl (info, e) ↦ rw (make_missing, e) seen
        | inr (err, e) ↦ rw (make_missing, e) (keeps.make_dir_keeps _ dst below seen)
      ]

  list_names_keeps : (r : R) (src : Bytes) → I r → I (list_names client r src).0
  unfolding list_names
  list_names_keeps r src h =
      let listed = keeps.list_keeps r src h in
      elim (Sum-cases (client.list r src).1) [
        | inl (err, e) ↦ rw (list_names, e) listed
        | inr (entries, e) ↦ elim (Option-cases (check_names entries)) [
          | inl ok ↦ rw (list_names, e, ok) listed
          | inr (err, n) ↦ rw (list_names, e, n) listed
        ]
      ]

  list_names-Accepted :
      (r : R) (src : Bytes) (entries : List FileInfo)
      → (list_names client r src).1 ≡ inr entries
      → Accepted entries
  unfolding list_names
  list_names-Accepted r src entries h = elim (Sum-cases (client.list r src).1) [
    | inl (err, e) ↦ absurd (ground (arith, e, h))
    | inr (all, e) ↦ elim (Option-cases (check_names all)) [
      | inl ok ↦ subst Accepted (ground (arith, e, ok, h)) (check_names-Accepted all ok)
      | inr (err, n) ↦ absurd (ground (arith, e, n, h))
    ]
  ]

  copy_directory_keeps :
      (copy : R × ℕ → Bytes → Bytes → (R × ℕ) × Option GoError)
      → Safe copy
      → (r : R) (left : ℕ) (src dst : Bytes) → Inside top dst
      → I r
      → I (copy_directory client copy r left src dst).0.0
  unfolding copy_directory
  copy_directory_keeps copy safe r left src dst inside h =
      let made = make_missing_keeps r dst inside.0 h in
      let r1 = (make_missing client r dst).0 in
      let listed = list_names_keeps r1 src made in
      elim (Option-cases (make_missing client r dst).1) [
        | inr (err, e) ↦ rw (copy_directory, e) made
        | inl e ↦ elim (Sum-cases (list_names client r1 src).1) [
          | inl (err, f) ↦ rw (copy_directory, e, f) listed
          | inr (entries, f) ↦
              rw (copy_directory, e, f)
                (copy_entries_keeps copy safe (_, left) src dst entries inside
                  (list_names-Accepted r1 src entries f) listed)
        ]
      ]

  copy_at_keeps :
      (host : Host) (copy : R × ℕ → Bytes → Bytes → (R × ℕ) × Option GoError)
      → Safe copy
      → (r : R) (left : ℕ) (src dst : Bytes) → Inside top dst
      → I r
      → I (copy_at client host copy r left src dst).0.0
  unfolding copy_at
  copy_at_keeps host copy safe r left src dst inside h =
      let seen = keeps.stat_keeps r src h in
      elim (StatResult-cases (client.stat r src).1) [
        | inr (err, e) ↦ rw (copy_at, e) seen
        | inl (info, e) ↦ elim (Bool-cases info.is_dir) [
          | inl d ↦ rw (copy_at, e, d) (copy_directory_keeps copy safe _ left src dst inside seen)
          | inr f ↦ rw (copy_at, e, f) (copy_file_keeps host _ src dst inside.0 seen)
        ]
      ]

  copy_tree_depth_keeps : (host : Host) (levels : ℕ) → Safe (copy_tree_depth client host levels)
  unfolding copy_tree_depth
  copy_tree_depth_keeps host zero w src dst inside h = h
  copy_tree_depth_keeps host (suc levels) w src dst inside h =
      elim (Option-cases (visit host w.1).1) [
        | inr (err, e) ↦ rw (copy_tree_depth, e) h
        | inl e ↦
            rw (copy_tree_depth, e)
              (copy_at_keeps host (copy_tree_depth client host levels)
                (copy_tree_depth_keeps host levels) w.0 _ src dst inside h)
      ]

  -- A copy to a rooted destination keeps whatever holds of the server however files are looked at,
  -- listed and read anywhere, and made and uploaded at or below the destination.
  pub copy_tree_keeps :
      (host : Host) (r : R) (src : Bytes)
      → IsRooted top
      → I r
      → I (copy_tree client host r src top).0
  unfolding copy_tree
  copy_tree_keeps host r src rooted h =
      let here : IsBelow top top = ([], (sym (append-nil (segments top)), tt)) in
      copy_tree_depth_keeps host _ (r, _) src top (here, rooted) h
