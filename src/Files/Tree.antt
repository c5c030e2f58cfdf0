-- ===== src/Files/Tree.antt =====
-- backend/internal/api/files.go: the copy of a tree, and the quota of backend/internal/api/resources.go
-- that it is charged to.
use goblin_ftp.Base.{
  ℕ, zero, suc, ◌-◌, true, false, List, [], ◌∷◌, Bytes, bytes_has_eq, if◌then◌else◌, Option, none,
  some, ◌⊎◌, inl, inr, codes,
}
use goblin_ftp.Text.{path_join}
use goblin_ftp.Errors.Chain.{Sentinel, GoError, sentinel, other, pair, wrap, sentinel_text}
use goblin_ftp.Paths.{validate_child_name}
use goblin_ftp.Remote.{FileInfo, found, failed, Reader, Client}

abbrev pub max_tree_depth : ℕ
max_tree_depth = 64

abbrev pub max_visits : ℕ
max_visits = 100000

abbrev pub too_deep : GoError
too_deep = sentinel Sentinel.tree_too_deep other (sentinel_text Sentinel.tree_too_deep)

abbrev pub bad_entry : GoError
bad_entry =
    wrap other (codes "invalid type: invalid remote directory entry")
      (sentinel Sentinel.invalid_type other (sentinel_text Sentinel.invalid_type))

-- What a copy needs of the host: the polls of the request's context (by the visits that are left),
-- what creating, writing and rewinding the temporary file gives, the errors of a failed Read and
-- Close, and errors.Join.
pub record Host : Type 0 where
  pub cancelled : ℕ → Option GoError
  pub create : Option GoError
  pub write : Bytes → Option GoError
  pub rewind : Option GoError
  pub read_error : GoError
  pub close_error : GoError
  pub join : GoError → GoError → GoError

unfoldable pub join_errors : Host → Option GoError → Option GoError → Option GoError
join_errors host none b = b
join_errors host (some a) none = some a
join_errors host (some a) (some b) = some (host.join a b)

-- What io.Copy to the temporary file returns.
unfoldable pub copy_error : Host → Reader → Option GoError
copy_error host r = elim (host.write r.content) [
  | some err ↦ some err
  | none ↦ if r.read_failed then some host.read_error else none
]

unfoldable pub close_error : Host → Reader → Option GoError
close_error host r = if r.close_failed then some host.close_error else none

unfoldable pub check_names : List FileInfo → Option GoError
check_names [] = none
check_names (info ∷ entries) = elim (validate_child_name info.name true) [
  | none ↦ check_names entries
  | some e ↦ some bad_entry
]

unfoldable pub visit : Host → ℕ → ℕ × Option GoError
visit host left = elim (host.cancelled left) [
  | some err ↦ (left, some err)
  | none ↦ (left - 1, elim left [ zero ↦ some too_deep | suc n ↦ none ])
]

module _ {R : Type 0} (client : Client R) where
  unfoldable pub upload_copy : Host → R → Bytes → Reader → R × Option GoError
  upload_copy host r dst reader =
      elim (join_errors host (copy_error host reader) (close_error host reader)) [
        | some err ↦ (r, some (pair Sentinel.transfer_incomplete err))
        | none ↦ elim host.rewind [
          | some err ↦ (r, some err)
          | none ↦
              client.upload r dst
                (record { content = reader.content; read_failed = false; close_failed = false })
        ]
      ]

  unfoldable pub copy_file : Host → R → Bytes → Bytes → R × Option GoError
  copy_file host r src dst =
      let (r1, opened) = client.download r src in
      elim opened [
        | inl err ↦ (r1, some err)
        | inr reader ↦ elim host.create [
          | some err ↦ (r1, some err)
          | none ↦ upload_copy host r1 dst reader
        ]
      ]

  -- The loop over the entries of a directory; a walk's state is the server and the visits left.
  unfoldable pub copy_entries :
      (R × ℕ → Bytes → Bytes → (R × ℕ) × Option GoError)
      → R × ℕ
      → Bytes
      → Bytes
      → List FileInfo
      → (R × ℕ) × Option GoError
  copy_entries copy w src dst [] = (w, none)
  copy_entries copy w src dst (info ∷ entries) =
      let (w1, failure) = copy w (path_join src info.name) (path_join dst info.name) in
      elim failure [ some err ↦ (w1, some err) | none ↦ copy_entries copy w1 src dst entries ]

  unfoldable pub list_names : R → Bytes → R × (GoError ⊎ List FileInfo)
  list_names r src =
      let (r1, listed) = client.list r src in
      elim listed [
        | inl err ↦ (r1, inl err)
        | inr entries ↦ elim (check_names entries) [
          | some err ↦ (r1, inl err)
          | none ↦ (r1, inr entries)
        ]
      ]

  -- Stat of dst, and MakeDir where it fails.
  unfoldable pub make_missing : R → Bytes → R × Option GoError
  make_missing r dst =
      let (r1, there) = client.stat r dst in
      elim there [ found info ↦ (r1, none) | failed err ↦ client.make_dir r1 dst ]

  unfoldable pub copy_directory :
      (R × ℕ → Bytes → Bytes → (R × ℕ) × Option GoError)
      → R
      → ℕ
      → Bytes
      → Bytes
      → (R × ℕ) × Option GoError
  copy_directory copy r left src dst =
      let (r1, unmade) = make_missing r dst in
      let (r2, listed) = list_names r1 src in
      elim unmade [
        | some err ↦ ((r1, left), some err)
        | none ↦ elim listed [
          | inl err ↦ ((r2, left), some err)
          | inr entries ↦ copy_entries copy (r2, left) src dst entries
        ]
      ]

  unfoldable pub copy_at :
      Host
      → (R × ℕ → Bytes → Bytes → (R × ℕ) × Option GoError)
      → R
      → ℕ
      → Bytes
      → Bytes
      → (R × ℕ) × Option GoError
  copy_at host copy r left src dst =
      let (r1, result) = client.stat r src in
      elim result [
        | failed err ↦ ((r1, left), some err)
        | found info ↦
            if info.is_dir
            then copy_directory copy r1 left src dst
            else (let (r2, failure) = copy_file host r1 src dst in ((r2, left), failure))
      ]

  -- copyTreeDepth, where `levels` is how many levels may still be entered: maxTreeDepth + 1 less
  -- the depth.
  unfoldable pub copy_tree_depth : Host → ℕ → R × ℕ → Bytes → Bytes → (R × ℕ) × Option GoError
  copy_tree_depth host zero (r, left) src dst =
      let (left', stop) = visit host left in
      ((r, left'), elim stop [ some err ↦ some err | none ↦ some too_deep ])
  copy_tree_depth host (suc levels) (r, left) src dst =
      let (left', stop) = visit host left in
      elim stop [
        | some err ↦ ((r, left'), some err)
        | none ↦ copy_at host (copy_tree_depth host levels) r left' src dst
      ]

  unfoldable pub copy_tree : Host → R → Bytes → Bytes → R × Option GoError
  copy_tree host r src dst =
      let (w, failure) = copy_tree_depth host (suc max_tree_depth) (r, max_visits) src dst in
      (w.0, failure)
