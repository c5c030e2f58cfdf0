-- ===== src/Staging.antt =====
-- backend/internal/staging/sweeper.go, with ValidateUploadID of transfer/upload.go. What the file
-- system and the session store answer is part of the arguments; strings.TrimSpace is a parameter.
pub mod Ids
mod Tests
use goblin_ftp.Base.{
  ℕ, zero, suc, ◌-◌, Bool, true, false, not, ◌&&◌, ◌||◌, List, [], ◌∷◌, Bytes, ltb, leb, nat_eq,
  if◌then◌else◌, Option, none, some,
}

abbrev pub is_hex : ℕ → Bool
is_hex b = (leb b'0' b && leb b b'9') || (leb b'a' b && leb b b'f')

-- The regular expression of ValidateUploadID: runs of digits with a dash between two runs.
unfoldable pub matches : ℕ → List ℕ → Bytes → Bool
matches zero [] [] = true
matches zero [] (b ∷ s) = false
matches zero (n ∷ ns) [] = false
matches zero (n ∷ ns) (b ∷ s) = nat_eq b b'-' && matches n ns s
matches (suc n) ns [] = false
matches (suc n) ns (b ∷ s) = is_hex b && matches n ns s

unfoldable pub validate_upload_id : Bytes → Bool
validate_upload_id id = matches 8 (4 ∷ 4 ∷ 4 ∷ 12 ∷ []) id

unfoldable pub all_digits : Bytes → Bool
all_digits [] = true
all_digits (b ∷ s) = leb b'0' b && leb b b'9' && all_digits s

-- The regular expression of a chunk's name: four digits or more.
unfoldable pub is_chunk_name : Bytes → Bool
is_chunk_name (a ∷ b ∷ c ∷ d ∷ s) = all_digits (a ∷ b ∷ c ∷ d ∷ s)
is_chunk_name _ = false

-- An entry of the data directory: `mod_time` is none where Info fails, `children` where ReadDir
-- does; of a child only its name and whether it is a directory.
pub record DirEntry : Type 0 where
  pub name : Bytes
  pub is_dir : Bool
  pub mod_time : Option ℕ
  pub children : Option (List (Bytes × Bool))

abbrev pub stale_after : ℕ
stale_after = 86400

module _ (trim_space : Bytes → Bytes) where
  unfoldable pub only_chunks : List (Bytes × Bool) → Bool
  only_chunks [] = true
  only_chunks ((name, is_dir) ∷ rest) =
      if is_dir || not (is_chunk_name (trim_space name)) then false else only_chunks rest

  unfoldable pub holds_only_chunks : Option (List (Bytes × Bool)) → Bool
  holds_only_chunks none = false
  holds_only_chunks (some children) = only_chunks children

  abbrev pub is_recent : ℕ → Option ℕ → Bool
  is_recent cutoff none = true
  is_recent cutoff (some mod_time) = ltb cutoff mod_time

  unfoldable pub is_reclaimable : (Bytes → Bool) → ℕ → DirEntry → Bool
  is_reclaimable in_use cutoff entry =
      if not entry.is_dir
      then false
      else if not (validate_upload_id entry.name)
      then false
      else if is_recent cutoff entry.mod_time
      then false
      else if in_use entry.name
      then false
      else holds_only_chunks entry.children

  -- `removed` says whether os.RemoveAll succeeds; it is called by transfer.Cleanup, which checks
  -- the name again.
  unfoldable pub sweep : (Bytes → Bool) → (Bytes → Bool) → ℕ → List DirEntry → List DirEntry
  sweep in_use removed now [] = []
  sweep in_use removed now (entry ∷ entries) =
      let rest = sweep in_use removed now entries in
      if is_reclaimable in_use (now - stale_after) entry
        && (validate_upload_id entry.name && removed entry.name)
      then rest
      else entry ∷ rest
