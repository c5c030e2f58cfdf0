-- ===== src/Upload.antt =====
-- backend/internal/transfer/upload.go (UploadMeta) and the handlers' helpers of
-- backend/internal/api/upload.go. Metadata are shared objects, given by their addresses. The
-- protocol client and the chunk store are interfaces, whose state is `R` and `C`: they are records
-- of functions, arguments of what calls them.
pub mod Store
pub mod Handlers
pub mod Evict
pub mod Commit
pub mod Sizes
pub mod Consent
pub mod Conflicts
pub mod Suggestions
pub mod Chunks
pub mod Assembly
mod Tests
use goblin_ftp.Base.{
  ℕ, zero, suc, ◌+◌, ◌-◌, ◌*◌, ◌/◌, Bool, true, false, not, ◌&&◌, ◌||◌, List, [], ◌∷◌, Bytes,
  bytes_has_eq, nat_has_eq, ltb, leb, nat_eq, ◌==◌, if◌then◌else◌, Option, none, some, update, ◌⊎◌,
  inl, inr, length, codes,
}
use goblin_ftp.Base.Map.{Map, lookup, insert, erase}
use goblin_ftp.Errors.{Code}
use goblin_ftp.Errors.Chain.{Sentinel, GoError, leaf, other, is}
use goblin_ftp.Remote.{FileInfo, StatResult, found, failed, Reader, Client}
use goblin_ftp.Auth.Session.{Session}
use goblin_ftp.Resources.{Budget}

-- `release` is the index of the function that ownUpload returned.
pub record UploadMeta : Type 0 where
  pub closed : Bool
  pub chunks : Map ℕ ℕ
  pub release : Option ℕ
  pub id : Bytes
  pub destination : Bytes
  pub total_chunks : ℕ
  pub received_chunks : ℕ
  pub chunk_size : ℕ
  pub total_size : ℕ
  pub overwrite : Bool

abbrev pub new_meta : Bytes → Bytes → ℕ → ℕ → UploadMeta
new_meta id destination total_chunks chunk_size = record {
  closed = false;
  chunks = [];
  release = none;
  id = id;
  destination = destination;
  total_chunks = total_chunks;
  received_chunks = 0;
  chunk_size = chunk_size;
  total_size = 0;
  overwrite = false;
}

pub record ChunkStore (C : Type 0) : Type 0 where
  pub new_upload : C → C × (GoError ⊎ Bytes)
  pub write_chunk : C → Bytes → ℕ → Bytes → C × Option GoError
  pub assemble : C → Bytes → ℕ → C × (GoError ⊎ Reader)
  pub cleanup : C → Bytes → C × Option GoError

pub record World (R C : Type 0) : Type 0 where
  pub session : Session
  pub metas : ℕ → UploadMeta
  pub next : ℕ
  pub budget : Budget
  pub pending_cleanup : Map Bytes ℕ
  pub remote : R
  pub chunks : C

unfoldable pub staging_error : GoError → Code → Code
staging_error err fallback =
    if is err Sentinel.staging_unavailable
    then Code.storage_unavailable
    else if is err Sentinel.chunk_missing
    then Code.upload_not_found
    else fallback

pub data Taken : Type 0 where
  free : Taken
  taken : FileInfo → Taken
  unknown : GoError → Taken

abbrev pub taken_by : StatResult → Taken
taken_by (found info) = taken info
taken_by (failed err) = if is err Sentinel.not_found then free else unknown err

unfoldable pub check_chunk_size : UploadMeta → ℕ → ℕ → Option Code
check_chunk_size meta index size =
    if nat_eq meta.chunk_size 0
    then none
    else if ltb meta.chunk_size size
    then some Code.bad_request
    else if ltb size meta.chunk_size && not (nat_eq index (meta.total_chunks - 1))
    then some Code.bad_request
    else none

unfoldable pub expected_size : UploadMeta → ℕ → ℕ
expected_size meta index =
    if nat_eq index (meta.total_chunks - 1)
    then meta.total_size - index * meta.chunk_size
    else meta.chunk_size

module _ {R : Type 0} (client : Client R) where
  unfoldable pub destination_taken : R → Bytes → R × Taken
  destination_taken r p = let (r', result) = client.stat r p in (r', taken_by result)
