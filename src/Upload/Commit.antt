-- ===== src/Upload/Commit.antt =====
-- backend/internal/api/upload.go: UploadCommit, from the point at which the request is decoded and
-- the transfer lock is held, on a session with a client.
use goblin_ftp.Base.{
  ℕ, zero, suc, ◌+◌, Bool, true, false, not, ◌&&◌, ◌||◌, [], Bytes, bytes_has_eq, nat_has_eq,
  nat_eq, ◌==◌, if◌then◌else◌, Option, none, some, inl, inr, length,
}
use goblin_ftp.Base.Map.{Map, lookup}
use goblin_ftp.Text.{path_dir}
use goblin_ftp.Errors.{Code}
use goblin_ftp.Errors.Chain.{Sentinel, GoError, is}
use goblin_ftp.Paths.{valid_path, same_parent, windows_paths}
use goblin_ftp.Auth.Session
use goblin_ftp.Remote.{Client, Reader, ensure_dir_all}
use goblin_ftp.Upload.{
  UploadMeta, ChunkStore, World, staging_error, free, taken, unknown, destination_taken,
}
use goblin_ftp.Upload.Handlers.{Response, ok, fails, fail_with, cleanup_upload}

-- An empty destination keeps the reserved one.
pub record CommitRequest : Type 0 where
  pub upload_id : Bytes
  pub overwrite : Option Bool
  pub destination : Bytes

-- The sizes of the chunks from `index` on, `count` of them; `none` where one is missing.
unfoldable pub sum_chunks : Map ℕ ℕ → ℕ → ℕ → Option ℕ
sum_chunks chunks index zero = some 0
sum_chunks chunks index (suc count) = elim (lookup index chunks) [
  | none ↦ none
  | some size ↦ (elim (sum_chunks chunks (suc index) count) [
    | none ↦ none
    | some rest ↦ some (size + rest)
  ])
]

-- io.Copy to io.Discard of at most one byte more than the reserved size.
unfoldable pub drained : Reader → ℕ → Bool
drained r total_size = not (r.read_failed || r.close_failed) && nat_eq (length r.content) total_size

module _ {R C : Type 0} (client : Client R) (store : ChunkStore C) (to_lower : Bytes → Bytes) where
  -- The staged chunks are discarded, and the session forgets the upload.
  unfoldable pub drop_upload : World R C → Bytes → ℕ → World R C
  drop_upload w id p =
      let w' = cleanup_upload client store to_lower w p in
      record w' { session = Session.delete_upload w'.session id }

  unfoldable pub upload_failed : World R C → Bytes → Bool → GoError → World R C × Response
  upload_failed w destination created_here err =
      if created_here && is err Sentinel.transfer_incomplete
      then fail_with client store to_lower
          (record w { remote = (client.delete w.remote destination).0 }) Code.transfer_incomplete
          err
      else fail_with client store to_lower w Code.operation_failed err

  unfoldable pub commit_upload :
      World R C → Bytes → ℕ → Bytes → Bool → Reader → World R C × Response
  commit_upload w id p destination created_here reader =
      let (r1, no_parent) = ensure_dir_all client w.remote (path_dir destination) in
      let (r2, failure) = client.upload r1 destination reader in
      elim no_parent [
        | some err ↦
            fail_with client store to_lower (drop_upload (record w { remote = r1 }) id p)
              Code.operation_failed err
        | none ↦ (elim failure [
          | some err ↦
              upload_failed (drop_upload (record w { remote = r2 }) id p) destination created_here
                err
          | none ↦ (drop_upload (record w { remote = r2 }) id p, ok)
        ])
      ]

  -- The chunks are assembled twice: to count the bytes, and to upload them.
  unfoldable pub commit_reopened : World R C → Bytes → ℕ → Bytes → Bool → World R C × Response
  commit_reopened w id p destination created_here =
      let meta = w.metas p in
      let (chunks, opened) = store.assemble w.chunks meta.id meta.total_chunks in
      let w1 = record w { chunks = chunks } in
      elim opened [
        | inl err ↦ (w1, fails (staging_error err Code.internal))
        | inr reader ↦ commit_upload w1 id p destination created_here reader
      ]

  unfoldable pub commit_read : World R C → Bytes → ℕ → Bytes → Bool → World R C × Response
  commit_read w id p destination created_here =
      let meta = w.metas p in
      let (chunks, opened) = store.assemble w.chunks meta.id meta.total_chunks in
      let w1 = record w { chunks = chunks } in
      elim opened [
        | inl err ↦ (w1, fails (staging_error err Code.internal))
        | inr reader ↦
            if drained reader meta.total_size
            then commit_reopened w1 id p destination created_here
            else (w1, fails Code.bad_request)
      ]

  unfoldable pub commit_staged : World R C → Bytes → ℕ → Bytes → Bool → World R C × Response
  commit_staged w id p destination created_here =
      let meta = w.metas p in
      elim (sum_chunks meta.chunks 0 meta.total_chunks) [
        | none ↦ (w, fails Code.bad_request)
        | some actual ↦
            if nat_eq actual meta.total_size
            then commit_read w id p destination created_here
            else (w, fails Code.bad_request)
      ]

  unfoldable pub commit_to : World R C → Bytes → ℕ → Bytes → Bool → World R C × Response
  commit_to w id p destination overwrite =
      let (remote, t) = destination_taken client w.remote destination in
      let probed = record w { remote = remote } in
      if overwrite then commit_staged w id p destination false else (elim t [
        | free ↦ commit_staged probed id p destination true
        | taken info ↦ (probed, fails Code.file_exists)
        | unknown err ↦ fail_with client store to_lower probed Code.operation_failed err
      ])

  abbrev pub consent : UploadMeta → Option Bool → Bool
  consent meta none = meta.overwrite
  consent meta (some b) = b

  unfoldable pub commit_open : Option Bytes → World R C → CommitRequest → ℕ → World R C × Response
  commit_open protocol w req p =
      let meta = w.metas p in
      if req.destination == []
      then commit_to w req.upload_id p meta.destination (consent meta req.overwrite)
      else if not (valid_path protocol req.destination false)
          || not (same_parent to_lower (windows_paths protocol) req.destination meta.destination)
      then (w, fails Code.bad_request)
      else commit_to w req.upload_id p req.destination (consent meta req.overwrite)

  unfoldable pub upload_commit : Option Bytes → World R C → CommitRequest → World R C × Response
  upload_commit protocol w req =
      if req.upload_id == []
      then (w, fails Code.bad_request)
      else (elim (Session.get_upload w.session req.upload_id) [
        | none ↦ (w, fails Code.upload_not_found)
        | some p ↦
            if (w.metas p).closed
            then (w, fails Code.upload_not_found)
            else commit_open protocol w req p
      ])
