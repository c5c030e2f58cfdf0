-- ===== src/Upload/Handlers.antt =====
-- backend/internal/api/upload.go: UploadReserve, UploadChunk, UploadAbort and cleanupUpload, from
-- the point at which the request is decoded. Of a fixed response only the code is kept.
use goblin_ftp.Base.{
  ℕ, suc, ◌+◌, ◌-◌, ◌/◌, Bool, true, false, not, ◌||◌, [], Bytes, bytes_has_eq, nat_has_eq, ltb,
  leb, nat_eq, ◌==◌, if◌then◌else◌, Option, none, some, update, inl, inr, length,
}
use goblin_ftp.Base.Map.{insert}
use goblin_ftp.Errors.{Code}
use goblin_ftp.Errors.Chain.{GoError}
use goblin_ftp.Errors.Classify.{fail_client}
use goblin_ftp.Paths.{valid_path}
use goblin_ftp.Auth.Session
use goblin_ftp.Auth.Session.{Session}
use goblin_ftp.Base.Ints.{ℤ}
use goblin_ftp.Resources.{
  Budget, Answers, reserve_upload, end_lease, own_upload, disown, max_total_chunks,
}
use goblin_ftp.Remote.{Client}
use goblin_ftp.Upload.{
  UploadMeta, new_meta, ChunkStore, World, staging_error, free, taken, unknown, destination_taken,
  check_chunk_size, expected_size,
}

pub data Response : Type 0 where
  ok : Response
  ok_upload : Bytes → Response
  fails : Code → Response

pub record Settings : Type 0 where
  pub chunk_size : ℕ
  pub upload_max_pending : ℕ

pub record ReserveRequest : Type 0 where
  pub path : Bytes
  pub total_chunks : ℤ
  pub total_size : ℤ
  pub chunk_size : ℤ
  pub overwrite : Bool

abbrev pub to_nat : ℤ → ℕ
to_nat (ℤ.pos n) = n
to_nat (ℤ.negsuc n) = 0

abbrev pub is_negative : ℤ → Bool
is_negative (ℤ.pos n) = false
is_negative (ℤ.negsuc n) = true

-- (totalSize - 1) / chunkSize + 1 chunks, all of them full but the last.
unfoldable pub is_consistent : ℕ → ℕ → ℕ → Bool
is_consistent total_size chunk_size total_chunks =
    nat_eq ((total_size - 1) / chunk_size + 1) total_chunks

-- The checks of the request, in order.
unfoldable pub check_reservation : Settings → Option Bytes → ReserveRequest → Option Code
check_reservation settings protocol req =
    if not (valid_path protocol req.path false)
      || is_negative req.total_chunks
      || nat_eq (to_nat req.total_chunks) 0
    then some Code.bad_request
    else if ltb max_total_chunks (to_nat req.total_chunks)
    then some Code.bad_request
    else if is_negative req.chunk_size || nat_eq (to_nat req.chunk_size) 0
    then some Code.bad_request
    else if is_negative req.total_size
    then some Code.bad_request
    else if nat_eq (to_nat req.total_size) 0
        || ltb settings.chunk_size (to_nat req.chunk_size)
        || not (
            is_consistent (to_nat req.total_size) (to_nat req.chunk_size) (to_nat req.total_chunks))
    then some Code.bad_request
    else none

abbrev pub release_meta : Budget → Option ℕ → Budget
release_meta b none = b
release_meta b (some o) = disown b o

module _ {R C : Type 0} (client : Client R) (store : ChunkStore C) (to_lower : Bytes → Bytes) where
  unfoldable pub fail_with : World R C → Code → GoError → World R C × Response
  fail_with w code err =
      let (session, e) = fail_client to_lower w.session code (some err) in
      (record w { session = session }, fails e.code)

  -- What follows the test for a conflict.
  unfoldable pub reserve_staged : World R C → ReserveRequest → Answers → World R C × Response
  reserve_staged w req a =
      let (budget, lease) =
        reserve_upload w.budget w.session.id req.total_size (to_nat req.total_chunks) a in
      elim lease [
        | none ↦ (record w { budget = budget }, fails Code.capacity)
        | some l ↦
            let (chunks, made) = store.new_upload w.chunks in
            elim made [
              | inl err ↦ (
                record w { budget = end_lease budget l; chunks = chunks },
                fails (staging_error err Code.internal),
              )
              | inr id ↦
                  let (owned, o) = own_upload budget id l in
                  (
                    record w {
                      budget = owned;
                      chunks = chunks;
                      next = suc w.next;
                      metas =
                          update w.metas w.next
                            (record (new_meta id req.path (to_nat req.total_chunks)
                              (to_nat req.chunk_size)) {
                                overwrite = req.overwrite;
                                total_size = to_nat req.total_size;
                                release = some o;
                              });
                      session = Session.put_upload w.session id w.next;
                    },
                    ok_upload id,
                  )
            ]
      ]

  -- `connected` says whether the session has a client.
  unfoldable pub upload_reserve :
      Settings → Option Bytes → Bool → World R C → ReserveRequest → Answers → World R C × Response
  upload_reserve settings protocol connected w req a =
      elim (check_reservation settings protocol req) [
        | some code ↦ (w, fails code)
        | none ↦
            if leb settings.upload_max_pending (length (Session.upload_ids w.session))
            then (w, fails Code.capacity)
            else if req.overwrite
            then reserve_staged w req a
            else if not connected
            then (w, fails Code.session_not_found)
            else (let (remote, t) = destination_taken client w.remote req.path in
                elim t [
                  | free ↦ reserve_staged (record w { remote = remote }) req a
                  | taken info ↦ (record w { remote = remote }, fails Code.file_exists)
                  | unknown err ↦ fail_with (record w { remote = remote }) Code.operation_failed err
                ])
      ]

  unfoldable pub write_meta : World R C → ℕ → UploadMeta → World R C
  write_meta w p meta = record w { metas = update w.metas p meta }

  -- The chunk's index and content; `none` where FormFile fails.
  unfoldable pub accept_chunk : World R C → Bytes → ℕ → ℤ → Option Bytes → World R C × Response
  accept_chunk w id p (ℤ.negsuc n) chunk = (w, fails Code.bad_request)
  accept_chunk w id p (ℤ.pos index) none = (w, fails Code.bad_request)
  accept_chunk w id p (ℤ.pos index) (some chunk) =
      let meta = w.metas p in
      let (chunks, err) = store.write_chunk w.chunks id index chunk in
      if leb meta.total_chunks index
      then (w, fails Code.bad_request)
      else if not (nat_eq (length chunk) (expected_size meta index))
      then (w, fails Code.bad_request)
      else (elim (check_chunk_size meta index (length chunk)) [
        | some code ↦ (w, fails code)
        | none ↦ (elim err [
          | some e ↦ (record w { chunks = chunks }, fails (staging_error e Code.internal))
          | none ↦ (
            write_meta (record w { chunks = chunks }) p
                (record meta { chunks = insert index (length chunk) meta.chunks }),
            ok,
          )
        ])
      ])

  unfoldable pub upload_chunk : World R C → Bytes → Option ℤ → Option Bytes → World R C × Response
  upload_chunk w id none chunk = (w, fails Code.bad_request)
  upload_chunk w id (some index) chunk =
      if id == [] then (w, fails Code.bad_request) else (elim (Session.get_upload w.session id) [
        | none ↦ (w, fails Code.upload_not_found)
        | some p ↦
            if (w.metas p).closed
            then (w, fails Code.upload_not_found)
            else accept_chunk w id p index chunk
      ])

  unfoldable pub upload_abort : World R C → Bytes → World R C × Response
  upload_abort w id =
      if id == [] then (w, fails Code.bad_request) else (elim (Session.get_upload w.session id) [
        | none ↦ (w, fails Code.upload_not_found)
        | some p ↦
            let meta = w.metas p in
            let (chunks, err) = store.cleanup w.chunks meta.id in
            elim err [
              | some e ↦ (record w { chunks = chunks }, fails (staging_error e Code.internal))
              | none ↦ (
                record w {
                  chunks = chunks;
                  metas = update w.metas p (record meta { closed = true });
                  budget = release_meta w.budget meta.release;
                  session = Session.delete_upload w.session id;
                },
                ok,
              )
            ]
      ])

  unfoldable pub cleanup_upload : World R C → ℕ → World R C
  cleanup_upload w p =
      let meta = w.metas p in
      let (chunks, err) = store.cleanup w.chunks meta.id in
      let w' = record w {
        chunks = chunks;
        metas = update w.metas p (record meta { closed = true });
      } in
      elim err [
        | none ↦ record w' { budget = release_meta w.budget meta.release }
        | some e ↦ record w' { pending_cleanup = insert meta.id p w.pending_cleanup }
      ]
