-- ===== src/Upload/Consent.antt =====
-- What UploadCommit of api/upload.go does without consent to overwrite, and once it has uploaded.
use goblin_ftp.Base.{
  ℕ, ◌≡◌, refl, Bool, true, false, not, ◌||◌, ◌⊎◌, [], ◌==◌, if◌then◌else◌, Bytes, bytes_has_eq,
  bytes_eq_iff, Option, none, some, arith, Bool-cases, Option-cases, inl, inr, ◌&&◌, codes,
}
use goblin_ftp.Base.Map.{lookup-erase}
use goblin_ftp.Errors.{Code}
use goblin_ftp.Errors.Chain.{GoError, Sentinel, is}
use goblin_ftp.Errors.Classify.{is_conn_lost, fail_client, drop_client}
use goblin_ftp.Auth.Session.{Session, Value, text, flag, client as client_at, pending}
use goblin_ftp.Auth.Session
use goblin_ftp.Text.{path_dir}
use goblin_ftp.Paths.{valid_path, same_parent, windows_paths}
use goblin_ftp.Remote.{Client, Reader, StatResult, found, failed, ensure_dir_all}
use goblin_ftp.Upload.{UploadMeta, ChunkStore, World, destination_taken}
use goblin_ftp.Upload.Handlers.{Response, fails, fail_with, cleanup_upload}
use goblin_ftp.Upload.Commit.{
  CommitRequest, consent, commit_open, upload_commit, commit_to, commit_upload, drop_upload,
  upload_failed,
}

module _ {R C : Type 0} (client : Client R) (store : ChunkStore C) (to_lower : Bytes → Bytes) where
  drop_client-uploads :
      (sess : Session) (v : Option Value) → (drop_client sess v).uploads ≡ sess.uploads
  unfolding drop_client Session.delete
  drop_client-uploads sess none = refl
  drop_client-uploads sess (some (text t)) = refl
  drop_client-uploads sess (some (flag b)) = refl
  drop_client-uploads sess (some (client_at q)) = refl
  drop_client-uploads sess (some (pending q)) = refl

  -- The response is an error, nothing but a probe has happened on the server, and the upload, its
  -- chunks and its reservation are there as before, so that it can be committed again.
  pub record IsUntouched (w : World R C) (destination : Bytes) (r : World R C × Response)
      : Type 0 where
    pub remote : (r.0.remote ≡ w.remote) ⊎ (r.0.remote ≡ (client.stat w.remote destination).0)
    pub uploads : r.0.session.uploads ≡ w.session.uploads
    pub metas : r.0.metas ≡ w.metas
    pub chunks : r.0.chunks ≡ w.chunks
    pub budget : r.0.budget ≡ w.budget
    pub pending_cleanup : r.0.pending_cleanup ≡ w.pending_cleanup
    pub refused : (code : Code) × (r.1 ≡ fails code)

  -- Stat finds the destination, or does not say that it is absent.
  abbrev pub MayExist : StatResult → Type 0
  MayExist (found info) = Unit
  MayExist (failed err) = is err Sentinel.not_found ≡ false

  fail_with-uploads :
      (w : World R C) (code : Code) (err : GoError)
      → (fail_with client store to_lower w code err).0.session.uploads ≡ w.session.uploads
  unfolding fail_with fail_client
  fail_with-uploads w code err = elim (Bool-cases (is_conn_lost (some err))) [
    | inl t ↦ rw t (drop_client-uploads w.session (Session.get w.session (codes "client")))
    | inr f ↦ rw f refl
  ]

  commit_to-IsUntouched :
      (w : World R C) (id : Bytes) (p : ℕ) (destination : Bytes) (s : StatResult)
      → (client.stat w.remote destination).1 ≡ s
      → MayExist s
      → IsUntouched w destination (commit_to client store to_lower w id p destination false)
  unfolding commit_to destination_taken fail_with
  commit_to-IsUntouched w id p destination (found info) e h =
      rw (commit_to, destination_taken, e)
        (record {
          remote = inr refl;
          uploads = refl;
          metas = refl;
          chunks = refl;
          budget = refl;
          pending_cleanup = refl;
          refused = (Code.file_exists, refl);
        })
  commit_to-IsUntouched w id p destination (failed err) e h =
      rw (commit_to, destination_taken, e, h)
        (let probed : World R C = record w { remote = (client.stat w.remote destination).0 } in
          record {
            remote = inr refl;
            uploads = fail_with-uploads probed Code.operation_failed err;
            metas = refl;
            chunks = refl;
            budget = refl;
            pending_cleanup = refl;
            refused =
                ((fail_client to_lower w.session Code.operation_failed (some err)).1.code, refl);
          })

  at_once :
      (w : World R C) (destination : Bytes) (code : Code)
      → IsUntouched w destination (w, fails code)
  at_once w destination code = record {
    remote = inl refl;
    uploads = refl;
    metas = refl;
    chunks = refl;
    budget = refl;
    pending_cleanup = refl;
    refused = (code, refl);
  }

  -- Where the file goes: an empty path keeps the one that was reserved.
  abbrev pub target : CommitRequest → UploadMeta → Bytes
  target req meta = if req.destination == [] then meta.destination else req.destination

  -- Without consent to overwrite, in the request or else in the reservation, UploadCommit on an upload
  -- whose destination Stat finds, or does not say to be absent, is answered by an error; the server is
  -- as it was or as that Stat has left it, and the uploads of the session, the chunks and the
  -- reservations are as before.
  pub upload_commit-IsUntouched :
      (protocol : Option Bytes) (w : World R C) (req : CommitRequest) (p : ℕ)
      → Session.get_upload w.session req.upload_id ≡ some p
      → consent client store to_lower (w.metas p) req.overwrite ≡ false
      → MayExist (client.stat w.remote (target req (w.metas p))).1
      → IsUntouched w (target req (w.metas p)) (upload_commit client store to_lower protocol w req)
  unfolding upload_commit commit_open
  upload_commit-IsUntouched protocol w req p e c h =
      let aim = target req (w.metas p) in
      elim (Bool-cases (req.upload_id == [])) [
        | inl t ↦ rw (upload_commit, t) (at_once w aim Code.bad_request)
        | inr f ↦ elim (Bool-cases (w.metas p).closed) [
          | inl t ↦ rw (upload_commit, f, e, t) (at_once w aim Code.upload_not_found)
          | inr g ↦ elim (Bool-cases (req.destination == [])) [
            | inl t ↦
                rw (upload_commit, f, e, g, commit_open, t, c)
                  (commit_to-IsUntouched w req.upload_id p (w.metas p).destination _ refl
                    (rw t at h))
            | inr k ↦
                elim (Bool-cases (
                  not (valid_path protocol req.destination false)
                  || not (
                      same_parent to_lower (windows_paths protocol) req.destination
                        (w.metas p).destination))) [
                          | inl t ↦
                              rw (upload_commit, f, e, g, commit_open, k, t)
                                (at_once w _ Code.bad_request)
                          | inr v ↦
                              rw (upload_commit, f, e, g, commit_open, k, v, c)
                                (commit_to-IsUntouched w req.upload_id p req.destination _ refl
                                  (rw k at h))
                        ]
          ]
        ]
      ]

  -- The upload is closed and gone from the session.
  abbrev pub IsDropped : Bytes → ℕ → World R C → Type 0
  IsDropped id p w = (Session.get_upload w.session id ≡ none) × ((w.metas p).closed ≡ true)

  drop_upload-IsDropped :
      (w : World R C) (id : Bytes) (p : ℕ)
      → IsDropped id p (drop_upload client store to_lower w id p)
  unfolding drop_upload cleanup_upload Session.get_upload Session.delete_upload
  drop_upload-IsDropped w id p = elim (Option-cases (store.cleanup w.chunks (w.metas p).id).1) [
    | inl e ↦
        rw (e, cleanup_upload)
          (ground (arith, bytes_eq_iff id id, lookup-erase id id w.session.uploads), ground arith)
    | inr (err, e) ↦
        rw (e, cleanup_upload)
          (ground (arith, bytes_eq_iff id id, lookup-erase id id w.session.uploads), ground arith)
  ]

  fail_with-IsDropped :
      (w : World R C) (id : Bytes) (p : ℕ) (code : Code) (err : GoError)
      → IsDropped id p w
      → IsDropped id p (fail_with client store to_lower w code err).0
  unfolding fail_with fail_client Session.get_upload
  fail_with-IsDropped w id p code err (h, c) = elim (Bool-cases (is_conn_lost (some err))) [
    | inl t ↦ rw (t, drop_client-uploads w.session (Session.get w.session (codes "client"))) (h, c)
    | inr f ↦ rw f (h, c)
  ]

  upload_failed-IsDropped :
      (w : World R C) (id : Bytes) (p : ℕ) (destination : Bytes) (created_here : Bool)
      (err : GoError)
      → IsDropped id p w
      → IsDropped id p (upload_failed client store to_lower w destination created_here err).0
  unfolding upload_failed
  upload_failed-IsDropped w id p destination created_here err h =
      elim (Bool-cases (created_here && is err Sentinel.transfer_incomplete)) [
        | inl t ↦ rw t (
            fail_with-IsDropped (record w { remote = (client.delete w.remote destination).0 }) id p
              Code.transfer_incomplete err h)
        | inr f ↦ rw f (fail_with-IsDropped w id p Code.operation_failed err h)
      ]

  -- From the moment at which the upload to the server begins, the outcome does not matter: the
  -- upload ends closed and gone from the session.
  pub commit_upload-IsDropped :
      (w : World R C) (id : Bytes) (p : ℕ) (destination : Bytes) (created_here : Bool)
      (reader : Reader)
      → IsDropped id p
          (commit_upload client store to_lower w id p destination created_here reader).0
  unfolding commit_upload
  commit_upload-IsDropped w id p destination created_here reader =
      elim (Option-cases (ensure_dir_all client w.remote (path_dir destination)).1) [
        | inr (err, e) ↦
            rw (e, commit_upload)
              (fail_with-IsDropped _ id p Code.operation_failed err (drop_upload-IsDropped _ id p))
        | inl e ↦
            elim (Option-cases
              (client.upload (ensure_dir_all client w.remote (path_dir destination)).0 destination
                reader).1) [
                  | inr (err, e') ↦
                      rw (e, e', commit_upload)
                        (upload_failed-IsDropped _ id p destination created_here err
                          (drop_upload-IsDropped _ id p))
                  | inl e' ↦ rw (e, e', commit_upload) (drop_upload-IsDropped _ id p)
                ]
      ]
