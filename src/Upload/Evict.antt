-- ===== src/Upload/Evict.antt =====
-- backend/internal/api/session_close.go, and Disconnect of backend/internal/api/connect.go. The context
-- of the cleanup is left out: what Cleanup says of it is the chunk store's answer.
pub mod Emptied
mod Tests
use goblin_ftp.Base.{
  ℕ, Bool, true, false, List, [], ◌∷◌, Bytes, codes, bytes_has_eq, if◌then◌else◌, Option, none,
  some, update,
}
use goblin_ftp.Base.Map.{Map, lookup, insert, erase}
use goblin_ftp.Errors.{Code}
use goblin_ftp.Auth.Session
use goblin_ftp.Auth.Session.{Session, Value, text, flag, client, pending}
use goblin_ftp.Auth.Store
use goblin_ftp.Auth.Store.{Store}
use goblin_ftp.Upload.{UploadMeta, ChunkStore, World}
use goblin_ftp.Upload.Handlers.{release_meta}

-- What is closed, if the value is a client.
abbrev pub closed_client : Option Value → Option ℕ
closed_client (some (client at)) = some at
closed_client (some (text t)) = none
closed_client (some (flag b)) = none
closed_client (some (pending p)) = none
closed_client none = none

-- The session without its client, and the client on which Close is called.
unfoldable pub close_session_client : Session → Session × Option ℕ
close_session_client sess = elim (Session.get sess (codes "client")) [
  | none ↦ (sess, none)
  | some value ↦ (Session.delete sess (codes "client"), closed_client (some value))
]

module _ {R C : Type 0} (store : ChunkStore C) where
  -- The body of the loop over the uploads.
  unfoldable pub evict_upload : World R C → Bytes → World R C
  evict_upload w id = elim (Session.get_upload w.session id) [
    | none ↦ w
    | some p ↦
        let meta = w.metas p in
        let (chunks, failure) = store.cleanup w.chunks meta.id in
        let w1 = record w {
          chunks = chunks;
          metas = update w.metas p (record meta { closed = true });
          session = Session.delete_upload w.session id;
        } in
        elim failure [
          | some err ↦ record w1 { pending_cleanup = insert meta.id p w.pending_cleanup }
          | none ↦ record w1 { budget = release_meta w.budget meta.release }
        ]
  ]

  unfoldable pub evict_uploads : World R C → List Bytes → World R C
  evict_uploads w [] = w
  evict_uploads w (id ∷ ids) = evict_uploads (evict_upload w id) ids

  -- With the client on which Close is called.
  unfoldable pub evict_session : World R C → World R C × Option ℕ
  evict_session w =
      let (sess, at) = close_session_client w.session in
      (evict_uploads (record w { session = sess }) (Session.upload_ids sess), at)

  unfoldable pub retry_one : World R C → Bytes → ℕ → World R C
  retry_one w key p =
      let meta = w.metas p in
      let (chunks, failure) = store.cleanup w.chunks meta.id in
      let w1 = record w { chunks = chunks } in
      elim failure [
        | some err ↦ w1
        | none ↦ record w1 {
          budget = release_meta w.budget meta.release;
          pending_cleanup = erase key w.pending_cleanup;
        }
      ]

  -- One tick over the entries that Range visits; `done` is what the handler's context says behind
  -- an entry, which ends it.
  unfoldable pub retry_entries : (Bytes → Bool) → World R C → Map Bytes ℕ → World R C
  retry_entries done w [] = w
  retry_entries done w ((key, p) ∷ entries) =
      let w1 = retry_one w key p in
      let rest = retry_entries done w1 entries in if done key then w1 else rest

  unfoldable pub retry_cleanup : (Bytes → Bool) → World R C → World R C
  retry_cleanup done w = retry_entries done w w.pending_cleanup

  -- Disconnect, on the request's session at `p`; none where there is none. The cookie is cleared.
  unfoldable pub disconnect : World R C → Store → Option ℕ → (World R C × Store) × Option Code
  disconnect w s none = ((w, s), some Code.session_not_found)
  disconnect w s (some p) =
      let (w1, at) = evict_session w in
      ((w1, Store.delete (Store.write s p w1.session) w1.session.id), none)
