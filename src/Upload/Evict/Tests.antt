-- ===== src/Upload/Evict/Tests.antt =====
-- The eviction of a session with an upload whose chunks cannot be discarded.
use goblin_ftp.Base.{◌≡◌, refl, true, false, [], ◌∷◌, bytes_has_eq, codes, none, some, ℕ, inl, inr}
use goblin_ftp.Base.Map.{lookup, insert, erase}
use goblin_ftp.Errors.Chain.{leaf, other}
use goblin_ftp.Auth.Session
use goblin_ftp.Auth.Session.{client}
use goblin_ftp.Auth.Store.{empty_session}
use goblin_ftp.Resources.{new_budget}
use goblin_ftp.Upload.{ChunkStore, World, new_meta}
use goblin_ftp.Upload.Evict.{evict_session, evict_uploads, evict_upload, close_session_client}
use goblin_ftp.Upload.Evict.Emptied.{evict_session-IsEmptied}

abbrev unwilling : ChunkStore ℕ
unwilling = record {
  new_upload = λ c. (c, inr (codes "u"));
  write_chunk = λ c id index chunk. (c, none);
  assemble = λ c id total. (c, inl (leaf other []));
  cleanup = λ c id. (c, some (leaf other []));
}

abbrev world : World ℕ ℕ
world = record {
  session = record empty_session {
    values = (codes "client", client 4) ∷ [];
    uploads = (codes "u", 0) ∷ [];
  };
  metas = λ p. new_meta (codes "u") (codes "/x") 3 2;
  next = 1;
  budget = new_budget none 1000 100 false;
  pending_cleanup = [];
  remote = 0;
  chunks = 0;
}

-- It is left for the next try, and the client is closed.
kept_for_retry :
    ((evict_session unwilling world).0.pending_cleanup ≡ (codes "u", 0) ∷ [])
    × ((evict_session unwilling world).1 ≡ some 4)
unfolding evict_session evict_uploads evict_upload close_session_client Session.get Session.delete
    Session.get_upload Session.upload_ids Session.delete_upload lookup insert erase
kept_for_retry = (refl, refl)

evict_session-IsEmptied_example :
    (Session.get (evict_session unwilling world).0.session (codes "client") ≡ none)
    × ((evict_session unwilling world).0.session.uploads ≡ [])
    × (((evict_session unwilling world).0.metas 0).closed ≡ true)
unfolding Session.get_upload lookup
evict_session-IsEmptied_example = evict_session-IsEmptied unwilling world (codes "u")
