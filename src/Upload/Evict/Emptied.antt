-- ===== src/Upload/Evict/Emptied.antt =====
-- What eviction of backend/internal/api/session_close.go leaves of a session: no client, no uploads,
-- and no upload that a handler could still use.
use goblin_ftp.Base.{
  ℕ, ◌≡◌, ◌∙◌, refl, ap, sym, true, List, [], ◌∷◌, Bytes, codes, bytes_has_eq, bytes_eq_iff,
  nat_eq_iff, ◌==◌, Option, none, some, inl, inr, arith, All, map, Option-cases, Bool-cases,
}
use goblin_ftp.Base.Map.{Map, lookup, erase, lookup-erase}
use goblin_ftp.Base.Sets.{member}
use goblin_ftp.Auth.Session
use goblin_ftp.Auth.Session.{Session}
use goblin_ftp.Upload.{ChunkStore, World}
use goblin_ftp.Upload.Evict.{close_session_client, evict_upload, evict_uploads, evict_session}

erase_absent : (id : Bytes) (m : Map Bytes ℕ) → lookup id m ≡ none → erase id m ≡ m
unfolding lookup erase
erase_absent id [] h = refl
erase_absent id ((k, p) ∷ m) h = ground (arith, h, erase_absent id m)

abbrev pub erase_all : List Bytes → Map Bytes ℕ → Map Bytes ℕ
erase_all [] m = m
erase_all (id ∷ ids) m = erase_all ids (erase id m)

abbrev HasKeys : List Bytes → Map Bytes ℕ → Type 0
HasKeys ids m = All (λ e. member e.0 ids ≡ true) m

HasKeys-erase :
    (id : Bytes) (ids : List Bytes) (m : Map Bytes ℕ)
    → HasKeys (id ∷ ids) m
    → HasKeys ids (erase id m)
unfolding erase member
HasKeys-erase id ids [] h = tt
HasKeys-erase id ids ((k, p) ∷ m) (a, h) =
    ground (arith, bytes_eq_iff id k, bytes_eq_iff k id, a, HasKeys-erase id ids m h)

erase_all-nil : (ids : List Bytes) (m : Map Bytes ℕ) → HasKeys ids m → erase_all ids m ≡ []
erase_all-nil [] [] h = refl
erase_all-nil [] (e ∷ m) h = absurd (unfold member in cc)
erase_all-nil (id ∷ ids) m h = erase_all-nil ids (erase id m) (HasKeys-erase id ids m h)

HasKeys-weaken :
    (id : Bytes) (ids : List Bytes) (m : Map Bytes ℕ) → HasKeys ids m → HasKeys (id ∷ ids) m
unfolding member
HasKeys-weaken id ids [] h = tt
HasKeys-weaken id ids ((k, p) ∷ m) (a, h) = (ground (arith, a), HasKeys-weaken id ids m h)

own_keys : (m : Map Bytes ℕ) → HasKeys (map (λ e. e.0) m) m
unfolding member
own_keys [] = tt
own_keys ((k, p) ∷ m) =
    (ground (arith, bytes_eq_iff k k), HasKeys-weaken k (map (λ e. e.0) m) m (own_keys m))

-- An upload that is there is among the identifiers that are visited.
member-keys :
    (id : Bytes) (p : ℕ) (m : Map Bytes ℕ)
    → lookup id m ≡ some p
    → member id (map (λ e. e.0) m) ≡ true
unfolding lookup member
member-keys id p [] h = absurd (cc)
member-keys id p ((k, q) ∷ m) h = ground (arith, h, member-keys id p m)

close_session_client-get :
    (sess : Session) → Session.get (close_session_client sess).0 (codes "client") ≡ none
unfolding close_session_client Session.get Session.delete
close_session_client-get sess = elim (Option-cases (lookup (codes "client") sess.values)) [
  | inl e ↦ rw (close_session_client, e) e
  | inr (v, e) ↦
      rw (close_session_client, e) (lookup-erase (codes "client") (codes "client") sess.values)
]

close_session_client-uploads :
    (sess : Session) → (close_session_client sess).0.uploads ≡ sess.uploads
unfolding close_session_client Session.delete
close_session_client-uploads sess = ground arith

module _ {R C : Type 0} (store : ChunkStore C) where
  evict_upload-uploads :
      (w : World R C) (id : Bytes)
      → (evict_upload store w id).session.uploads ≡ erase id w.session.uploads
  unfolding evict_upload Session.get_upload Session.delete_upload
  evict_upload-uploads w id = elim (Option-cases (lookup id w.session.uploads)) [
    | inl e ↦ rw (evict_upload, e) (sym (erase_absent id w.session.uploads e))
    | inr (p, e) ↦ elim (Option-cases (store.cleanup w.chunks (w.metas p).id).1) [
      | inl f ↦ rw (evict_upload, e, f) refl
      | inr (err, f) ↦ rw (evict_upload, e, f) refl
    ]
  ]

  evict_uploads-uploads :
      (w : World R C) (ids : List Bytes)
      → (evict_uploads store w ids).session.uploads ≡ erase_all ids w.session.uploads
  unfolding evict_uploads
  evict_uploads-uploads w [] = refl
  evict_uploads-uploads w (id ∷ ids) =
      evict_uploads-uploads (evict_upload store w id) ids
      ∙ ap (erase_all ids) (evict_upload-uploads w id)

  evict_upload-values :
      (w : World R C) (id : Bytes) → (evict_upload store w id).session.values ≡ w.session.values
  unfolding evict_upload Session.delete_upload
  evict_upload-values w id = ground arith

  evict_uploads-values :
      (w : World R C) (ids : List Bytes)
      → (evict_uploads store w ids).session.values ≡ w.session.values
  unfolding evict_uploads
  evict_uploads-values w [] = refl
  evict_uploads-values w (id ∷ ids) =
      evict_uploads-values (evict_upload store w id) ids ∙ evict_upload-values w id

  -- A closed upload stays closed, and the one that is visited is closed.
  evict_upload-closed :
      (w : World R C) (id : Bytes) (p : ℕ)
      → (w.metas p).closed ≡ true
      → ((evict_upload store w id).metas p).closed ≡ true
  unfolding evict_upload
  evict_upload-closed w id p h = ground (arith, h)

  evict_upload-closes :
      (w : World R C) (id : Bytes) (p : ℕ)
      → lookup id w.session.uploads ≡ some p
      → ((evict_upload store w id).metas p).closed ≡ true
  unfolding evict_upload Session.get_upload
  evict_upload-closes w id p e = elim (Option-cases (store.cleanup w.chunks (w.metas p).id).1) [
    | inl f ↦ rw (evict_upload, e, f) (ground (arith, nat_eq_iff p p))
    | inr (err, f) ↦ rw (evict_upload, e, f) (ground (arith, nat_eq_iff p p))
  ]

  evict_uploads-closed :
      (w : World R C) (ids : List Bytes) (p : ℕ)
      → (w.metas p).closed ≡ true
      → ((evict_uploads store w ids).metas p).closed ≡ true
  unfolding evict_uploads
  evict_uploads-closed w [] p h = h
  evict_uploads-closed w (id ∷ ids) p h =
      evict_uploads-closed (evict_upload store w id) ids p (evict_upload-closed w id p h)

  evict_uploads-closes :
      (w : World R C) (ids : List Bytes) (id : Bytes) (p : ℕ)
      → lookup id w.session.uploads ≡ some p
      → member id ids ≡ true
      → ((evict_uploads store w ids).metas p).closed ≡ true
  unfolding evict_uploads
  evict_uploads-closes w [] id p e m = absurd (unfold member in cc)
  evict_uploads-closes w (k ∷ ids) id p e m = elim (Bool-cases (k == id)) [
    | inl t ↦
        let same = (bytes_eq_iff k id).0 t in
        evict_uploads-closed (evict_upload store w k) ids p
          (evict_upload-closes w k p (ap (λ j. lookup j w.session.uploads) same ∙ e))
    | inr f ↦
        evict_uploads-closes (evict_upload store w k) ids id p
          (ap (lookup id) (evict_upload-uploads w k)
            ∙ lookup-erase k id w.session.uploads
            ∙ rw (f) e)
          (unfold member in ground (arith, m, f))
  ]

  abbrev pub IsClosedAt : World R C → Option ℕ → Type 0
  IsClosedAt w none = Unit
  IsClosedAt w (some p) = (w.metas p).closed ≡ true

  evict_uploads-IsClosedAt :
      (w : World R C) (id : Bytes) (o : Option ℕ)
      → lookup id w.session.uploads ≡ o
      → IsClosedAt (evict_uploads store w (map (λ e. e.0) w.session.uploads)) o
  evict_uploads-IsClosedAt w id none e = tt
  evict_uploads-IsClosedAt w id (some p) e =
      evict_uploads-closes w (map (λ e. e.0) w.session.uploads) id p e
        (member-keys id p w.session.uploads e)

  -- After evictSession the session has neither client nor uploads, and the upload that it had under
  -- any identifier `id`, if there was one, is closed, whether or not its chunks could be discarded.
  pub evict_session-IsEmptied :
      (w : World R C) (id : Bytes)
      → (Session.get (evict_session store w).0.session (codes "client") ≡ none)
        × ((evict_session store w).0.session.uploads ≡ [])
        × IsClosedAt (evict_session store w).0 (Session.get_upload w.session id)
  unfolding evict_session Session.get_upload Session.upload_ids Session.get
  evict_session-IsEmptied w id =
      let sess = (close_session_client w.session).0 in
      let begun : World R C = record w { session = sess } in
      let ids = map (λ e. e.0) sess.uploads in
      (
        ap (lookup (codes "client")) (evict_uploads-values begun ids)
            ∙ close_session_client-get w.session,
        evict_uploads-uploads begun ids ∙ erase_all-nil ids sess.uploads (own_keys sess.uploads),
        evict_uploads-IsClosedAt begun id (lookup id w.session.uploads)
            (ap (lookup id) (close_session_client-uploads w.session)),
      )
