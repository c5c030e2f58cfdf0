-- ===== src/Auth/Store/Index.antt =====
-- The two maps of the store are in step: each holds the same sessions, under their own keys.
use goblin_ftp.Base.{
  ℕ, ◌<◌, ◌≡◌, Bytes, none, some, arith, Option-cases, inl, inr, bytes_has_eq, bytes_eq_iff,
}
use goblin_ftp.Base.Map.{lookup, lookup-insert, lookup-erase}
use goblin_ftp.Auth.Session.{Session}
use goblin_ftp.Auth.Store.{Store, add_session, write, delete}
use goblin_ftp.Auth.Store.Sweep.{remove_session}

pub record IsIndexed (s : Store) : Type 0 where
  pub by_id :
      (id : Bytes) (p : ℕ)
      → lookup id s.sessions ≡ some p
      → ((s.objects p).id ≡ id)
        × (lookup (s.objects p).download_key s.by_download_key ≡ some p)
        × (p < s.next)
  pub by_key :
      (key : Bytes) (p : ℕ)
      → lookup key s.by_download_key ≡ some p
      → ((s.objects p).download_key ≡ key) × (lookup (s.objects p).id s.sessions ≡ some p)

-- An object changes, but not its identifiers.
pub write-IsIndexed :
    {s : Store} (p : ℕ) (sess : Session)
    → IsIndexed s
    → sess.id ≡ (s.objects p).id
    → sess.download_key ≡ (s.objects p).download_key
    → IsIndexed (write s p sess)
unfolding write
write-IsIndexed {s} p sess i same_id same_key = record {
  by_id = λ id q h. ground (arith, i.by_id id q h);
  by_key = λ key q h. ground (arith, i.by_key key q h);
}

-- What the randomness of the identifiers is for: none of them is in use.
abbrev pub IsFresh : Store → Bytes → Bytes → Type 0
IsFresh s id key = (lookup id s.sessions ≡ none) × (lookup key s.by_download_key ≡ none)

pub add_session-IsIndexed :
    {s : Store} (id key conn : Bytes) (now : ℕ)
    → IsFresh s id key
    → IsIndexed s
    → IsIndexed (add_session s id key conn now)
unfolding add_session
add_session-IsIndexed {s} id key conn now (fresh_id, fresh_key) i = record {
  by_id = λ j q h. ground (
    arith,
    bytes_eq_iff id j,
    lookup-insert id j s.next s.sessions,
    lookup-insert key (s.objects q).download_key s.next s.by_download_key,
    bytes_eq_iff key (s.objects q).download_key,
    bytes_eq_iff key key,
    lookup-insert key key s.next s.by_download_key,
    i.by_id j q,
  );
  by_key = λ k q h. ground (
    arith,
    bytes_eq_iff key k,
    lookup-insert key k s.next s.by_download_key,
    lookup-insert id (s.objects q).id s.next s.sessions,
    bytes_eq_iff id (s.objects q).id,
    bytes_eq_iff id id,
    lookup-insert id id s.next s.sessions,
    i.by_key k q,
    i.by_id (s.objects q).id q,
  );
}

pub remove_session-IsIndexed :
    {s : Store} (p : ℕ)
    → IsIndexed s
    → lookup (s.objects p).id s.sessions ≡ some p
    → IsIndexed (remove_session s p)
unfolding remove_session
remove_session-IsIndexed {s} p i held = record {
  by_id = λ j q h. ground (
    arith,
    lookup-erase (s.objects p).id j s.sessions,
    bytes_eq_iff (s.objects p).id j,
    lookup-erase (s.objects p).download_key (s.objects q).download_key s.by_download_key,
    bytes_eq_iff (s.objects p).download_key (s.objects q).download_key,
    i.by_id j q,
    i.by_id (s.objects p).id p held,
  );
  by_key = λ k q h. ground (
    arith,
    lookup-erase (s.objects p).download_key k s.by_download_key,
    bytes_eq_iff (s.objects p).download_key k,
    lookup-erase (s.objects p).id (s.objects q).id s.sessions,
    bytes_eq_iff (s.objects p).id (s.objects q).id,
    i.by_key k q,
    i.by_id (s.objects p).id p held,
  );
}

pub delete-IsIndexed : {s : Store} (id : Bytes) → IsIndexed s → IsIndexed (delete s id)
unfolding delete
delete-IsIndexed {s} id i = elim (Option-cases (lookup id s.sessions)) [
  | inl e ↦
      rw (e, delete)
        (record {
          by_id =
              λ j q h. ground (arith, lookup-erase id j s.sessions, bytes_eq_iff id j, i.by_id j q);
          by_key = λ k q h. ground (
            arith,
            lookup-erase id (s.objects q).id s.sessions,
            bytes_eq_iff id (s.objects q).id,
            e,
            i.by_key k q,
          );
        })
  | inr (p, e) ↦
      rw (e, delete)
        (record {
          by_id = λ j q h. ground (
            arith,
            lookup-erase id j s.sessions,
            bytes_eq_iff id j,
            lookup-erase (s.objects p).download_key (s.objects q).download_key s.by_download_key,
            bytes_eq_iff (s.objects p).download_key (s.objects q).download_key,
            i.by_id j q,
            i.by_id id p e,
          );
          by_key = λ k q h. ground (
            arith,
            lookup-erase (s.objects p).download_key k s.by_download_key,
            bytes_eq_iff (s.objects p).download_key k,
            lookup-erase id (s.objects q).id s.sessions,
            bytes_eq_iff id (s.objects q).id,
            i.by_key k q,
            i.by_id id p e,
          );
        })
]
