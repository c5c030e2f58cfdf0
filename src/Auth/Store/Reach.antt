-- ===== src/Auth/Store/Reach.antt =====
-- The stores that the methods of session.go and admission.go lead to.
use goblin_ftp.Base.{
  get_elem?, ℕ, ◌≡◌, refl, ap, true, Bytes, Option, none, some, arith, Option-cases, Bool-cases,
  inl, inr, bytes_has_eq, bytes_eq_iff,
}
use goblin_ftp.Base.Map.{Map, lookup, erase, lookup-erase}
use goblin_ftp.Auth.Session.{Session}
use goblin_ftp.Auth.Store.{
  Store, Limits, new_store, add_session, is_live, live_at, get_by_download_key, get, write, touched,
  touch, delete, close, set_expiry, reserve, is_full, free,
}
use goblin_ftp.Auth.Store.Sweep.{remove_session}
use goblin_ftp.Auth.Store.Index.{
  IsIndexed, write-IsIndexed, IsFresh, add_session-IsIndexed, remove_session-IsIndexed,
  delete-IsIndexed,
}

-- One step of the store: a method, or the sweep's work on one session that is still there, whose
-- hook keeps the identifiers. A new session's identifiers are fresh, as random ones are.
pub data Step (s : Store) : Store → Type 0 where
  created :
      (id key conn : Bytes) (now : ℕ) → IsFresh s id key → Step s (add_session s id key conn now)
  deleted : (id : Bytes) → Step s (delete s id)
  touches : (id : Bytes) (now later : ℕ) → Step s (touch s id now later)
  sets_expiry : (id : Bytes) (expiry : ℕ) → Step s (set_expiry s id expiry)
  reserves :
      (ip : Bytes) (limits : Limits) (credit : Option Bytes) → Step s (reserve s ip limits credit).0
  frees : (index : ℕ) → Step s (free s index)
  evicted :
      (p : ℕ) (sess : Session)
      → sess.id ≡ (s.objects p).id
      → sess.download_key ≡ (s.objects p).download_key
      → lookup sess.id s.sessions ≡ some p
      → Step s (remove_session (write s p sess) p)
  closed : Step s (close s)

touch-IsIndexed :
    {s : Store} (id : Bytes) (now later : ℕ) → IsIndexed s → IsIndexed (touch s id now later)
unfolding touch
touch-IsIndexed {s} id now later i = elim (Option-cases (lookup id s.sessions)) [
  | inl e ↦ rw (e, touch) i
  | inr (p, e) ↦ elim (Bool-cases (is_live now (s.objects p))) [
    | inl l ↦
        rw (e, touch, l) (write-IsIndexed p _ i (unfold touched in refl) (unfold touched in refl))
    | inr d ↦ rw (e, touch, d) i
  ]
]

set_expiry-IsIndexed :
    {s : Store} (id : Bytes) (expiry : ℕ) → IsIndexed s → IsIndexed (set_expiry s id expiry)
unfolding set_expiry
set_expiry-IsIndexed {s} id expiry i = elim (Option-cases (lookup id s.sessions)) [
  | inl e ↦ rw (e, set_expiry) i
  | inr (p, e) ↦ rw (e, set_expiry) (write-IsIndexed p _ i refl refl)
]

reserve-IsIndexed :
    {s : Store} (ip : Bytes) (limits : Limits) (credit : Option Bytes)
    → IsIndexed s
    → IsIndexed (reserve s ip limits credit).0
unfolding reserve
reserve-IsIndexed {s} ip limits credit i = elim (Bool-cases (is_full s ip limits credit)) [
  | inl t ↦ rw t i
  | inr f ↦ rw f (record { by_id = i.by_id; by_key = i.by_key })
]

free-IsIndexed : {s : Store} (index : ℕ) → IsIndexed s → IsIndexed (free s index)
unfolding free
free-IsIndexed {s} index i = elim (Option-cases (get_elem? s.frees index)) [
  | inl e ↦ rw (e, free) i
  | inr (f, e) ↦ elim (Bool-cases f.done) [
    | inl t ↦ rw (e, free, t) i
    | inr n ↦ rw (e, free, n) (record { by_id = i.by_id; by_key = i.by_key })
  ]
]

evicted-IsIndexed :
    {s : Store} (p : ℕ) (sess : Session)
    → sess.id ≡ (s.objects p).id
    → sess.download_key ≡ (s.objects p).download_key
    → lookup sess.id s.sessions ≡ some p
    → IsIndexed s
    → IsIndexed (remove_session (write s p sess) p)
evicted-IsIndexed {s} p sess same_id same_key held i =
    remove_session-IsIndexed p (write-IsIndexed p sess i same_id same_key)
      (unfold write in ground (arith, held))

Step-IsIndexed : {s t : Store} → Step s t → IsIndexed s → IsIndexed t
Step-IsIndexed (created id key conn now fresh) i = add_session-IsIndexed id key conn now fresh i
Step-IsIndexed (deleted id) i = delete-IsIndexed id i
Step-IsIndexed (touches id now later) i = touch-IsIndexed id now later i
Step-IsIndexed (sets_expiry id expiry) i = set_expiry-IsIndexed id expiry i
Step-IsIndexed (reserves ip limits credit) i = reserve-IsIndexed ip limits credit i
Step-IsIndexed (frees index) i = free-IsIndexed index i
Step-IsIndexed (evicted p sess same_id same_key held) i =
    evicted-IsIndexed p sess same_id same_key held i
Step-IsIndexed {s} closed i = unfold close in record { by_id = i.by_id; by_key = i.by_key }

pub data Reaches : Store → Type 0 where
  starts : (ttl : ℕ) → Reaches (new_store ttl)
  steps : {s t : Store} → Reaches s → Step s t → Reaches t

-- In every store that steps lead to from a new one, where new identifiers are fresh and the
-- hook of the sweep keeps a session's identifiers, each of the two maps holds exactly the
-- sessions of the other, under the keys that stand in the session.
pub Reaches-IsIndexed : {s : Store} → Reaches s → IsIndexed s
Reaches-IsIndexed (starts ttl) = record {
  by_id = λ j q h. unfold lookup in cc;
  by_key = λ k q h. unfold lookup in cc;
}
Reaches-IsIndexed (steps r st) = Step-IsIndexed st (Reaches-IsIndexed r)

live_at_lem :
    (s : Store) (now p : ℕ) (o : Option ℕ)
    → live_at s now o ≡ some p
    → (o ≡ some p) × (is_live now (s.objects p) ≡ true)
live_at_lem s now p none h = ground arith
live_at_lem s now p (some q) h = ground arith

lookup-erase_self : (k : Bytes) (m : Map Bytes ℕ) → lookup k (erase k m) ≡ none
lookup-erase_self k m = ground (arith, lookup-erase k k m, bytes_eq_iff k k)

deleted_key :
    (s : Store) (key : Bytes) (p : ℕ)
    → lookup (s.objects p).id s.sessions ≡ some p
    → (s.objects p).download_key ≡ key
    → lookup key (delete s (s.objects p).id).by_download_key ≡ none
unfolding delete
deleted_key s key p found same_key =
    rw (found, delete)
      (ground (
        arith,
        same_key,
        lookup-erase (s.objects p).download_key key s.by_download_key,
        bytes_eq_iff (s.objects p).download_key key,
      ))

-- In every store that steps lead to, a download key that leads to a session leads to one that
-- its identifier leads to as well; and once that session is deleted, neither leads anywhere.
pub get_by_download_key-delete :
    {s : Store} (key : Bytes) (now p : ℕ)
    → Reaches s
    → get_by_download_key s key now ≡ some p
    → (get s (s.objects p).id now ≡ some p)
      × (get (delete s (s.objects p).id) (s.objects p).id now ≡ none)
      × (get_by_download_key (delete s (s.objects p).id) key now ≡ none)
unfolding get_by_download_key get delete
get_by_download_key-delete {s} key now p r h =
    let (e, live) = live_at_lem s now p (lookup key s.by_download_key) h in
    let (same_key, found) = (Reaches-IsIndexed r).by_key key p e in
    (
      rw (found, live) refl,
      rw (lookup-erase_self (s.objects p).id s.sessions) refl,
      ap (live_at (delete s (s.objects p).id) now) (deleted_key s key p found same_key),
    )
