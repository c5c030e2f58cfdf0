-- ===== src/Auth/Store/Tests.antt =====
-- Runs of the session store.
use goblin_ftp.Base.{refl, false, [], ◌∷◌, codes, bytes_has_eq}
use goblin_ftp.Base.Map.{lookup}
use goblin_ftp.Auth.Store.{Store, Limits, new_store, add_session, set_expiry}
use goblin_ftp.Auth.Store.Index.{IsIndexed}
use goblin_ftp.Auth.Store.Reach.{Reaches, starts, steps, created, Reaches-IsIndexed}
use goblin_ftp.Auth.Session.{Session}
use goblin_ftp.Auth.Store.Sweep.{Turn}

abbrev logged_in : Store
logged_in = add_session (new_store 60) (codes "id") (codes "key") (codes "conn") 10

logged_in-Reaches : Reaches logged_in
logged_in-Reaches =
    steps (starts 60)
      (created (codes "id") (codes "key") (codes "conn") 10 (unfold lookup in (refl, refl)))

Reaches-IsIndexed_example : IsIndexed logged_in
Reaches-IsIndexed_example = Reaches-IsIndexed logged_in-Reaches

abbrev short_lived : Store
short_lived = set_expiry logged_in (codes "id") 50

abbrev limits : Limits
limits = record { max_sessions = 10; max_per_ip = 2; max_connecting = 4; max_connecting_ip = 1 }

abbrev keep_session : Session → Session
keep_session sess = sess

-- The lock is held by a transfer that never ends.
abbrev busy_turn : Turn
busy_turn = record { checked_at = 20; lock_free = false; polls = (20, false) ∷ (25, false) ∷ [] }
