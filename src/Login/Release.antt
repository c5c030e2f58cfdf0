-- ===== src/Login/Release.antt =====
-- What Connect of backend/internal/api/connect.go takes from the throttle and the session store it
-- gives back, whatever happens in between, and the connection of a login that fails is closed.
use goblin_ftp.Base.{ℕ, ◌≡◌, false, Bytes, bytes_has_eq, nat_has_eq}
use goblin_ftp.Base.Map.{lookup}
use goblin_ftp.Auth.Session.{Session}
use goblin_ftp.Auth.Store
use goblin_ftp.Auth.Store.{Store, or_zero}
use goblin_ftp.Auth.Throttle
use goblin_ftp.Auth.Throttle.{Throttle}
use goblin_ftp.Login.{LoginAnswer, LoginWorld}
use goblin_ftp.Login.Places.{AllFreed, SamePlaces}
use goblin_ftp.Login.Settling.{AllSettled}
use goblin_ftp.Login.Entry.{Opens}

-- Behind the reservation in the throttle, whose function is `i`.
record Settles (w : LoginWorld) (at i now : ℕ) (v : LoginWorld) (answer : LoginAnswer)
    : Type 0 where
  places : SamePlaces v.store w.store
  settled : AllSettled (Throttle.settle v.throttle i false now)
  clients : Opens at w.clients v.clients answer

record Leaves (w : LoginWorld) (at : ℕ) (v : LoginWorld) (answer : LoginAnswer) : Type 0 where
  places : SamePlaces v.store w.store
  settled : AllSettled v.throttle
  clients : Opens at w.clients v.clients answer

-- The logins that the store counts are those before, for every address; all functions that were
-- handed out were called; and of the connections only that of a login stays.
pub record Released (w : LoginWorld) (at : ℕ) (v : LoginWorld) (answer : LoginAnswer) : Type 0 where
  pub connecting :
      (ip : Bytes) → or_zero (lookup ip v.store.connecting) ≡ or_zero (lookup ip w.store.connecting)
  pub freed : AllFreed v.store
  pub settled : AllSettled v.throttle
  pub clients : Opens at w.clients v.clients answer
