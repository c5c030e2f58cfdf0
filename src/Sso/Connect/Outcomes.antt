-- ===== src/Sso/Connect/Outcomes.antt =====
-- What a call of SSOConnect of backend/internal/api/sso.go may leave, stage by stage.
use goblin_ftp.Base.{
  ℕ, ◌≡◌, ◌∙◌, refl, false, List, bytes_has_eq, nat_has_eq, Option, none, some, inl, inr,
}
use goblin_ftp.Base.Sets.{member}
use goblin_ftp.Auth.Store
use goblin_ftp.Auth.Store.{Store}
use goblin_ftp.Auth.Throttle
use goblin_ftp.Auth.Throttle.{Throttle}
use goblin_ftp.Login.Places.{AllFreed}
use goblin_ftp.Login.Settling.{AllSettled}
use goblin_ftp.Sso.World.{SsoWorld}
use goblin_ftp.Sso.Login.Release.{IsReleased}
use goblin_ftp.Sso.Connect.{SsoDialled, prompted, refused, connected, Answer, then_run, retire}

-- The connection that a dial opens is a new one.
abbrev pub IsFreshDial : List ℕ → SsoDialled → Type 0
IsFreshDial clients prompted = Unit
IsFreshDial clients (refused err) = Unit
IsFreshDial clients (connected at dir stat chmod) = member at clients ≡ false

abbrev pub OnError : Answer → Type 0 → Type 0
OnError (inl code) P = P
OnError (inr answer) P = Unit

-- What holds when the rest has returned.
abbrev pub Returned : (SsoWorld → Answer → Type 0) → Option (SsoWorld × Answer) → Type 0
Returned P none = Unit
Returned P (some (w, answer)) = P w answer

pub Returned-then_run :
    (P Q : SsoWorld → Answer → Type 0) (m : Option (SsoWorld × Answer))
    (deferred : SsoWorld → SsoWorld)
    → Returned P m
    → ((w : SsoWorld) (answer : Answer) → P w answer → Q (deferred w) answer)
    → Returned Q (then_run m deferred)
Returned-then_run P Q none deferred h k = tt
Returned-then_run P Q (some (w, answer)) deferred h k = k w answer h

-- The releases of the store are those of `s`, and an error leaves the connections of `w`.
pub record Keeps (w : SsoWorld) (v : SsoWorld) (answer : Answer) : Type 0 where
  pub frees : v.store.frees ≡ w.store.frees
  pub clients : OnError answer (v.clients ≡ w.clients)

abbrev pub Stored : Store → Option (Store × Answer) → Type 0
Stored s none = Unit
Stored s (some (t, answer)) = t.frees ≡ s.frees

-- What follows the dial does not reach the throttle.
abbrev pub SameThrottle : SsoWorld → SsoWorld → Answer → Type 0
SameThrottle u v answer = v.throttle ≡ u.throttle

-- Whatever the dial gives, settle(false) leaves nothing in flight.
abbrev pub Settles : ℕ → ℕ → SsoWorld → Answer → Type 0
Settles i now v answer = AllSettled (Throttle.settle v.throttle i false now)

pub Returned-weaken :
    (P Q : SsoWorld → Answer → Type 0) (m : Option (SsoWorld × Answer))
    → Returned P m
    → ((v : SsoWorld) (answer : Answer) → P v answer → Q v answer)
    → Returned Q m
Returned-weaken P Q none h k = tt
Returned-weaken P Q (some (v, answer)) h k = k v answer h

-- What the handler leaves: nothing held in the store, and no connection behind an error.
abbrev pub Leaves : SsoWorld → SsoWorld → Answer → Type 0
Leaves w v answer = AllFreed v.store × OnError answer (v.clients ≡ w.clients)

pub Returned-both :
    (P Q : SsoWorld → Answer → Type 0) (m : Option (SsoWorld × Answer))
    → Returned P m
    → Returned Q m
    → Returned (λ v answer. P v answer × Q v answer) m
Returned-both P Q none h k = tt
Returned-both P Q (some (v, answer)) h k = (h, k)

-- All that was taken is given back, and no connection stays behind an error.
abbrev pub GivesBack : SsoWorld → SsoWorld → Answer → Type 0
GivesBack w v answer = IsReleased v × OnError answer (v.clients ≡ w.clients)

pub on_error : (answer : Answer) {P : Type 0} → P → OnError answer P
on_error (inl code) h = h
on_error (inr given) h = tt

pub retire-frees : (s : Store) (p : ℕ) → (retire s p).frees ≡ s.frees
unfolding retire Store.delete Store.write
retire-frees s p = refl

pub Stored-weaken :
    (s t : Store) (m : Option (Store × Answer)) → s.frees ≡ t.frees → Stored s m → Stored t m
Stored-weaken s t none e h = tt
Stored-weaken s t (some (u, answer)) e h = h ∙ e
