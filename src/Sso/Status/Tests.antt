-- ===== src/Sso/Status/Tests.antt =====
-- A ping that fails drops the client, unless a transfer holds the lock.
use goblin_ftp.Base.{◌≡◌, refl, true, false, [], ◌∷◌, bytes_has_eq, codes, some}
use goblin_ftp.Base.Map.{lookup, erase}
use goblin_ftp.Errors.Chain.{leaf, other}
use goblin_ftp.Auth.Session
use goblin_ftp.Auth.Session.{Session, client}
use goblin_ftp.Auth.Store.{empty_session}
use goblin_ftp.Sso.Status.{checked, ping_client, status_of}

abbrev connected : Session
connected = record empty_session { values = (codes "client", client 4) ∷ [] }

dead_client : (status_of (checked (λ at. some (leaf other [])) true connected)).connected ≡ false
unfolding checked ping_client status_of Session.get Session.delete Session.try_lock_transfer
    Session.unlock_transfer lookup erase
dead_client = refl

busy_client :
    (status_of
      (checked (λ at. some (leaf other [])) true (record connected { busy = true }))).connected
    ≡ true
unfolding checked ping_client status_of Session.get Session.try_lock_transfer lookup
busy_client = refl
