-- ===== src/Login/Tests.antt =====
-- Runs of Connect.
use goblin_ftp.Base.{
  ◌≡◌, refl, true, false, [], ◌∷◌, bytes_has_eq, ◌==◌, codes, none, some, inr, nat_has_eq,
}
use goblin_ftp.Base.Ints.{pos}
use goblin_ftp.Errors.{Code}
use goblin_ftp.Errors.Chain.{sentinel, Sentinel, other, is}
use goblin_ftp.Auth.Session
use goblin_ftp.Auth.Store.{new_store, empty_session}
use goblin_ftp.Auth.Throttle.{new_throttle}
use goblin_ftp.Login.Checks.{Library, Settings, ConnectRequest, classify_dial}
use goblin_ftp.Login.{Answers, LoginWorld, refused, connected, evict_held}

abbrev small : Library
small = record {
  is_address = λ ip. true;
  admits = λ addr ip. addr == ip;
  equal_fold = λ a b. a == b;
  to_lower = λ s. s;
  quote = λ s. s;
  join_host_port = λ host port. host;
}

abbrev cfg : Settings
cfg = record {
  login_form_disabled = false;
  allowed_types = codes "sftp" ∷ [];
  lock_host = false;
  preset_host = none;
  preset_port = none;
  allowed_addresses = [];
  limits = record { max_sessions = 9; max_per_ip = 9; max_connecting = 9; max_connecting_ip = 9 };
  login_max_attempts = 5;
  cooldown = 60;
}

abbrev begin : LoginWorld
begin = record { throttle = new_throttle; store = new_store 100; clients = [] }

abbrev request : ConnectRequest
request = record { protocol = codes "sftp"; host = codes "h"; port = pos 22; username = codes "u" }

abbrev answers : Answers
answers = record {
  dialled = refused (sentinel Sentinel.auth_failed other (codes "denied"));
  client_at = 0;
  reserve_now = 10;
  settle_now = 11;
  csrf = none;
  ids = (none, (none, none));
  new_now = 11;
  cookie = none;
  get_now = 11;
  held = false;
}

-- A rejected password counts against the account.
counted :
    classify_dial (sentinel Sentinel.auth_failed other (codes "denied")) ≡ (true, Code.auth_failed)
unfolding classify_dial is
counted = refl

-- A login.
abbrev entered : Answers
entered = record answers {
  dialled = connected (inr (codes "/")) true;
  csrf = some (7 ∷ []);
  ids = (some (1 ∷ []), (some (2 ∷ []), some (3 ∷ [])));
}

-- The lock of the session that is replaced decides whether the call waits for ever.
waits :
    (evict_held (λ s. s) true empty_session ≡ none)
    × (evict_held (λ s. s) false empty_session ≡ some empty_session)
unfolding evict_held Session.lock_transfer Session.unlock_transfer
waits = (refl, refl)
