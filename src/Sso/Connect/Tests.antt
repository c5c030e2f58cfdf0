-- ===== src/Sso/Connect/Tests.antt =====
-- Runs of SSOConnect: a dial that is refused, and a request whose session cookie names the pending
-- session itself.
use goblin_ftp.Base.{
  ◌≡◌, refl, true, false, [], ◌∷◌, bytes_has_eq, ◌==◌, codes, none, some, inr, nat_has_eq,
}
use goblin_ftp.Base.Sets.{member}
use goblin_ftp.Base.Ints.{pos, gtb}
use goblin_ftp.Base.Map.{insert, lookup}
use goblin_ftp.Errors.Chain.{other, leaf}
use goblin_ftp.Remote.{failed}
use goblin_ftp.Text.Cut.{hex, hex_digit}
use goblin_ftp.Auth.Session
use goblin_ftp.Auth.Session.{pending}
use goblin_ftp.Auth.Store
use goblin_ftp.Auth.Store.{new_store, empty_session}
use goblin_ftp.Auth.Throttle
use goblin_ftp.Auth.Throttle.{new_throttle}
use goblin_ftp.Sso.UsedSet.{new_used_set}
use goblin_ftp.Tokens.{Payload, generate_csrf_token}
use goblin_ftp.Cookies.{only_named, count_named, last_named}
use goblin_ftp.Guards.{lookup_session}
use goblin_ftp.Login.Checks.{Library, Settings, check_ip_allowlist}
use goblin_ftp.Text.{contains_control, has_prefix, is_abs, split}
use goblin_ftp.Paths.{validate_server_directory, validate_remote_path, any_ambiguous, is_ambiguous}
use goblin_ftp.Sso.World.{SsoWorld}
use goblin_ftp.Sso.Connect.{
  ConnectAnswers, connected, sso_connect, sso_locked, sso_reserved, sso_admitted, sso_dialled,
  finish, enter_session, replace_session, initial_directory,
}
use goblin_ftp.Sso.Connect.Outcomes.{Returned, GivesBack}
use goblin_ftp.Sso.Connect.Release.{sso_connect-GivesBack}
use goblin_ftp.Sso.Connect.Returns.{Returns}

abbrev lib : Library
lib = record {
  is_address = λ ip. true;
  admits = λ addr ip. addr == ip;
  equal_fold = λ a b. a == b;
  to_lower = λ s. s;
  quote = λ s. s;
  join_host_port = λ host port. host;
}

abbrev payload : Payload
payload = record {
  kind = codes "sftp";
  host = codes "h";
  port = pos 22;
  username = codes "u";
  password = codes "p";
  initial_directory = [];
  language = [];
  tenant = [];
  exp = pos 90;
}

abbrev cfg : Settings
cfg = record {
  login_form_disabled = false;
  allowed_types = codes "sftp" ∷ [];
  lock_host = false;
  preset_host = none;
  preset_port = none;
  allowed_addresses = [];
  limits = record { max_sessions = 9; max_per_ip = 9; max_connecting = 9; max_connecting_ip = 9 };
  login_max_attempts = 5;
  cooldown = 60;
}

abbrev begin : SsoWorld
begin = record {
  throttle = new_throttle;
  store = record (new_store 100) {
    objects = λ p. record empty_session {
      id = codes "id";
      expires_at = 90;
      values = (codes "sso_pending", pending payload) ∷ [];
    };
    next = 1;
    sessions = (codes "id", 0) ∷ [];
  };
  used = new_used_set;
  clients = 7 ∷ [];
}

abbrev answers : ConnectAnswers
answers = record {
  unix_now = pos 10;
  body = none;
  dialled = connected 8 (inr (codes "/")) (failed (leaf other [])) true;
  reserve_now = 10;
  settle_now = 11;
  csrf = some (1 ∷ []);
  ids = (some (1 ∷ []), (some (2 ∷ []), some (3 ∷ [])));
  new_now = 11;
  session_name = codes "gftp_session";
  cookies = [];
  get_now = 12;
}

-- The handler waits for the lock that it holds itself.
abbrev own_cookie : ConnectAnswers
own_cookie = record answers { cookies = (codes "gftp_session", codes "id") ∷ [] }

waits_for_itself : sso_connect lib (λ s. s) cfg begin 0 (codes "i") own_cookie ≡ none
unfolding sso_connect sso_locked sso_reserved sso_admitted sso_dialled finish enter_session
    replace_session initial_directory validate_server_directory validate_remote_path lookup_session
    only_named count_named last_named Session.try_lock_transfer Session.get gtb check_ip_allowlist
    insert lookup Store.reserve Store.is_full Store.count_credited Store.count_ip Store.sum
    Store.write Store.get Throttle.reserve Throttle.forget_attempts Throttle.drop_idle
    Throttle.is_refused Throttle.charge Throttle.charge_at generate_csrf_token hex hex_digit
    Store.new Store.add_session Store.hex_encode Store.hex_digit contains_control has_prefix is_abs
    split any_ambiguous is_ambiguous
waits_for_itself = refl

sso_connect-GivesBack_example :
    Returned (GivesBack begin) (sso_connect lib (λ s. s) cfg begin 0 (codes "i") answers)
sso_connect-GivesBack_example =
    sso_connect-GivesBack lib (λ s. s) cfg begin 0 (codes "i") answers (tt, tt)
      (unfold member in refl)
