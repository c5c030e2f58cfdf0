-- ===== src/Sso/Login/Tests.antt =====
-- A token that opens a pending login, and its replay.
use goblin_ftp.Base.{
  ◌≡◌, ◌≢◌, refl, true, false, [], ◌∷◌, Bytes, bytes_has_eq, ◌==◌, codes, none, some, inr, arith,
}
use goblin_ftp.Base.Ints.{pos, gtb}
use goblin_ftp.Base.Map.{insert, lookup}
use goblin_ftp.Text.Base64.{
  encode_base64, decode_base64, letter, six_bits, read_letters, join_letters,
}
use goblin_ftp.Text.Slice.{take, drop}
use goblin_ftp.Text.Cut.{hex, hex_digit}
use goblin_ftp.Auth.Store
use goblin_ftp.Auth.Store.{new_store}
use goblin_ftp.Auth.Throttle
use goblin_ftp.Auth.Throttle.{new_throttle}
use goblin_ftp.Sso.UsedSet
use goblin_ftp.Sso.UsedSet.{new_used_set}
use goblin_ftp.Tokens.{Crypto, Payload, decrypt, decrypt_wire, generate_csrf_token}
use goblin_ftp.Login.Checks.{Library, is_allowed_type, check_host_lock, check_ip_allowlist, is_port}
use goblin_ftp.Sso.World.{SsoWorld}
use goblin_ftp.Sso.Login.{
  Clockwork, SsoSettings, SsoAnswers, login_pending, is_acceptable, open_pending, login_reserved,
  login_admitted, login_opened, sso_login,
}
use goblin_ftp.Sso.Login.Release.{IsReleased, sso_login-Released}
use goblin_ftp.Sso.Login.Once.{sso_login_once}

abbrev lib : Library
lib = record {
  is_address = λ ip. true;
  admits = λ addr ip. addr == ip;
  equal_fold = λ a b. a == b;
  to_lower = λ s. s;
  quote = λ s. s;
  join_host_port = λ host port. host;
}

abbrev payload : Payload
payload = record {
  kind = codes "sftp";
  host = codes "h";
  port = pos 22;
  username = codes "u";
  password = codes "p";
  initial_directory = [];
  language = [];
  tenant = [];
  exp = pos 90;
}

-- Opens every sealed text to the one payload.
abbrev opens : Crypto
opens = record {
  derive_key = λ secret. some secret;
  has_cipher = λ key. true;
  seal = λ key iv plaintext. plaintext;
  unseal = λ key iv sealed. some sealed;
  marshal = λ p. some (codes "{}");
  unmarshal = λ s. some payload;
}

abbrev clock : Clockwork
clock = record { token_hash = λ raw. raw; unix = λ t. 90 }

abbrev cfg : SsoSettings
cfg = record {
  login = record {
    login_form_disabled = false;
    allowed_types = codes "sftp" ∷ [];
    lock_host = false;
    preset_host = none;
    preset_port = none;
    allowed_addresses = [];
    limits = record { max_sessions = 9; max_per_ip = 9; max_connecting = 9; max_connecting_ip = 9 };
    login_max_attempts = 5;
    cooldown = 60;
  };
  enabled = true;
  secret = codes "s";
  pending_name = codes "gftp_sso";
}

abbrev begin : SsoWorld
begin = record { throttle = new_throttle; store = new_store 100; used = new_used_set; clients = [] }

abbrev answers : SsoAnswers
answers = record {
  decrypt_now = pos 10;
  mark_now = 10;
  reserve_now = 10;
  settle_now = 11;
  csrf = some (1 ∷ []);
  ids = (some (1 ∷ []), (some (2 ∷ []), some (3 ∷ [])));
  new_now = 11;
  expiry_now = 11;
  get_now = 12;
}

-- The encoding of twenty-nine zero bytes.
abbrev token : Bytes
token = codes "AAAAAAAAAAAAAAAAAAAAAAAAAAAAAAAAAAAAAAA"

opened : decrypt opens token (codes "s") (pos 10) ≡ inr payload
unfolding decrypt decrypt_wire encode_base64 decode_base64 letter six_bits read_letters join_letters
    take drop gtb
opened = refl

goes_on :
    (sso_login lib opens clock cfg begin token (codes "i") [] answers).1
    ≡ login_pending (codes "01")
unfolding sso_login login_opened login_admitted login_reserved open_pending is_acceptable
    is_allowed_type check_host_lock check_ip_allowlist is_port decrypt decrypt_wire encode_base64
    decode_base64 letter six_bits read_letters join_letters take drop gtb UsedSet.mark_if_unused
    UsedSet.holds UsedSet.mark insert lookup Store.reserve Store.is_full Store.count_credited
    Store.count_ip Store.sum Throttle.reserve Throttle.forget_attempts Throttle.drop_idle
    Throttle.is_refused Throttle.charge Throttle.charge_at generate_csrf_token hex hex_digit
    Store.new Store.add_session Store.hex_encode Store.hex_digit
goes_on = refl

sso_login-Released_example :
    IsReleased (sso_login lib opens clock cfg begin token (codes "i") [] answers).0
sso_login-Released_example =
    sso_login-Released lib clock cfg opens begin token (codes "i") [] answers (tt, tt)

sso_login_once_example :
    (sso_login lib opens clock cfg
      (sso_login lib opens clock cfg begin token (codes "i") [] answers).0
      token
      (codes "j")
      []
      answers).1
    ≢ login_pending (codes "01")
sso_login_once_example =
    sso_login_once lib opens clock cfg begin
      (sso_login lib opens clock cfg begin token (codes "i") [] answers).0 token (codes "i")
      (codes "j") [] [] answers answers (codes "01") (codes "01") payload [] goes_on opened
      (unfold UsedSet.run in refl) tt (omega arith)
