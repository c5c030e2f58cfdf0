-- ===== src/Guards/Tests.antt =====
-- A request that passes the CSRF check.
use goblin_ftp.Base.{ℕ, ◌≡◌, refl, [], ◌∷◌, codes, bytes_has_eq, none, false}
use goblin_ftp.Base.Map.{lookup}
use goblin_ftp.Auth.Session
use goblin_ftp.Auth.Session.{text}
use goblin_ftp.Auth.Store
use goblin_ftp.Auth.Store.{Store, new_store}
use goblin_ftp.Cookies.{only_named, count_named, last_named, has_session_cookie}
use goblin_ftp.Tokens.{validate_csrf_token}
use goblin_ftp.Guards.{
  Request, Vouches, is_read_only, check_csrf, csrf_middleware, csrf_middleware_sound,
  lookup_session,
}

abbrev filled : Store
filled = record (new_store 50) {
  objects = λ p. record {
    id = codes "id";
    connection_id = [];
    download_key = [];
    expires_at = 90;
    hard_expiry = 0;
    values = (codes "_csrf_token", text (codes "t")) ∷ [];
    uploads = [];
    busy = false;
  };
  next = 1;
  sessions = (codes "id", 0) ∷ [];
}

abbrev post : Request
post = record {
  method = codes "POST";
  route = codes "/api/files/delete";
  fetch_site = [];
  csrf_header = codes "t";
  cookie_name = codes "gftp_session";
  cookies = (codes "gftp_session", codes "id") ∷ [];
}

passes : csrf_middleware filled post 10 ≡ none
unfolding csrf_middleware check_csrf is_read_only has_session_cookie lookup_session only_named
    count_named last_named Store.get lookup Session.get_string Session.get validate_csrf_token
passes = refl

reads : is_read_only (codes "POST") ≡ false
unfolding is_read_only
reads = refl

csrf_middleware_sound_example : (p : ℕ) × Vouches filled post 10 p
csrf_middleware_sound_example = csrf_middleware_sound filled post 10 passes reads refl
