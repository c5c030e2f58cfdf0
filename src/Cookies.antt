-- ===== src/Cookies.antt =====
-- backend/internal/api/cookie.go and proxy.go: the session cookie, its name, its attributes and the
-- headers that set or clear it. What net.ParseIP and net.ParseCIDR say of an address is an argument.
pub mod Slots
mod Tests
use goblin_ftp.Base.{
  ℕ, zero, suc, ◌+◌, Bool, true, false, not, ◌&&◌, ◌||◌, List, [], ◌∷◌, ◌++◌, Bytes, codes,
  bytes_has_eq, ◌==◌, nat_eq, if◌then◌else◌, Option, none, some, length,
}
use goblin_ftp.Base.Ints.{ℤ, pos, negsuc}
use goblin_ftp.Text.{has_prefix}
use goblin_ftp.Text.Slice.{drop}

abbrev pub session_cookie_name : Bytes
session_cookie_name = codes "gftp_session"

abbrev pub host_prefix : Bytes
host_prefix = codes "__Host-"

-- The cookies of a request, in order: names and values.
abbrev pub Cookies : Type 0
Cookies = List (Bytes × Bytes)

unfoldable pub count_named : Bytes → Cookies → ℕ
count_named name [] = 0
count_named name ((n, v) ∷ cookies) = (if n == name then 1 else 0) + count_named name cookies

unfoldable pub last_named : Bytes → Cookies → Bytes → Bytes
last_named name [] value = value
last_named name ((n, v) ∷ cookies) value = last_named name cookies (if n == name then v else value)

-- The value that lookupNamedSession looks up, if one cookie has the name.
unfoldable pub only_named : Bytes → Cookies → Option Bytes
only_named name cookies =
    if nat_eq (count_named name cookies) 1 then some (last_named name cookies []) else none

unfoldable pub has_session_cookie : Bytes → Cookies → Bool
has_session_cookie name [] = false
has_session_cookie name ((n, v) ∷ cookies) = n == name || has_session_cookie name cookies

pub data SameSite : Type 0 where
  lax cross_site : SameSite

-- The fields that differ; the path is "/" and HttpOnly is set for every cookie.
pub record Cookie : Type 0 where
  pub name : Bytes
  pub value : Bytes
  pub max_age : ℤ
  pub secure : Bool
  pub same_site : SameSite
  pub partitioned : Bool

-- For a connection that is not TLS: `peer` is the address of the connection, none where it does not
-- parse; an entry of the trusted proxies admits it by `trusts`; `forwarded` is what Scheme() says.
unfoldable pub any_trusts : (Bytes → Bytes → Bool) → List Bytes → Bytes → Bool
any_trusts trusts [] ip = false
any_trusts trusts (entry ∷ proxies) ip = trusts entry ip || any_trusts trusts proxies ip

unfoldable pub client_scheme :
    (Bytes → Bytes → Bool) → List Bytes → Bool → Option Bytes → Bytes → Bytes
client_scheme trusts proxies tls peer forwarded = if tls then codes "https" else elim peer [
  | none ↦ codes "http"
  | some ip ↦ if any_trusts trusts proxies ip then forwarded else codes "http"
]

-- `embedding` is cfg.EmbeddingEnabled(), `scheme` what clientScheme gives.
unfoldable pub session_cookie : Bool → Bytes → Bytes → ℤ → Cookie
session_cookie embedding scheme value max_age =
    let secure = embedding || scheme == codes "https" in
    record {
      name = if secure then codes "__Host-gftp_session" else session_cookie_name;
      value = value;
      max_age = max_age;
      secure = secure;
      same_site = if embedding then cross_site else lax;
      partitioned = embedding;
    }

-- strings.TrimPrefix
unfoldable pub trim_prefix : Bytes → Bytes → Bytes
trim_prefix p s = if has_prefix p s then drop (length p) s else s

-- strings.Replace of the first occurrence; `old` is not empty.
unfoldable pub replace_first : Bytes → Bytes → Bytes → Bytes
replace_first old new [] = []
replace_first old new (c ∷ s) =
    let rest = replace_first old new s in
    if has_prefix old (c ∷ s) then new ++ drop (length old) (c ∷ s) else c ∷ rest

-- The same cookie in the other of the two jars, for deletion.
unfoldable pub toggled : Cookie → Cookie
toggled ck = record ck {
  partitioned = not ck.partitioned;
  same_site = if ck.partitioned then ck.same_site else cross_site;
}

abbrev pub dropped : Cookie → Cookie
dropped ck = record ck { value = []; max_age = negsuc 0 }

-- The Set-Cookie headers, in order.
unfoldable pub write_session_cookie : Cookie → List Cookie
write_session_cookie ck =
    if not ck.secure
    then ck ∷ []
    else let opposite = toggled (dropped ck) in
      let legacy = record (dropped ck) { name = trim_prefix host_prefix ck.name } in
      ck ∷ opposite ∷ (if has_prefix host_prefix ck.name then legacy ∷ toggled legacy ∷ [] else [])

unfoldable pub set_session_cookie : Bool → Bytes → Bytes → ℤ → List Cookie
set_session_cookie embedding scheme value max_age =
    write_session_cookie (session_cookie embedding scheme value max_age)

-- pendingCookie of sso.go
unfoldable pub pending_cookie : Bool → Bytes → Bytes → ℤ → Cookie
pending_cookie embedding scheme value max_age =
    let ck = session_cookie embedding scheme value max_age in
    record ck { name = replace_first (codes "_session") (codes "_sso") ck.name }
