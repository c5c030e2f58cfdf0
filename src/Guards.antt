-- ===== src/Guards.antt =====
-- backend/internal/api/router.go: csrfMiddleware and requireSession, and the session of a request by
-- backend/internal/api/cookie.go.
mod Tests
use goblin_ftp.Base.{
  ℕ, ◌≡◌, ◌≤◌, ◌∙◌, ◌+◌, refl, ap, subst, nat_eq, List, Bool, true, false, not, ◌&&◌, ◌||◌, [], ◌∷◌,
  Bytes, codes, bytes_has_eq, bytes_eq_iff, ◌==◌, if◌then◌else◌, Option, none, some, ◌⊎◌, inl, inr,
  arith, Bool-cases, Option-cases,
}
use goblin_ftp.Errors.{Code}
use goblin_ftp.Auth.Session
use goblin_ftp.Auth.Store
use goblin_ftp.Auth.Store.{Store, live_at}
use goblin_ftp.Base.Map.{lookup}
use goblin_ftp.Cookies.{Cookies, count_named, last_named, only_named, has_session_cookie}
use goblin_ftp.Tokens.{validate_csrf_token}

abbrev pub csrf_key : Bytes
csrf_key = codes "_csrf_token"

unfoldable pub lookup_session : Store → Bytes → Cookies → ℕ → Option ℕ
lookup_session s name cookies now = elim (only_named name cookies) [
  | none ↦ none
  | some value ↦ Store.get s value now
]

-- What csrfMiddleware reads of a request: its method, the path of its route, the headers
-- Sec-Fetch-Site and X-CSRF-Token, its cookies and the name of the session cookie.
pub record Request : Type 0 where
  pub method : Bytes
  pub route : Bytes
  pub fetch_site : Bytes
  pub csrf_header : Bytes
  pub cookie_name : Bytes
  pub cookies : Cookies

unfoldable pub is_read_only : Bytes → Bool
is_read_only method = method == codes "GET" || method == codes "HEAD" || method == codes "OPTIONS"

unfoldable pub check_csrf : Store → Request → ℕ → Option Code
check_csrf s req now =
    if not (has_session_cookie req.cookie_name req.cookies)
    then some Code.csrf_invalid
    else elim (lookup_session s req.cookie_name req.cookies now) [
      | none ↦ some Code.csrf_invalid
      | some p ↦
          if not (validate_csrf_token (Session.get_string (s.objects p) csrf_key) req.csrf_header)
          then some Code.csrf_invalid
          else none
    ]

-- The code of the refusal; none where the next handler is called.
unfoldable pub csrf_middleware : Store → Request → ℕ → Option Code
csrf_middleware s req now =
    if is_read_only req.method
    then none
    else if req.route == codes "/api/auth/connect"
    then (if req.fetch_site == codes "cross-site" then some Code.forbidden else none)
    else check_csrf s req now

-- `later` is the clock of Touch.
unfoldable pub require_session : Store → Bytes → Cookies → ℕ → ℕ → ℕ → Store × (Code ⊎ ℕ)
require_session s name cookies now touch_now later =
    if not (has_session_cookie name cookies)
    then (s, inl Code.unauthorized)
    else elim (lookup_session s name cookies now) [
      | none ↦ (s, inl Code.session_not_found)
      | some p ↦ (Store.touch s (s.objects p).id touch_now later, inr p)
    ]

-- The values of the cookies with a name, in order.
abbrev pub values_named : Bytes → Cookies → List Bytes
values_named name [] = []
values_named name ((n, v) ∷ cookies) =
    let rest = values_named name cookies in if n == name then v ∷ rest else rest

-- The session that a request names by its one session cookie: it is stored under the value and has
-- not expired.
pub record Names (s : Store) (name : Bytes) (cookies : Cookies) (now p : ℕ) : Type 0 where
  pub value : Bytes
  pub only : values_named name cookies ≡ value ∷ []
  pub stored : lookup value s.sessions ≡ some p
  pub live : now ≤ (s.objects p).expires_at

none_named :
    (name : Bytes) (cookies : Cookies)
    → count_named name cookies ≡ 0
    → values_named name cookies ≡ []
unfolding count_named
none_named name [] h = refl
none_named name ((n, v) ∷ cookies) h = ground (arith, h, none_named name cookies)

last_named-none :
    (name : Bytes) (cookies : Cookies) (value : Bytes)
    → count_named name cookies ≡ 0
    → last_named name cookies value ≡ value
unfolding count_named last_named
last_named-none name [] value h = refl
last_named-none name ((n, v) ∷ cookies) value h = elim (Bool-cases (n == name)) [
  | inl t ↦ absurd (ground (arith, h, t))
  | inr f ↦ rw f (last_named-none name cookies value (ground (arith, h, f)))
]

values_named-one :
    (name : Bytes) (cookies : Cookies) (value : Bytes)
    → count_named name cookies ≡ 1
    → values_named name cookies ≡ last_named name cookies value ∷ []
unfolding count_named last_named
values_named-one name [] value h = absurd (omega (arith, h))
values_named-one name ((n, v) ∷ cookies) value h = elim (Bool-cases (n == name)) [
  | inl t ↦
      let none_left : count_named name cookies ≡ 0 = ground (arith, h, t) in
      rw (t, none_named name cookies none_left, last_named-none name cookies v none_left) refl
  | inr f ↦ rw f (values_named-one name cookies value (ground (arith, h, f)))
]

lookup_session_sound :
    (s : Store) (name : Bytes) (cookies : Cookies) (now p : ℕ)
    → lookup_session s name cookies now ≡ some p
    → Names s name cookies now p
unfolding lookup_session only_named Store.get
lookup_session_sound s name cookies now p h =
    let value = last_named name cookies [] in
    elim (Bool-cases (nat_eq (count_named name cookies) 1)) [
      | inr f ↦ absurd (ground (arith, h, f))
      | inl t ↦ elim (Option-cases (lookup value s.sessions)) [
        | inl e ↦ absurd (ground (arith, h, t, e))
        | inr (q, e) ↦
            let fresh : (q ≡ p) × (now ≤ (s.objects q).expires_at) =
              found q (rw (lookup_session, only_named, Store.get, t, e) at h) in
            record {
              value = value;
              only = values_named-one name cookies [] (ground (arith, t));
              stored = e ∙ ap some fresh.0;
              live = subst (λ x. now ≤ (s.objects x).expires_at) fresh.0 fresh.1;
            }
      ]
    ]
  where
    found : (q : ℕ) → live_at s now (some q) ≡ some p → (q ≡ p) × (now ≤ (s.objects q).expires_at)
    found q e = (ground (arith, e), ground (arith, e))

-- The session that a request names, and the token that both share.
pub record Vouches (s : Store) (req : Request) (now p : ℕ) : Type 0 where
  pub named : Names s req.cookie_name req.cookies now p
  pub same : Session.get_string (s.objects p) csrf_key ≡ req.csrf_header
  pub given : req.csrf_header == [] ≡ false

validate_csrf_token_sound :
    (a b : Bytes) → validate_csrf_token a b ≡ true → (a ≡ b) × (b == [] ≡ false)
unfolding validate_csrf_token
validate_csrf_token_sound a b h = ground (arith, bytes_eq_iff a b)

-- A request whose method is not GET, HEAD or OPTIONS and that is not for the route of Connect passes
-- csrfMiddleware only if it has exactly one session cookie, whose value is the identifier of a stored
-- session that has not expired, and the header of the request repeats the CSRF token of that session,
-- which is not empty.
pub csrf_middleware_sound :
    (s : Store) (req : Request) (now : ℕ)
    → csrf_middleware s req now ≡ none
    → is_read_only req.method ≡ false
    → req.route == codes "/api/auth/connect" ≡ false
    → (p : ℕ) × Vouches s req now p
unfolding csrf_middleware check_csrf
csrf_middleware_sound s req now h m r =
    elim (Option-cases (lookup_session s req.cookie_name req.cookies now)) [
      | inl e ↦ absurd (ground (arith, h, m, r, e))
      | inr (p, e) ↦
          elim (Bool-cases
            (validate_csrf_token (Session.get_string (s.objects p) csrf_key) req.csrf_header)) [
              | inl v ↦
                  let (same, given) = validate_csrf_token_sound _ _ v in
                  (
                    p,
                    record {
                      named = lookup_session_sound s req.cookie_name req.cookies now p e;
                      same = same;
                      given = given;
                    },
                  )
              | inr v ↦ absurd (ground (arith, h, m, r, e, v))
            ]
    ]
