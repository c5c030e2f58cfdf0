-- ===== src/Cookies/Slots.antt =====
-- What a browser holds after the headers of backend/internal/api/cookie.go: cookies of one name stand
-- in two slots, a partitioned and an ordinary one, and a cookie of a negative age empties its slot.
use goblin_ftp.Base.{
  ◌≡◌, ◌≢◌, Bool, true, false, not, ◌&&◌, ◌||◌, List, [], ◌∷◌, Bytes, codes, bytes_has_eq,
  bytes_eq_iff, ◌==◌, if◌then◌else◌, Option, none, some, arith,
}
use goblin_ftp.Base.Ints.{ℤ, pos, negsuc}
use goblin_ftp.Text.{has_prefix}
use goblin_ftp.Text.Slice.{drop}
use goblin_ftp.Cookies.{
  Cookie, session_cookie, session_cookie_name, trim_prefix, toggled, write_session_cookie,
  set_session_cookie,
}

abbrev pub Jar : Type 0
Jar = Bytes → Bool → Option Bytes

abbrev pub bool_eq : Bool → Bool → Bool
bool_eq true b = b
bool_eq false b = not b

-- What the browser keeps of a header.
abbrev pub kept : ℤ → Bytes → Option Bytes
kept (pos n) value = some value
kept (negsuc n) value = none

abbrev pub receive : Jar → Cookie → Jar
receive jar ck name partitioned =
    if name == ck.name && bool_eq partitioned ck.partitioned
    then kept ck.max_age ck.value
    else jar name partitioned

abbrev pub receive_all : Jar → List Cookie → Jar
receive_all jar [] = jar
receive_all jar (ck ∷ cookies) = receive_all (receive jar ck) cookies

abbrev pub secure_name : Bytes
secure_name = codes "__Host-gftp_session"

-- Where the connection is https, or embedding is on, the headers leave in a browser exactly one
-- session cookie, in the slot of the embedding policy: the other slot of its name and both slots of
-- the name without the prefix are empty. It is gone as well where the age is negative. Cookies of
-- other names are not touched.
pub set_session_cookie-OneSlot :
    (jar : Jar) (embedding : Bool) (scheme value : Bytes) (max_age : ℤ) (other : Bytes) (b : Bool)
    → embedding || scheme == codes "https" ≡ true
    → other ≢ secure_name
    → other ≢ session_cookie_name
    → let after = receive_all jar (set_session_cookie embedding scheme value max_age) in
      (after secure_name embedding ≡ kept max_age value)
      × (after secure_name (not embedding) ≡ none)
      × (after session_cookie_name b ≡ none)
      × (after other b ≡ jar other b)
unfolding set_session_cookie write_session_cookie session_cookie toggled trim_prefix has_prefix drop
set_session_cookie-OneSlot jar true scheme value max_age other true s h k =
    ground (arith, bytes_eq_iff other secure_name, bytes_eq_iff other session_cookie_name)
set_session_cookie-OneSlot jar true scheme value max_age other false s h k =
    ground (arith, bytes_eq_iff other secure_name, bytes_eq_iff other session_cookie_name)
set_session_cookie-OneSlot jar false scheme value max_age other true s h k =
    rw (s) (ground (arith, bytes_eq_iff other secure_name, bytes_eq_iff other session_cookie_name))
set_session_cookie-OneSlot jar false scheme value max_age other false s h k =
    rw (s) (ground (arith, bytes_eq_iff other secure_name, bytes_eq_iff other session_cookie_name))
