-- ===== src/Cookies/Tests.antt =====
-- Runs of the cookie functions.
use goblin_ftp.Base.{◌≡◌, refl, true, false, [], ◌∷◌, codes, bytes_has_eq, none}
use goblin_ftp.Base.Ints.{pos}
use goblin_ftp.Text.{has_prefix}
use goblin_ftp.Text.Slice.{drop}
use goblin_ftp.Cookies.{
  session_cookie_name, set_session_cookie, session_cookie, pending_cookie, replace_first,
  only_named, count_named,
}
use goblin_ftp.Cookies.Slots.{Jar, kept, receive_all, secure_name, set_session_cookie-OneSlot}

abbrev empty : Jar
empty name b = none

pending_cookie_name : (pending_cookie true (codes "http") [] (pos 0)).name ≡ codes "__Host-gftp_sso"
unfolding pending_cookie session_cookie replace_first has_prefix drop
pending_cookie_name = refl

-- Two cookies of one name are refused.
two_cookies : only_named (codes "a") ((codes "a", codes "1") ∷ (codes "a", codes "2") ∷ []) ≡ none
unfolding only_named count_named
two_cookies = refl

set_session_cookie-OneSlot_example :
    let after = receive_all empty (set_session_cookie false (codes "https") (codes "id") (pos 0)) in
    (after secure_name false ≡ kept (pos 0) (codes "id"))
    × (after secure_name true ≡ none)
    × (after session_cookie_name true ≡ none)
    × (after (codes "lang") true ≡ empty (codes "lang") true)
set_session_cookie-OneSlot_example =
    set_session_cookie-OneSlot empty false (codes "https") (codes "id") (pos 0) (codes "lang") true
      refl (cc) (cc)
