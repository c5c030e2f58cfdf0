-- ===== src/Errors/Status.antt =====
-- What api/connlost.go answers: the status of the response, its message, and what happens to the
-- session's client.
use goblin_ftp.Base.{
  ℕ, ◌≡◌, ◌≢◌, refl, true, false, Bytes, codes, Option, none, some, arith, Bool-cases, inl, inr,
  ◌⊎◌, bytes_has_eq, bytes_eq_iff,
}
use goblin_ftp.Base.Map.{lookup-erase}
use goblin_ftp.Errors.{Code, http_status, code_status}
use goblin_ftp.Errors.Chain.{GoError}
use goblin_ftp.Errors.Classify.{
  message_for, classify_text, classify_code, final_code, is_conn_lost, fail_client, drop_client,
}
use goblin_ftp.Auth.Session.{Session, client, get, delete}

-- Not a status of the error budget that pages.
abbrev pub IsRemote : Code → Type 0
IsRemote code = code_status code ≢ 500

classify_text-IsRemote :
    (to_lower : Bytes → Bytes) (e : GoError) → IsRemote (classify_text to_lower e)
unfolding classify_text code_status
classify_text-IsRemote to_lower e = ground arith

classify_code-IsRemote :
    (to_lower : Bytes → Bytes) (o : Option GoError) → IsRemote (classify_code to_lower o)
unfolding classify_code code_status
classify_code-IsRemote to_lower none = ground arith
classify_code-IsRemote to_lower (some e) = ground (arith, classify_text-IsRemote to_lower e)

final_code-IsRemote :
    (classified code : Code)
    → IsRemote classified
    → (code ≢ Code.no_code → IsRemote code)
    → IsRemote (final_code classified code)
unfolding final_code code_status
final_code-IsRemote classified code h k = ground arith

-- An error of the remote server, or none, never becomes a 500, which counts against the error
-- budget, unless the handler passed a code that is itself one.
pub fail_client-http_status :
    (to_lower : Bytes → Bytes) (sess : Session) (code : Code) (err : Option GoError)
    → (code ≢ Code.no_code → code_status code ≢ 500)
    → http_status (some (fail_client to_lower sess code err).1) ≢ 500
unfolding fail_client http_status
fail_client-http_status to_lower sess code err k = elim (Bool-cases (is_conn_lost err)) [
  | inl t ↦ rw t (unfold code_status in ground arith)
  | inr f ↦ rw f (
      final_code-IsRemote (classify_code to_lower err) code (classify_code-IsRemote to_lower err) k)
]

-- For a session with a client, a lost connection is answered with its code, and the client is
-- gone from the session.
pub fail_client_lost :
    (to_lower : Bytes → Bytes) (sess : Session) (code : Code) (err : Option GoError) (p : ℕ)
    → is_conn_lost err ≡ true
    → get sess (codes "client") ≡ some (client p)
    → ((fail_client to_lower sess code err).1.code ≡ Code.connection_lost)
      × (get (fail_client to_lower sess code err).0 (codes "client") ≡ none)
unfolding fail_client
fail_client_lost to_lower sess code err p t h =
    rw (t, h)
      (
        refl,
        unfold drop_client get delete in
            ground (
              arith,
              bytes_eq_iff (codes "client") (codes "client"),
              lookup-erase (codes "client") (codes "client") sess.values,
            ),
      )

-- Any other error leaves the session as it is. The code is the one that the error stands for, or
-- where the error is not recognized and the handler has a code, that one; and the message is the
-- message of the code that is answered.
pub fail_client_kept :
    (to_lower : Bytes → Bytes) (sess : Session) (code : Code) (err : Option GoError)
    → is_conn_lost err ≡ false
    → ((fail_client to_lower sess code err).0 ≡ sess)
      × (((fail_client to_lower sess code err).1.code ≡ classify_code to_lower err)
          ⊎ ((classify_code to_lower err ≡ Code.operation_failed)
              × ((fail_client to_lower sess code err).1.code ≡ code)))
      × ((fail_client to_lower sess code err).1.message
          ≡ message_for (fail_client to_lower sess code err).1.code)
unfolding fail_client
fail_client_kept to_lower sess code err f =
    rw f (refl, final (classify_code to_lower err) code, refl)
  where
    final :
        (c d : Code) → (final_code c d ≡ c) ⊎ ((c ≡ Code.operation_failed) × (final_code c d ≡ d))
    final c d = unfold final_code in ground arith
