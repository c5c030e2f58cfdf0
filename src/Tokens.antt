-- ===== src/Tokens.antt =====
-- backend/internal/transfer/token.go, sso/token.go and auth/csrf.go: signed download tokens,
-- encrypted single sign-on tokens, and CSRF tokens. The algorithms of HMAC, HKDF and AES-GCM and
-- the JSON encoding are arguments.
pub mod Download
pub mod Sso
mod Tests
use goblin_ftp.Base.{
  ℕ, zero, suc, ◌-◌, ◌+◌, Bool, true, false, List, [], ◌∷◌, ◌++◌, Bytes, bytes_has_eq, ◌==◌, ltb,
  not, ◌||◌, if◌then◌else◌, Option, none, some, ◌⊎◌, inl, inr, length,
}
use goblin_ftp.Text.Base64.{encode_base64, decode_base64}
use goblin_ftp.Base.Ints.{ℤ, gtb}
use goblin_ftp.Text.Decimal.{format_int, parse_int}
use goblin_ftp.Text.Slice.{take, drop}
use goblin_ftp.Text.Cut.{split_n, hex}

pub data TokenError : Type 0 where
  invalid expired : TokenError

module _ (hmac : Bytes → Bytes → Bytes) where
  unfoldable pub compute_hmac : Bytes → Bytes → Bytes
  compute_hmac secret message = hex (hmac secret message)

  unfoldable pub signed_message : Bytes → Bytes → Bytes → Bytes
  signed_message subject encoded_path expiry = subject ++ (b':' ∷ encoded_path ++ (b':' ∷ expiry))

  unfoldable pub issue_token : Bytes → Bytes → Bytes → ℤ → Bytes
  issue_token secret subject path expiry =
      let message = signed_message subject (encode_base64 path) (format_int expiry) in
      encode_base64 (message ++ (b':' ∷ compute_hmac secret message))

  -- The last steps of ValidateToken, behind the comparison of the MACs.
  unfoldable pub open_token : Bytes → Bytes → Bytes → ℤ → TokenError ⊎ (Bytes × Bytes)
  open_token subject encoded_path expiry_text now = elim (parse_int expiry_text) [
    | none ↦ inl invalid
    | some expiry ↦
        if gtb now expiry then inl expired else elim (decode_base64 false encoded_path) [
          | none ↦ inl invalid
          | some path ↦ inr (subject, path)
        ]
  ]

  unfoldable pub check_parts : Bytes → List Bytes → ℤ → TokenError ⊎ (Bytes × Bytes)
  check_parts secret (subject ∷ encoded_path ∷ expiry_text ∷ got_mac ∷ []) now =
      let message = signed_message subject encoded_path expiry_text in
      if not (got_mac == compute_hmac secret message)
      then inl invalid
      else open_token subject encoded_path expiry_text now
  check_parts secret parts now = inl invalid

  unfoldable pub validate_token : Bytes → Bytes → ℤ → TokenError ⊎ (Bytes × Bytes)
  validate_token secret token now = elim (decode_base64 false token) [
    | none ↦ inl invalid
    | some raw ↦ check_parts secret (split_n b':' 3 raw) now
  ]

-- sso.Payload
pub record Payload : Type 0 where
  pub kind : Bytes
  pub host : Bytes
  pub port : ℤ
  pub username : Bytes
  pub password : Bytes
  pub initial_directory : Bytes
  pub language : Bytes
  pub tenant : Bytes
  pub exp : ℤ

pub data SsoError : Type 0 where
  bad_encoding too_short no_key no_cipher not_decrypted bad_payload no_nonce : SsoError
  token_expired : SsoError

-- The calls of crypto/aes, crypto/cipher, hkdf and encoding/json. `seal` gives the ciphertext with
-- the tag behind it.
pub record Crypto : Type 0 where
  pub derive_key : Bytes → Option Bytes
  pub has_cipher : Bytes → Bool
  pub seal : Bytes → Bytes → Bytes → Bytes
  pub unseal : Bytes → Bytes → Bytes → Option Bytes
  pub marshal : Payload → Option Bytes
  pub unmarshal : Bytes → Option Payload

-- The random nonce of Encrypt is an argument, none when the source of randomness fails.
unfoldable pub encrypt : Crypto → Payload → Bytes → Option Bytes → SsoError ⊎ Bytes
encrypt x p secret nonce = elim (x.marshal p) [
  | none ↦ inl bad_payload
  | some plaintext ↦ elim (x.derive_key secret) [
    | none ↦ inl no_key
    | some key ↦ if not (x.has_cipher key) then inl no_cipher else elim nonce [
      | none ↦ inl no_nonce
      | some iv ↦
          let sealed = x.seal key iv plaintext in
          let split = length sealed - 16 in
          inr (encode_base64 (iv ++ drop split sealed ++ take split sealed))
    ]
  ]
]

-- Behind the checks of the encoding and the length.
unfoldable pub decrypt_wire : Crypto → Bytes → Bytes → ℤ → SsoError ⊎ Payload
decrypt_wire x wire secret now =
    let iv = take 12 wire in
    let tag = drop 12 (take 28 wire) in
    let ciphertext = drop 28 wire in
    elim (x.derive_key secret) [
      | none ↦ inl no_key
      | some key ↦
          if not (x.has_cipher key)
          then inl no_cipher
          else elim (x.unseal key iv (ciphertext ++ tag)) [
            | none ↦ inl not_decrypted
            | some plaintext ↦ elim (x.unmarshal plaintext) [
              | none ↦ inl bad_payload
              | some p ↦ if gtb now p.exp then inl token_expired else inr p
            ]
          ]
    ]

unfoldable pub decrypt : Crypto → Bytes → Bytes → ℤ → SsoError ⊎ Payload
decrypt x raw secret now = elim (decode_base64 true raw) [
  | none ↦ inl bad_encoding
  | some wire ↦
      if not (encode_base64 wire == raw)
      then inl bad_encoding
      else if ltb (length wire) 29
      then inl too_short
      else decrypt_wire x wire secret now
]

-- auth.GenerateCSRFToken; the random bytes are an argument, none when reading them fails.
unfoldable pub generate_csrf_token : Option Bytes → Option Bytes
generate_csrf_token none = none
generate_csrf_token (some random) = some (hex random)

-- auth.ValidateCSRFToken
unfoldable pub validate_csrf_token : Bytes → Bytes → Bool
validate_csrf_token a b = if a == [] || b == [] then false else a == b
