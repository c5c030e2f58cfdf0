-- ===== src/Tokens/Sso.antt =====
-- SSO tokens: what Encrypt writes Decrypt reads, and a sealed content has one accepted spelling.
use goblin_ftp.Base.{
  ℕ, zero, suc, ◌≡◌, ◌≤◌, ◌+◌, ◌-◌, ◌∙◌, refl, ap, subst, true, false, [], ◌∷◌, ◌++◌, Bytes,
  bytes_eq_iff, Bool, some, inl, inr, All, All-append, arith, Bool-cases, Option-cases,
  bytes_has_eq, ◌==◌, length, length-append, ==_refl, append_assoc, ltb,
}
use goblin_ftp.Text.Base64.{encode_base64, decode_base64, IsByte, decode_base64-encode_base64}
use goblin_ftp.Base.Ints.{ℤ, gtb}
use goblin_ftp.Text.Decimal.{InRange}
use goblin_ftp.Text.Slice.{take, drop, take-append, drop-append, take-drop, length-drop}
use goblin_ftp.Tokens.{Payload, Crypto, encrypt, decrypt, decrypt_wire}

-- What is accepted is the encoding of the bytes it decodes to.
decrypt_sound :
    (x : Crypto) (raw secret : Bytes) (now : ℤ) (p : Payload)
    → decrypt x raw secret now ≡ inr p
    → (wire : Bytes) × ((decode_base64 true raw ≡ some wire) × (encode_base64 wire ≡ raw))
unfolding decrypt
decrypt_sound x raw secret now p h = elim (Option-cases (decode_base64 true raw)) [
  | inl n ↦ absurd (ground (arith, n, h))
  | inr (wire, d) ↦ elim (Bool-cases (encode_base64 wire == raw)) [
    | inl t ↦ (wire, (d, (bytes_eq_iff (encode_base64 wire) raw).0 t))
    | inr f ↦ absurd (ground (arith, d, f, h))
  ]
]

-- Two tokens that are accepted with one secret, at any times, and that decode to the same bytes are
-- the same text.
pub decrypt_one_spelling :
    (x : Crypto) (raw other secret : Bytes) (now later : ℤ) (p q : Payload)
    → decrypt x raw secret now ≡ inr p
    → decrypt x other secret later ≡ inr q
    → decode_base64 true raw ≡ decode_base64 true other
    → raw ≡ other
decrypt_one_spelling x raw other secret now later p q h k e =
    same (decrypt_sound x raw secret now p h) (decrypt_sound x other secret later q k)
  where
    same :
        (wire : Bytes) × ((decode_base64 true raw ≡ some wire) × (encode_base64 wire ≡ raw))
        → (wire : Bytes) × ((decode_base64 true other ≡ some wire) × (encode_base64 wire ≡ other))
        → raw ≡ other
    same (v, (dv, ev)) (w, (dw, ew)) = ground (arith, e, dv, ev, dw, ew)

take-All : (n : ℕ) (s : Bytes) → All IsByte s → All IsByte (take n s)
unfolding take
take-All zero s h = tt
take-All (suc n) [] h = tt
take-All (suc n) (c ∷ s) h = (h.0, take-All n s h.1)

drop-All : (n : ℕ) (s : Bytes) → All IsByte s → All IsByte (drop n s)
unfolding drop
drop-All zero s h = h
drop-All (suc n) [] h = tt
drop-All (suc n) (c ∷ s) h = drop-All n s h.1

-- The parts of the wire format.
take_iv : (iv rest : Bytes) → length iv ≡ 12 → take 12 (iv ++ rest) ≡ iv
take_iv iv rest h = subst (λ n. take n (iv ++ rest) ≡ iv) h (take-append iv rest)

drop_iv : (iv rest : Bytes) → length iv ≡ 12 → drop 12 (iv ++ rest) ≡ rest
drop_iv iv rest h = subst (λ n. drop n (iv ++ rest) ≡ rest) h (drop-append iv rest)

module _ (iv tag text : Bytes) (hi : length iv ≡ 12) (ht : length tag ≡ 16) where
  head_length : length (iv ++ tag) ≡ 28
  head_length = omega (arith, length-append iv tag)

  iv_part : take 12 (iv ++ tag ++ text) ≡ iv
  iv_part = ap (take 12) (append_assoc iv tag text) ∙ take_iv iv (tag ++ text) hi

  tag_part : drop 12 (take 28 (iv ++ tag ++ text)) ≡ tag
  tag_part =
      ap (drop 12) (
        subst (λ n. take n ((iv ++ tag) ++ text) ≡ iv ++ tag) head_length
          (take-append (iv ++ tag) text))
      ∙ drop_iv iv tag hi

  text_part : drop 28 (iv ++ tag ++ text) ≡ text
  text_part =
      subst (λ n. drop n ((iv ++ tag) ++ text) ≡ text) head_length (drop-append (iv ++ tag) text)

-- The texts are valid UTF-8, by utf8.ValidString, and the integers have 64 bits: encoding/json writes
-- U+FFFD for what is not UTF-8.
abbrev pub IsEncodable : (Bytes → Bool) → Payload → Type 0
IsEncodable valid p =
    (valid p.kind ≡ true)
    × (valid p.host ≡ true)
    × (valid p.username ≡ true)
    × (valid p.password ≡ true)
    × (valid p.initial_directory ≡ true)
    × (valid p.language ≡ true)
    × (valid p.tenant ≡ true)
    × InRange p.port
    × InRange p.exp

-- What is documented of the libraries, with utf8.ValidString: opening undoes sealing under the same
-- key and nonce, a sealed text of bytes is one of bytes, 16 longer, parsing undoes printing for a
-- payload of valid texts and 64-bit integers, and what is printed are bytes, at least one.
pub record IsLawful (valid : Bytes → Bool) (x : Crypto) : Type 0 where
  pub unseal-seal :
      (key iv plaintext : Bytes)
      → All IsByte plaintext
      → x.unseal key iv (x.seal key iv plaintext) ≡ some plaintext
  pub length-seal :
      (key iv plaintext : Bytes) → length (x.seal key iv plaintext) ≡ length plaintext + 16
  pub seal-IsByte :
      (key iv plaintext : Bytes) → All IsByte plaintext → All IsByte (x.seal key iv plaintext)
  pub unmarshal-marshal :
      (p : Payload) (s : Bytes)
      → IsEncodable valid p
      → x.marshal p ≡ some s
      → x.unmarshal s ≡ some p
  pub marshal-IsByte : (p : Payload) (s : Bytes) → x.marshal p ≡ some s → All IsByte s
  pub marshal_long : (p : Payload) (s : Bytes) → x.marshal p ≡ some s → 1 ≤ length s

module _ (valid : Bytes → Bool) (x : Crypto) (p : Payload) (secret iv : Bytes)
    (law : IsLawful valid x) (encodable : IsEncodable valid p) where
  -- Encrypt's wire, opened.
  decrypt_wire-sealed :
      (key plaintext : Bytes) (now : ℤ)
      → length iv ≡ 12
      → x.marshal p ≡ some plaintext
      → x.derive_key secret ≡ some key
      → x.has_cipher key ≡ true
      → gtb now p.exp ≡ false
      → let sealed = x.seal key iv plaintext in
        let split = length sealed - 16 in
        decrypt_wire x (iv ++ drop split sealed ++ take split sealed) secret now ≡ inr p
  unfolding decrypt_wire
  decrypt_wire-sealed key plaintext now hl hm hk hc hn =
      let sealed = x.seal key iv plaintext in
      let split = length sealed - 16 in
      let tag = drop split sealed in
      let text = take split sealed in
      let size : length tag ≡ 16 =
        omega (arith, length-drop split sealed, law.length-seal key iv plaintext) in
      rw
        (
          decrypt_wire,
          hk,
          hc,
          iv_part iv tag text hl size,
          text_part iv tag text hl size,
          tag_part iv tag text hl size,
          take-drop split sealed,
          law.unseal-seal key iv plaintext (law.marshal-IsByte p plaintext hm),
          law.unmarshal-marshal p plaintext encodable hm,
          hn,
        )
        refl

  sealed-accepted :
      (key plaintext : Bytes) (now : ℤ)
      → All IsByte iv
      → length iv ≡ 12
      → x.marshal p ≡ some plaintext
      → x.derive_key secret ≡ some key
      → x.has_cipher key ≡ true
      → gtb now p.exp ≡ false
      → let sealed = x.seal key iv plaintext in
        let split = length sealed - 16 in
        decrypt x (encode_base64 (iv ++ drop split sealed ++ take split sealed)) secret now ≡ inr p
  unfolding decrypt
  sealed-accepted key plaintext now hb hl hm hk hc hn =
      let sealed = x.seal key iv plaintext in
      let split = length sealed - 16 in
      let tag = drop split sealed in
      let text = take split sealed in
      let bytes = law.seal-IsByte key iv plaintext (law.marshal-IsByte p plaintext hm) in
      let wire : Bytes = iv ++ tag ++ text in
      let all : All IsByte wire =
        All-append IsByte _ _ (All-append IsByte _ _ hb (drop-All split sealed bytes))
          (take-All split sealed bytes) in
      let long : ltb (length wire) 29 ≡ false = ground (
        arith,
        hl,
        length-append (iv ++ tag) text,
        length-append iv tag,
        length-drop split sealed,
        law.length-seal key iv plaintext,
        law.marshal_long p plaintext hm,
        length-append text tag,
        ap length (take-drop split sealed),
      ) in
      rw (decrypt, decode_base64-encode_base64 true wire all, ==_refl (encode_base64 wire), long)
        (decrypt_wire-sealed key plaintext now hl hm hk hc hn)

-- A token that Encrypt gives with a nonce of 12 bytes is opened by Decrypt with the same secret to
-- the same payload, until the payload's expiry is over, where the texts of the payload are valid
-- UTF-8 and its integers have 64 bits, for libraries that do what their documentation says.
pub decrypt-encrypt :
    (valid : Bytes → Bool) (x : Crypto) (p : Payload) (secret iv token : Bytes) (now : ℤ)
    → IsLawful valid x
    → IsEncodable valid p
    → All IsByte iv
    → length iv ≡ 12
    → gtb now p.exp ≡ false
    → encrypt x p secret (some iv) ≡ inr token
    → decrypt x token secret now ≡ inr p
unfolding encrypt
decrypt-encrypt valid x p secret iv token now law encodable hb hl hn h =
    elim (Option-cases (x.marshal p)) [
      | inl n ↦ absurd (ground (arith, n, h))
      | inr (plaintext, m) ↦ elim (Option-cases (x.derive_key secret)) [
        | inl n ↦ absurd (ground (arith, m, n, h))
        | inr (key, k) ↦ elim (Bool-cases (x.has_cipher key)) [
          | inr n ↦ absurd (ground (arith, m, k, n, h))
          | inl c ↦
              subst (λ t. decrypt x t secret now ≡ inr p) (ground (arith, m, k, c, h))
                (sealed-accepted valid x p secret iv law encodable key plaintext now hb hl m k c hn)
        ]
      ]
    ]
