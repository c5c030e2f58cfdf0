-- ===== src/Tokens/Download.antt =====
-- Download tokens: what IssueToken writes ValidateToken reads, and it accepts nothing that was not
-- signed.
use goblin_ftp.Base.{
  ℕ, suc, ◌≡◌, ◌≢◌, ◌∙◌, refl, ap, sym, false, List, [], ◌∷◌, ◌++◌, Bytes, bytes_eq_iff, some, inl,
  inr, All, All-append, All-weaken, arith, Bool-cases, Option-cases, bytes_has_eq, ◌==◌, ==_refl,
  append_assoc,
}
use goblin_ftp.Text.Base64.{
  encode_base64, decode_base64, IsByte, IsLetter, decode_base64-encode_base64,
  encode_base64-IsLetter,
}
use goblin_ftp.Base.Ints.{ℤ, gtb}
use goblin_ftp.Text.Decimal.{
  format_int, parse_int, InRange, parse_int-format_int, format_int-NoColon, format_int-IsByte,
}
use goblin_ftp.Text.{join}
use goblin_ftp.Text.Split.{NoByte}
use goblin_ftp.Text.Cut.{split_n, cut-append, join-split_n, hex-IsByte}
use goblin_ftp.Tokens.{
  compute_hmac, signed_message, issue_token, open_token, check_parts, validate_token,
}

split_n-append :
    (k : ℕ) (a b s : Bytes)
    → NoByte b':' a
    → s ≡ a ++ (b':' ∷ b)
    → split_n b':' (suc k) s ≡ a ∷ split_n b':' k b
unfolding split_n
split_n-append k a b s h e = rw (e, split_n, cut-append b':' a b h) refl

-- Three parts without a colon, and a last one.
split_n-parts :
    (a b c d : Bytes)
    → NoByte b':' a
    → NoByte b':' b
    → NoByte b':' c
    → split_n b':' 3 ((a ++ (b':' ∷ b ++ (b':' ∷ c))) ++ (b':' ∷ d)) ≡ a ∷ b ∷ c ∷ d ∷ []
split_n-parts a b c d ha hb hc =
    split_n-append 2 a ((b ++ (b':' ∷ c)) ++ (b':' ∷ d)) _ ha (append_assoc a _ _)
    ∙ ap (◌∷◌ a) (
        split_n-append 1 b (c ++ (b':' ∷ d)) _ hb (append_assoc b _ _)
        ∙ ap (◌∷◌ b) (split_n-append 0 c d _ hc refl ∙ unfold split_n in refl))

module _ (hmac : Bytes → Bytes → Bytes)
    (hmac-IsByte : (secret message : Bytes) → All IsByte (hmac secret message)) where
  issued-IsByte :
      (secret subject path : Bytes) (expiry : ℤ)
      → All IsByte subject
      → All IsByte path
      → let message = signed_message hmac subject (encode_base64 path) (format_int expiry) in
        All IsByte (message ++ (b':' ∷ compute_hmac hmac secret message))
  unfolding signed_message compute_hmac
  issued-IsByte secret subject path expiry hs hp =
      All-append IsByte _ _
        (All-append IsByte _ _ hs (
          omega arith,
          All-append IsByte _ _
              (All-weaken IsLetter IsByte _ (λ c h. h.0) (encode_base64-IsLetter path hp))
              (omega arith, format_int-IsByte expiry),
        ))
        (omega arith, hex-IsByte _ (hmac-IsByte secret _))

  -- A token that was issued is accepted until it has expired, and gives the subject and the path,
  -- for a subject without a colon, texts of bytes, an expiry of 64 bits and a MAC of bytes.
  pub validate_token-issue_token :
      (secret subject path : Bytes) (expiry now : ℤ)
      → All IsByte subject
      → All IsByte path
      → NoByte b':' subject
      → InRange expiry
      → gtb now expiry ≡ false
      → validate_token hmac secret (issue_token hmac secret subject path expiry) now
        ≡ inr (subject, path)
  unfolding validate_token issue_token signed_message check_parts open_token
  validate_token-issue_token secret subject path expiry now hs hp hc he hn =
      let encoded = encode_base64 path in
      let expiry_text = format_int expiry in
      let mac = compute_hmac hmac secret (signed_message hmac subject encoded expiry_text) in
      let no_colon =
        All-weaken IsLetter (λ c. c ≢ b':') _ (λ c h. h.1) (encode_base64-IsLetter path hp) in
      rw
        (
          validate_token,
          issue_token,
          decode_base64-encode_base64 false _ (issued-IsByte secret subject path expiry hs hp),
        )
        (rw
          (
            signed_message,
            split_n-parts subject encoded expiry_text mac hc no_colon (format_int-NoColon expiry),
            check_parts,
            ==_refl mac,
            open_token,
            parse_int-format_int expiry he,
            hn,
            decode_base64-encode_base64 false path hp,
          )
          refl)

module _ (hmac : Bytes → Bytes → Bytes) where
  -- A token that spells a signed message, which names the subject, the path and an expiry that is
  -- not over.
  pub record IsSigned (secret token : Bytes) (now : ℤ) (subject path : Bytes) : Type 0 where
    pub encoded_path : Bytes
    pub expiry_text : Bytes
    pub expiry : ℤ
    pub signed :
        let message = signed_message hmac subject encoded_path expiry_text in
        decode_base64 false token ≡ some (message ++ (b':' ∷ compute_hmac hmac secret message))
    pub is_path : decode_base64 false encoded_path ≡ some path
    pub is_expiry : parse_int expiry_text ≡ some expiry
    pub fresh : gtb now expiry ≡ false

  open_token_sound :
      (subject encoded expiry_text : Bytes) (now : ℤ) (s path : Bytes)
      → open_token hmac subject encoded expiry_text now ≡ inr (s, path)
      → (subject ≡ s)
        × ((decode_base64 false encoded ≡ some path)
            × ((expiry : ℤ) × ((parse_int expiry_text ≡ some expiry) × (gtb now expiry ≡ false))))
  unfolding open_token
  open_token_sound subject encoded expiry_text now s path h =
      elim (Option-cases (parse_int expiry_text)) [
        | inl e ↦ absurd (ground (arith, e, h))
        | inr (expiry, e) ↦ elim (Bool-cases (gtb now expiry)) [
          | inl t ↦ absurd (ground (arith, e, t, h))
          | inr f ↦ elim (Option-cases (decode_base64 false encoded)) [
            | inl n ↦ absurd (ground (arith, e, f, n, h))
            | inr (p, d) ↦
                (ground (arith, e, f, d, h), (ground (arith, e, f, d, h), (expiry, (e, f))))
          ]
        ]
      ]

  joined :
      (a encoded exp mac : Bytes)
      → join b':' (a ∷ encoded ∷ exp ∷ mac ∷ []) ≡ signed_message hmac a encoded exp ++ (b':' ∷ mac)
  unfolding join signed_message
  joined a encoded exp mac = simp (append_assoc)

  parts_sound :
      (secret token : Bytes) (now : ℤ) (subject path : Bytes) (parts : List Bytes)
      → decode_base64 false token ≡ some (join b':' parts)
      → check_parts hmac secret parts now ≡ inr (subject, path)
      → IsSigned secret token now subject path
  unfolding check_parts
  parts_sound secret token now subject path (a ∷ encoded ∷ exp ∷ mac ∷ []) d h =
      elim (Bool-cases (mac == compute_hmac hmac secret (signed_message hmac a encoded exp))) [
        | inl t ↦
            accepted (open_token_sound a encoded exp now subject path (ground (arith, t, h)))
              ((bytes_eq_iff mac _).0 t)
        | inr f ↦ absurd (ground (arith, f, h))
      ]
    where
      accepted :
          (a ≡ subject)
            × ((decode_base64 false encoded ≡ some path)
                × ((expiry : ℤ) × ((parse_int exp ≡ some expiry) × (gtb now expiry ≡ false))))
          → mac ≡ compute_hmac hmac secret (signed_message hmac a encoded exp)
          → IsSigned secret token now subject path
      accepted (ea, (dp, (expiry, (pe, fr)))) em = record {
        encoded_path = encoded;
        expiry_text = exp;
        expiry = expiry;
        signed = d ∙ ap some (joined a encoded exp mac ∙ cc (ea, em));
        is_path = dp;
        is_expiry = pe;
        fresh = fr;
      }
  parts_sound secret token now subject path [] d h = absurd (ground (arith, h))
  parts_sound secret token now subject path (a ∷ []) d h = absurd (ground (arith, h))
  parts_sound secret token now subject path (a ∷ b ∷ []) d h = absurd (ground (arith, h))
  parts_sound secret token now subject path (a ∷ b ∷ c ∷ []) d h = absurd (ground (arith, h))
  parts_sound secret token now subject path (a ∷ b ∷ c ∷ e ∷ f ∷ l) d h = absurd (ground (arith, h))

  -- What ValidateToken accepts spells a message with its MAC under the secret; the message names
  -- the subject and the path that are returned, and an expiry that is not over.
  pub validate_token_sound :
      (secret token : Bytes) (now : ℤ) (subject path : Bytes)
      → validate_token hmac secret token now ≡ inr (subject, path)
      → IsSigned secret token now subject path
  unfolding validate_token
  validate_token_sound secret token now subject path h =
      elim (Option-cases (decode_base64 false token)) [
        | inl n ↦ absurd (ground (arith, n, h))
        | inr (raw, d) ↦
            parts_sound secret token now subject path (split_n b':' 3 raw)
              (d ∙ ap some (sym (join-split_n b':' 3 raw))) (rw (validate_token, d) at h)
      ]
