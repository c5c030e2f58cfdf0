-- ===== src/Downloads/Links.antt =====
-- Which downloads of backend/internal/api/download.go begin, and what the browser learns of one that
-- fails.
use goblin_ftp.Base.{
  ℕ, ◌<◌, ◌≤◌, subst, ◌≡◌, ◌∙◌, refl, ap, sym, Bool, false, not, ◌&&◌, ◌||◌, [], Bytes,
  bytes_has_eq, bytes_eq_iff, ◌==◌, some, ◌⊎◌, inl, inr, arith, All, Bool-cases, Option-cases,
  Sum-cases,
}
use goblin_ftp.Base.Ints.{ℤ, gtb}
use goblin_ftp.Base.Map.{lookup}
use goblin_ftp.Text.Base64.{IsByte, decode_base64, read_letters, join_letters}
use goblin_ftp.Text.Cut.{split_n, cut}
use goblin_ftp.Text.Split.{NoByte}
use goblin_ftp.Text.Decimal.{InRange}
use goblin_ftp.Errors.{Code}
use goblin_ftp.Remote.{Reader, Client}
use goblin_ftp.Auth.Session
use goblin_ftp.Auth.Session.{Session}
use goblin_ftp.Auth.Store
use goblin_ftp.Auth.Store.{Store, live_at}
use goblin_ftp.Sso.Status.{as_client, client_key}
use goblin_ftp.Tokens.{issue_token, validate_token, check_parts}
use goblin_ftp.Tokens.Download.{IsSigned, validate_token_sound, validate_token-issue_token}
use goblin_ftp.Downloads.Lengths.{SaysLength, known_length-SaysLength}
use goblin_ftp.Downloads.{
  Stream, is_known, stat_refusal, issue_download_token, open_link, stream_file, download_file,
}

module _ (hmac : Bytes → Bytes → Bytes) (secret : Bytes) where
  -- A signed link, that has not expired, of a session that is live and connected.
  pub record IsLink (s : Store) (token : Bytes) (now : ℤ) (get_now p at : ℕ) (path : Bytes)
      : Type 0 where
    pub key : Bytes
    pub signed : IsSigned hmac secret token now key path
    pub stored : lookup key s.by_download_key ≡ some p
    pub live : get_now ≤ (s.objects p).expires_at
    pub connected : as_client (Session.get (s.objects p) client_key) ≡ some at

  by_key :
      (s : Store) (key : Bytes) (now p : ℕ)
      → Store.get_by_download_key s key now ≡ some p
      → (lookup key s.by_download_key ≡ some p) × (now ≤ (s.objects p).expires_at)
  unfolding Store.get_by_download_key
  by_key s key now p h = elim (Option-cases (lookup key s.by_download_key)) [
    | inl e ↦ absurd (ground (arith, h, e))
    | inr (q, e) ↦ found q e (rw (Store.get_by_download_key, e) at h)
  ]
    where
      found :
          (q : ℕ)
          → lookup key s.by_download_key ≡ some q
          → live_at s now (some q) ≡ some p
          → (lookup key s.by_download_key ≡ some p) × (now ≤ (s.objects p).expires_at)
      found q e k =
          let same : q ≡ p = ground (arith, k) in
          let fresh : now ≤ (s.objects q).expires_at = ground (arith, k) in
          (e ∙ ap some same, subst (λ x. now ≤ (s.objects x).expires_at) same fresh)

  open_link_sound :
      (s : Store) (token : Bytes) (now : ℤ) (get_now : ℕ) (link : ℕ × (ℕ × Bytes))
      → open_link hmac secret s token now get_now ≡ inr link
      → IsLink s token now get_now link.0 link.1.0 link.1.1
  unfolding open_link
  open_link_sound s token now get_now (p, (at, path)) h = elim (Bool-cases (token == [])) [
    | inl t ↦ absurd (ground (arith, t, h))
    | inr f ↦ elim (Sum-cases (validate_token hmac secret token now)) [
      | inl (err, e) ↦ absurd (ground (arith, f, e, h))
      | inr ((key, q), e) ↦ elim (Option-cases (Store.get_by_download_key s key get_now)) [
        | inl g ↦ absurd (ground (arith, f, e, g, h))
        | inr (r, g) ↦ elim (Option-cases (as_client (Session.get (s.objects r) client_key))) [
          | inl k ↦ absurd (ground (arith, f, e, g, k, h))
          | inr (c, k) ↦
              let (same_p, same_at, same_path) = parts refl (rw (open_link, f, e, g, k) at h) in
              record {
                key = key;
                signed =
                    validate_token_sound hmac secret token now key path
                      (e ∙ ap (λ x. inr (key, x)) same_path);
                stored = (by_key s key get_now p (g ∙ ap some same_p)).0;
                live = (by_key s key get_now p (g ∙ ap some same_p)).1;
                connected =
                    ap (λ x. as_client (Session.get (s.objects x) client_key)) (sym same_p)
                    ∙ k
                    ∙ ap some same_at;
              }
        ]
      ]
    ]
  ]
    where
      parts :
          {a c b d : ℕ} {x y : Bytes} {o : Code ⊎ (ℕ × (ℕ × Bytes))}
          → o ≡ inr (a, (b, x))
          → o ≡ inr (c, (d, y))
          → (a ≡ c) × (b ≡ d) × (x ≡ y)
      parts e f = (cc, cc, cc)

  not_empty :
      (subject path : Bytes) (expiry now : ℤ)
      → validate_token hmac secret (issue_token hmac secret subject path expiry) now
        ≡ inr (subject, path)
      → issue_token hmac secret subject path expiry == [] ≡ false
  unfolding validate_token decode_base64 read_letters join_letters split_n cut check_parts
  not_empty subject path expiry now h =
      let token = issue_token hmac secret subject path expiry in
      elim (Bool-cases (token == [])) [
        | inr f ↦ f
        | inl t ↦ absurd (
            no_part
              (sym (ap (λ x. validate_token hmac secret x now) ((bytes_eq_iff token []).0 t)) ∙ h))
      ]
    where
      no_part : validate_token hmac secret [] now ≡ inr (subject, path) → ⊥
      no_part e = cc

  -- The link that a session is given for a path, whose download key has no colon, of bytes, with an
  -- expiry of 64 bits and a MAC of bytes, leads back to that session, its client and that path, until
  -- it has expired, as long as the session is live and connected.
  pub open_link-issue_download_token :
      ((key s : Bytes) → All (λ b. b < 256) (hmac key s))
      → (s : Store) (p at : ℕ) (path token : Bytes) (expiry now : ℤ) (get_now : ℕ)
      → All IsByte (s.objects p).download_key
      → NoByte b':' (s.objects p).download_key
      → All IsByte path
      → InRange expiry
      → gtb now expiry ≡ false
      → Store.get_by_download_key s (s.objects p).download_key get_now ≡ some p
      → as_client (Session.get (s.objects p) client_key) ≡ some at
      → issue_download_token hmac secret (s.objects p) path expiry ≡ inr token
      → open_link hmac secret s token now get_now ≡ inr (p, (at, path))
  unfolding open_link issue_download_token
  open_link-issue_download_token macs s p at path token expiry now get_now hk hc hp he hn live conn
        h =
      let key = (s.objects p).download_key in
      let valid = validate_token-issue_token hmac macs secret key path expiry now hk hp hc he hn in
      let same : issue_token hmac secret key path expiry ≡ token = elim (Bool-cases (path == [])) [
        | inl t ↦ absurd (ground (arith, t, h))
        | inr f ↦ issued refl (rw (issue_download_token, f) at h)
      ] in
      ap (λ t. open_link hmac secret s t now get_now) (sym same)
      ∙ rw (open_link, not_empty key path expiry now valid, valid, live, conn) refl
    where
      issued : {x y : Bytes} {o : Code ⊎ Bytes} → o ≡ inr x → o ≡ inr y → x ≡ y
      issued e f = cc

  module _ {R : Type 0} (client : ℕ → Client R) (to_lower : Bytes → Bytes) where
    -- A response that fails exactly where reading, writing or closing did, and breaks the connection
    -- where it fails without a length that the browser could check.
    pub record IsHonest (r : R) (at : ℕ) (path : Bytes) (unwritten : Bool) (stream : Stream)
        : Type 0 where
      pub reader : Reader
      pub opened : ((client at).download ((client at).stat r path).0 path).1 ≡ inr reader
      pub content : stream.content ≡ reader.content
      pub says : SaysLength ((client at).stat r path).1 stream.content_length
      pub failed : stream.failed ≡ (reader.read_failed || unwritten || reader.close_failed)
      pub aborts : stream.aborts ≡ (stream.failed && not (is_known stream.content_length))

    stream_file_sound :
        (r : R) (sess : Session) (at : ℕ) (path : Bytes) (unwritten : Bool) (stream : Stream)
        → (stream_file client to_lower r sess at path unwritten).1 ≡ inr stream
        → IsHonest r at path unwritten stream
    unfolding stream_file
    stream_file_sound r sess at path unwritten stream h =
        let stat = (client at).stat r path in
        let fetched = (client at).download stat.0 path in
        elim (Option-cases (stat_refusal stat.1)) [
          | inr (refusal, e) ↦ absurd (ground (arith, e, h))
          | inl e ↦ elim (Sum-cases fetched.1) [
            | inl (err, f) ↦ absurd (ground (arith, e, f, h))
            | inr (reader, f) ↦
                let same = answer refl (rw (stream_file, e, f) at h) in
                record {
                  reader = reader;
                  opened = f;
                  content = ap (λ x. x.content) (sym same);
                  says =
                      subst (λ x. SaysLength stat.1 x.content_length) same
                        (known_length-SaysLength stat.1 e);
                  failed = ap (λ x. x.failed) (sym same);
                  aborts =
                      ap (λ x. x.aborts) (sym same)
                      ∙ ap (λ x. x.failed && not (is_known x.content_length)) same;
                }
          ]
        ]
      where
        answer : {x y : Stream} {o : Code ⊎ Stream} → o ≡ inr x → o ≡ inr y → x ≡ y
        answer e f = cc

    -- A download that begins belongs to a link that was signed and has not expired, whose session is
    -- live and connected; it is what that session's client gives for the path of the link, after a
    -- Stat; the browser is told the length exactly where the Stat finds a file of positive size; the
    -- download fails exactly where reading, writing or closing did, and then breaks the connection
    -- unless the browser was told the length.
    pub download_file_sound :
        (r : R) (s : Store) (token : Bytes) (now : ℤ) (get_now : ℕ) (unwritten : Bool)
        (stream : Stream)
        → (download_file client to_lower hmac secret r s token now get_now unwritten).1 ≡ inr stream
        → (link : ℕ × (ℕ × Bytes)) × IsLink s token now get_now link.0 link.1.0 link.1.1
          × IsHonest r link.1.0 link.1.1 unwritten stream
    unfolding download_file
    download_file_sound r s token now get_now unwritten stream h =
        elim (Sum-cases (open_link hmac secret s token now get_now)) [
          | inl (code, e) ↦ absurd (ground (arith, e, h))
          | inr (link, e) ↦ (
            link,
            open_link_sound s token now get_now link e,
            stream_file_sound r (s.objects link.0) link.1.0 link.1.1 unwritten stream
                (rw (download_file, e) at h),
          )
        ]
