-- ===== src/HostKeys/Consent.antt =====
-- A server is trusted, and known_hosts written, only on what the file says or the user confirmed, in
-- backend/internal/sftp/knownhosts.go.
use goblin_ftp.Base.{
  ◌≡◌, ◌≢◌, refl, Bool, true, false, [], ◌∷◌, Bytes, bytes_has_eq, bytes_eq_iff, Option, none, some,
  ◌⊎◌, inl, inr, arith, Bool-cases, Option-cases, Sum-cases, List,
}
use goblin_ftp.Errors.Chain.{GoError}
use goblin_ftp.HostKeys.{
  Verdict, trusted, revoked_key, key_error, malformed, Ssh, Disk, Outcome, accepted,
  load_known_hosts, verdict_error, reverify_pin, after_write, has_consent, on_pins,
  host_key_callback,
}

module _ {K : Type 0} (ssh : Ssh K) (disk : Disk) (unverified : GoError) where
  -- The file can be read, and it trusts the key.
  abbrev pub Trusts : Option GoError → Bytes → K → Type 0
  Trusts opened file key =
      (verify : K → Verdict K) × (load_known_hosts ssh opened file ≡ inr verify)
      × (verify key ≡ trusted)

  verdict_error-trusted : (v : Verdict K) → verdict_error ssh unverified v ≡ none → v ≡ trusted
  verdict_error-trusted trusted h = refl
  verdict_error-trusted revoked_key h = absurd (cc)
  verdict_error-trusted (key_error want) h = absurd (cc)
  verdict_error-trusted (malformed err) h = absurd (cc)

  reverify_pin_sound :
      (file : Bytes) (key : K)
      → reverify_pin ssh disk unverified file key ≡ accepted
      → Trusts disk.reopening file key
  unfolding reverify_pin
  reverify_pin_sound file key h = elim (Sum-cases (load_known_hosts ssh disk.reopening file)) [
    | inl (err, e) ↦ absurd (ground (arith, h, e))
    | inr (verify, e) ↦ elim (Option-cases (verdict_error ssh unverified (verify key))) [
      | inl f ↦ (verify, e, verdict_error-trusted (verify key) f)
      | inr (err, f) ↦ absurd (ground (arith, h, e, f))
    ]
  ]

  after_write_sound :
      (key : K) (r : Bytes × Option GoError)
      → (after_write ssh disk unverified key r).1 ≡ accepted
      → Trusts disk.reopening (after_write ssh disk unverified key r).0 key
  unfolding after_write
  after_write_sound key (file, none) h = reverify_pin_sound file key h
  after_write_sound key (file, some err) h = absurd (cc)

  -- The user has confirmed the key, and the file trusts it as it stands after the call.
  pub record IsPinned (accept : Bytes) (key : K) (r : Bytes × Outcome) : Type 0 where
    pub given : accept ≢ []
    pub same : accept ≡ ssh.fingerprint key
    pub pinned : Trusts disk.reopening r.0 key

  has_consent_sound :
      (accept : Bytes) (key : K)
      → has_consent ssh accept key ≡ true
      → (accept ≢ []) × (accept ≡ ssh.fingerprint key)
  unfolding has_consent
  has_consent_sound accept key h = (
    λ e. ground (arith, bytes_eq_iff accept [], e, h),
    ground (arith, bytes_eq_iff accept (ssh.fingerprint key), h),
  )

  confirmed :
      (accept : Bytes) (key : K) (r : Bytes × Outcome)
      → has_consent ssh accept key ≡ true
      → Trusts disk.reopening r.0 key
      → IsPinned accept key r
  confirmed accept key r t h =
      let (given, same) = has_consent_sound accept key t in
      record { given = given; same = same; pinned = h }

  on_pins_sound :
      (file addr remote accept : Bytes) (key : K) (same : List K)
      → (on_pins ssh disk unverified file addr remote accept key same).1 ≡ accepted
      → IsPinned accept key (on_pins ssh disk unverified file addr remote accept key same)
  unfolding on_pins
  on_pins_sound file addr remote accept key [] h = elim (Bool-cases (has_consent ssh accept key)) [
    | inl t ↦ confirmed accept key _ t (rw (t) (after_write_sound key _ (rw (t) at h)))
    | inr f ↦ absurd (ground (arith, f, h))
  ]
  on_pins_sound file addr remote accept key (old ∷ more) h =
      elim (Bool-cases (has_consent ssh accept key)) [
        | inl t ↦ confirmed accept key _ t (rw (t) (after_write_sound key _ (rw (t) at h)))
        | inr f ↦ absurd (ground (arith, f, h))
      ]

  -- A handshake goes on only where the file was left as it was and trusts the server's key, or where
  -- the user has sent the fingerprint of that very key and the file, as it stands afterwards, trusts
  -- it.
  pub host_key_callback_sound :
      (file addr remote accept : Bytes) (key : K)
      → (host_key_callback ssh disk unverified file addr remote accept key).1 ≡ accepted
      → ((host_key_callback ssh disk unverified file addr remote accept key).0 ≡ file)
          × Trusts disk.opening file key
        ⊎ IsPinned accept key (host_key_callback ssh disk unverified file addr remote accept key)
  unfolding host_key_callback
  host_key_callback_sound file addr remote accept key h =
      elim (Sum-cases (load_known_hosts ssh disk.opening file)) [
        | inl (err, e) ↦ absurd (ground (arith, h, e))
        | inr (verify, e) ↦ elim (Verdict-cases (verify key)) [
          | inl v ↦ inl (rw (host_key_callback, e, v) (refl, (verify, refl, v)))
          | inr (inl v) ↦ absurd (ground (arith, h, e, v))
          | inr (inr (inl (want, v))) ↦ inr (
              rw (host_key_callback, e, v)
                (on_pins_sound file addr remote accept key _ (rw (host_key_callback, e, v) at h)))
          | inr (inr (inr (err, v))) ↦ absurd (ground (arith, h, e, v))
        ]
      ]
    where
      Verdict-cases :
          (v : Verdict K)
          → (v ≡ trusted)
            ⊎ ((v ≡ revoked_key)
                ⊎ (((want : List K) × (v ≡ key_error want))
                    ⊎ ((err : GoError) × (v ≡ malformed err))))
      Verdict-cases trusted = inl refl
      Verdict-cases revoked_key = inr (inl refl)
      Verdict-cases (key_error want) = inr (inr (inl (want, refl)))
      Verdict-cases (malformed err) = inr (inr (inr (err, refl)))

  -- Where the user has not sent the fingerprint of the server's key, the file stays as it is, whatever
  -- becomes of the handshake.
  pub host_key_callback_keeps :
      (file addr remote accept : Bytes) (key : K)
      → accept ≢ ssh.fingerprint key
      → (host_key_callback ssh disk unverified file addr remote accept key).0 ≡ file
  unfolding host_key_callback on_pins
  host_key_callback_keeps file addr remote accept key h =
      let denied : has_consent ssh accept key ≡ false =
        Bool-elim (has_consent ssh accept key) (λ t. h (has_consent_sound accept key t).1) in
      ground (arith, denied)
    where
      Bool-elim : (b : Bool) → (b ≡ true → ⊥) → b ≡ false
      Bool-elim true k = absurd (k refl)
      Bool-elim false k = refl
