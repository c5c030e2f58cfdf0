-- ===== src/HostKeys.antt =====
-- backend/internal/sftp/knownhosts.go: the check of a server's host key against known_hosts, trust on
-- first use, and pinning. The state is the content of the file. Parsing and matching of known_hosts,
-- fingerprints and keys are of golang.org/x/crypto/ssh: arguments (Ssh). What the file system says is
-- an argument (Disk). The mutex makes the callback one step. The reading of the file when the callback
-- is built is left out.
pub mod Repin
pub mod Consent
mod Tests
use goblin_ftp.Base.{
  ℕ, Bool, true, false, not, ◌&&◌, ◌||◌, List, [], ◌∷◌, ◌++◌, Bytes, codes, bytes_has_eq, ◌==◌,
  if◌then◌else◌, Option, none, some, ◌⊎◌, inl, inr,
}
use goblin_ftp.Errors.Chain.{Sentinel, GoError, other, pair}
use goblin_ftp.HostKeys.Repin.{Hashing, replace_lines}

-- What knownhosts says of a key: nil, a RevokedError, a KeyError with the pinned keys, another error.
pub data Verdict (K : Type 0) : Type 0 where
  trusted revoked_key : Verdict K
  key_error : (want : List K) → Verdict K
  malformed : GoError → Verdict K

-- `parse` is knownhosts.New of the file's content, and the check that it gives for the host of the
-- dial; `remote` is the text of the address that was dialled.
pub record Ssh (K : Type 0) : Type 0 where
  pub parse : Bytes → GoError ⊎ (K → Verdict K)
  pub key_type : K → Bytes
  pub fingerprint : K → Bytes
  pub line : Bytes → K → Bytes
  pub normalize : Bytes → Bytes
  pub hashing : Hashing

-- Errors of MkdirAll or OpenFile before the first and the second reading, of the append, with what
-- it leaves behind the content, of ReadFile, and of writeFileAtomic, which leaves the file.
pub record Disk : Type 0 where
  pub opening : Option GoError
  pub reopening : Option GoError
  pub append : Option (GoError × Bytes)
  pub read : Option GoError
  pub write : Option GoError

pub record Prompt : Type 0 where
  pub fingerprint : Bytes
  pub key_type : Bytes
  pub changed : Bool
  pub old_fingerprint : Bytes

-- How the callback ends: nil, errHostKeyHalt with what it noted for Dial, or the error of verify.
pub data Outcome : Type 0 where
  accepted : Outcome
  asks : Prompt → Outcome
  halts_revoked : Outcome
  halts_unwritten : GoError → Outcome
  rejects : GoError → Outcome

module _ {K : Type 0} (ssh : Ssh K) where
  unfoldable pub load_known_hosts : Option GoError → Bytes → GoError ⊎ (K → Verdict K)
  load_known_hosts none file = ssh.parse file
  load_known_hosts (some err) file = inl err

  unfoldable pub same_algorithm : List K → Bytes → List K
  same_algorithm [] t = []
  same_algorithm (k ∷ want) t =
      let rest = same_algorithm want t in if ssh.key_type k == t then k ∷ rest else rest

  unfoldable pub append_known_host : Disk → Bytes → Bytes → K → Bytes × Option GoError
  append_known_host disk file addr key = elim disk.append [
    | none ↦ (file ++ ssh.line (ssh.normalize addr) key ++ (b'\n' ∷ []), none)
    | some failure ↦ (file ++ failure.1, some failure.0)
  ]

  unfoldable pub replace_known_host : Disk → Bytes → Bytes → Bytes → K → Bytes × Option GoError
  replace_known_host disk file addr remote key =
      let norm = ssh.normalize addr in
      let replaced =
        replace_lines ssh.hashing file norm (norm ∷ ssh.normalize remote ∷ [])
          (ssh.line norm key) in
      elim disk.read [
        | some err ↦ (file, some err)
        | none ↦ elim replaced [
          | inl err ↦ (file, some err)
          | inr content ↦ elim disk.write [ some err ↦ (file, some err) | none ↦ (content, none) ]
        ]
      ]

  -- Whatever the check of the file as it stands now says but nil is noted as a failed write.
  abbrev pub verdict_error : GoError → Verdict K → Option GoError
  verdict_error unverified trusted = none
  verdict_error unverified revoked_key = some unverified
  verdict_error unverified (key_error want) = some unverified
  verdict_error unverified (malformed err) = some err

  -- `unverified` stands for the errors that verify returns of a key.
  unfoldable pub reverify_pin : Disk → GoError → Bytes → K → Outcome
  reverify_pin disk unverified file key = elim (load_known_hosts disk.reopening file) [
    | inl err ↦ halts_unwritten err
    | inr verify ↦ elim (verdict_error unverified (verify key)) [
      | none ↦ accepted
      | some err ↦ halts_unwritten err
    ]
  ]

  unfoldable pub after_write : Disk → GoError → K → Bytes × Option GoError → Bytes × Outcome
  after_write disk unverified key (file, none) = (file, reverify_pin disk unverified file key)
  after_write disk unverified key (file, some err) = (file, halts_unwritten err)

  -- acceptFingerprint != "" && acceptFingerprint == fp
  unfoldable pub has_consent : Bytes → K → Bool
  has_consent accept key = not (accept == []) && accept == ssh.fingerprint key

  abbrev pub changed_prompt : K → K → Prompt
  changed_prompt key old = record {
    fingerprint = ssh.fingerprint key;
    key_type = ssh.key_type key;
    changed = true;
    old_fingerprint = ssh.fingerprint old;
  }

  abbrev pub first_prompt : K → Prompt
  first_prompt key = record {
    fingerprint = ssh.fingerprint key;
    key_type = ssh.key_type key;
    changed = false;
    old_fingerprint = [];
  }

  -- With the pinned keys of the same algorithm: none for a host that is unknown.
  unfoldable pub on_pins :
      Disk → GoError → Bytes → Bytes → Bytes → Bytes → K → List K → Bytes × Outcome
  on_pins disk unverified file addr remote accept key (old ∷ more) =
      if has_consent accept key
      then after_write disk unverified key (replace_known_host disk file addr remote key)
      else (file, asks (changed_prompt key old))
  on_pins disk unverified file addr remote accept key [] =
      if has_consent accept key
      then after_write disk unverified key (append_known_host disk file addr key)
      else (file, asks (first_prompt key))

  -- The callback, on the content of the file.
  unfoldable pub host_key_callback :
      Disk → GoError → Bytes → Bytes → Bytes → Bytes → K → Bytes × Outcome
  host_key_callback disk unverified file addr remote accept key =
      elim (load_known_hosts disk.opening file) [
        | inl err ↦ (file, halts_unwritten err)
        | inr verify ↦ elim (verify key) [
          | trusted ↦ (file, accepted)
          | revoked_key ↦ (file, halts_revoked)
          | malformed err ↦ (file, rejects err)
          | key_error want ↦
              on_pins disk unverified file addr remote accept key
                (same_algorithm want (ssh.key_type key))
        ]
      ]
