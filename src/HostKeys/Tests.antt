-- ===== src/HostKeys/Tests.antt =====
-- Runs of the host key check and of the rewriting of known_hosts.
use goblin_ftp.Base.{
  ◌≡◌, refl, ◌++◌, [], ◌∷◌, Bytes, bytes_has_eq, ◌==◌, codes, none, ◌⊎◌, inr, if◌then◌else◌,
}
use goblin_ftp.Base.Sets.{member}
use goblin_ftp.Text.{split, join, contains, contains_any, has_prefix}
use goblin_ftp.Errors.Chain.{GoError, leaf, other}
use goblin_ftp.HostKeys.{
  Ssh, Disk, trusted, key_error, accepted, host_key_callback, on_pins, load_known_hosts,
  same_algorithm, has_consent, after_write, append_known_host, reverify_pin,
}
use goblin_ftp.HostKeys.Repin.{
  Hashing, lines, fields, without, rewrite_plain, rewrite_fields, rewrite_lines, replace_lines,
}
use goblin_ftp.HostKeys.Consent.{Trusts, IsPinned, host_key_callback_sound, host_key_callback_keeps}

abbrev no_hashes : Hashing
no_hashes = record { decode = λ s. none; hmac_sha1 = λ key s. [] }

-- One of two hosts gets a new key, a comment and an indented line stay.
repinned :
    replace_lines no_hashes
      (codes "# pins\na,b ssh x\n\n")
      (codes "a")
      (codes "a" ∷ [])
      (codes "a ssh y")
    ≡ inr (codes "# pins\nb ssh x\na ssh y\n")
unfolding replace_lines rewrite_lines rewrite_fields rewrite_plain without lines fields split join
    member contains contains_any has_prefix
repinned = refl

-- Keys are texts; any content of the file that is not empty trusts every key.
abbrev small : Ssh Bytes
small = record {
  parse = λ file. inr (λ key. if file == [] then key_error [] else trusted);
  key_type = λ key. codes "ssh";
  fingerprint = λ key. key;
  line = λ host key. host ++ key;
  normalize = λ addr. addr;
  hashing = no_hashes;
}

abbrev disk : Disk
disk = record { opening = none; reopening = none; append = none; read = none; write = none }

abbrev unverified : GoError
unverified = leaf other (codes "knownhosts: key is unknown")

confirmed :
    (host_key_callback small disk unverified []
      (codes "h:22")
      (codes "1.2.3.4:22")
      (codes "k")
      (codes "k")).1
    ≡ accepted
unfolding host_key_callback on_pins load_known_hosts same_algorithm has_consent after_write
    append_known_host reverify_pin
confirmed = refl

host_key_callback_sound_example :
    ((host_key_callback small disk unverified []
          (codes "h:22")
          (codes "1.2.3.4:22")
          (codes "k")
          (codes "k")).0
        ≡ [])
      × Trusts small disk unverified none [] (codes "k")
    ⊎ IsPinned small disk unverified (codes "k") (codes "k") (
        host_key_callback small disk unverified []
          (codes "h:22")
          (codes "1.2.3.4:22")
          (codes "k")
          (codes "k"))
host_key_callback_sound_example =
    host_key_callback_sound small disk unverified [] (codes "h:22") (codes "1.2.3.4:22") (codes "k")
      (codes "k") confirmed

host_key_callback_keeps_example :
    (host_key_callback small disk unverified []
      (codes "h:22")
      (codes "1.2.3.4:22")
      []
      (codes "k")).0
    ≡ []
host_key_callback_keeps_example =
    host_key_callback_keeps small disk unverified [] (codes "h:22") (codes "1.2.3.4:22") []
      (codes "k") (cc)
