-- ===== src/HostKeys/Repin.antt =====
-- backend/internal/sftp/knownhosts.go: how replaceKnownHostLocked rewrites known_hosts, a text of ASCII
-- bytes. base64.StdEncoding and HMAC-SHA1 are arguments.
use goblin_ftp.Base.{
  ℕ, Bool, false, not, ◌&&◌, ◌||◌, List, [], ◌∷◌, ◌++◌, Bytes, codes, bytes_has_eq, ◌==◌, nat_eq,
  leb, if◌then◌else◌, Option, none, some, ◌⊎◌, inl, inr,
}
use goblin_ftp.Base.Sets.{member}
use goblin_ftp.Text.{split, join, contains_any, has_prefix}
use goblin_ftp.Errors.Chain.{Sentinel, GoError, other, wrap, sentinel, sentinel_text}

pub record Hashing : Type 0 where
  pub decode : Bytes → Option Bytes
  pub hmac_sha1 : Bytes → Bytes → Bytes

-- strings.Lines, each line without its newline: a last line that is empty is none.
unfoldable pub lines : Bytes → List Bytes
lines [] = []
lines (c ∷ s) =
    let rest = lines s in
    if nat_eq c b'\n' then [] ∷ rest else elim s [
      | [] ↦ (c ∷ []) ∷ []
      | d ∷ t ↦ elim rest [ [] ↦ (c ∷ []) ∷ [] | l ∷ ls ↦ (c ∷ l) ∷ ls ]
    ]

abbrev pub is_space : ℕ → Bool
is_space c = nat_eq c b' ' || leb 9 c && leb c 13

-- strings.Fields
unfoldable pub fields : Bytes → List Bytes
fields [] = []
fields (c ∷ s) =
    let rest = fields s in
    if is_space c then rest else elim s [
      | [] ↦ (c ∷ []) ∷ []
      | d ∷ t ↦
          if is_space d
          then (c ∷ []) ∷ rest
          else elim rest [ [] ↦ (c ∷ []) ∷ [] | w ∷ ws ↦ (c ∷ w) ∷ ws ]
    ]

unfoldable pub matches_parts : Hashing → List Bytes → Bytes → Bool
matches_parts x (empty ∷ one ∷ salt ∷ hash ∷ []) host =
    if not (one == codes "1") then false else elim (x.decode salt) [
      | none ↦ false
      | some key ↦ elim (x.decode hash) [ none ↦ false | some want ↦ x.hmac_sha1 key host == want ]
    ]
matches_parts x parts host = false

unfoldable pub hashed_host_matches : Hashing → Bytes → Bytes → Bool
hashed_host_matches x field host = matches_parts x (split b'|' field) host

unfoldable pub any_hashed : Hashing → Bytes → List Bytes → Bool
any_hashed x field [] = false
any_hashed x field (n ∷ norms) = hashed_host_matches x field n || any_hashed x field norms

unfoldable pub marker_covers_host : List Bytes → Bytes → Bool
marker_covers_host (marker ∷ hosts ∷ more) host = member host (split b',' hosts)
marker_covers_host parts host = false

-- slices.DeleteFunc of the hosts that stand in `norms`.
unfoldable pub without : List Bytes → List Bytes → List Bytes
without norms [] = []
without norms (h ∷ hosts) =
    let rest = without norms hosts in if member h norms then rest else h ∷ rest

abbrev store_unavailable : Bytes → GoError
store_unavailable text =
    wrap other (sentinel_text Sentinel.host_key_store_unavailable ++ codes ": " ++ text) (
      sentinel Sentinel.host_key_store_unavailable other
        (sentinel_text Sentinel.host_key_store_unavailable))

abbrev pub wildcards : GoError
wildcards = store_unavailable (codes "wildcard known_hosts rules require manual re-pinning")

abbrev pub stale_marker : Bytes → GoError
stale_marker norm =
    store_unavailable (
      codes "known_hosts still carries a marker entry for "
      ++ norm
      ++ codes ", clean it up by hand")

-- What becomes of a line: it goes, or it stays as this text, counted as stale or not; or the whole
-- file is refused.
pub data Rewrite : Type 0 where
  goes : Rewrite
  stays : (stale : Bool) → Bytes → Rewrite
  refuses : Rewrite

unfoldable pub rewrite_plain : List Bytes → Bytes → List Bytes → Rewrite
rewrite_plain norms first rest = elim (without norms (split b',' first)) [
  | [] ↦ goes
  | h ∷ hosts ↦ stays false (join b' ' (join b',' (h ∷ hosts) ∷ rest))
]

unfoldable pub rewrite_fields : Hashing → Bytes → List Bytes → Bytes → List Bytes → Rewrite
rewrite_fields x norm norms line (first ∷ second ∷ third ∷ more) =
    let parts = first ∷ second ∷ third ∷ more in
    if contains_any (codes "*?!") first
    then refuses
    else if has_prefix (codes "@") first
    then stays (marker_covers_host parts norm) line
    else if has_prefix (codes "|") first
    then (if any_hashed x first norms then goes else stays false line)
    else rewrite_plain norms first (second ∷ third ∷ more)
rewrite_fields x norm norms line [] = goes
rewrite_fields x norm norms line parts = stays false line

-- The lines that stay, and whether any is stale; none where a line is refused.
unfoldable pub rewrite_lines :
    Hashing → Bytes → List Bytes → List Bytes → Option (List Bytes × Bool)
rewrite_lines x norm norms [] = some ([], false)
rewrite_lines x norm norms (line ∷ more) =
    let rest = rewrite_lines x norm norms more in
    elim (rewrite_fields x norm norms line (fields line)) [
      | refuses ↦ none
      | goes ↦ rest
      | stays stale text ↦ elim rest [
        | none ↦ none
        | some kept ↦ some (text ∷ kept.0, stale || kept.1)
      ]
    ]

-- The new content, with `pinned` as its last line.
unfoldable pub replace_lines : Hashing → Bytes → Bytes → List Bytes → Bytes → GoError ⊎ Bytes
replace_lines x file norm norms pinned = elim (rewrite_lines x norm norms (lines file)) [
  | none ↦ inl wildcards
  | some kept ↦
      if kept.1
      then inl (stale_marker norm)
      else inr (join b'\n' (kept.0 ++ (pinned ∷ [])) ++ (b'\n' ∷ []))
]
