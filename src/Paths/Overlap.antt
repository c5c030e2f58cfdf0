-- ===== src/Paths/Overlap.antt =====
-- PathsOverlap is the prefix order on the segments of the two paths.
use goblin_ftp.Base.{◌≡◌, Bool, Bytes, bytes_has_eq, if◌then◌else◌, map}
use goblin_ftp.Text.{slash, dotdot, split, is_abs}

-- What the program relies on in strings.ToLower: it changes letters only, so it takes no part in
-- the structure of a path.
pub record LowersLetters (to_lower : Bytes → Bytes) : Type 0 where
  pub absolute : (p : Bytes) → is_abs (to_lower p) ≡ is_abs p
  pub parts : (p : Bytes) → split slash (to_lower p) ≡ map to_lower (split slash p)
  pub not_dots : (s : Bytes) → to_lower s ≡ dotdot → s ≡ dotdot

module _ (to_lower : Bytes → Bytes) (law : LowersLetters to_lower) where
  -- How the server compares names: without case on Windows.
  abbrev pub folded : Bool → Bytes → Bytes
  folded windows p = if windows then to_lower p else p
