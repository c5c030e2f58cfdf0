-- ===== src/Archive/Preflight.antt =====
-- backend/internal/api/zip_preflight.go: preflightZip, which reads the directory of a ZIP file before
-- archive/zip does. The file is its bytes; ReadAt fails where it reaches behind them. No sum here
-- passes 64 bits: each term is at most the size of the file or the maximum of the metadata.
pub mod Records
mod Tests
use goblin_ftp.Base.{
  ℕ, zero, suc, ◌+◌, ◌-◌, ◌*◌, Bool, true, false, not, ◌&&◌, ◌||◌, List, [], ◌∷◌, Bytes,
  bytes_has_eq, ◌==◌, ltb, leb, nat_eq, if◌then◌else◌, Option, none, some, length,
}
use goblin_ftp.Text.Slice.{take, drop}

abbrev pub max_entries : ℕ
max_entries = 10000

abbrev pub max_metadata : ℕ
max_metadata = 4194304

-- The numbers of encoding/binary, little endian, at the start of a slice.
unfoldable pub uint16 : Bytes → ℕ
uint16 (a ∷ b ∷ s) = a + 256 * b
uint16 (a ∷ []) = a
uint16 [] = 0

unfoldable pub uint32 : Bytes → ℕ
uint32 s = uint16 s + 65536 * uint16 (drop 2 s)

unfoldable pub uint64 : Bytes → ℕ
uint64 s = uint32 s + 4294967296 * uint32 (drop 4 s)

-- ReadAt of `n` bytes at `off`.
unfoldable pub read_at : Bytes → ℕ → ℕ → Option Bytes
read_at file n off = if leb (off + n) (length file) then some (take n (drop off file)) else none

-- Whether the end of the central directory starts here, with a comment that fills the tail.
unfoldable pub is_end : Bytes → ℕ → Bool
is_end tail i =
    nat_eq (uint32 (drop i tail)) 0x06054b50
    && nat_eq (i + 22 + uint16 (drop (i + 20) tail)) (length tail)

-- The last place below `i` where it does.
unfoldable pub find_end : Bytes → ℕ → Option ℕ
find_end tail zero = none
find_end tail (suc i) = let rest = find_end tail i in if is_end tail i then some i else rest

-- The directory: how many records it has, and where its bytes stand. `stop` is `end`.
pub record Directory : Type 0 where
  pub count : ℕ
  pub bytes : ℕ
  pub start : ℕ
  pub stop : ℕ

unfoldable pub is_locator : Bytes → Bool
is_locator locator =
    nat_eq (uint32 locator) 0x07064b50
    && nat_eq (uint32 (drop 4 locator)) 0
    && nat_eq (uint32 (drop 16 locator)) 1

unfoldable pub is_end64 : Bytes → ℕ → ℕ → Bool
is_end64 z offset stop =
    let size = uint64 (drop 4 z) in
    nat_eq (uint32 z) 0x06064b50
    && leb 44 size
    && leb size max_metadata
    && nat_eq (offset + 12 + size) (stop - 20)
    && nat_eq (uint32 (drop 16 z)) 0
    && nat_eq (uint32 (drop 20 z)) 0
    && nat_eq (uint64 (drop 32 z)) (uint64 (drop 24 z))

-- The record of ZIP64 that the locator before `stop` points at.
unfoldable pub directory64 : Bytes → ℕ → Option Directory
directory64 file stop = if ltb stop 20 then none else elim (read_at file 20 (stop - 20)) [
  | none ↦ none
  | some locator ↦
      let offset = uint64 (drop 8 locator) in
      if not (is_locator locator)
      then none
      else if ltb (stop - 20) offset || ltb (stop - 20 - offset) 56
      then none
      else elim (read_at file 56 offset) [
        | none ↦ none
        | some z ↦
            if not (is_end64 z offset stop)
            then none
            else some (record {
              count = uint64 (drop 32 z);
              bytes = uint64 (drop 40 z);
              start = uint64 (drop 48 z);
              stop = offset;
            })
      ]
]

-- The directory that the record `e`, at `stop`, describes.
unfoldable pub directory_of : Bytes → Bytes → ℕ → Option Directory
directory_of file e stop =
    let count = uint16 (drop 10 e) in
    let bytes = uint32 (drop 12 e) in
    let start = uint32 (drop 16 e) in
    if not (
      nat_eq (uint16 (drop 4 e)) 0
      && nat_eq (uint16 (drop 6 e)) 0
      && nat_eq (uint16 (drop 8 e)) count)
    then none
    else if nat_eq count 65535 || nat_eq bytes 0xffffffff || nat_eq start 0xffffffff
    then directory64 file stop
    else some (record { count = count; bytes = bytes; start = start; stop = stop })

abbrev pub max_tail : ℕ
max_tail = 65557

unfoldable pub find_directory : Bytes → ℕ → Option Directory
find_directory file size =
    let tail_size = if ltb size max_tail then size else max_tail in
    if ltb size 22 then none else elim (read_at file tail_size (size - tail_size)) [
      | none ↦ none
      | some tail ↦ elim (find_end tail (length tail - 21)) [
        | none ↦ none
        | some off ↦ directory_of file (drop off tail) (size - tail_size + off)
      ]
    ]

-- The lengths of the name, the extra field and the comment behind a header.
unfoldable pub extra_length : Bytes → ℕ
extra_length header = uint16 (drop 28 header) + uint16 (drop 30 header) + uint16 (drop 32 header)

unfoldable pub is_header : Bytes → Bool
is_header header = nat_eq (uint32 header) 0x02014b50 && nat_eq (uint16 (drop 34 header)) 0

-- The loop over the records: it reads `count` of them, which are all that there is.
unfoldable pub walk : ℕ → Bytes → Bool
walk zero section = section == []
walk (suc count) section =
    let header = take 46 section in
    let behind = drop 46 section in
    let extra = extra_length header in
    let rest = walk count (drop extra behind) in
    not (ltb (length section) 46) && is_header header && leb extra (length behind) && rest

unfoldable pub has_bounds : Directory → Bool
has_bounds d =
    leb d.count max_entries
    && leb d.bytes max_metadata
    && leb d.start d.stop
    && nat_eq d.bytes (d.stop - d.start)

unfoldable pub preflight_zip : Bytes → ℕ → Bool
preflight_zip file size = elim (find_directory file size) [
  | none ↦ false
  | some d ↦ has_bounds d && walk d.count (take d.bytes (drop d.start file))
]
