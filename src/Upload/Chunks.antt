-- ===== src/Upload/Chunks.antt =====
-- backend/internal/transfer/upload.go: chunks on the local disk. The files of an upload's directory
-- stand under the index that their names, of four digits at least, spell. A Read is one step: its
-- buffer has `size` bytes, or fewer where the system gives fewer.
use goblin_ftp.Base.{
  ℕ, zero, suc, ◌-◌, Bool, true, false, not, ◌&&◌, List, [], ◌∷◌, ◌++◌, Bytes, nat_has_eq, leb,
  length, if◌then◌else◌, Option, none, some,
}
use goblin_ftp.Base.Map.{Map, lookup, insert}
use goblin_ftp.Staging.{validate_upload_id}
use goblin_ftp.Text.Slice.{take, drop}

-- The errors of a Read: those of os.Open, of the file's Read and of its Close, and io.EOF.
pub data ReadEnd : Type 0 where
  eof not_exist read_failure close_failure : ReadEnd

-- What becomes of the file: os.Create fails, or empties it; io.Copy or Close fails where `partial` was
-- written; or all is written.
pub data Written : Type 0 where
  not_created all_written : Written
  partly_written : (partial : Bytes) → Written

unfoldable pub write_chunk : Bytes → Map ℕ Bytes → ℕ → Bytes → Written → Map ℕ Bytes × Bool
write_chunk upload_id files index chunk outcome =
    if not (validate_upload_id upload_id) then (files, false) else (elim outcome [
      | not_created ↦ (files, false)
      | partly_written partial ↦ (insert index partial files, false)
      | all_written ↦ (insert index chunk files, true)
    ])

-- `current` is what is left of the open file.
pub record SequentialReader : Type 0 where
  pub total : ℕ
  pub index : ℕ
  pub current : Option Bytes
  pub closed : Bool

-- The chunks from `index` on, `count` of them, are all there.
unfoldable pub all_exist : Map ℕ Bytes → ℕ → ℕ → Bool
all_exist files index zero = true
all_exist files index (suc count) = elim (lookup index files) [
  | none ↦ false
  | some chunk ↦ all_exist files (suc index) count
]

unfoldable pub assemble_reader : Bytes → Map ℕ Bytes → ℕ → Option SequentialReader
assemble_reader upload_id files total =
    if validate_upload_id upload_id && all_exist files 0 total
    then some (record { total = total; index = 0; current = none; closed = false })
    else none

abbrev pub Outcome : Type 0
Outcome = SequentialReader × (Bytes × Option ReadEnd)

-- What the system does with the file of a chunk during a Read: the file's Read fails behind some bytes,
-- and its Close fails.
pub record Fault : Type 0 where
  pub read_after : Option ℕ
  pub close_fails : Bool

abbrev pub no_faults : ℕ → Fault
no_faults index = record { read_after = none; close_fails = false }

-- A Read of an open file that does not fail: at the end of the file it is closed, and the loop goes on
-- with `next`.
unfoldable pub read_sound :
    SequentialReader → Bytes → ℕ → Bool → (SequentialReader → Outcome) → Outcome
read_sound r rest zero close_fails next = (record r { current = some rest }, ([], none))
read_sound r [] (suc size) close_fails next =
    let closed_file = record r { current = none } in
    if close_fails then (closed_file, ([], some close_failure)) else next closed_file
read_sound r (c ∷ rest) (suc size) close_fails next =
    (record r { current = some (drop size rest) }, (c ∷ take size rest, none))

-- A round of the loop of Read on an open file.
unfoldable pub read_open :
    SequentialReader → Bytes → ℕ → Fault → (SequentialReader → Outcome) → Outcome
read_open r rest size fault next = elim fault.read_after [
  | none ↦ read_sound r rest size fault.close_fails next
  | some n ↦
      let got = take n (take size rest) in
      (record r { current = some (drop (length got) rest) }, (got, some read_failure))
]

-- The loop of Read. Each round but the last closes a file, so that one round more than the files
-- that are not yet opened, and one for the open file, are enough. An open file is the one before
-- `index`.
unfoldable pub read_loop : Map ℕ Bytes → (ℕ → Fault) → ℕ → SequentialReader → ℕ → Outcome
read_loop files faults zero r size = (r, ([], some eof))
read_loop files faults (suc fuel) r size =
    let next : SequentialReader → Outcome = λ r'. read_loop files faults fuel r' size in
    if r.closed then (r, ([], some eof)) else (elim r.current [
      | some rest ↦ read_open r rest size (faults (r.index - 1)) next
      | none ↦ if leb r.total r.index then (r, ([], some eof)) else (elim (lookup r.index files) [
        | none ↦ (r, ([], some not_exist))
        | some chunk ↦ read_open (record r { index = suc r.index }) chunk size (faults r.index) next
      ])
    ])

unfoldable pub read : Map ℕ Bytes → (ℕ → Fault) → SequentialReader → ℕ → Outcome
read files faults r size = read_loop files faults (suc (suc (r.total - r.index))) r size

unfoldable pub close : SequentialReader → SequentialReader
close r = record r { closed = true }

-- io.ReadAll with buffers of the given sizes, where no file fails: what was read when a Read returned an end, and that
-- end; none where the sizes run out before.
abbrev pub finish : Bytes → Option ReadEnd → Option (Bytes × ReadEnd) → Option (Bytes × ReadEnd)
finish bytes (some e) rest = some (bytes, e)
finish bytes none none = none
finish bytes none (some (more, e)) = some (bytes ++ more, e)

unfoldable pub read_all : Map ℕ Bytes → SequentialReader → List ℕ → Option (Bytes × ReadEnd)
read_all files r [] = none
read_all files r (size ∷ sizes) =
    let (r', (bytes, end)) = read files no_faults r size in
    finish bytes end (read_all files r' sizes)
