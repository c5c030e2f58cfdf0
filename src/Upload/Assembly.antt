-- ===== src/Upload/Assembly.antt =====
-- The reader over the chunks of backend/internal/transfer/upload.go reads their concatenation.
use goblin_ftp.Base.{
  ℕ, zero, suc, ◌≡◌, ◌≢◌, ◌≤◌, ◌<◌, ◌+◌, ◌-◌, ◌∙◌, refl, ap, sym, subst, true, false, List, [], ◌∷◌,
  ◌++◌, Bytes, nat_has_eq, leb, Option, none, some, inl, inr, length, length-append, map, arith,
  Bool-cases, leb→le, Option-cases, append_assoc,
}
use goblin_ftp.Base.Map.{Map, lookup}
use goblin_ftp.Text.Slice.{take, drop, take-drop, length-take}
use goblin_ftp.Upload.Chunks.{
  SequentialReader, eof, Outcome, all_exist, assemble_reader, no_faults, read_open, read_sound,
  read_loop, read, read_all, finish, finish,
}

-- The contents of the chunks from `index` on, `count` of them.
unfoldable pub chunks_from : Map ℕ Bytes → ℕ → ℕ → Bytes
chunks_from files index zero = []
chunks_from files index (suc count) = elim (lookup index files) [
  | none ↦ []
  | some chunk ↦ chunk ++ chunks_from files (suc index) count
]

abbrev open_part : Option Bytes → Bytes
open_part none = []
open_part (some rest) = rest

abbrev rounds : Option Bytes → ℕ
rounds none = 0
rounds (some rest) = 1

-- What a reader still has to give.
unfoldable pub left : Map ℕ Bytes → SequentialReader → Bytes
left files r = open_part r.current ++ chunks_from files r.index (r.total - r.index)

-- A reader that is open, over chunks that are there.
pub record IsReading (files : Map ℕ Bytes) (r : SequentialReader) : Type 0 where
  pub open_yet : r.closed ≡ false
  pub there : all_exist files r.index (r.total - r.index) ≡ true

-- A Read either gives a first part of what is left, of at most `size` bytes and not empty, or says
-- that nothing is left.
pub data Reads (files : Map ℕ Bytes) (r : SequentialReader) (size : ℕ) : Outcome → Type 0 where
  gives :
      (r' : SequentialReader) (bytes : Bytes)
      → IsReading files r'
      → bytes ≢ []
      → length bytes ≤ size
      → left files r ≡ bytes ++ left files r'
      → Reads files r size (r', (bytes, none))
  ends : (r' : SequentialReader) → left files r ≡ [] → Reads files r size (r', ([], some eof))

-- The next chunk of those that are there.
record Opens (files : Map ℕ Bytes) (index count : ℕ) : Type 0 where
  chunk : Bytes
  stored : lookup index files ≡ some chunk
  others : all_exist files (suc index) count ≡ true
  contents : chunks_from files index (suc count) ≡ chunk ++ chunks_from files (suc index) count

opens :
    (files : Map ℕ Bytes) (index count : ℕ)
    → all_exist files index (suc count) ≡ true
    → Opens files index count
unfolding all_exist chunks_from
opens files index count h = elim (Option-cases (lookup index files)) [
  | inl n ↦ absurd (ground (arith, n, h))
  | inr (chunk, e) ↦ record {
    chunk = chunk;
    stored = e;
    others = ground (arith, e, h);
    contents = rw (chunks_from, e) refl;
  }
]

Reads-shift :
    (files : Map ℕ Bytes) (r r' : SequentialReader) (size : ℕ) (o : Outcome)
    → left files r ≡ left files r'
    → Reads files r' size o
    → Reads files r size o
Reads-shift files r r' size _ e (gives s bytes ok ne le at) = gives s bytes ok ne le (e ∙ at)
Reads-shift files r r' size _ e (ends s at) = ends s (e ∙ at)

abbrev pub at : ℕ → ℕ → Option Bytes → SequentialReader
at total index current = record { total = total; index = index; current = current; closed = false }

module _ (files : Map ℕ Bytes) (size : ℕ) where
  nothing_left : (total index : ℕ) → total ≤ index → left files (at total index none) ≡ []
  unfolding left chunks_from
  nothing_left total index h =
      let none_left : total - index ≡ 0 = omega (arith, h) in ap (chunks_from files index) none_left

  read_open-Reads :
      (r : SequentialReader) (rest : Bytes) (next : SequentialReader → Outcome)
      → IsReading files r
      → Reads files (record r { current = none }) (suc size) (next (record r { current = none }))
      → Reads files
          (record r { current = some rest })
          (suc size)
          (read_open r rest (suc size) (no_faults 0) next)
  unfolding read_open read_sound
  read_open-Reads r [] next h k =
      Reads-shift files (record r { current = some [] }) (record r { current = none }) (suc size) _
        (unfold left in refl) k
  read_open-Reads r (c ∷ rest) next h k =
      gives (record r { current = some (drop size rest) }) (c ∷ take size rest)
        (record { open_yet = h.open_yet; there = h.there }) (λ e. cc)
        (omega (arith, length-take size rest)) (unfold left in split_left)
    where
      split_left :
          c ∷ (rest ++ chunks_from files r.index (r.total - r.index))
          ≡ c
            ∷ (take size rest ++ (drop size rest ++ chunks_from files r.index (r.total - r.index)))
      split_left = ap (◌∷◌ c) (
          ap (λ l. l ++ chunks_from files r.index (r.total - r.index)) (sym (take-drop size rest))
          ∙ append_assoc (take size rest) (drop size rest) _)

  -- The fuel is more than the files that are still to be closed.
  read_loop-Reads :
      (fuel total index : ℕ) (current : Option Bytes)
      → all_exist files index (total - index) ≡ true
      → total - index + rounds current < fuel
      → Reads files
          (at total index current)
          (suc size)
          (read_loop files no_faults fuel (at total index current) (suc size))
  unfolding read_loop
  read_loop-Reads zero total index current h enough = absurd (omega (arith, enough))
  read_loop-Reads (suc fuel) total index (some rest) h enough =
      read_open-Reads (at total index (some rest)) rest
        (λ r'. read_loop files no_faults fuel r' (suc size)) (record { open_yet = refl; there = h })
        (read_loop-Reads fuel total index none h (omega (arith, enough)))
  read_loop-Reads (suc fuel) total index none h enough = elim (Bool-cases (leb total index)) [
    | inl t ↦
        rw (read_loop, t)
          (ends (at total index none) (nothing_left total index (leb→le total index t)))
    | inr f ↦
        let count = total - suc index in
        let same : total - index ≡ suc count = ground (arith, f) in
        let o = opens files index count (subst (λ n. all_exist files index n ≡ true) same h) in
        rw (read_loop, f, o.stored)
          (Reads-shift files (at total index none) (at total (suc index) (some o.chunk)) (suc size)
            _ (unfold left in (ap (chunks_from files index) same ∙ o.contents))
            (read_open-Reads (at total (suc index) none) o.chunk
              (λ r'. read_loop files no_faults fuel r' (suc size))
              (record { open_yet = refl; there = o.others })
              (read_loop-Reads fuel total (suc index) none o.others (omega (arith, enough, same)))))
  ]

-- One step of the reader refines one step of a stream of the bytes that are left: a Read into a
-- buffer that is not empty, by an open reader whose chunks are there, gives a first part of what is
-- left, not empty and not longer than the buffer, or says io.EOF when nothing is left.
pub read-Reads :
    (files : Map ℕ Bytes) (r : SequentialReader) (size : ℕ)
    → IsReading files r
    → Reads files r (suc size) (read files no_faults r (suc size))
unfolding read
read-Reads files r size h =
    subst (λ s. Reads files s (suc size) (read files no_faults s (suc size))) same
      (read_loop-Reads files size (suc (suc (r.total - r.index))) r.total r.index r.current h.there
        (rounds_le r.current))
  where
    same : at r.total r.index r.current ≡ r
    same = ap (λ b. record r { closed = b }) (sym h.open_yet)

    rounds_le : (o : Option Bytes) → r.total - r.index + rounds o < suc (suc (r.total - r.index))
    rounds_le none = omega arith
    rounds_le (some rest) = omega arith

module _ (files : Map ℕ Bytes) where
  -- Reading until the end gives all that is left, with buffers that are not empty and of which there
  -- are more than there are bytes.
  read_all-left :
      (sizes : List ℕ) (r : SequentialReader)
      → IsReading files r
      → length (left files r) < length sizes
      → read_all files r (map suc sizes) ≡ some (left files r, eof)
  unfolding read_all
  read_all-left [] r h enough = absurd (omega (arith, enough))
  read_all-left (size ∷ sizes) r h enough =
      after (read files no_faults r (suc size)) (read-Reads files r size h) (read_all-left sizes)
    where
      after :
          (o : Outcome)
          → Reads files r (suc size) o
          → ((r' : SequentialReader)
              → IsReading files r'
              → length (left files r') < length sizes
              → read_all files r' (map suc sizes) ≡ some (left files r', eof))
          → finish o.1.0 o.1.1 (read_all files o.0 (map suc sizes)) ≡ some (left files r, eof)
      after _ (gives r' [] ok ne le e) ih = absurd (ne refl)
      after _ (gives r' (c ∷ bytes) ok ne le e) ih =
          rw (ih r' ok (shorter e)) (ap (λ l. some (l, eof)) (sym e))
        where
          shorter :
              left files r ≡ (c ∷ bytes) ++ left files r' → length (left files r') < length sizes
          shorter e = omega (arith, enough, ap length e, length-append (c ∷ bytes) (left files r'))
      after _ (ends r' e) ih = ap (λ l. some (l, eof)) (sym e)

  -- The reader that AssembleReader gives, read to its end with buffers that are not empty, gives the
  -- chunks one after another, in the order of their indexes, and then io.EOF, where there are more
  -- buffers than bytes and no Read or Close of a chunk's file fails.
  pub assemble_reader-chunks_from :
      (upload_id : Bytes) (total : ℕ) (sizes : List ℕ) (r : SequentialReader)
      → assemble_reader upload_id files total ≡ some r
      → length (chunks_from files 0 total) < length sizes
      → read_all files r (map suc sizes) ≡ some (chunks_from files 0 total, eof)
  unfolding assemble_reader
  assemble_reader-chunks_from upload_id total sizes r h enough =
      elim (Bool-cases (all_exist files 0 total)) [
        | inr f ↦ absurd (ground (arith, f, h))
        | inl t ↦
            subst (λ s. read_all files s (map suc sizes) ≡ some (chunks_from files 0 total, eof))
              (ground (arith, t, h)) (whole t)
      ]
    where
      whole :
          all_exist files 0 total ≡ true
          → read_all files (at total 0 none) (map suc sizes) ≡ some (chunks_from files 0 total, eof)
      whole t =
          subst (λ l. read_all files (at total 0 none) (map suc sizes) ≡ some (l, eof)) all_left
            (read_all-left sizes (at total 0 none)
              (record {
                open_yet = refl;
                there = subst (λ n. all_exist files 0 n ≡ true) (sym minus_zero) t;
              })
              (subst (λ l. length l < length sizes) (sym all_left) enough))
        where
          minus_zero : total - 0 ≡ total
          minus_zero = omega arith

          all_left : left files (at total 0 none) ≡ chunks_from files 0 total
          all_left = unfold left in (ap (chunks_from files 0) minus_zero)
