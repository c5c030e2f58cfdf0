-- ===== src/Upload/Sizes.antt =====
-- The arithmetic of chunked uploads: what reserve, chunk and commit of api/upload.go check agrees.
use goblin_ftp.Base.{
  ℕ, zero, suc, ◌+◌, ◌-◌, ◌*◌, ◌≤◌, ◌<◌, ◌≡◌, refl, ap, ◌∙◌, true, none, some, arith, nat_has_eq,
}
use native.Mathlib.Nat.{div-mul-le_self, lt-div-mul-add}
use goblin_ftp.Base.Map.{lookup}
use goblin_ftp.Upload.{UploadMeta, check_chunk_size, expected_size}
use goblin_ftp.Upload.Handlers.{is_consistent}
use goblin_ftp.Upload.Commit.{sum_chunks}

-- A metadata object as UploadReserve makes it.
pub record IsReserved (meta : UploadMeta) : Type 0 where
  pub sized : 0 < meta.total_size
  pub cut : 0 < meta.chunk_size
  pub consistent : is_consistent meta.total_size meta.chunk_size meta.total_chunks ≡ true

-- Every chunk has arrived, with the length that UploadChunk demands.
abbrev pub HasAllChunks : UploadMeta → Type 0
HasAllChunks meta =
    (index : ℕ)
    → index < meta.total_chunks
    → lookup index meta.chunks ≡ some (expected_size meta index)

last_fits :
    (meta : UploadMeta)
    → IsReserved meta
    → (meta.total_chunks - 1) * meta.chunk_size < meta.total_size
unfolding is_consistent
last_fits meta r =
    grind
      (arith, r.sized, r.cut, r.consistent, div-mul-le_self (meta.total_size - 1) meta.chunk_size)

last_short :
    (meta : UploadMeta)
    → IsReserved meta
    → meta.total_size ≤ (meta.total_chunks - 1) * meta.chunk_size + meta.chunk_size
unfolding is_consistent
last_short meta r =
    grind (arith, r.sized, r.consistent, lt-div-mul-add {a = meta.total_size - 1} r.cut)

-- In a reserved upload, a chunk in range that has passed the test of its length is never refused by
-- the test against the chunk size.
pub check_chunk_size-expected :
    (meta : UploadMeta) (index : ℕ)
    → IsReserved meta
    → index < meta.total_chunks
    → check_chunk_size meta index (expected_size meta index) ≡ none
unfolding check_chunk_size expected_size
check_chunk_size-expected meta index r h = grind (arith, r.cut, last_fits meta r, last_short meta r)

sum_last :
    (meta : UploadMeta) (index count : ℕ)
    → HasAllChunks meta
    → index + suc count ≡ meta.total_chunks
    → index * meta.chunk_size ≤ meta.total_size
    → (meta.total_chunks - 1) * meta.chunk_size < meta.total_size
    → sum_chunks meta.chunks index (suc count) ≡ some (meta.total_size - index * meta.chunk_size)
unfolding sum_chunks expected_size
sum_last meta index zero h e le lt =
    rw (h index (omega arith), sum_chunks, expected_size) (grind arith)
sum_last meta index (suc count) h e le lt =
    rw
      (
        h index (omega arith),
        sum_last meta (suc index) count h (omega arith) (grind arith) lt,
        sum_chunks,
        expected_size,
      )
      (grind arith)

-- When every chunk of a reserved upload has arrived with its demanded length, the sizes add up to
-- the reserved size: the tests of UploadCommit for a missing chunk and for the size both pass.
pub sum_chunks-HasAllChunks :
    (meta : UploadMeta)
    → IsReserved meta
    → HasAllChunks meta
    → sum_chunks meta.chunks 0 meta.total_chunks ≡ some meta.total_size
unfolding is_consistent sum_chunks
sum_chunks-HasAllChunks meta r h = from_count meta.total_chunks refl
  where
    from_count : (n : ℕ) → n ≡ meta.total_chunks → sum_chunks meta.chunks 0 n ≡ some meta.total_size
    from_count zero e = grind (arith, r.sized, r.consistent)
    from_count (suc n) e =
        sum_last meta 0 n h (omega (arith, e)) (omega arith) (last_fits meta r)
        ∙ ap some (grind arith)
