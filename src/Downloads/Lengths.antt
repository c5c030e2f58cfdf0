-- ===== src/Downloads/Lengths.antt =====
-- The length that DownloadFile of backend/internal/api/download.go announces.
use goblin_ftp.Base.{
  ℕ, zero, suc, subst, Option, none, ◌≡◌, refl, false, bytes_has_eq, some, ◌⊎◌, inl, inr, arith,
}
use goblin_ftp.Base.Ints.{ℤ, pos, negsuc}
use goblin_ftp.Errors.Chain.{GoError}
use goblin_ftp.Errors.Classify.{is_conn_lost}
use goblin_ftp.Remote.{FileInfo, StatResult, found, failed}
use goblin_ftp.Downloads.{known_length, stat_refusal}

-- The length that the browser is told: the size that Stat gives of a file that is not a directory,
-- if it is positive; none where it is not, or where Stat failed, but not by a lost connection.
pub data SaysLength : StatResult → Option ℤ → Type 0 where
  of_size :
      (fi : FileInfo) (n : ℕ)
      → fi.is_dir ≡ false
      → fi.size ≡ pos (suc n)
      → SaysLength (found fi) (some fi.size)
  of_empty : (fi : FileInfo) → fi.is_dir ≡ false → fi.size ≡ pos 0 → SaysLength (found fi) none
  of_negative :
      (fi : FileInfo) (n : ℕ) → fi.is_dir ≡ false → fi.size ≡ negsuc n → SaysLength (found fi) none
  of_failed : (err : GoError) → is_conn_lost (some err) ≡ false → SaysLength (failed err) none

told : (fi : FileInfo) (n : ℕ) → fi.size ≡ pos (suc n) → some fi.size ≡ known_length (found fi)
unfolding known_length
told fi n e = ground (arith, e)

not_told :
    (fi : FileInfo)
    → (fi.size ≡ pos 0) ⊎ ((n : ℕ) × (fi.size ≡ negsuc n))
    → none ≡ known_length (found fi)
unfolding known_length
not_told fi (inl e) = ground (arith, e)
not_told fi (inr (n, e)) = ground (arith, e)

pub known_length-SaysLength :
    (s : StatResult) → stat_refusal s ≡ none → SaysLength s (known_length s)
unfolding stat_refusal known_length
known_length-SaysLength (found fi) h = sized fi.size refl
  where
    sized : (size : ℤ) → fi.size ≡ size → SaysLength (found fi) (known_length (found fi))
    sized (pos zero) e =
        subst (SaysLength (found fi)) (not_told fi (inl e)) (of_empty fi (ground (arith, h)) e)
    sized (pos (suc n)) e =
        subst (SaysLength (found fi)) (told fi n e) (of_size fi n (ground (arith, h)) e)
    sized (negsuc n) e =
        subst (SaysLength (found fi)) (not_told fi (inr (n, e)))
          (of_negative fi n (ground (arith, h)) e)
known_length-SaysLength (failed err) h = of_failed err (ground (arith, h))
