-- ===== src/Archive/Tests.antt =====
-- Runs of an extraction, on a server that logs its uploads.
use goblin_ftp.Base.{
  ℕ, suc, ◌≡◌, ◌+◌, refl, ap, true, false, List, [], ◌∷◌, Bytes, codes, none, inr, All, length,
}
use goblin_ftp.Base.Ints.{pos}
use goblin_ftp.Remote.{Client, found}
use goblin_ftp.Text.{is_abs, split}
use goblin_ftp.Text.Clean.{IsRooted}
use goblin_ftp.Archive.{ZipEntry, TarStep, reg, symlink, Stream, begin, extract_zip, extract_tar}
use goblin_ftp.Paths.Join.{IsBelow}
use goblin_ftp.Archive.Within.{Allows}
use goblin_ftp.Archive.Extract.{IsBounded, extract_below}

abbrev Log : Type 0
Log = List (Bytes × ℕ)

abbrev logger : Client Log
logger = record {
  list = λ r p. (r, inr []);
  stat = λ r p.
      (r, found (record { name = codes "d"; size = pos 0; is_dir = true; mod_time = pos 0 }));
  make_dir = λ r p. (r, none);
  delete = λ r p. (r, none);
  rename = λ r p q. (r, none);
  chmod = λ r p mode. (r, none);
  download = λ r p. (r, inr (record { content = []; read_failed = false; close_failed = false }));
  upload = λ r p reader. ((p, length reader.content) ∷ r, none);
}

abbrev sum : Log → ℕ
sum [] = 0
sum ((p, n) ∷ r) = sum r + n

-- So many uploads below /d, of so many bytes.
abbrev Logged : ℕ → ℕ → Log → Type 0
Logged f n r = All (λ x. IsBelow (codes "/d") x.0) r × ((length r ≡ f) × (sum r ≡ n))

logger-Allows : Allows logger (codes "/d") Logged
logger-Allows = record {
  stat_keeps = λ f n r p h. h;
  make_dir_keeps = λ f n r p h. h;
  upload_adds = λ f n r p reader below h.
      ((below, h.0), (ap suc h.1.0, ap (λ k. k + length reader.content) h.1.1));
}

abbrev stream : Stream
stream = record { bytes = codes "abc"; fails = false; ends_at_once = true }

abbrev zip_entry : ZipEntry
zip_entry = record {
  cancelled = none;
  name = codes "a/b";
  uncompressed_size = 3;
  is_dir = false;
  is_regular = true;
  opened = inr stream;
}

abbrev tar_steps : List TarStep
tar_steps =
    record {
      cancelled = none;
      header = inr (record { name = codes "a/b"; typeflag = reg; size = 3; stream = stream });
    }
    ∷ record {
      cancelled = none;
      header = inr (record { name = codes "l"; typeflag = symlink; size = 0; stream = stream });
    }
    ∷ []

rooted : IsRooted (codes "/d")
rooted = record {
  absolute = unfold is_abs in refl;
  no_parent = unfold split in ((λ q. cc), ((λ q. cc), tt));
}

extract_below_example :
    IsBounded logger
      (codes "/d")
      Logged
      logger-Allows
      rooted
      (extract_zip logger (codes "/d") (begin []) (zip_entry ∷ [])).0.remote
    × IsBounded logger
        (codes "/d")
        Logged
        logger-Allows
        rooted
        (extract_tar logger (codes "/d") (begin []) tar_steps none).0.remote
extract_below_example =
    extract_below logger (codes "/d") Logged logger-Allows rooted [] (zip_entry ∷ []) tar_steps none
      (tt, (refl, refl))
