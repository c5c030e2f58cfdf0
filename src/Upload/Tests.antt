-- ===== src/Upload/Tests.antt =====
-- Runs of the upload handlers, against a small server and chunk store.
use goblin_ftp.Base.{
  ℕ, ◌≡◌, ◌+◌, ◌++◌, refl, ap, true, false, List, [], ◌∷◌, map, Bytes, ◌&&◌, leb, if◌then◌else◌,
  codes, none, some, inr, arith, nat_has_eq, bytes_has_eq,
}
use goblin_ftp.Base.Map.{Map, lookup}
use goblin_ftp.Base.Sets.{member}
use goblin_ftp.Errors.Chain.{Sentinel, sentinel, other}
use goblin_ftp.Auth.Store.{empty_session}
use goblin_ftp.Resources.{new_budget}
use goblin_ftp.Base.Ints.{pos}
use goblin_ftp.Remote.{Client, FileInfo, Reader, found}
use goblin_ftp.Upload.{UploadMeta, new_meta, ChunkStore, World, expected_size}
use goblin_ftp.Upload.Handlers.{is_consistent}
use goblin_ftp.Upload.Commit.{CommitRequest, upload_commit, sum_chunks, commit_upload}
use goblin_ftp.Upload.Sizes.{IsReserved, HasAllChunks, sum_chunks-HasAllChunks}
use goblin_ftp.Upload.Consent.{
  IsUntouched, IsDropped, upload_commit-IsUntouched, commit_upload-IsDropped,
}
use goblin_ftp.Upload.Conflicts.{
  key_of, unique_name, unique_loop, split_extension, split_last, candidate, directory_conflicts,
}
use goblin_ftp.Text.Decimal.{itoa, digits}
use goblin_ftp.Upload.Suggestions.{
  IsLower, IsReport, unique_name-IsFree, directory_conflicts-IsReport,
}
use goblin_ftp.Staging.{validate_upload_id, matches}
use goblin_ftp.Auth.Session
use goblin_ftp.Text.Slice.{take, drop}
use goblin_ftp.Upload.Chunks.{
  read_failure, close_failure, read, read_loop, read_open, read_sound, eof, all_exist,
  assemble_reader, read_all,
}
use goblin_ftp.Upload.Assembly.{at, chunks_from, assemble_reader-chunks_from}

-- Five bytes in chunks of two.
abbrev five : UploadMeta
five = record (new_meta (codes "u") (codes "/x") 3 2) {
  total_size = 5;
  chunks = (0, 2) ∷ (1, 2) ∷ (2, 1) ∷ [];
}

five-IsReserved : IsReserved five
unfolding is_consistent
five-IsReserved = record { sized = omega arith; cut = omega arith; consistent = refl }

five-HasAllChunks : HasAllChunks five
unfolding lookup expected_size
five-HasAllChunks index h = ground (arith, h)

sum_chunks-HasAllChunks_example : sum_chunks five.chunks 0 3 ≡ some 5
sum_chunks-HasAllChunks_example = sum_chunks-HasAllChunks five five-IsReserved five-HasAllChunks

-- A server of one file; it counts the uploads.
abbrev small_client : Client ℕ
small_client = record {
  list = λ r p. (r, inr []);
  stat = λ r p.
      (r, found (record { name = codes "x"; size = pos 5; is_dir = false; mod_time = pos 0 }));
  make_dir = λ r p. (r, none);
  upload = λ r p content. (r, some (sentinel Sentinel.quota_exceeded other (codes "552 full")));
  delete = λ r p. (r, none);
  rename = λ r p q. (r, none);
  chmod = λ r p mode. (r, none);
  download = λ r p. (r, inr (record { content = []; read_failed = false; close_failed = false }));
}

abbrev small_store : ChunkStore ℕ
small_store = record {
  new_upload = λ c. (c, inr (codes "u"));
  write_chunk = λ c id index chunk. (c, none);
  assemble = λ c id total.
      (c, inr (record { content = codes "abcde"; read_failed = false; close_failed = false }));
  cleanup = λ c id. (c, none);
}

abbrev world : World ℕ ℕ
world = record {
  session = record empty_session { uploads = (codes "u", 0) ∷ [] };
  metas = λ p. five;
  next = 1;
  budget = new_budget none 1000 100 false;
  pending_cleanup = [];
  remote = 0;
  chunks = 0;
}

abbrev keep_case : Bytes → Bytes
keep_case s = s

abbrev commit_request : CommitRequest
commit_request = record { upload_id = codes "u"; overwrite = none; destination = [] }

upload_commit-IsUntouched_example :
    IsUntouched small_client small_store keep_case world
      (codes "/x")
      (upload_commit small_client small_store keep_case none world commit_request)
unfolding Session.get_upload lookup
upload_commit-IsUntouched_example =
    upload_commit-IsUntouched small_client small_store keep_case none world commit_request 0 refl
      refl tt

abbrev whole : Reader
whole = record { content = codes "abcde"; read_failed = false; close_failed = false }

commit_upload-IsDropped_example :
    IsDropped small_client small_store keep_case
      (codes "u")
      0
      (commit_upload small_client small_store keep_case world
        (codes "u")
        0
        (codes "/x")
        true
        whole).0
commit_upload-IsDropped_example =
    commit_upload-IsDropped small_client small_store keep_case world (codes "u") 0 (codes "/x") true
      whole

abbrev staged : Map ℕ Bytes
staged = (0, codes "ab") ∷ (1, []) ∷ (2, codes "c") ∷ []

-- A file whose Close fails at its end, and one whose Read fails behind a byte.
failing_close :
    read staged (λ index. record { read_after = none; close_fails = true }) (at 3 1 (some [])) 4
    ≡ (at 3 1 none, ([], some close_failure))
unfolding read read_loop read_open read_sound
failing_close = refl

failing_read :
    read staged
      (λ index. record { read_after = some 1; close_fails = false })
      (at 3 1 (some (codes "xyz")))
      2
    ≡ (at 3 1 (some (codes "yz")), (codes "x", some read_failure))
unfolding read read_loop read_open take drop
failing_read = refl

assemble_reader-chunks_from_example :
    read_all staged (at 3 0 none) (2 ∷ 1 ∷ 1 ∷ 9 ∷ []) ≡ some (codes "abc", eof)
unfolding chunks_from lookup assemble_reader all_exist validate_upload_id matches
assemble_reader-chunks_from_example =
    assemble_reader-chunks_from staged (codes "01234567-89ab-cdef-0123-456789abcdef") 3
      (1 ∷ 0 ∷ 0 ∷ 8 ∷ []) (at 3 0 none) refl (omega arith)

-- A lower case of ASCII.
abbrev lower_byte : ℕ → ℕ
lower_byte c = if leb 65 c && leb c 90 then c + 32 else c

map-append : (a b : Bytes) → map lower_byte (a ++ b) ≡ map lower_byte a ++ map lower_byte b
map-append [] b = refl
map-append (c ∷ a) b = ap (◌∷◌ (lower_byte c)) (map-append a b)

abbrev known : FileInfo
known = record { name = codes "a"; size = pos 5; is_dir = false; mod_time = pos 0 }

ascii-IsLower : IsLower (map lower_byte)
ascii-IsLower = record {
  lower-append = λ a b c h. map-append a (c ∷ b);
  lower_small = λ c s h. ground arith;
}

taken_before : List Bytes
taken_before = codes "a.txt" ∷ codes "a (1).txt" ∷ []

suggested :
    unique_name (map lower_byte) (codes "A.txt") (codes "a.txt" ∷ codes "a (1).txt" ∷ []) true
    ≡ codes "A (2).txt"
unfolding unique_name unique_loop member key_of split_extension split_last candidate itoa digits
suggested = refl

unique_name-IsFree_example :
    member
      (key_of
        (map lower_byte)
        true
        (unique_name (map lower_byte) (codes "A.txt") taken_before true))
      taken_before
    ≡ false
unique_name-IsFree_example =
    unique_name-IsFree (map lower_byte) ascii-IsLower (codes "A.txt") taken_before true

directory_conflicts-IsReport_example :
    IsReport
      (map lower_byte)
      true
      (known ∷ [])
      (codes "/d/A" ∷ codes "/d/b" ∷ [])
      (directory_conflicts (map lower_byte) true (known ∷ []) (codes "/d/A" ∷ codes "/d/b" ∷ []))
directory_conflicts-IsReport_example =
    directory_conflicts-IsReport (map lower_byte) true ascii-IsLower (known ∷ [])
      (codes "/d/A" ∷ codes "/d/b" ∷ [])
