-- ===== src/Upload/Store.antt =====
-- backend/internal/transfer/upload.go: UploadStore. A method is one step, since all hold the mutex.
use goblin_ftp.Base.{ℕ, suc, ◌+◌, Bytes, [], bytes_has_eq, Option, none, some, update}
use goblin_ftp.Base.Map.{Map, lookup, insert, erase}
use goblin_ftp.Upload.{UploadMeta, new_meta}

pub record UploadStore : Type 0 where
  pub uploads : Map Bytes ℕ
  pub metas : ℕ → UploadMeta
  pub next : ℕ

-- `id` is what uuid.NewString gives.
unfoldable pub create : UploadStore → Bytes → Bytes → ℕ → UploadStore × ℕ
create s id destination total_chunks = (
  record {
    uploads = insert id s.next s.uploads;
    metas = update s.metas s.next (new_meta [] destination total_chunks 0);
    next = suc s.next;
  },
  s.next,
)

unfoldable pub get_meta : UploadStore → Bytes → Option ℕ
get_meta s id = lookup id s.uploads

unfoldable pub mark_received : UploadStore → Bytes → UploadStore
mark_received s id = elim (lookup id s.uploads) [
  | none ↦ s
  | some p ↦ record s {
    metas =
        update s.metas p (record (s.metas p) { received_chunks = (s.metas p).received_chunks + 1 });
  }
]

unfoldable pub remove : UploadStore → Bytes → UploadStore
remove s id = record s { uploads = erase id s.uploads }
