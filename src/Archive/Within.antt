-- ===== src/Archive/Within.antt =====
-- The account that an extraction of backend/internal/api/archive.go keeps: the files and bytes
-- sent so far, and the budget that is left.
use goblin_ftp.Base.{
  ℕ, suc, ◌≡◌, ◌≤◌, ◌+◌, ◌-◌, refl, ap, Bool, true, false, Bytes, Option, none, some, ◌⊎◌, inl, inr,
  length, arith, Option-cases, if◌then◌else◌,
}
use goblin_ftp.Errors.Chain.{GoError}
use goblin_ftp.Text.{path_dir}
use goblin_ftp.Text.Clean.{IsRooted}
use goblin_ftp.Text.Slice.{length-take}
use goblin_ftp.Paths.{JoinResult, joined, escapes, safe_join}
use goblin_ftp.Paths.Join.{IsBelow, safe_join-within}
use goblin_ftp.Remote.{Client, Reader}
use goblin_ftp.Remote.Keeps.{ensure_dir_all_keeps}
use goblin_ftp.Archive.{
  next, Stream, budget_reader, consume, Progress, max_zip_size, max_archive_entries, skip,
  make_directory, upload_stream, upload_opened, write_file,
}

-- `I files bytes r` holds of a server `r` to which so many files and bytes were sent: Stat and
-- MakeDir keep it, and an upload below the destination adds one file and the bytes of its reader.
pub record Allows {R : Type 0} (client : Client R) (destination : Bytes) (I : ℕ → ℕ → R → Type 0)
    : Type 0 where
  pub stat_keeps : (f n : ℕ) (r : R) (p : Bytes) → I f n r → I f n (client.stat r p).0
  pub make_dir_keeps : (f n : ℕ) (r : R) (p : Bytes) → I f n r → I f n (client.make_dir r p).0
  pub upload_adds :
      (f n : ℕ) (r : R) (p : Bytes) (reader : Reader)
      → IsBelow destination p
      → I f n r
      → I (suc f) (n + length reader.content) (client.upload r p reader).0

-- A budgetReader gives no more bytes than the budget has left.
pub budget_reader-le-remaining :
    (remaining : ℕ) (s : Stream) → length (budget_reader remaining s).content ≤ remaining
unfolding budget_reader
budget_reader-le-remaining remaining s = ground (arith, length-take remaining s.bytes)

pub join-cases : (j : JoinResult) → (j ≡ escapes) ⊎ ((p : Bytes) × (j ≡ joined p))
join-cases escapes = inl refl
join-cases (joined p) = inr (p, refl)

module _ {R : Type 0} (client : Client R) (destination : Bytes) (I : ℕ → ℕ → R → Type 0)
    (allows : Allows client destination I) (rooted : IsRooted destination) where
  pub record Within (most entries : ℕ) (w : Progress R) : Type 0 where
    pub files : ℕ
    pub bytes : ℕ
    pub holds : I files bytes w.remote
    pub spent : bytes + w.budget.remaining ≡ max_zip_size
    pub few : files ≤ most
    pub counted : w.budget.entries ≡ entries

  pub Within-weaken : (m n e : ℕ) (w : Progress R) → m ≤ n → Within m e w → Within n e w
  Within-weaken m n e w le h = record {
    files = h.files;
    bytes = h.bytes;
    holds = h.holds;
    spent = h.spent;
    few = omega (arith, le, h.few);
    counted = h.counted;
  }

  pub make_directory-Within :
      (most e : ℕ) (w : Progress R) (p : Bytes)
      → Within most e w
      → Within most e (make_directory client w p).0
  unfolding make_directory
  make_directory-Within most e w p h = record {
    files = h.files;
    bytes = h.bytes;
    holds =
        ensure_dir_all_keeps client (I h.files h.bytes) (allows.stat_keeps h.files h.bytes)
          (allows.make_dir_keeps h.files h.bytes) w.remote p h.holds;
    spent = h.spent;
    few = h.few;
    counted = h.counted;
  }

  upload_stream-Within :
      (most e : ℕ) (w : Progress R) (p : Bytes) (s : Stream)
      → IsBelow destination p
      → Within most e w
      → Within (suc most) e (upload_stream client w p s).0
  unfolding upload_stream consume
  upload_stream-Within most e w p s below h =
      let reader = budget_reader w.budget.remaining s in
      let size = budget_reader-le-remaining w.budget.remaining s in
      let sent = client.upload w.remote p reader in
      let added = allows.upload_adds h.files h.bytes w.remote p reader below h.holds in
      let balance : (h.bytes + length reader.content) + (w.budget.remaining - length reader.content)
          ≡ max_zip_size =
        omega (arith, size, h.spent) in
      elim (Option-cases sent.1) [
        | inl n ↦
            rw (upload_stream, n)
              (record {
                files = suc h.files;
                bytes = h.bytes + length reader.content;
                holds = added;
                spent = balance;
                few = omega (arith, h.few);
                counted = h.counted;
              })
        | inr (err, n) ↦
            rw (upload_stream, n)
              (record {
                files = suc h.files;
                bytes = h.bytes + length reader.content;
                holds = added;
                spent = balance;
                few = omega (arith, h.few);
                counted = h.counted;
              })
      ]

  upload_opened-Within :
      (most e : ℕ) (w : Progress R) (p : Bytes) (opened : GoError ⊎ Stream)
      → IsBelow destination p
      → Within most e w
      → Within (suc most) e (upload_opened client w p opened).0
  unfolding upload_opened
  upload_opened-Within most e w p (inl err) below h =
      Within-weaken most (suc most) e w (omega arith) h
  upload_opened-Within most e w p (inr s) below h = upload_stream-Within most e w p s below h

  pub write_file-Within :
      (most e : ℕ) (w : Progress R) (p : Bytes) (opened : GoError ⊎ Stream)
      → IsBelow destination p
      → Within most e w
      → Within (suc most) e (write_file client w p opened).0
  unfolding write_file
  write_file-Within most e w p opened below h =
      let made = make_directory-Within most e w (path_dir p) h in
      elim (Option-cases (make_directory client w (path_dir p)).1) [
        | inl n ↦ rw (write_file, n) (upload_opened-Within most e _ p opened below made)
        | inr (err, n) ↦ rw (write_file, n) (Within-weaken most (suc most) e _ (omega arith) made)
      ]

  pub entry-IsBelow :
      (name p : Bytes) → safe_join destination name ≡ joined p → IsBelow destination p
  entry-IsBelow name p e =
      let (at, same, inside, short) = safe_join-within destination name p rooted e in
      (_, (same, inside))

  pub if_Within :
      (most e : ℕ) (b : Bool) (x y : Progress R × Option GoError)
      → Within most e x.0
      → Within most e y.0
      → Within most e (if b then x else y).0
  if_Within most e true x y hx hy = hx
  if_Within most e false x y hx hy = hy

  pub skip-Within :
      (most e : ℕ) (w : Progress R) (name reason : Bytes)
      → Within most e w
      → Within most e (skip client w name reason)
  unfolding skip
  skip-Within most e w name reason h = record {
    files = h.files;
    bytes = h.bytes;
    holds = h.holds;
    spent = h.spent;
    few = h.few;
    counted = h.counted;
  }

  -- After a poll that lets the extraction go on one more entry is counted.
  pub next-Within :
      (e : ℕ) (w : Progress R) (c : Option GoError)
      → (next w.budget c).1 ≡ none
      → Within e e w
      → Within e (suc e) (record w { budget = (next w.budget c).0 }) × (suc e ≤ max_archive_entries)
  unfolding next
  next-Within e w none n h = (
    record {
      files = h.files;
      bytes = h.bytes;
      holds = h.holds;
      spent = h.spent;
      few = h.few;
      counted = ap suc h.counted;
    },
    ground (arith, n, h.counted),
  )
  next-Within e w (some err) n h = absurd (cc)

  pub next-Within_stopped :
      (e : ℕ) (w : Progress R) (c : Option GoError)
      → Within e e w
      → (n : ℕ) × Within e n (record w { budget = (next w.budget c).0 })
  unfolding next
  next-Within_stopped e w none h = (
    suc e,
    record {
      files = h.files;
      bytes = h.bytes;
      holds = h.holds;
      spent = h.spent;
      few = h.few;
      counted = ap suc h.counted;
    },
  )
  next-Within_stopped e w (some err) h = (e, h)

  abbrev pub Bounded : Progress R → Type 0
  Bounded w = (n : ℕ) × Within max_archive_entries n w

  pub stopped :
      (e : ℕ) (w : Progress R) (c : Option GoError)
      → e ≤ max_archive_entries
      → Within e e w
      → Bounded (record w { budget = (next w.budget c).0 })
  stopped e w c le h =
      let (n, k) = next-Within_stopped e w c h in (n, Within-weaken e max_archive_entries n _ le k)
