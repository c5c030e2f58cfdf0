-- ===== src/Remote.antt =====
-- backend/internal/transfer/client.go: the protocol client as an interface, a record of functions
-- over the state `R` of the server's files; ensureDirAll of backend/internal/api/files.go.
pub mod Keeps
use goblin_ftp.Base.{
  ℕ, zero, suc, Bool, true, false, not, ◌||◌, List, [], ◌∷◌, Bytes, bytes_has_eq, ◌==◌,
  if◌then◌else◌, Option, none, some, ◌⊎◌, inl, inr, length, codes,
}
use goblin_ftp.Errors.{Code}
use goblin_ftp.Errors.Chain.{Sentinel, GoError, leaf, other, is}
use goblin_ftp.Errors.Classify.{fail_client}
use goblin_ftp.Text.{slash, clean, path_dir, dot}
use goblin_ftp.Base.Ints.{ℤ}
use goblin_ftp.Auth.Session.{Session}

pub record FileInfo : Type 0 where
  pub name : Bytes
  pub size : ℤ
  pub is_dir : Bool
  pub mod_time : ℤ

pub data StatResult : Type 0 where
  found : FileInfo → StatResult
  failed : GoError → StatResult

-- What a reader gives: its bytes, then whether reading or closing failed.
pub record Reader : Type 0 where
  pub content : Bytes
  pub read_failed : Bool
  pub close_failed : Bool

pub record Client (R : Type 0) : Type 0 where
  pub list : R → Bytes → R × (GoError ⊎ List FileInfo)
  pub stat : R → Bytes → R × StatResult
  pub make_dir : R → Bytes → R × Option GoError
  pub delete : R → Bytes → R × Option GoError
  pub rename : R → Bytes → Bytes → R × Option GoError
  pub chmod : R → Bytes → ℕ → R × Option GoError
  pub download : R → Bytes → R × (GoError ⊎ Reader)
  pub upload : R → Bytes → Reader → R × Option GoError

-- A session with a client, and the server's files.
pub record Conn (R : Type 0) : Type 0 where
  pub session : Session
  pub remote : R

-- failClient, of which only the code is kept.
unfoldable pub fail_conn {ℓ} :
    {R : Type 0} {A : Type ℓ} → (Bytes → Bytes) → Conn R → Code → GoError → Conn R × (Code ⊎ A)
fail_conn to_lower w code err =
    let (session, e) = fail_client to_lower w.session code (some err) in
    (record w { session = session }, inl e.code)

module _ {R : Type 0} (client : Client R) where
  abbrev parent_error : GoError
  parent_error = leaf other (codes "destination parent exists and is not a directory")

  abbrev pub is_directory : StatResult → Bool
  is_directory (found info) = info.is_dir
  is_directory (failed err) = false

  abbrev pub make_last : R → Bytes → R × (GoError ⊎ Bool)
  make_last r dir =
      let (r', made) = client.make_dir r dir in
      elim made [
        | none ↦ (r', inr true)
        | some err ↦
            let (r'', again) = client.stat r' dir in
            (r'', if is_directory again then inr false else inl err)
      ]

  abbrev pub after_parent : R → GoError ⊎ Bool → Bytes → R × (GoError ⊎ Bool)
  after_parent r (inl e) dir = (r, inl e)
  after_parent r (inr created) dir = make_last r dir

  -- What follows the Stat of `dir`, which led to `r`; `r'` and `above` come of creating the parent.
  abbrev pub after_stat : R → StatResult → R → GoError ⊎ Bool → Bytes → R × (GoError ⊎ Bool)
  after_stat r (found info) r' above dir = (r, if info.is_dir then inr false else inl parent_error)
  after_stat r (failed err) r' above dir =
      if not (is err Sentinel.not_found) then (r, inl err) else after_parent r' above dir

  -- `inr` says whether anything was created. The fuel is at least the length of the path.
  unfoldable pub ensure_dir_all_created : ℕ → R → Bytes → R × (GoError ⊎ Bool)
  ensure_dir_all_created zero r p = (r, inr false)
  ensure_dir_all_created (suc fuel) r p =
      let dir = clean p in
      let (r1, result) = client.stat r dir in
      let parent = path_dir dir in
      let (r2, above) =
        if parent == dir then (r1, inr false) else ensure_dir_all_created fuel r1 parent in
      if dir == slash ∷ [] || dir == dot || dir == []
      then (r, inr false)
      else after_stat r1 result r2 above dir

  unfoldable pub ensure_dir_all : R → Bytes → R × Option GoError
  ensure_dir_all r dir =
      let (r', result) = ensure_dir_all_created (suc (length dir)) r dir in
      (r', elim result [ inl e ↦ some e | inr created ↦ none ])
