-- ===== src/Remote/Keeps.antt =====
-- What ensureDirAll of backend/internal/api/files.go leaves as it is: whatever a Stat and a MakeDir
-- do.
use goblin_ftp.Base.{
  ℕ, zero, suc, ◌≡◌, refl, Bool, true, false, Bytes, bytes_has_eq, ◌==◌, if◌then◌else◌, inl, inr,
  Option-cases, ◌⊎◌, ◌||◌, not, [], ◌∷◌, length,
}
use goblin_ftp.Errors.Chain.{Sentinel, GoError, is}
use goblin_ftp.Text.{slash, clean, path_dir, dot}
use goblin_ftp.Remote.{
  StatResult, found, failed, FileInfo, Client, make_last, after_parent, after_stat, ensure_dir_all,
  ensure_dir_all_created,
}

pub StatResult-cases :
    (s : StatResult) → ((info : FileInfo) × (s ≡ found info)) ⊎ ((err : GoError) × (s ≡ failed err))
StatResult-cases (found info) = inl (info, refl)
StatResult-cases (failed err) = inr (err, refl)

module _ {R : Type 0} (client : Client R) (I : R → Type 0)
    (stat_keeps : (r : R) (p : Bytes) → I r → I (client.stat r p).0)
    (make_dir_keeps : (r : R) (p : Bytes) → I r → I (client.make_dir r p).0) where
  if_keeps {ℓ} : {A : Type ℓ} (b : Bool) (x y : R × A) → I x.0 → I y.0 → I (if b then x else y).0
  if_keeps true x y hx hy = hx
  if_keeps false x y hx hy = hy

  make_last_keeps : (r : R) (dir : Bytes) → I r → I (make_last client r dir).0
  make_last_keeps r dir h = elim (Option-cases (client.make_dir r dir).1) [
    | inl e ↦ rw (make_last, e) (make_dir_keeps r dir h)
    | inr (err, e) ↦ rw (make_last, e) (stat_keeps _ dir (make_dir_keeps r dir h))
  ]

  after_parent_keeps :
      (r : R) (above : GoError ⊎ Bool) (dir : Bytes) → I r → I (after_parent client r above dir).0
  after_parent_keeps r (inl e) dir h = h
  after_parent_keeps r (inr created) dir h = make_last_keeps r dir h

  after_stat_keeps :
      (r : R) (result : StatResult) (r' : R) (above : GoError ⊎ Bool) (dir : Bytes)
      → I r
      → I r'
      → I (after_stat client r result r' above dir).0
  after_stat_keeps r (found info) r' above dir h h' = h
  after_stat_keeps r (failed err) r' above dir h h' =
      if_keeps (not (is err Sentinel.not_found)) _ _ h (after_parent_keeps r' above dir h')

  ensure_dir_all_created_keeps :
      (fuel : ℕ) (r : R) (p : Bytes) → I r → I (ensure_dir_all_created client fuel r p).0
  unfolding ensure_dir_all_created
  ensure_dir_all_created_keeps zero r p h = h
  ensure_dir_all_created_keeps (suc fuel) r p h =
      let dir = clean p in
      let h1 = stat_keeps r dir h in
      if_keeps (dir == slash ∷ [] || dir == dot || dir == []) (r, inr false) _ h
        (after_stat_keeps _ (client.stat r dir).1 _ _ dir h1 (
          if_keeps (path_dir dir == dir) _ _ h1
            (ensure_dir_all_created_keeps fuel _ (path_dir dir) h1)))

  pub ensure_dir_all_keeps : (r : R) (p : Bytes) → I r → I (ensure_dir_all client r p).0
  unfolding ensure_dir_all
  ensure_dir_all_keeps r p h = ensure_dir_all_created_keeps (suc (length p)) r p h
