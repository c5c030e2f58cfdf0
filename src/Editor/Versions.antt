-- ===== src/Editor/Versions.antt =====
-- The version that the editor of backend/internal/api/editor.go checks before a save.
use goblin_ftp.Base.{
  ◌≡◌, ◌∙◌, refl, ap, sym, Bool, true, false, not, [], Bytes, bytes_has_eq, bytes_eq_iff, ◌==◌,
  Option, none, some, ◌⊎◌, inl, inr, arith, Sum-cases, ltb, length, if◌then◌else◌,
}
use goblin_ftp.Base.Ints.{ℤ}
use goblin_ftp.Text.Cut.{cut, cut-append}
use goblin_ftp.Text.Decimal.{
  format_int, parse_int, parse_int-format_int, format_int-NoColon, InRange,
}
use goblin_ftp.Errors.{Code}
use goblin_ftp.Errors.Chain.{GoError}
use goblin_ftp.Remote.{FileInfo, StatResult, found, failed, Client, Conn, fail_conn}
use goblin_ftp.Editor.{
  Settings, file_version, version_stat, WriteRequest, check_version, stat_for_version, fail_edit,
  FileMeta, write_checked, write_file, is_editable_extension, trim_dot, path_ext, max_read_size,
}

-- Size and time are 64-bit integers.
abbrev pub HasRange : FileInfo → Type 0
HasRange fi = InRange fi.size × InRange fi.mod_time

some_injective {ℓ} : {A : Type ℓ} {x y : A} → some x ≡ some y → x ≡ y
some_injective e = cc

format_int_injective : (y z : ℤ) → InRange y → InRange z → format_int y ≡ format_int z → y ≡ z
format_int_injective y z hy hz e =
    some_injective (sym (parse_int-format_int y hy) ∙ ap parse_int e ∙ parse_int-format_int z hz)

parts_injective :
    {o : Option (Bytes × Bytes)} {a b c d : Bytes}
    → o ≡ some (a, b)
    → o ≡ some (c, d)
    → (a ≡ c) × (b ≡ d)
parts_injective e f = (cc, cc)

-- Files of one version have one size and one time.
file_version_injective :
    (a b : FileInfo)
    → HasRange a
    → HasRange b
    → file_version a ≡ file_version b
    → (a.size ≡ b.size) × (a.mod_time ≡ b.mod_time)
unfolding file_version
file_version_injective a b ha hb e =
    let parts =
      parts_injective
        (cut-append b':' (format_int a.size) (format_int a.mod_time) (format_int-NoColon a.size))
        (ap (cut b':') e
          ∙ cut-append b':' (format_int b.size) (format_int b.mod_time)
              (format_int-NoColon b.size)) in
    (
      format_int_injective a.size b.size ha.0 hb.0 parts.0,
      format_int_injective a.mod_time b.mod_time ha.1 hb.1 parts.1,
    )

StatResult-cases :
    (s : StatResult) → ((fi : FileInfo) × (s ≡ found fi)) ⊎ ((err : GoError) × (s ≡ failed err))
StatResult-cases (found fi) = inl (fi, refl)
StatResult-cases (failed err) = inr (err, refl)

check_version_sound :
    (expected : Bytes) (s : StatResult)
    → check_version expected (version_stat s) ≡ inr tt
    → (fi : FileInfo) × (s ≡ found fi) × (file_version fi ≡ expected)
unfolding check_version
check_version_sound expected (found fi) h =
    (fi, refl, ground (arith, h, bytes_eq_iff (file_version fi) expected))
check_version_sound expected (failed err) h = absurd (ground (arith, h))

module _ {R : Type 0} (client : Client R) (cfg : Settings) where
  -- The server's file, as the Stat before the save sees it, is of the size and time of `opened`.
  abbrev pub IsUnchanged : R → Bytes → FileInfo → Type 0
  IsUnchanged r path opened =
      (fi : FileInfo) × ((client.stat r path).1 ≡ found fi)
      × (file_version fi ≡ file_version opened)

  save_needs_match :
      (w : Conn R) (req : WriteRequest) (expected : Bytes) (m : FileMeta)
      → req.overwrite ≡ false
      → req.expected_version ≡ some expected
      → (write_checked client cfg w req).1 ≡ inr m
      → check_version expected (version_stat (client.stat w.remote req.path).1) ≡ inr tt
  unfolding write_checked stat_for_version
  save_needs_match w req expected m o e h =
      elim (Sum-cases (check_version expected (version_stat (client.stat w.remote req.path).1))) [
        | inr (u, c) ↦ c
        | inl (failure, c) ↦
            absurd (refused failure (rw (write_checked, o, e, stat_for_version, c) at h))
      ]
    where
      refused :
          (failure : Code × Option GoError)
          → (fail_edit client cfg {A = FileMeta} w (client.stat w.remote req.path).0 failure).1
            ≡ inr m
          → ⊥
      refused (code, none) k = cc
      refused (code, some err) k = unfold fail_conn in cc

  write_file-write_checked :
      (w : Conn R) (req : WriteRequest) (m : FileMeta)
      → (write_file client cfg w req).1 ≡ inr m
      → (write_checked client cfg w req).1 ≡ inr m
  unfolding write_file
  write_file-write_checked w req m h = ground arith

  -- Where the sizes and times that Stat gives are 64-bit integers, a save that is not to overwrite and
  -- names the version of the file that was opened succeeds only if Stat finds a file of the same size
  -- and modification time at the path before the upload.
  pub write_file-IsUnchanged :
      (w : Conn R) (req : WriteRequest) (opened : FileInfo) (m : FileMeta)
      → ((fi : FileInfo) → (client.stat w.remote req.path).1 ≡ found fi → HasRange fi)
      → HasRange opened
      → req.overwrite ≡ false
      → req.expected_version ≡ some (file_version opened)
      → (write_file client cfg w req).1 ≡ inr m
      → (fi : FileInfo) × ((client.stat w.remote req.path).1 ≡ found fi)
        × ((fi.size ≡ opened.size) × (fi.mod_time ≡ opened.mod_time))
  write_file-IsUnchanged w req opened m range ho o e h =
      let (fi, s, v) =
        check_version_sound (file_version opened) (client.stat w.remote req.path).1 (
          save_needs_match w req (file_version opened) m o e
            (write_file-write_checked w req m h)) in
      (fi, s, file_version_injective fi opened (range fi s) ho v)

  -- The answer is an error, and the server is as it was, or as the Stat of the path has left it.
  pub record IsUnsaved (w : Conn R) (path : Bytes) (r : Conn R × (Code ⊎ FileMeta)) : Type 0 where
    pub remote : (r.0.remote ≡ w.remote) ⊎ (r.0.remote ≡ (client.stat w.remote path).0)
    pub refused : (code : Code) × (r.1 ≡ inl code)

  at_once : (w : Conn R) (path : Bytes) (code : Code) → IsUnsaved w path (w, inl code)
  at_once w path code = record { remote = inl refl; refused = (code, refl) }

  fail_edit-IsUnsaved :
      (w : Conn R) (path : Bytes) (failure : Code × Option GoError)
      → IsUnsaved w path (fail_edit client cfg w (client.stat w.remote path).0 failure)
  unfolding fail_conn
  fail_edit-IsUnsaved w path (code, none) = record { remote = inr refl; refused = (code, refl) }
  fail_edit-IsUnsaved w path (code, some err) = record { remote = inr refl; refused = (_, refl) }

  -- The file is not the one that was opened: its size or time is another, or Stat fails.
  abbrev pub IsChanged : FileInfo → StatResult → Type 0
  IsChanged opened (found fi) =
      HasRange fi × ((fi.size ≡ opened.size) × (fi.mod_time ≡ opened.mod_time) → ⊥)
  IsChanged opened (failed err) = Unit

  check_version-IsChanged :
      (opened : FileInfo) (s : StatResult)
      → HasRange opened
      → IsChanged opened s
      → check_version (file_version opened) (version_stat s) ≡ inr tt
      → ⊥
  check_version-IsChanged opened (found fi) ho (hf, changed) c =
      let (other, same, v) = check_version_sound (file_version opened) (found fi) c in
      changed (file_version_injective fi opened hf ho (ap file_version (found_injective same) ∙ v))
    where
      found_injective : {a b : FileInfo} → found a ≡ found b → a ≡ b
      found_injective e = cc
  check_version-IsChanged opened (failed err) ho u c =
      no_file (check_version_sound (file_version opened) (failed err) c)
    where
      no_file :
          (fi : FileInfo) × (failed err ≡ found fi) × (file_version fi ≡ file_version opened) → ⊥
      no_file (fi, e, v) = cc

  write_checked-IsUnsaved :
      (w : Conn R) (req : WriteRequest) (opened : FileInfo)
      → HasRange opened
      → IsChanged opened (client.stat w.remote req.path).1
      → req.overwrite ≡ false
      → req.expected_version ≡ some (file_version opened)
      → IsUnsaved w req.path (write_checked client cfg w req)
  unfolding write_checked stat_for_version
  write_checked-IsUnsaved w req opened ho changed o e =
      elim (Sum-cases
        (check_version (file_version opened) (version_stat (client.stat w.remote req.path).1))) [
          | inr (u, c) ↦ absurd (check_version-IsChanged opened _ ho changed c)
          | inl (failure, c) ↦
              rw (write_checked, o, e, stat_for_version, c) (fail_edit-IsUnsaved w req.path failure)
        ]

  -- The guards before the check, in order.
  guards-IsUnsaved :
      (w : Conn R) (path : Bytes) (b1 b2 b3 b4 : Bool) (rest : Conn R × (Code ⊎ FileMeta))
      → IsUnsaved w path rest
      → IsUnsaved w path (
          if b1
          then (w, inl Code.editor_disabled)
          else if b2
          then (w, inl Code.bad_request)
          else if b3
          then (w, inl Code.editor_disabled)
          else if b4
          then (w, inl Code.file_too_large)
          else rest)
  guards-IsUnsaved w path true b2 b3 b4 rest h = at_once w path Code.editor_disabled
  guards-IsUnsaved w path false true b3 b4 rest h = at_once w path Code.bad_request
  guards-IsUnsaved w path false false true b4 rest h = at_once w path Code.editor_disabled
  guards-IsUnsaved w path false false false true rest h = at_once w path Code.file_too_large
  guards-IsUnsaved w path false false false false rest h = h

  -- A save that is not to overwrite and names the version of the file that was opened, while Stat
  -- fails or finds a file of another size or modification time at the path, is answered by an error,
  -- and the server is as it was or as that Stat has left it: nothing is uploaded. Sizes and times are
  -- 64-bit integers.
  pub write_file-IsUnsaved :
      (w : Conn R) (req : WriteRequest) (opened : FileInfo)
      → HasRange opened
      → IsChanged opened (client.stat w.remote req.path).1
      → req.overwrite ≡ false
      → req.expected_version ≡ some (file_version opened)
      → IsUnsaved w req.path (write_file client cfg w req)
  unfolding write_file
  write_file-IsUnsaved w req opened ho changed o e =
      guards-IsUnsaved w req.path cfg.view_only (req.path == [])
        (not (is_editable_extension cfg (trim_dot (path_ext req.path))))
        (ltb max_read_size (length req.content)) (write_checked client cfg w req)
        (write_checked-IsUnsaved w req opened ho changed o e)
