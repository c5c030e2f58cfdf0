-- ===== src/Staging/Tests.antt =====
-- Runs of the sweeper.
use goblin_ftp.Base.{◌⊎◌, inl, inr, refl, Bool, true, false, [], ◌∷◌, Bytes, codes, some}
use goblin_ftp.Staging.{DirEntry, sweep}
use goblin_ftp.Staging.Ids.{IsStale, Has, sweep_keeps}

abbrev upload_id : Bytes
upload_id = codes "0f8fad5b-d9cb-469f-a165-70867728950e"

abbrev themes : DirEntry
themes = record { name = codes "themes"; is_dir = true; mod_time = some 10; children = some [] }

abbrev old_upload : DirEntry
old_upload = record {
  name = upload_id;
  is_dir = true;
  mod_time = some 10;
  children = some ((codes "0000", false) ∷ []);
}

abbrev keep_text : Bytes → Bytes
keep_text s = s

abbrev nobody : Bytes → Bool
nobody id = false

abbrev always : Bytes → Bool
always id = true

sweep_keeps_example :
    Has themes (sweep keep_text nobody always 100000 (old_upload ∷ themes ∷ []))
    ⊎ IsStale keep_text nobody 100000 themes
sweep_keeps_example =
    sweep_keeps keep_text nobody always 100000 themes (old_upload ∷ themes ∷ []) (inr (inl refl))
