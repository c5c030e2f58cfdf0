-- ===== src/Staging/Ids.antt =====
-- What an upload identifier may hold, and what the sweeper takes away.
use goblin_ftp.Base.{
  ℕ, zero, suc, ◌+◌, ◌-◌, ◌≡◌, ◌⊎◌, refl, Bool, true, false, ◌&&◌, List, [], ◌∷◌, Bytes, arith,
  length, subst, inl, inr, Bool-cases,
}
use goblin_ftp.Text.{slash, contains}
use goblin_ftp.Staging.{
  matches, validate_upload_id, DirEntry, stale_after, is_recent, holds_only_chunks, is_reclaimable,
  sweep,
}

unfoldable pub sum : List ℕ → ℕ
sum [] = 0
sum (n ∷ ns) = suc n + sum ns

matches_safe :
    (n : ℕ) (ns : List ℕ) (s : Bytes)
    → matches n ns s ≡ true
    → (length s ≡ n + sum ns) × (contains slash s ≡ false) × (contains b'.' s ≡ false)
unfolding matches sum contains
matches_safe zero [] [] h = (omega arith, refl, refl)
matches_safe zero [] (b ∷ s) h = ground arith
matches_safe zero (n ∷ ns) [] h = ground arith
matches_safe zero (n ∷ ns) (b ∷ s) h = ground (arith, matches_safe n ns s)
matches_safe (suc n) ns [] h = ground arith
matches_safe (suc n) ns (b ∷ s) h = ground (arith, matches_safe n ns s)

-- An upload identifier that is accepted has 36 bytes, none of which is a slash or a dot, so it
-- names an entry of the data directory and leads nowhere else.
pub validate_upload_id_safe :
    (id : Bytes)
    → validate_upload_id id ≡ true
    → (length id ≡ 36) × (contains slash id ≡ false) × (contains b'.' id ≡ false)
unfolding validate_upload_id sum
validate_upload_id_safe id h =
    let (l, s, d) = matches_safe 8 (4 ∷ 4 ∷ 4 ∷ 12 ∷ []) id h in (omega (arith, l), s, d)

-- A directory that may be taken away.
abbrev pub IsStale : (Bytes → Bytes) → (Bytes → Bool) → ℕ → DirEntry → Type 0
IsStale trim_space in_use now entry =
    (entry.is_dir ≡ true)
    × (validate_upload_id entry.name ≡ true)
    × (in_use entry.name ≡ false)
    × (is_recent trim_space (now - stale_after) entry.mod_time ≡ false)
    × (holds_only_chunks trim_space entry.children ≡ true)

stale :
    (trim_space : Bytes → Bytes) (in_use : Bytes → Bool) (now : ℕ) (entry : DirEntry)
    → is_reclaimable trim_space in_use (now - stale_after) entry ≡ true
    → IsStale trim_space in_use now entry
unfolding is_reclaimable
stale trim_space in_use now entry h = ground arith

-- The entry is one of the list's.
abbrev pub Has : DirEntry → List DirEntry → Type 0
Has e [] = ⊥
Has e (x ∷ xs) = (x ≡ e) ⊎ Has e xs

-- A pass of the sweeper keeps every entry of the data directory, but for those that are
-- directories with the name of an upload, old enough, of no live session, and with nothing but
-- chunks in them.
pub sweep_keeps :
    (trim_space : Bytes → Bytes) (in_use removed : Bytes → Bool) (now : ℕ) (e : DirEntry)
    (entries : List DirEntry)
    → Has e entries
    → Has e (sweep trim_space in_use removed now entries) ⊎ IsStale trim_space in_use now e
unfolding sweep
sweep_keeps trim_space in_use removed now e [] h = elim h [ ]
sweep_keeps trim_space in_use removed now e (x ∷ xs) h =
    elim (Bool-cases (
      is_reclaimable trim_space in_use (now - stale_after) x
      && (validate_upload_id x.name && removed x.name))) [
        | inr f ↦ rw f (kept (sweep_keeps trim_space in_use removed now e xs) h)
        | inl t ↦ rw t (
            gone (stale trim_space in_use now x (ground arith))
              (sweep_keeps trim_space in_use removed now e xs) h)
      ]
  where
    kept :
        (Has e xs
          → Has e (sweep trim_space in_use removed now xs) ⊎ IsStale trim_space in_use now e)
        → (x ≡ e) ⊎ Has e xs
        → ((x ≡ e) ⊎ Has e (sweep trim_space in_use removed now xs))
          ⊎ IsStale trim_space in_use now e
    kept ih (inl q) = inl (inl q)
    kept ih (inr q) = elim (ih q) [ inl k ↦ inl (inr k) | inr s ↦ inr s ]

    gone :
        IsStale trim_space in_use now x
        → (Has e xs
            → Has e (sweep trim_space in_use removed now xs) ⊎ IsStale trim_space in_use now e)
        → (x ≡ e) ⊎ Has e xs
        → Has e (sweep trim_space in_use removed now xs) ⊎ IsStale trim_space in_use now e
    gone s ih (inl q) = inr (subst (IsStale trim_space in_use now) q s)
    gone s ih (inr q) = ih q
