-- ===== src/Upload/Suggestions.antt =====
-- The names that UploadCheck suggests: uniqueName always finds a free one, and no two suggestions
-- of one directory clash.
use goblin_ftp.Base.{
  ℕ, zero, suc, ◌≡◌, ◌≢◌, ◌≤◌, ◌<◌, ◌∙◌, refl, ap, sym, Bool, true, false, ◌||◌, List, [], ◌∷◌,
  ◌++◌, map, Bytes, bytes_has_eq, Option, none, some, inl, inr, All, All-weaken, length, arith,
  Bool-cases, Option-cases, codes, if◌then◌else◌,
}
use goblin_ftp.Base.Map.{Map, lookup, insert, lookup-insert}
use goblin_ftp.Base.Sets.{member, remove, length-remove-member, member-remove}
use goblin_ftp.Text.{path_base}
use goblin_ftp.Text.Decimal.{itoa, IsDigit, itoa-IsDigit, itoa_injective}
use goblin_ftp.Text.Cut.{cut, cut-append}
use goblin_ftp.Remote.{FileInfo}
use goblin_ftp.Upload.Conflicts.{
  Conflict, split_extension, candidate, key_of, unique_loop, unique_name, find_conflicts,
  taken_names, index_entries, directory_conflicts,
}

-- What strings.ToLower does around ASCII: it maps every character for itself, and leaves those
-- below "A" as they are.
pub record IsLower (to_lower : Bytes → Bytes) : Type 0 where
  pub lower-append :
      (a b : Bytes) (c : ℕ) → c < 128 → to_lower (a ++ (c ∷ b)) ≡ to_lower a ++ to_lower (c ∷ b)
  pub lower_small : (c : ℕ) (s : Bytes) → c < 65 → to_lower (c ∷ s) ≡ c ∷ to_lower s

append_cancel : (a x y : Bytes) → a ++ x ≡ a ++ y → x ≡ y
append_cancel [] x y e = e
append_cancel (c ∷ a) x y e = append_cancel a x y (cc (e))

digits_injective : (i j : ℕ) (s : Bytes) → itoa i ++ (b')' ∷ s) ≡ itoa j ++ (b')' ∷ s) → i ≡ j
digits_injective i j s e = itoa_injective i j (
    ground (
      arith,
      ap (cut b')') e,
      cut-append b')' (itoa i) s (no_bracket i),
      cut-append b')' (itoa j) s (no_bracket j),
    ))
  where
    no_bracket : (n : ℕ) → All (λ c. c ≢ b')') (itoa n)
    no_bracket n =
        All-weaken IsDigit (λ c. c ≢ b')') (itoa n) (λ c d. omega (arith, d)) (itoa-IsDigit n)

module _ (to_lower : Bytes → Bytes) (lower : IsLower to_lower) where
  lower_digits : (s t : Bytes) → All IsDigit s → to_lower (s ++ t) ≡ s ++ to_lower t
  lower_digits [] t h = refl
  lower_digits (c ∷ s) t h =
      lower.lower_small c (s ++ t) (omega (arith, h.0)) ∙ ap (◌∷◌ c) (lower_digits s t h.1)

  -- The key of a candidate shows its number between fixed texts.
  key_of-candidate :
      (folds : Bool) (base ext : Bytes) (i : ℕ)
      → key_of to_lower folds (candidate base ext i)
        ≡ key_of to_lower folds base
          ++ (codes " (" ++ (itoa i ++ (b')' ∷ key_of to_lower folds ext)))
  unfolding key_of candidate
  key_of-candidate false base ext i = refl
  key_of-candidate true base ext i =
      lower.lower-append base _ b' ' (omega arith)
      ∙ ap (◌++◌ (to_lower base)) (
          lower.lower_small b' ' _ (omega arith)
          ∙ ap (◌∷◌ b' ') (
              lower.lower_small b'(' _ (omega arith)
              ∙ ap (◌∷◌ b'(') (
                  lower_digits (itoa i) _ (itoa-IsDigit i)
                  ∙ ap (◌++◌ (itoa i)) (lower.lower_small b')' ext (omega arith)))))

  candidate_injective :
      (folds : Bool) (base ext : Bytes) (i j : ℕ)
      → key_of to_lower folds (candidate base ext i) ≡ key_of to_lower folds (candidate base ext j)
      → i ≡ j
  candidate_injective folds base ext i j e = digits_injective i j (key_of to_lower folds ext) (
      append_cancel (codes " (") _ _ (
        append_cancel (key_of to_lower folds base) _ _
          (sym (key_of-candidate folds base ext i) ∙ e ∙ key_of-candidate folds base ext j)))

  -- The candidates from `k` on that are taken are all in `left`.
  unique_loop_free :
      (fuel : ℕ) (folds : Bool) (taken left : List Bytes) (base ext : Bytes) (k : ℕ)
      → length left < fuel
      → ((i : ℕ)
          → k ≤ i
          → member (key_of to_lower folds (candidate base ext i)) taken ≡ true
          → member (key_of to_lower folds (candidate base ext i)) left ≡ true)
      → member (key_of to_lower folds (unique_loop to_lower fuel folds taken base ext k)) taken
        ≡ false
  unfolding unique_loop
  unique_loop_free zero folds taken left base ext k h f = absurd (omega (arith, h))
  unique_loop_free (suc fuel) folds taken left base ext k h f =
      let key : ℕ → Bytes = λ i. key_of to_lower folds (candidate base ext i) in
      elim (Bool-cases (member (key k) taken)) [
        | inr n ↦ rw (unique_loop, n) n
        | inl t ↦
            rw (unique_loop, t)
              (unique_loop_free fuel folds taken (remove (key k) left) base ext (suc k)
                (omega (arith, h, length-remove-member (key k) left (f k (omega arith) t)))
                (λ i le m.
                  member-remove (key k) (key i) left
                    (λ e. absurd (omega (arith, candidate_injective folds base ext i k e, le)))
                    (f i (omega (arith, le)) m)))
      ]

  -- uniqueName ends with a name that is not taken, for a strings.ToLower that maps each ASCII
  -- character for itself and leaves those below "A" as they are.
  pub unique_name-IsFree :
      (name : Bytes) (taken : List Bytes) (folds : Bool)
      → member (key_of to_lower folds (unique_name to_lower name taken folds)) taken ≡ false
  unfolding unique_name
  unique_name-IsFree name taken folds =
      elim (Bool-cases (member (key_of to_lower folds name) taken)) [
        | inr n ↦ rw (unique_name, n) n
        | inl t ↦
            rw (unique_name, t)
              (unique_loop_free (suc (length taken)) folds taken taken (split_extension name).0
                (split_extension name).1 1 (omega arith) (λ i le m. m))
      ]

abbrev is_some {ℓ} : {A : Type ℓ} → Option A → Bool
is_some none = false
is_some (some a) = true

abbrev keep_if : (Bytes → Bool) → List Bytes → List Bytes
keep_if test [] = []
keep_if test (p ∷ ps) = if test p then p ∷ keep_if test ps else keep_if test ps

module _ (to_lower : Bytes → Bytes) (folds : Bool) where
  abbrev key : Bytes → Bytes
  key = key_of to_lower folds

  abbrev exists_in : List FileInfo → Bytes → Bool
  exists_in entries p = member (key (path_base p)) (map (λ info. key info.name) entries)

  -- Each suggestion is free of the taken names and of the suggestions before it.
  abbrev pub AreFresh : List Bytes → List Conflict → Type 0
  AreFresh taken [] = Unit
  AreFresh taken (c ∷ cs) =
      (member (key c.suggested_name) taken ≡ false) × AreFresh (key c.suggested_name ∷ taken) cs

  pub record IsReport (entries : List FileInfo) (paths : List Bytes) (cs : List Conflict)
      : Type 0 where
    pub exact : map (λ c. c.path) cs ≡ keep_if (exists_in entries) paths
    pub fresh : AreFresh (taken_names to_lower folds entries paths) cs

  lookup-index_entries :
      (k : Bytes) (entries : List FileInfo) (m : Map Bytes FileInfo)
      → is_some (lookup k (index_entries to_lower folds entries m))
        ≡ (member k (map (λ info. key info.name) entries) || is_some (lookup k m))
  unfolding index_entries member
  lookup-index_entries k [] m = refl
  lookup-index_entries k (info ∷ entries) m =
      lookup-index_entries k entries (insert (key info.name) info m)
      ∙ ground (arith, lookup-insert (key info.name) k info m)

  find_conflicts_exact :
      (entries : List FileInfo) (taken paths : List Bytes)
      → map
          (λ c. c.path)
          (find_conflicts to_lower folds (index_entries to_lower folds entries []) taken paths)
        ≡ keep_if (exists_in entries) paths
  unfolding find_conflicts lookup
  find_conflicts_exact entries taken [] = refl
  find_conflicts_exact entries taken (p ∷ ps) =
      let seen = lookup-index_entries (key (path_base p)) entries [] in
      elim (Option-cases (lookup (key (path_base p)) (index_entries to_lower folds entries []))) [
        | inl e ↦
            rw (find_conflicts, e) (ground (arith, e, seen, find_conflicts_exact entries taken ps))
        | inr (info, e) ↦
            let suggested = key (unique_name to_lower (path_base p) taken folds) in
            rw (find_conflicts, e)
              (ground (arith, e, seen, find_conflicts_exact entries (suggested ∷ taken) ps))
      ]

  find_conflicts_fresh :
      IsLower to_lower
      → (existing : Map Bytes FileInfo) (taken paths : List Bytes)
      → AreFresh taken (find_conflicts to_lower folds existing taken paths)
  unfolding find_conflicts
  find_conflicts_fresh lower existing taken [] = tt
  find_conflicts_fresh lower existing taken (p ∷ ps) =
      elim (Option-cases (lookup (key (path_base p)) existing)) [
        | inl e ↦ rw (find_conflicts, e) (find_conflicts_fresh lower existing taken ps)
        | inr (info, e) ↦
            rw (find_conflicts, e)
              (
                unique_name-IsFree to_lower lower (path_base p) taken folds,
                find_conflicts_fresh lower existing
                    (key (unique_name to_lower (path_base p) taken folds) ∷ taken) ps,
              )
      ]

  -- The conflicts of a directory are the paths of the batch whose names it has, in their order,
  -- and each suggested name is free: the directory does not have it, the batch does not write it,
  -- and no other conflict suggests it, for a strings.ToLower that maps each ASCII character for
  -- itself and leaves those below "A" as they are.
  pub directory_conflicts-IsReport :
      IsLower to_lower
      → (entries : List FileInfo) (paths : List Bytes)
      → IsReport entries paths (directory_conflicts to_lower folds entries paths)
  unfolding directory_conflicts
  directory_conflicts-IsReport lower entries paths = record {
    exact = find_conflicts_exact entries (taken_names to_lower folds entries paths) paths;
    fresh =
        find_conflicts_fresh lower (index_entries to_lower folds entries [])
          (taken_names to_lower folds entries paths) paths;
  }
