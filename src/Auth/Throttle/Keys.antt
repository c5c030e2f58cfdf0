-- ===== src/Auth/Throttle/Keys.antt =====
-- Eviction in throttle.go: in a map without the empty key, evictLocked takes out as many entries
-- as it means to.
use goblin_ftp.Base.{
  ℕ, zero, suc, ◌-◌, ◌≤◌, ◌<◌, ◌≡◌, ◌≢◌, refl, sym, subst, ◌⊎◌, inl, inr, Bool, true, false, ◌||◌,
  [], ◌∷◌, Bytes, ltb, ◌==◌, bytes_has_eq, bytes_eq_iff, length, arith, All, Bool-cases,
}
use goblin_ftp.Base.Map.{Map, erase, length-erase, erase-All}
use goblin_ftp.Auth.Throttle.{Entry, drop_expired, soonest, drop_soonest}

abbrev pub Keyed : Map Bytes ℕ → Type 0
Keyed m = All (λ e. e.0 ≢ []) m

-- The key is one of the map's.
abbrev Has : Bytes → Map Bytes ℕ → Type 0
Has k [] = ⊥
Has k (e ∷ m) = (e.0 ≡ k) ⊎ Has k m

length-erase-lt : (k : Bytes) (m : Map Bytes ℕ) → Has k m → length (erase k m) < length m
unfolding erase
length-erase-lt k [] h = elim h [ ]
length-erase-lt k ((j, p) ∷ m) (inl e) = ground (arith, bytes_eq_iff j k, length-erase k m)
length-erase-lt k ((j, p) ∷ m) (inr h) = ground (arith, length-erase-lt k m h)

pub erase-Keyed : (k : Bytes) (m : Map Bytes ℕ) → Keyed m → Keyed (erase k m)
erase-Keyed k m h = erase-All (λ e. e.0 ≢ []) k m h

pub drop_expired-Keyed :
    (cells : ℕ → Entry) (now : ℕ) (m : Map Bytes ℕ) → Keyed m → Keyed (drop_expired cells now m)
unfolding drop_expired
drop_expired-Keyed cells now [] h = tt
drop_expired-Keyed cells now ((j, p) ∷ m) (n, h) = ground (arith, drop_expired-Keyed cells now m h)

pub length-drop_expired :
    (cells : ℕ → Entry) (now : ℕ) (m : Map Bytes ℕ) → length (drop_expired cells now m) ≤ length m
unfolding drop_expired
length-drop_expired cells now [] = omega arith
length-drop_expired cells now ((j, p) ∷ m) = ground (arith, length-drop_expired cells now m)

takes : (ℕ → Entry) → Bytes → ℕ → ℕ → Bool
takes cells k o p = k == [] || ltb (cells p).expires_at o

soonest_take :
    (cells : ℕ → Entry) (k j : Bytes) (o p : ℕ) (m : Map Bytes ℕ)
    → takes cells k o p ≡ true
    → soonest cells k o ((j, p) ∷ m) ≡ soonest cells j (cells p).expires_at m
unfolding soonest takes
soonest_take cells k j o p m h = rw h

soonest_keep :
    (cells : ℕ → Entry) (k j : Bytes) (o p : ℕ) (m : Map Bytes ℕ)
    → takes cells k o p ≡ false
    → soonest cells k o ((j, p) ∷ m) ≡ soonest cells k o m
unfolding soonest takes
soonest_keep cells k j o p m h = rw h

-- The fold keeps its key or takes one of the map's.
soonest-Has :
    (cells : ℕ → Entry) (k : Bytes) (o : ℕ) (m : Map Bytes ℕ)
    → (soonest cells k o m ≡ k) ⊎ Has (soonest cells k o m) m
soonest-Has cells k o [] = inl (unfold soonest in refl)
soonest-Has cells k o ((j, p) ∷ m) = elim (Bool-cases (takes cells k o p)) [
  | inl t ↦
      subst Found (sym (soonest_take cells k j o p m t))
        (taken _ (soonest-Has cells j (cells p).expires_at m))
  | inr f ↦ subst Found (sym (soonest_keep cells k j o p m f)) (kept _ (soonest-Has cells k o m))
]
  where
    Found : Bytes → Type 0
    Found x = (x ≡ k) ⊎ ((j ≡ x) ⊎ Has x m)

    taken : (x : Bytes) → (x ≡ j) ⊎ Has x m → (x ≡ k) ⊎ ((j ≡ x) ⊎ Has x m)
    taken x (inl e) = inr (inl (sym e))
    taken x (inr h) = inr (inr h)

    kept : (x : Bytes) → (x ≡ k) ⊎ Has x m → (x ≡ k) ⊎ ((j ≡ x) ⊎ Has x m)
    kept x (inl e) = inl e
    kept x (inr h) = inr (inr h)

soonest-ne-nil :
    (cells : ℕ → Entry) (k : Bytes) (o : ℕ) (m : Map Bytes ℕ)
    → Keyed m
    → k ≢ []
    → soonest cells k o m ≢ []
unfolding soonest takes
soonest-ne-nil cells k o [] h ne = ne
soonest-ne-nil cells k o ((j, p) ∷ m) (n, h) ne = elim (Bool-cases (takes cells k o p)) [
  | inl t ↦ rw t (soonest-ne-nil cells j (cells p).expires_at m h n)
  | inr f ↦ rw f (soonest-ne-nil cells k o m h ne)
]

-- In a map without the empty key the search ends at a key of the map.
soonest-found :
    (cells : ℕ → Entry) (e : Bytes × ℕ) (m : Map Bytes ℕ)
    → Keyed (e ∷ m)
    → (soonest cells [] 0 (e ∷ m) ≢ []) × Has (soonest cells [] 0 (e ∷ m)) (e ∷ m)
unfolding soonest
soonest-found cells (j, p) m (n, h) = (
  soonest-ne-nil cells j (cells p).expires_at m h n,
  elim (soonest-Has cells j (cells p).expires_at m) [ inl e ↦ inl (sym e) | inr k ↦ inr k ],
)

pub drop_soonest-Keyed :
    (n : ℕ) (cells : ℕ → Entry) (m : Map Bytes ℕ) → Keyed m → Keyed (drop_soonest n cells m)
unfolding drop_soonest
drop_soonest-Keyed zero cells m h = h
drop_soonest-Keyed (suc n) cells m h = ground (
  arith,
  drop_soonest-Keyed n cells (erase (soonest cells [] 0 m) m)
      (erase-Keyed (soonest cells [] 0 m) m h),
)

-- Each round takes an entry out, as long as there is one.
pub length-drop_soonest :
    (n : ℕ) (cells : ℕ → Entry) (m : Map Bytes ℕ)
    → Keyed m
    → length (drop_soonest n cells m) ≤ length m - n
unfolding drop_soonest
length-drop_soonest zero cells m h = omega arith
length-drop_soonest (suc n) cells [] h = unfold soonest in omega arith
length-drop_soonest (suc n) cells (e ∷ m) h =
    let (ne, has) = soonest-found cells e m h in
    let k = soonest cells [] 0 (e ∷ m) in
    let shorter = length-erase-lt k (e ∷ m) has in
    let ih = length-drop_soonest n cells (erase k (e ∷ m)) (erase-Keyed k (e ∷ m) h) in
    ground (arith, bytes_eq_iff k [], ne, shorter, ih)
