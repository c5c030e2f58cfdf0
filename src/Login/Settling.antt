-- ===== src/Login/Settling.antt =====
-- What the throttle hands out to a login of backend/internal/api/connect.go, and how it is settled.
use goblin_ftp.Base.{
  All-get_elem?, set-append_last, ℕ, ◌≡◌, ◌∙◌, refl, ap, sym, subst, Bool, true, false, [], ◌∷◌,
  ◌++◌, Bytes, Option, none, some, inl, inr, All, All-append, length, bytes_has_eq, get_elem?,
  get_elem?-append_last, set, arith, Bool-cases, Option-cases,
}
use goblin_ftp.Base.Map.{lookup}
use goblin_ftp.Auth.Throttle
use goblin_ftp.Auth.Throttle.{Throttle, Settle}

-- Every settle function that the throttle has handed out was called.
abbrev pub AllSettled : Throttle → Type 0
AllSettled t = All (λ s. s.done ≡ true) t.settles

-- The throttle: calls other than Reserve hand out nothing, and a settled function stays settled.
drop_idle-settles :
    (t : Throttle) (key : Bytes) (now : ℕ) → (Throttle.drop_idle t key now).settles ≡ t.settles
unfolding Throttle.drop_idle
drop_idle-settles t key now = ground arith

forget_attempts-settles :
    (t : Throttle) (key : Bytes) (now : ℕ)
    → (Throttle.forget_attempts t key now).settles ≡ t.settles
unfolding Throttle.forget_attempts Throttle.write_cell
forget_attempts-settles t key now = ground arith

ensure_entry-settles :
    (t : Throttle) (key : Bytes) (o : Option ℕ)
    → (Throttle.ensure_entry t key o).0.settles ≡ t.settles
unfolding Throttle.ensure_entry Throttle.add_entry
ensure_entry-settles t key none = refl
ensure_entry-settles t key (some p) = refl

-- A reservation of the throttle hands out one function, at the end of the list, or none.
pub record Handed (t u : Throttle) (i : ℕ) : Type 0 where
  pub fresh : Settle
  pub not_done : fresh.done ≡ false
  pub settles : u.settles ≡ t.settles ++ (fresh ∷ [])
  pub index : i ≡ length t.settles

pub charge-Handed :
    (t u : Throttle) (account ip : Bytes) (cooldown now : ℕ)
    → u.settles ≡ t.settles
    → Handed t
        (Throttle.charge u account ip cooldown now).0
        (Throttle.charge u account ip cooldown now).1
unfolding Throttle.charge Throttle.charge_at Throttle.write_cell
charge-Handed t u account ip cooldown now e =
    let first = Throttle.ensure_entry u account (lookup account u.entries) in
    let same =
      ensure_entry-settles first.0 ip (lookup ip u.entries)
      ∙ ensure_entry-settles u account (lookup account u.entries)
      ∙ e in
    record {
      fresh = record { cell = first.1; cooldown = cooldown; done = false };
      not_done = refl;
      settles =
          ap (λ l. l ++ (record { cell = first.1; cooldown = cooldown; done = false } ∷ [])) same;
      index = ap length same;
    }

-- What Reserve looks at before it charges.
abbrev pub looked_at : Throttle → Bytes → Bytes → ℕ → Throttle
looked_at t account ip now =
    Throttle.forget_attempts (Throttle.drop_idle (Throttle.drop_idle t account now) ip now) account
      now

pub looked_at-settles :
    (t : Throttle) (account ip : Bytes) (now : ℕ) → (looked_at t account ip now).settles ≡ t.settles
looked_at-settles t account ip now =
    forget_attempts-settles (Throttle.drop_idle (Throttle.drop_idle t account now) ip now) account
      now
    ∙ drop_idle-settles (Throttle.drop_idle t account now) ip now
    ∙ drop_idle-settles t account now

pub reserve-Handed :
    (t : Throttle) (account ip : Bytes) (limit cooldown now i : ℕ)
    → (Throttle.reserve t account ip limit cooldown now).1 ≡ some i
    → Handed t (Throttle.reserve t account ip limit cooldown now).0 i
unfolding Throttle.reserve
reserve-Handed t account ip limit cooldown now i h =
    let u = looked_at t account ip now in
    let same = looked_at-settles t account ip now in
    elim (Bool-cases (Throttle.is_refused u account ip limit)) [
      | inl r ↦ absurd (none-ne i (rw (Throttle.reserve, r) at h))
      | inr r ↦
          rw (Throttle.reserve, r)
            (subst (λ k. Handed t (Throttle.charge u account ip cooldown now).0 k)
              (some_injective (rw (Throttle.reserve, r) at h))
              (charge-Handed t u account ip cooldown now same))
    ]
  where
    none-ne : (i : ℕ) → none ≡ some i → ⊥
    none-ne i e = cc

    some_injective : {m n : ℕ} → some m ≡ some n → m ≡ n
    some_injective e = cc

pub settle_again :
    (u : Throttle) (i : ℕ) (failed : Bool) (now : ℕ)
    → AllSettled u
    → AllSettled (Throttle.settle u i failed now)
unfolding Throttle.settle
settle_again u i failed now h = elim (Option-cases (get_elem? u.settles i)) [
  | inl e ↦ rw (Throttle.settle, e) h
  | inr (s, e) ↦ rw (Throttle.settle, e, All-get_elem? (λ s. s.done ≡ true) u.settles i s h e) h
]

pub settle_once :
    (t u : Throttle) (i : ℕ) (failed : Bool) (now : ℕ)
    → AllSettled t
    → Handed t u i
    → AllSettled (Throttle.settle u i failed now)
unfolding Throttle.settle Throttle.write_cell
settle_once t u i failed now h k =
    let found : get_elem? u.settles i ≡ some k.fresh =
      ap (get_elem? u.settles) k.index
      ∙ ap (λ l. get_elem? l (length t.settles)) k.settles
      ∙ get_elem?-append_last t.settles k.fresh in
    let finished : Settle = record k.fresh { done = true } in
    let after : set u.settles i finished ≡ t.settles ++ (finished ∷ []) =
      ap (λ n. set u.settles n finished) k.index
      ∙ ap (λ l. set l (length t.settles) finished) k.settles
      ∙ set-append_last t.settles k.fresh finished in
    rw (Throttle.settle, found, k.not_done)
      (subst (All (λ s. s.done ≡ true)) (sym after)
        (All-append (λ s. s.done ≡ true) t.settles (finished ∷ []) h (refl, tt)))

pub refused-AllSettled :
    (t : Throttle) (account ip : Bytes) (limit cooldown now : ℕ)
    → (Throttle.reserve t account ip limit cooldown now).1 ≡ none
    → AllSettled t
    → AllSettled (Throttle.reserve t account ip limit cooldown now).0
unfolding Throttle.reserve
refused-AllSettled t account ip limit cooldown now e h =
    let u = looked_at t account ip now in
    let same = looked_at-settles t account ip now in
    elim (Bool-cases (Throttle.is_refused u account ip limit)) [
      | inl r ↦ rw (Throttle.reserve, r) (subst (All (λ s. s.done ≡ true)) (sym same) h)
      | inr r ↦ absurd (ground (arith, r, e))
    ]
