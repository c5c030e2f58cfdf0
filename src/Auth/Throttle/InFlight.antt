-- ===== src/Auth/Throttle/InFlight.antt =====
-- Attempts in flight: each settle function of Reserve that has not run counts once, in the entry
-- that it was made for, also after the map has dropped that entry.
use goblin_ftp.Base.{
  ℕ, zero, suc, ◌+◌, ◌≤◌, ◌<◌, ◌≡◌, refl, Bool, true, not, ◌&&◌, List, [], ◌∷◌, ◌++◌, Bytes, nat_eq,
  if◌then◌else◌, some, arith, All, get_elem?, set, bytes_has_eq,
}
use goblin_ftp.Base.Map.{Map, erase, erase-All, insert-All}
use goblin_ftp.Auth.Throttle.{
  Entry, Settle, Throttle, drop_expired, soonest, drop_soonest, add_entry, write_cell,
}

abbrev pub is_open : ℕ → Settle → Bool
is_open p s = not s.done && nat_eq s.cell p

-- How many settle functions for the entry at `p` have not run yet.
abbrev pub open_count : ℕ → List Settle → ℕ
open_count p [] = 0
open_count p (s ∷ ss) = (if is_open p s then 1 else 0) + open_count p ss

pub open_count-append :
    (p : ℕ) (xs ys : List Settle) → open_count p (xs ++ ys) ≡ open_count p xs + open_count p ys
open_count-append p [] ys = omega arith
open_count-append p (s ∷ xs) ys = omega (arith, open_count-append p xs ys)

pub open_count_fresh :
    (p n : ℕ) (ss : List Settle) → All (λ s. s.cell < n) ss → n ≤ p → open_count p ss ≡ 0
open_count_fresh p n [] h le = refl
open_count_fresh p n (s ∷ ss) (lt, h) le = ground (arith, open_count_fresh p n ss h)

-- Running a settle function takes it out of the count of its own entry.
pub open_count-set :
    (p i : ℕ) (ss : List Settle) (s : Settle)
    → get_elem? ss i ≡ some s
    → open_count p (set ss i (record s { done = true })) + (if is_open p s then 1 else 0)
      ≡ open_count p ss
open_count-set p i [] s h = cc
open_count-set p zero (t ∷ ss) s h = ground arith
open_count-set p (suc i) (t ∷ ss) s h = ground (arith, open_count-set p i ss s h)

pub set-All :
    (n i : ℕ) (ss : List Settle) (s : Settle)
    → s.cell < n
    → All (λ s. s.cell < n) ss
    → All (λ s. s.cell < n) (set ss i s)
set-All n i [] s lt h = tt
set-All n zero (t ∷ ss) s lt h = (lt, h.1)
set-All n (suc i) (t ∷ ss) s lt h = (h.0, set-All n i ss s lt h.1)

pub get-All :
    (n i : ℕ) (ss : List Settle) (s : Settle)
    → All (λ s. s.cell < n) ss
    → get_elem? ss i ≡ some s
    → s.cell < n
get-All n i [] s h e = cc
get-All n zero (t ∷ ss) s h e = ground arith
get-All n (suc i) (t ∷ ss) s h e = get-All n i ss s h.1 e

grow-All : (n : ℕ) (ss : List Settle) → All (λ s. s.cell < n) ss → All (λ s. s.cell < suc n) ss
grow-All n [] h = tt
grow-All n (s ∷ ss) (lt, h) = (omega arith, grow-All n ss h)

grow-Placed : (n : ℕ) (m : Map Bytes ℕ) → All (λ e. e.1 < n) m → All (λ e. e.1 < suc n) m
grow-Placed n [] h = tt
grow-Placed n (e ∷ m) (lt, h) = (omega arith, grow-Placed n m h)

pub record IsCounted (t : Throttle) : Type 0 where
  pub counted : (p : ℕ) → (t.cells p).in_flight ≡ open_count p t.settles
  pub settling : All (λ s. s.cell < t.next) t.settles
  pub placed : All (λ e. e.1 < t.next) t.entries

-- Taking entries out of the map, or writing a cell without its count.
pub with_entries :
    {t : Throttle} (m : Map Bytes ℕ)
    → IsCounted t
    → All (λ e. e.1 < t.next) m
    → IsCounted (record t { entries = m })
with_entries m c h = record { counted = c.counted; settling = c.settling; placed = h }

pub write_cell-IsCounted :
    {t : Throttle} (p : ℕ) (e : Entry)
    → IsCounted t
    → e.in_flight ≡ (t.cells p).in_flight
    → IsCounted (write_cell t p e)
unfolding write_cell
write_cell-IsCounted p e c h = record {
  counted = λ q. ground (arith, c.counted q);
  settling = c.settling;
  placed = c.placed;
}

pub add_entry-IsCounted : {t : Throttle} (k : Bytes) → IsCounted t → IsCounted (add_entry t k)
unfolding add_entry
add_entry-IsCounted {t} k c = record {
  counted = λ q. ground (arith, c.counted q, open_count_fresh t.next t.next t.settles c.settling);
  settling = grow-All t.next t.settles c.settling;
  placed =
      insert-All (λ e. e.1 < suc t.next) k t.next t.entries (omega arith)
        (grow-Placed t.next t.entries c.placed);
}

pub drop_expired-Placed :
    (n : ℕ) (cells : ℕ → Entry) (now : ℕ) (m : Map Bytes ℕ)
    → All (λ e. e.1 < n) m
    → All (λ e. e.1 < n) (drop_expired cells now m)
unfolding drop_expired
drop_expired-Placed n cells now [] h = tt
drop_expired-Placed n cells now ((j, p) ∷ m) (lt, h) =
    ground (arith, drop_expired-Placed n cells now m h)

pub drop_soonest-Placed :
    (n k : ℕ) (cells : ℕ → Entry) (m : Map Bytes ℕ)
    → All (λ e. e.1 < n) m
    → All (λ e. e.1 < n) (drop_soonest k cells m)
unfolding drop_soonest
drop_soonest-Placed n zero cells m h = h
drop_soonest-Placed n (suc k) cells m h =
    let key = soonest cells [] 0 m in
    ground
      (arith, h, drop_soonest-Placed n k cells (erase key m) (erase-All (λ e. e.1 < n) key m h))
