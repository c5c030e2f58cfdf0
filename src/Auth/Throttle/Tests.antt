-- ===== src/Auth/Throttle/Tests.antt =====
-- Runs of the throttle.
use goblin_ftp.Base.{
  ℕ, ◌+◌, ◌*◌, ◌≤◌, ◌<◌, ◌≡◌, ◌≢◌, ◌↔◌, refl, true, false, List, [], ◌∷◌, Bytes, codes, length,
  none, some, get_elem?, bytes_has_eq,
}
use goblin_ftp.Base.Map.{lookup}
use goblin_ftp.Auth.Throttle.{
  Throttle, max_throttle_entries, new_throttle, reserves, settles, Call, run, reserve, charge,
  charge_at, drop_idle, forget_attempts, ensure_entry, add_entry, is_refused, account_load, ip_load,
}
use goblin_ftp.Auth.Throttle.Capacity.{run_capacity}
use goblin_ftp.Auth.Throttle.InFlight.{open_count}
use goblin_ftp.Auth.Throttle.Settling.{new_throttle-IsCounted, run_in_flight}
use goblin_ftp.Auth.Throttle.Admission.{Apart, HasRoom, account_count, ip_count, reserve_admits_iff}
use goblin_ftp.Auth.Throttle.Charge.{reserve_charges}

abbrev account : Bytes
account = codes "account:a"

abbrev ip : Bytes
ip = codes "ip:1"

-- Two attempts, of which the first has failed.
abbrev calls : List Call
calls = reserves account ip 3 60 10 ∷ reserves account ip 3 60 11 ∷ settles 0 true 12 ∷ []

run_capacity_example : length (run new_throttle calls).entries ≤ max_throttle_entries
run_capacity_example =
    run_capacity calls (((λ e. cc), (λ e. cc)), (((λ e. cc), (λ e. cc)), (tt, tt)))

run_in_flight_example :
    ((run new_throttle calls).cells 0).in_flight ≡ open_count 0 (run new_throttle calls).settles
run_in_flight_example = run_in_flight calls 0

new_throttle-Apart : Apart new_throttle account ip
unfolding lookup
new_throttle-Apart = ((λ e. cc), λ p q h k. cc)

reserve_admits_iff_example : ((reserve new_throttle account ip 3 60 10).1 ≢ none) ↔ (
    (0 < 3)
    × HasRoom new_throttle account ip 10
    × (account_count new_throttle account 10 < 3)
    × (ip_count new_throttle ip 10 < 3 * 4))
reserve_admits_iff_example = reserve_admits_iff new_throttle account ip 3 60 10 new_throttle-Apart

reserve_charges_example :
    let u = (reserve new_throttle account ip 3 60 10).0 in
    (account_load u account ≡ account_count new_throttle account 10 + 1)
    × (ip_load u ip ≡ ip_count new_throttle ip 10 + 1)
    × (account_load u account ≤ 3)
    × (ip_load u ip ≤ 3 * 4)
    × (p : ℕ) × (lookup account u.entries ≡ some p)
    × (get_elem? u.settles 0 ≡ some (record { cell = p; cooldown = 60; done = false }))
unfolding reserve drop_idle forget_attempts is_refused charge lookup charge_at ensure_entry
    add_entry
reserve_charges_example =
    reserve_charges new_throttle account ip 3 60 10 0 new_throttle-Apart new_throttle-IsCounted refl

abbrev one_attempt : Throttle
one_attempt = run new_throttle (reserves account ip 3 60 10 ∷ [])
