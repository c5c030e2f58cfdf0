-- ===== src/Sso/UsedSet/Tests.antt =====
-- Runs of the set of used tokens.
use goblin_ftp.Base.{◌≡◌, inr, refl, true, false, List, [], ◌∷◌, Bytes, codes, arith}
use goblin_ftp.Base.Map.{lookup}
use goblin_ftp.Sso.UsedSet.{
  new_used_set, holds, mark_if_unused, is_used, run, Call, tries, asks, sweeps, marks,
}
use goblin_ftp.Sso.UsedSet.Replay.{mark_if_unused_once}

abbrev token : Bytes
token = codes "5f2c"

abbrev later_calls : List Call
later_calls = tries token 200 50 ∷ sweeps 90 ∷ asks (codes "77aa") 95 ∷ marks token 150 ∷ []

mark_if_unused_once_example :
    ((mark_if_unused (run (mark_if_unused new_used_set token 100 10).0 later_calls) token 300 100).1
      ≡ false)
    × ((is_used (run (mark_if_unused new_used_set token 100 10).0 later_calls) token 100).1 ≡ true)
unfolding mark_if_unused holds lookup
mark_if_unused_once_example =
    mark_if_unused_once new_used_set token 100 10 later_calls 300 100 refl
      (omega arith, (omega arith, (omega arith, (inr (omega arith), tt)))) (omega arith)
