-- ===== src/Resources/Balance.antt =====
-- Nothing is lost from the budget: what is used is what is staged remotely, what was found at the
-- start and is still there, and what is reserved and not released.
use goblin_ftp.Base.{
  ℕ, zero, suc, ◌+◌, ◌-◌, ◌≡◌, refl, Bool, true, false, List, [], ◌∷◌, ◌++◌, Bytes, bytes_has_eq,
  bytes_eq_iff, if◌then◌else◌, Option, none, some, get_elem?, set, arith, ltb, Bool-cases,
  Option-cases, inl, inr, ◌==◌,
}
use goblin_ftp.Base.Map.{Map, lookup, lookup-insert, lookup-erase}
use goblin_ftp.Base.Ints.{ℤ, pos, negsuc}
use goblin_ftp.Resources.{
  Release, Lease, max_total_chunks, Budget, or_zero, total, new_budget, refresh_due, recheck,
  gone_bytes, still_there, drop_gone, fits, take, reserve_in, Answers, reserve, give_back, release,
  lease_chunks, reserve_upload, end_lease, own_upload, disown, Call, reserves, reserves_upload,
  releases, ends, owns, disowns, step, run,
}

-- The bytes of the releases that are still to come, of all owners and of one.
unfoldable pub open_bytes : List Release → ℕ
open_bytes [] = 0
open_bytes (r ∷ rs) = (if r.done then 0 else r.size) + open_bytes rs

unfoldable pub owner_bytes : Bytes → List Release → ℕ
owner_bytes owner [] = 0
owner_bytes owner (r ∷ rs) =
    (if r.done then 0 else if r.owner == owner then r.size else 0) + owner_bytes owner rs

pub record IsBalanced (b : Budget) : Type 0 where
  pub all_used : b.used ≡ b.remote_bytes + total b.orphans + open_bytes b.releases
  pub each_owner : (owner : Bytes) → or_zero (lookup owner b.owners) ≡ owner_bytes owner b.releases

open_bytes-append :
    (rs : List Release) (r : Release)
    → open_bytes (rs ++ r ∷ []) ≡ open_bytes rs + (if r.done then 0 else r.size)
unfolding open_bytes
open_bytes-append [] r = omega arith
open_bytes-append (x ∷ rs) r = omega (arith, open_bytes-append rs r)

owner_bytes-append :
    (owner : Bytes) (rs : List Release) (r : Release)
    → owner_bytes owner (rs ++ r ∷ [])
      ≡ owner_bytes owner rs + (if r.done then 0 else if r.owner == owner then r.size else 0)
unfolding owner_bytes
owner_bytes-append owner [] r = omega arith
owner_bytes-append owner (x ∷ rs) r = omega (arith, owner_bytes-append owner rs r)

open_bytes-set :
    (rs : List Release) (i : ℕ) (r : Release)
    → get_elem? rs i ≡ some r
    → r.done ≡ false
    → open_bytes (set rs i (record r { done = true })) + r.size ≡ open_bytes rs
unfolding open_bytes
open_bytes-set [] i r h d = ground arith
open_bytes-set (x ∷ rs) zero r h d = ground arith
open_bytes-set (x ∷ rs) (suc i) r h d = ground (arith, open_bytes-set rs i r h d)

owner_bytes-set :
    (owner : Bytes) (rs : List Release) (i : ℕ) (r : Release)
    → get_elem? rs i ≡ some r
    → r.done ≡ false
    → owner_bytes owner (set rs i (record r { done = true }))
        + (if r.owner == owner then r.size else 0)
      ≡ owner_bytes owner rs
unfolding owner_bytes
owner_bytes-set owner [] i r h d = ground arith
owner_bytes-set owner (x ∷ rs) zero r h d = ground arith
owner_bytes-set owner (x ∷ rs) (suc i) r h d = ground (arith, owner_bytes-set owner rs i r h d)

total-still_there :
    (gone : Bytes → Bool) (m : Map Bytes ℕ)
    → gone_bytes gone m + total (still_there gone m) ≡ total m
unfolding total gone_bytes still_there
total-still_there gone [] = omega arith
total-still_there gone ((p, n) ∷ m) = ground (arith, total-still_there gone m)

recheck-IsBalanced : (b : Budget) (bytes now : ℕ) → IsBalanced b → IsBalanced (recheck b bytes now)
unfolding recheck
recheck-IsBalanced b bytes now k = record {
  all_used = omega (arith, k.all_used);
  each_owner = k.each_owner;
}

drop_gone-IsBalanced :
    (b : Budget) (gone : Bytes → Bool) → IsBalanced b → IsBalanced (drop_gone b gone)
unfolding drop_gone
drop_gone-IsBalanced b gone k = record {
  all_used = omega (arith, k.all_used, total-still_there gone b.orphans);
  each_owner = k.each_owner;
}

take-IsBalanced :
    (b : Budget) (owner : Bytes) (size : ℕ) → IsBalanced b → IsBalanced (take b owner size)
unfolding take
take-IsBalanced b owner size k =
    let r : Release = record { owner = owner; size = size; done = false } in
    record {
      all_used = omega (arith, k.all_used, open_bytes-append b.releases r);
      each_owner = λ o. ground (
        arith,
        k.each_owner o,
        k.each_owner owner,
        owner_bytes-append o b.releases r,
        lookup-insert owner o (or_zero (lookup owner b.owners) + size) b.owners,
        bytes_eq_iff owner o,
      );
    }

reserve_in-IsBalanced :
    (b : Budget) (owner : Bytes) (size : ℤ) → IsBalanced b → IsBalanced (reserve_in b owner size).0
unfolding reserve_in
reserve_in-IsBalanced b owner (negsuc n) k = k
reserve_in-IsBalanced b owner (pos size) k = elim (Bool-cases (fits b owner size)) [
  | inl t ↦ rw t (take-IsBalanced b owner size k)
  | inr f ↦ rw f k
]

reserve-IsBalanced :
    (b : Budget) (owner : Bytes) (size : ℤ) (a : Answers)
    → IsBalanced b
    → IsBalanced (reserve b owner size a).0
unfolding reserve
reserve-IsBalanced b owner size a k = elim (Bool-cases (refresh_due b a.now)) [
  | inl t ↦ elim (Option-cases a.staged) [
    | inl e ↦ rw (t, e) k
    | inr (bytes, e) ↦
        rw (t, e)
          (reserve_in-IsBalanced _ owner size
            (drop_gone-IsBalanced _ a.gone (recheck-IsBalanced b bytes a.checked k)))
  ]
  | inr f ↦ rw f (reserve_in-IsBalanced _ owner size (drop_gone-IsBalanced b a.gone k))
]

lookup-give_back :
    (owner o : Bytes) (size : ℕ) (m : Map Bytes ℕ)
    → or_zero (lookup o (give_back owner size m))
      ≡ or_zero (lookup o m) - (if owner == o then size else 0)
unfolding give_back
lookup-give_back owner o size m = ground (
  arith,
  bytes_eq_iff owner o,
  lookup-erase owner o m,
  lookup-insert owner o (or_zero (lookup owner m) - size) m,
)

release-IsBalanced : (b : Budget) (index : ℕ) → IsBalanced b → IsBalanced (release b index)
unfolding release
release-IsBalanced b index k = elim (Option-cases (get_elem? b.releases index)) [
  | inl e ↦ rw (e, release) k
  | inr (r, e) ↦ elim (Bool-cases r.done) [
    | inl t ↦ rw (e, release, t) k
    | inr f ↦
        rw (e, release, f)
          (record {
            all_used = omega (arith, k.all_used, open_bytes-set b.releases index r e f);
            each_owner = λ o. omega (
              arith,
              lookup-give_back r.owner o r.size b.owners,
              k.each_owner o,
              owner_bytes-set o b.releases index r e f,
            );
          })
  ]
]

lease_chunks-IsBalanced :
    (b : Budget) (index chunks : ℕ) → IsBalanced b → IsBalanced (lease_chunks b index chunks).0
unfolding lease_chunks
lease_chunks-IsBalanced b index chunks k =
    elim (Bool-cases (ltb (max_total_chunks - b.reserved_chunks) chunks)) [
      | inl t ↦ rw t (release-IsBalanced b index k)
      | inr f ↦ rw f (record { all_used = k.all_used; each_owner = k.each_owner })
    ]

reserve_upload-IsBalanced :
    (b : Budget) (owner : Bytes) (size : ℤ) (chunks : ℕ) (a : Answers)
    → IsBalanced b
    → IsBalanced (reserve_upload b owner size chunks a).0
unfolding reserve_upload
reserve_upload-IsBalanced b owner size chunks a k = elim (Option-cases (reserve b owner size a).1) [
  | inl e ↦ rw (e, reserve_upload) (reserve-IsBalanced b owner size a k)
  | inr (i, e) ↦
      rw (e, reserve_upload)
        (lease_chunks-IsBalanced _ i chunks (reserve-IsBalanced b owner size a k))
]

end_lease-IsBalanced : (b : Budget) (index : ℕ) → IsBalanced b → IsBalanced (end_lease b index)
unfolding end_lease
end_lease-IsBalanced b index k = elim (Option-cases (get_elem? b.leases index)) [
  | inl e ↦ rw (e, end_lease) k
  | inr (l, e) ↦ elim (Bool-cases l.done) [
    | inl t ↦ rw (e, end_lease, t) k
    | inr f ↦ rw (e, end_lease, f) (same_bytes (release-IsBalanced b l.release k))
  ]
]
  where
    same_bytes :
        {b : Budget} {n : ℕ} {ls : List Lease}
        → IsBalanced b
        → IsBalanced (record b { reserved_chunks = n; leases = ls })
    same_bytes k = record { all_used = k.all_used; each_owner = k.each_owner }

disown-IsBalanced : (b : Budget) (index : ℕ) → IsBalanced b → IsBalanced (disown b index)
unfolding disown
disown-IsBalanced b index k = elim (Option-cases (get_elem? b.owned index)) [
  | inl e ↦ rw (e, disown) k
  | inr (o, e) ↦ elim (Bool-cases o.done) [
    | inl t ↦ rw (e, disown, t) k
    | inr f ↦
        let k' = end_lease-IsBalanced b o.lease k in
        rw (e, disown, f) (record { all_used = k'.all_used; each_owner = k'.each_owner })
  ]
]

step-IsBalanced : (b : Budget) (c : Call) → IsBalanced b → IsBalanced (step b c)
unfolding step
step-IsBalanced b (reserves owner size a) k = reserve-IsBalanced b owner size a k
step-IsBalanced b (reserves_upload owner size chunks a) k =
    reserve_upload-IsBalanced b owner size chunks a k
step-IsBalanced b (releases index) k = release-IsBalanced b index k
step-IsBalanced b (ends index) k = end_lease-IsBalanced b index k
step-IsBalanced b (owns id lease) k =
    unfold own_upload in record { all_used = k.all_used; each_owner = k.each_owner }
step-IsBalanced b (disowns index) k = disown-IsBalanced b index k

run-step-IsBalanced : (b : Budget) (cs : List Call) → IsBalanced b → IsBalanced (run b cs)
unfolding run
run-step-IsBalanced b [] k = k
run-step-IsBalanced b (c ∷ cs) k = run-step-IsBalanced (step b c) cs (step-IsBalanced b c k)

new_budget-IsBalanced :
    (found : Option (Map Bytes ℕ × Bool)) (max per_session : ℕ) (has_remote : Bool)
    → IsBalanced (new_budget found max per_session has_remote)
unfolding new_budget open_bytes owner_bytes lookup total
new_budget-IsBalanced none max per_session has_remote = record {
  all_used = refl;
  each_owner = λ o. refl;
}
new_budget-IsBalanced (some (m, failed)) max per_session has_remote = record {
  all_used = omega arith;
  each_owner = λ o. refl;
}

-- From the start, after any calls of the functions of the budget and of those that they returned,
-- in any order and any number of times: the bytes in use are those staged remotely, those of the
-- orphaned directories and those of the reservations that were not released, and the share of
-- each owner is the sum of that owner's reservations that were not released.
pub run-IsBalanced :
    (found : Option (Map Bytes ℕ × Bool)) (max per_session : ℕ) (has_remote : Bool) (cs : List Call)
    → IsBalanced (run (new_budget found max per_session has_remote) cs)
run-IsBalanced found max per_session has_remote cs =
    run-step-IsBalanced _ cs (new_budget-IsBalanced found max per_session has_remote)
