-- ===== src/Files/Delete.antt =====
-- What DeleteFiles of backend/internal/api/files.go does: one Delete for each path, in order.
use goblin_ftp.Base.{
  ◌≡◌, ◌∙◌, ap, sym, subst, Bool, true, false, List, [], ◌∷◌, ◌++◌, Bytes, Option, none, some, ◌⊎◌,
  inl, inr, arith, Bool-cases, Option-cases, Sum-cases, append_assoc, append-nil,
}
use goblin_ftp.Errors.{Code}
use goblin_ftp.Errors.Chain.{GoError}
use goblin_ftp.Errors.Classify.{classify, is_conn_lost}
use goblin_ftp.Paths.{validate_remote_path, windows_paths}
use goblin_ftp.Remote.{Client, Conn, fail_conn}
use goblin_ftp.Files.{DeleteResult, all_valid, delete_each, delete_files}

module _ {R : Type 0} (client : Client R) (to_lower : Bytes → Bytes) (windows : Bool) where
  -- A batch of deletions of accepted paths, from a server to the next: which paths were deleted,
  -- and which failed, with the code and the message of the failure.
  pub data Deletes : R → List Bytes → List Bytes → List (Bytes × (Code × Bytes)) → R → Type 0 where
    finished : (r : R) → Deletes r [] [] [] r
    deletes :
        (r r1 r2 : R) (p : Bytes) (paths deleted : List Bytes)
        (failed : List (Bytes × (Code × Bytes)))
        → validate_remote_path p windows false ≡ none
        → client.delete r p ≡ (r1, none)
        → Deletes r1 paths deleted failed r2
        → Deletes r (p ∷ paths) (p ∷ deleted) failed r2
    fails :
        (r r1 r2 : R) (p : Bytes) (paths deleted : List Bytes)
        (failed : List (Bytes × (Code × Bytes))) (err : GoError)
        → validate_remote_path p windows false ≡ none
        → client.delete r p ≡ (r1, some err)
        → is_conn_lost (some err) ≡ false
        → Deletes r1 paths deleted failed r2
        → Deletes r (p ∷ paths) deleted ((p, classify to_lower (some err)) ∷ failed) r2

  -- A batch whose report continues the lists of `before`.
  pub record Continues (r : R) (paths : List Bytes) (before after : DeleteResult) (r' : R)
      : Type 0 where
    pub deleted : List Bytes
    pub failed : List (Bytes × (Code × Bytes))
    pub runs : Deletes r paths deleted failed r'
    pub all_deleted : after.deleted ≡ before.deleted ++ deleted
    pub all_failed : after.failures ≡ before.failures ++ failed

  delete_each-Continues :
      (r : R) (before : DeleteResult) (paths : List Bytes) (r' : R) (after : DeleteResult)
      → all_valid windows paths ≡ true
      → delete_each client to_lower r before paths ≡ (r', inr after)
      → Continues r paths before after r'
  unfolding delete_each all_valid
  delete_each-Continues r before [] r' after v h =
      let er : r ≡ r' = cc (h) in
      let eb : before ≡ after = cc (h) in
      subst (λ x. Continues r [] before after x) er
        (record {
          deleted = [];
          failed = [];
          runs = finished r;
          all_deleted = sym (ap (λ b. b.deleted) eb) ∙ sym (append-nil before.deleted);
          all_failed = sym (ap (λ b. b.failures) eb) ∙ sym (append-nil before.failures);
        })
  delete_each-Continues r before (p ∷ paths) r' after v h =
      elim (Option-cases (validate_remote_path p windows false)) [
        | inr (bad, n) ↦ absurd (ground (arith, n, v))
        | inl ok ↦
            let rest : all_valid windows paths ≡ true = ground (arith, ok, v) in
            let call = client.delete r p in
            elim (Option-cases call.1) [
              | inl e ↦
                  let more : DeleteResult = record before {
                    deleted = before.deleted ++ (p ∷ []);
                  } in
                  let k =
                    delete_each-Continues call.0 more paths r' after rest
                      (rw (delete_each, e) at h) in
                  record {
                    deleted = p ∷ k.deleted;
                    failed = k.failed;
                    runs =
                        deletes r call.0 r' p paths k.deleted k.failed ok (ap (λ o. (call.0, o)) e)
                          k.runs;
                    all_deleted = k.all_deleted ∙ append_assoc before.deleted (p ∷ []) k.deleted;
                    all_failed = k.all_failed;
                  }
              | inr (err, e) ↦ elim (Bool-cases (is_conn_lost (some err))) [
                | inl lost ↦ absurd (ground (arith, e, lost, h))
                | inr kept ↦
                    let entry : Bytes × (Code × Bytes) = (p, classify to_lower (some err)) in
                    let more : DeleteResult = record before {
                      failures = before.failures ++ (entry ∷ []);
                    } in
                    let k =
                      delete_each-Continues call.0 more paths r' after rest
                        (rw (delete_each, e, kept) at h) in
                    record {
                      deleted = k.deleted;
                      failed = entry ∷ k.failed;
                      runs =
                          fails r call.0 r' p paths k.deleted k.failed err ok
                            (ap (λ o. (call.0, o)) e) kept k.runs;
                      all_deleted = k.all_deleted;
                      all_failed =
                          k.all_failed ∙ append_assoc before.failures (entry ∷ []) k.failed;
                    }
              ]
            ]
      ]

-- The report of a batch that started with empty lists.
reported :
    {R : Type 0} (client : Client R) (to_lower : Bytes → Bytes) (windows : Bool) (w v w' : Conn R)
    (paths : List Bytes) (done result : DeleteResult)
    → Continues client to_lower windows w.remote paths
        (record { deleted = []; failures = [] })
        done
        v.remote
    → ◌≡◌ {A = Conn R × (Code ⊎ DeleteResult)} (v, inr done) (w', inr result)
    → Deletes client to_lower windows w.remote paths result.deleted result.failures w'.remote
reported client to_lower windows w v w' paths done result k h =
    let ed : done ≡ result = cc (h) in
    let er : v.remote ≡ w'.remote = ap (λ c. c.0.remote) h in
    let D = Deletes client to_lower windows w.remote paths in
    subst (λ d. D d result.failures w'.remote) (sym k.all_deleted ∙ ap (λ x. x.deleted) ed)
      (subst (λ f. D k.deleted f w'.remote) (sym k.all_failed ∙ ap (λ x. x.failures) ed)
        (subst (λ r. D k.deleted k.failed r) er k.runs))

-- A report of DeleteFiles comes of a batch of deletions of exactly the requested paths, in order,
-- each of them accepted below the root: it lists as deleted those whose Delete gave no error, and
-- as failed the others, with their classification, none of them a lost connection.
pub delete_files-Deletes :
    {R : Type 0} (client : Client R) (to_lower : Bytes → Bytes) (protocol : Option Bytes)
    (w w' : Conn R) (paths : List Bytes) (result : DeleteResult)
    → delete_files client to_lower protocol w paths ≡ (w', inr result)
    → Deletes client to_lower
        (windows_paths protocol)
        w.remote
        paths
        result.deleted
        result.failures
        w'.remote
unfolding delete_files fail_conn
delete_files-Deletes client to_lower protocol w w' [] result h = absurd (ground (arith, h))
delete_files-Deletes client to_lower protocol w w' (p ∷ paths) result h =
    let none_yet : DeleteResult = record { deleted = []; failures = [] } in
    let run = delete_each client to_lower w.remote none_yet (p ∷ paths) in
    elim (Bool-cases (all_valid (windows_paths protocol) (p ∷ paths))) [
      | inr bad ↦ absurd (ground (arith, bad, h))
      | inl valid ↦ elim (Sum-cases run.1) [
        | inl (err, e) ↦ absurd (ground (arith, valid, e, h))
        | inr (done, e) ↦
            let k =
              delete_each-Continues client to_lower (windows_paths protocol) w.remote none_yet
                (p ∷ paths) run.0 done valid (ap (λ o. (run.0, o)) e) in
            reported client to_lower (windows_paths protocol) w (record w { remote = run.0 }) w'
              (p ∷ paths) done result k (rw (delete_files, valid, e) at h)
      ]
    ]
