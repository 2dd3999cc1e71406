-- ===== src/Workbench/Merge/Guards.antt =====
-- What stands before a merge into the operator's repository.
use rato.Prelude.{
  ℕ, String, ◌<◌, ◌≡◌, refl, Bool, true, false, arith, ◌==◌, eq_iff, leb, ◌⊎◌, inl, inr, Bool-cases,
}
use rato.Prelude.Result.{Result, ok, err, continue}
use rato.Store.Approvals.{Approval}
use rato.Workbench.Git.{WorkbenchError, is_fast_mergeable, is_fast_mergeable-live}
use rato.Workbench.Merge.{
  Env, Value, World, payload_str, merge_clean, merge_target, merge_payload, execute_merge,
  Untouched, MergeReady,
}

module _ (E : Env) (a : Approval (Value E)) (now ended : ℕ) (w : World E) where
  merge_clean-guarded :
      (branch target : String) (r : Result WorkbenchError Bool) (d : E.git.Disk)
      → E.git.live d ≡ E.git.live w.disk
      → Untouched E w
          (continue r (merge_clean E a now ended branch target) (record w { disk = d })).1
        ⊎ (r ≡ ok true)
  unfolding merge_clean
  merge_clean-guarded branch target (ok true) d h = inr refl
  merge_clean-guarded branch target (ok false) d h = inl (h, refl, refl)
  merge_clean-guarded branch target (err e) d h = inl (h, refl, refl)

  merge_target-guarded :
      (branch target : String)
      → Untouched E w (merge_target E a now ended branch target w).1
        ⊎ ((is_fast_mergeable E.git target branch w.disk).0 ≡ ok true)
  unfolding merge_target
  merge_target-guarded branch target =
      merge_clean-guarded branch target (is_fast_mergeable E.git target branch w.disk).0
        (is_fast_mergeable E.git target branch w.disk).1
        (is_fast_mergeable-live E.git target branch w.disk)

  merge_payload-guarded :
      (b t : Result WorkbenchError String)
      → payload_str E a.payload "branch" ≡ b
      → payload_str E a.payload "target" ≡ t
      → a.status ≡ "approved"
      → now < a.expires_at
      → Untouched E w (merge_payload E a now ended w).1 ⊎ MergeReady E a now w
  unfolding merge_payload
  merge_payload-guarded (err e) t p q s h = rw (p) (inl (refl, refl, refl))
  merge_payload-guarded (ok b) (err e) p q s h = rw (p, q) (inl (refl, refl, refl))
  merge_payload-guarded (ok b) (ok t) p q s h =
      rw (p, q)
        (elim (merge_target-guarded b t) [
          | inl same ↦ inl same
          | inr clean ↦ inr (record {
            approved = s;
            in_time = h;
            branch = b;
            target = t;
            branch_named = p;
            target_named = q;
            clean = clean;
          })
        ])

  -- `execute_merge` leaves the live repositories and both tables as they were, unless the approval is
  -- approved, has time left, names a branch and a repository, and that branch merges cleanly there.
  pub execute_merge-guarded : Untouched E w (execute_merge E a now ended w).1 ⊎ MergeReady E a now w
  unfolding execute_merge
  execute_merge-guarded = elim (Bool-cases (a.status == "approved")) [
    | inr other ↦ rw other (inl (refl, refl, refl))
    | inl approved ↦ elim (Bool-cases (leb a.expires_at now)) [
      | inl late ↦ rw (approved, late) (inl (refl, refl, refl))
      | inr early ↦
          rw (approved, early)
            (merge_payload-guarded _ _ refl refl ((eq_iff a.status "approved").0 approved)
              (ground arith))
    ]
  ]
