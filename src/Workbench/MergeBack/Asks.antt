-- ===== src/Workbench/MergeBack/Asks.antt =====
-- What `merge_back` leaves behind.
use rato.Workbench.Host.{OnHost}
use rato.Workbench.Worktree.{diffstat, full_diff, derive_base_sha, find_project_root_from_worktree}
use rato.Prelude.{
  codes, ℕ, String, ◌+◌, ◌≡◌, refl, ◌∙◌, Bool, true, false, Option, none, some, List, [], ◌∷◌, ◌++◌,
  arith, ltb, if◌then◌else◌, ap,
}
use rato.Prelude.Paths.{Text, path_of}
use rato.Prelude.Result.{Result, ok, err, continue, ◌>>=◌, bind_leads, or_err, lift, map_err}
use rato.Store.Approvals.{Approval, NewApproval, do_insert_approval, new_row, StoreError, sqlite}
use rato.Store.Runs.{AgentRun, do_get_agent_run}
use rato.Prelude.Utf8.{utf8_bytes}
use rato.Daemon.Ingest.{byte_length}
use rato.Policy.{risk_tier, ActionKind}
use rato.Store.Sql.{rows-insert_some}
use rato.Workbench.Git.{parse, WorkbenchError}
use rato.Workbench.MergeBack.{
  Env, Value, World, M, on_host, find_run, insert_blob, insert_approval, diff_payload,
  merge_approval, merge_back, worktree_of, approval_expiry_ms, diff_inline_limit, risk_of,
}

module _ (E : Env) (now : ℕ) (run_id : String) (w : World E) where
  -- The runs and the approvals are as they were.
  pub record Same (w' : World E) : Type 0 where
    pub runs_kept : w'.runs ≡ w.runs
    pub approvals_kept : w'.approvals ≡ w.approvals

  -- A new approval that asks the operator to merge the branch of the run.
  pub record MergeAsked (a : Approval (Value E)) (w' : World E) : Type 0 where
    pub run : AgentRun (Value E)
    pub run_found : do_get_agent_run E.runs run_id w.runs ≡ some run
    pub runs_kept : w'.runs ≡ w.runs
    pub appended : E.approvals.rows w'.approvals ≡ E.approvals.rows w.approvals ++ a ∷ []
    pub is_pending : a.status ≡ "pending"
    pub is_r2 : a.risk ≡ 2
    pub expiry : a.expires_at ≡ now + approval_expiry_ms
    pub branch_named : E.json.get a.payload "branch" ≡ some (E.json.string run.branch)

  abbrev pub Outcome : Result WorkbenchError (Approval (Value E)) → World E → Type 0
  Outcome (ok a) w' = MergeAsked a w'
  Outcome (err e) w' = Same w'

  abbrev pub Asked : Result WorkbenchError (Approval (Value E)) × World E → Type 0
  Asked r = Outcome r.0 r.1

  Asked-bind :
      {A : Type 0} (m : M E A) (f : A → M E (Approval (Value E))) (s : World E)
      → Same (m s).1
      → ((a : A) (s' : World E) → (m s).0 ≡ ok a → Same s' → Asked (f a s'))
      → Asked ((m >>= f) s)
  Asked-bind m f s kept rest = go (m s).0 (m s).1 refl kept
    where
      go :
          (r : Result WorkbenchError _) (s' : World E)
          → (m s).0 ≡ r
          → Same s'
          → Asked (continue r f s')
      go (ok a) s' e k = rest a s' e k
      go (err e) s' h k = k

  on_host-Asked :
      {A : Type 0} (m : OnHost E.host A) (f : A → M E (Approval (Value E))) (s : World E)
      → Same s
      → ((a : A) (s' : World E) → Same s' → Asked (f a s'))
      → Asked ((on_host E m >>= f) s)
  on_host-Asked m f s k rest =
      Asked-bind (on_host E m) f s
        (record { runs_kept = k.runs_kept; approvals_kept = k.approvals_kept })
        (λ a s' e k'. rest a s' k')

  insert_blob-Same :
      (blob : String) (bytes : List ℕ) (s : World E)
      → Same s
      → Same (insert_blob E blob bytes now s).1
  unfolding insert_blob
  insert_blob-Same blob bytes s k = record {
    runs_kept = k.runs_kept;
    approvals_kept = k.approvals_kept;
  }

  either_Same :
      {A : Type 0} (b : Bool) (m n : M E A) (s : World E)
      → Same (m s).1
      → Same (n s).1
      → Same ((if b then m else n) s).1
  either_Same true m n s k h = k
  either_Same false m n s k h = h

  diff_payload-Same :
      (blob : String) (diff_str : Text) (s : World E)
      → Same s
      → Same (diff_payload E blob now diff_str s).1
  unfolding diff_payload
  diff_payload-Same blob diff_str s k =
      either_Same (ltb diff_inline_limit (byte_length diff_str)) _ _ s
        (bind_leads Same Same (insert_blob E blob (utf8_bytes diff_str) now) _ (λ s' k'. k')
          (insert_blob-Same blob (utf8_bytes diff_str)) (λ b s' k'. k') s k)
        k

  after_insert :
      NewApproval (Value E)
      → String
      → World E
      → Option E.approvals.Table
      → Result WorkbenchError (Approval (Value E)) × World E
  after_insert na id s o =
      let rt : Result StoreError (Approval (Value E)) × E.approvals.Table = elim o [
        | none ↦ (err sqlite, s.approvals)
        | some t' ↦ (ok (new_row id now na), t')
      ] in
      (map_err (λ e. parse) rt.0, record s { approvals = rt.1 })

  -- The row that an INSERT appends.
  module _ (id : String) (run : AgentRun (Value E)) (na : NewApproval (Value E)) (s : World E)
      (k : Same s) (found : do_get_agent_run E.runs run_id w.runs ≡ some run) (risk : na.risk ≡ 2)
      (expiry : na.expires_at ≡ now + approval_expiry_ms)
      (named : E.json.get na.payload "branch" ≡ some (E.json.string run.branch)) where
    after_insert-Asked :
        (o : Option E.approvals.Table)
        → E.approvals.insert (new_row id now na) s.approvals ≡ o
        → Asked (after_insert na id s o)
    unfolding after_insert new_row
    after_insert-Asked none e = record {
      runs_kept = k.runs_kept;
      approvals_kept = k.approvals_kept;
    }
    after_insert-Asked (some t) e = record {
      run = run;
      run_found = found;
      runs_kept = k.runs_kept;
      appended =
          rows-insert_some E.approvals (new_row id now na) s.approvals t e
          ∙ ap (λ u. E.approvals.rows u ++ new_row id now na ∷ []) k.approvals_kept;
      is_pending = refl;
      is_r2 = risk;
      expiry = expiry;
      branch_named = named;
    }

    insert_approval-Asked : Asked (insert_approval E id now na s)
    unfolding insert_approval do_insert_approval after_insert
    insert_approval-Asked =
        after_insert-Asked (E.approvals.insert (new_row id now na) s.approvals) refl

  find_run-found :
      (run : AgentRun (Value E)) (o : Option (AgentRun (Value E)))
      → or_err o parse ≡ ok run
      → o ≡ some run
  find_run-found run none e = ground arith
  find_run-found run (some r) e = ground arith

  of_risk : (n : ℕ) → risk_of (risk_tier ActionKind.merge_back) ≡ ok n → n ≡ 2
  unfolding risk_of risk_tier
  of_risk n e = ground arith

  -- `merge_back` writes no run. Where it fails the approvals are as they were; where it succeeds the run
  -- was in the table, and one approval is appended, the returned one: pending, of tier R2, expiring
  -- `approval_expiry_ms` from `now`, with the run's branch as the payload's branch.
  pub merge_back-Asked : (id blob : String) → Asked (merge_back E id blob now run_id w)
  unfolding merge_back find_run merge_approval risk_of risk_tier
  merge_back-Asked id blob =
      Asked-bind (find_run E run_id) _ w (record { runs_kept = refl; approvals_kept = refl })
        λ run s1 found k1.
          let dir = path_of (codes run.worktree_path) in
          on_host-Asked (derive_base_sha E.host dir) _ s1 k1 λ base s2 k2.
            let wt = worktree_of dir (codes run.branch) base in
            on_host-Asked (diffstat E.host wt) _ s2 k2 λ stat_str s3 k3.
              on_host-Asked (full_diff E.host wt) _ s3 k3 λ diff_str s4 k4.
                Asked-bind (lift (risk_of (risk_tier ActionKind.merge_back))) _ s4 k4
                  λ risk_num s5 r2 k5.
                    Asked-bind (diff_payload E blob now diff_str) _ s5
                      (diff_payload-Same blob diff_str s5 k5)
                      λ diff s6 _ k6.
                        on_host-Asked (find_project_root_from_worktree E.host dir) _ s6 k6
                          λ project_root s7 k7.
                            insert_approval-Asked id run
                              (merge_approval E risk_num (now + approval_expiry_ms) run dir
                                project_root stat_str diff)
                              s7 k7 (find_run-found run _ found) (of_risk risk_num r2) refl
                              (E.json.get-object _ _ _)
