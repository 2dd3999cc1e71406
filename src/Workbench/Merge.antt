-- ===== src/Workbench/Merge.antt =====
-- crates/rat-workbench/src/runner.rs: `execute_merge` and `deny`. The world is the two tables and the
-- disk. `now` and `ended` are the two readings of the clock.
pub mod Guards
use rato.Prelude.{
  ℕ, String, ◌<◌, ◌≡◌, refl, ◌∙◌, Bool, true, false, not, Option, none, some, List, [], ◌∷◌, ◌++◌,
  arith, ◌==◌, if◌then◌else◌, ltb, leb, length, take, find, codes, ◌⊎◌, inl, inr, Bool-cases,
}
use rato.Prelude.Result.{
  Result, ok, err, Exec, pure, fail, lift, gets, map_err, or_err, continue, ◌>>=◌, ◌>>◌,
}
use rato.Daemon.Ingest.{first_bytes}
use rato.Prelude.Paths.{Text}
use rato.Store.Sql.{Json}
use rato.Store.Approvals.{
  Approval, Approvals, StoreError, do_decide_approval, do_set_approval_execution,
}
use rato.Store.Runs.{AgentRun, Runs, do_recent_agent_runs, do_update_agent_run_status}
use rato.Workbench.Git.{
  Git, WorkbenchError, io, parse, panicked, MergeOutcome, merged, needs_manual, is_fast_mergeable,
  merge_into_live, is_fast_mergeable-live,
}

-- What the runner and the daemon's handlers work on.
pub record Env : Type 1 where
  pub json : Json
  pub git : Git
  pub approvals : Approvals json.Value
  pub runs : Runs json.Value

module _ (E : Env) where
  abbrev pub Value : Type 0
  Value = E.json.Value

  pub record World : Type 0 where
    pub approvals : E.approvals.Table
    pub runs : E.runs.Table
    pub disk : E.git.Disk

  abbrev pub M : Type 0 → Type 0
  M A = Exec World WorkbenchError A

  -- A git call, which sees the disk only.
  on_disk : {A : Type 0} → Exec E.git.Disk WorkbenchError A → M A
  on_disk m w = let (r, d) = m w.disk in (r, record w { disk = d })

  -- `payload.get(k).and_then(|v| v.as_str())`, with the error for a missing field.
  unfoldable pub payload_str : Value → String → Result WorkbenchError String
  payload_str payload k = elim (E.json.get payload k) [
    | none ↦ err parse
    | some v ↦ or_err (E.json.as_str v) parse
  ]

  execution_of : ℕ → ℕ → Text → String → Value
  execution_of now ended sha target = E.json.object (
      ("started", E.json.number now)
      ∷ ("ended", E.json.number ended)
      ∷ ("exit_code", E.json.number 0)
      ∷ ("commit_sha", E.json.text sha)
      ∷ ("verified_target", E.json.string target)
      ∷ [])

  write_execution : String → Value → M (Unit {0})
  unfolding do_set_approval_execution
  write_execution id v w =
      (ok tt, record w { approvals = do_set_approval_execution E.approvals id v w.approvals })

  find_run_by_branch : String → E.runs.Table → Option (AgentRun Value)
  unfolding do_recent_agent_runs
  find_run_by_branch branch t = find (λ r. r.branch == branch) (do_recent_agent_runs E.runs 50 t)

  mark_merged : ℕ → Text → Option (AgentRun Value) → M (Unit {0})
  unfolding do_update_agent_run_status first_bytes
  mark_merged ended sha none w = (ok tt, w)
  mark_merged ended sha (some run) w = elim (first_bytes 8 sha) [
    | none ↦ (err panicked, w)
    | some front ↦ (
      ok tt,
      record w {
        runs =
            do_update_agent_run_status E.runs run.id "merged" (some ended)
              (some (codes "Merged at commit " ++ front)) none w.runs;
      },
    )
  ]

  finish : Approval Value → ℕ → ℕ → String → String → MergeOutcome → M MergeOutcome
  unfolding execution_of write_execution find_run_by_branch mark_merged
  finish a now ended branch target needs_manual = pure needs_manual
  finish a now ended branch target (merged sha) = do
    write_execution a.id (execution_of now ended sha target)
    run ← gets (λ w. find_run_by_branch branch w.runs)
    mark_merged ended sha run
    pure (merged sha)

  -- After the check for a clean merge.
  merge_clean : Approval Value → ℕ → ℕ → String → String → Bool → M MergeOutcome
  unfolding on_disk finish
  merge_clean a now ended branch target clean = if not clean then pure needs_manual else do
    outcome ← on_disk (merge_into_live E.git target branch)
    finish a now ended branch target outcome

  merge_target : Approval Value → ℕ → ℕ → String → String → M MergeOutcome
  unfolding on_disk merge_clean
  merge_target a now ended branch target = do
    clean ← on_disk (is_fast_mergeable E.git target branch)
    merge_clean a now ended branch target clean

  merge_payload : Approval Value → ℕ → ℕ → M MergeOutcome
  unfolding payload_str merge_target
  merge_payload a now ended = do
    branch ← lift (payload_str a.payload "branch")
    target ← lift (payload_str a.payload "target")
    merge_target a now ended branch target

  unfoldable pub execute_merge : Approval Value → ℕ → ℕ → M MergeOutcome
  unfolding merge_payload
  execute_merge a now ended =
      if not (a.status == "approved")
      then fail parse
      else if leb a.expires_at now
      then fail parse
      else merge_payload a now ended

  unfoldable pub deny : String → ℕ → Option String → M (Approval Value)
  unfolding do_decide_approval
  deny id now memo w =
      let (r, t) = do_decide_approval E.approvals id "denied" now "cli" memo w.approvals in
      (map_err (λ _. parse) r, record w { approvals = t })

  -- Only the scratch space of git may differ.
  abbrev pub Untouched : World → World → Type 0
  Untouched w w' =
      (E.git.live w'.disk ≡ E.git.live w.disk) × (w'.approvals ≡ w.approvals) × (w'.runs ≡ w.runs)

  -- What a merge needs: the approval as decided and in time, and a clean merge of the branch that its
  -- payload names into the repository that its payload names.
  pub record MergeReady (a : Approval Value) (now : ℕ) (w : World) : Type 0 where
    pub approved : a.status ≡ "approved"
    pub in_time : now < a.expires_at
    pub branch : String
    pub target : String
    pub branch_named : payload_str a.payload "branch" ≡ ok branch
    pub target_named : payload_str a.payload "target" ≡ ok target
    pub clean : (is_fast_mergeable E.git target branch w.disk).0 ≡ ok true
