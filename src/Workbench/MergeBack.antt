-- ===== src/Workbench/MergeBack.antt =====
-- crates/rat-workbench/src/runner.rs: `merge_back`. The world is the three tables it reads and writes, and
-- the machine. `now` is the reading of the clock; the ids of the rows are arguments.
pub mod Asks
use rato.Prelude.{
  ℕ, String, ◌+◌, ◌*◌, Bool, Option, none, some, List, [], ◌∷◌, ◌++◌, codes, ltb, if◌then◌else◌,
}
use rato.Prelude.Paths.{FilePath, Text, path_of, path_text}
use rato.Prelude.Utf8.{utf8_bytes}
use rato.Prelude.Result.{Result, ok, err, or_err, map_err, Exec, pure, fail, lift, ◌>>=◌, ◌>>◌}
use rato.Store.Sql.{Sql, Json}
use rato.Store.Approvals.{Approval, NewApproval, Approvals, do_insert_approval}
use rato.Store.Runs.{AgentRun, Runs, do_get_agent_run}
use rato.Store.Blobs.{Blob, blob_id, do_insert_blob}
use rato.Policy.{Tier, RiskOutcome, tier, refused, risk_tier, ActionKind, tier_to_i64}
use rato.Daemon.Ingest.{byte_length}
use rato.Workbench.Git.{WorkbenchError, parse, panicked}
use rato.Workbench.Host.{Host, OnHost}
use rato.Workbench.Worktree.{
  Worktree, diffstat, full_diff, derive_base_sha, find_project_root_from_worktree,
}

abbrev pub diff_inline_limit : ℕ
diff_inline_limit = 32 * 1024

abbrev pub approval_expiry_ms : ℕ
approval_expiry_ms = 60 * 60 * 1000

pub record Env : Type 1 where
  pub json : Json
  pub runs : Runs json.Value
  pub approvals : Approvals json.Value
  pub blobs : Sql Blob blob_id
  pub blob_digest : List ℕ → Text
  pub host : Host

-- `unreachable!` is a panic.
unfoldable pub risk_of : RiskOutcome → Result WorkbenchError ℕ
unfolding tier_to_i64
risk_of (tier t) = ok (tier_to_i64 t)
risk_of refused = err panicked

unfoldable pub worktree_of : FilePath → Text → Text → Worktree
worktree_of worktree_path branch base = record {
  path = worktree_path;
  branch = branch;
  base = base;
}

module _ (E : Env) where
  open E use {json, host}

  abbrev pub Value : Type 0
  Value = json.Value

  pub record World : Type 0 where
    pub runs : E.runs.Table
    pub approvals : E.approvals.Table
    pub blobs : E.blobs.Table
    pub disk : host.Disk

  abbrev pub M : Type 0 → Type 0
  M A = Exec World WorkbenchError A

  abbrev pub on_host : {A : Type 0} → OnHost host A → M A
  on_host m w = let (r, d) = m w.disk in (r, record w { disk = d })

  unfoldable pub find_run : String → M (AgentRun Value)
  unfolding do_get_agent_run
  find_run run_id w = (or_err (do_get_agent_run E.runs run_id w.runs) parse, w)

  unfoldable pub insert_blob : String → List ℕ → ℕ → M Blob
  unfolding do_insert_blob
  insert_blob id bytes now w =
      let (r, t) = do_insert_blob E.blob_digest E.blobs id bytes now w.blobs in
      (map_err (λ e. parse) r, record w { blobs = t })

  unfoldable pub insert_approval : String → ℕ → NewApproval Value → M (Approval Value)
  unfolding do_insert_approval
  insert_approval id now na w =
      let (r, t) = do_insert_approval E.approvals id now na w.approvals in
      (map_err (λ e. parse) r, record w { approvals = t })

  -- A difference of more than 32 KB goes into a blob.
  unfoldable pub diff_payload : String → ℕ → Text → M Value
  unfolding insert_blob byte_length utf8_bytes
  diff_payload id now diff_str =
      if ltb diff_inline_limit (byte_length diff_str)
      then (do
        blob ← insert_blob id (utf8_bytes diff_str) now
        pure (json.object (("blob_id", json.string blob.id) ∷ [])))
      else pure (json.object (("inline", json.text diff_str) ∷ []))

  unfoldable pub merge_approval :
      ℕ → ℕ → AgentRun Value → FilePath → FilePath → Text → Value → NewApproval Value
  unfolding path_text
  merge_approval risk_num expires_at run worktree_path project_root stat_str diff = record {
    kind = "merge_back";
    risk = risk_num;
    title = host.string_of (codes "Merge back: " ++ codes run.task_title);
    reason = host.string_of (
        codes "Agent run '"
        ++ codes run.task_title
        ++ codes "' (adapter: "
        ++ codes run.adapter
        ++ codes ") completed; merge worktree branch "
        ++ codes run.branch
        ++ codes " into live repo.");
    cwd = some (host.string_of (path_text worktree_path));
    target = some (host.string_of (path_text project_root));
    agent_identity = run.adapter;
    payload = json.object (
        ("branch", json.string run.branch)
        ∷ ("target", json.text (path_text project_root))
        ∷ ("diffstat", json.text stat_str)
        ∷ ("diff", diff)
        ∷ []);
    expected_impact = json.object (("diffstat", json.text stat_str) ∷ []);
    expires_at = expires_at;
  }

  unfoldable pub merge_back : String → String → ℕ → String → M (Approval Value)
  unfolding find_run worktree_of derive_base_sha diffstat full_diff risk_of risk_tier diff_payload
      find_project_root_from_worktree merge_approval insert_approval path_of
  merge_back id blob now run_id = do
    run ← find_run run_id
    let worktree_path = path_of (codes run.worktree_path)
    base ← on_host (derive_base_sha host worktree_path)
    let wt = worktree_of worktree_path (codes run.branch) base
    stat_str ← on_host (diffstat host wt)
    diff_str ← on_host (full_diff host wt)
    risk_num ← lift (risk_of (risk_tier ActionKind.merge_back))
    diff ← diff_payload blob now diff_str
    project_root ← on_host (find_project_root_from_worktree host worktree_path)
    insert_approval id now (
        merge_approval risk_num (now + approval_expiry_ms) run worktree_path project_root stat_str
          diff)
