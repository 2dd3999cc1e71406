-- ===== src/Store/Runs.antt =====
-- crates/rat-store/src/store.rs, the agent_runs table. `V` is the type of JSON values; the cost in
-- dollars, a float that only passes through, is kept as such a value too. A text that the program puts
-- together is a list of code points.
use rato.Prelude.{ℕ, String, Option, none, some, List, [], ◌∷◌, ◌==◌, if◌then◌else◌, leb, take}
use rato.Prelude.Result.{Result, ok, err}
use rato.Store.Sql.{Sql, get_row}
use rato.Store.Approvals.{StoreError, sqlite}

pub record AgentRun (V : Type 0) : Type 0 where
  pub id : String
  pub adapter : String
  pub task_title : String
  pub project_id : String
  pub worktree_path : String
  pub branch : String
  pub tmux_target : Option String
  pub mode : String
  pub status : String
  pub tokens : V
  pub cost_usd : V
  pub started : ℕ
  pub ended : Option ℕ
  pub result_summary : Option (List ℕ)
  pub diffstat : Option V

pub record NewAgentRun (V : Type 0) : Type 0 where
  pub adapter : String
  pub task_title : String
  pub project_id : String
  pub worktree_path : String
  pub branch : String
  pub tmux_target : Option String
  pub mode : String
  pub tokens : V
  pub cost_usd : V
  pub started : ℕ

abbrev pub run_id : {V : Type 0} → AgentRun V → String
run_id r = r.id

abbrev pub Runs : Type 0 → Type 1
Runs V = Sql (AgentRun V) run_id

unfoldable pub new_run : {V : Type 0} → String → NewAgentRun V → AgentRun V
new_run id run = record {
  id = id;
  adapter = run.adapter;
  task_title = run.task_title;
  project_id = run.project_id;
  worktree_path = run.worktree_path;
  branch = run.branch;
  tmux_target = run.tmux_target;
  mode = run.mode;
  status = "running";
  tokens = run.tokens;
  cost_usd = run.cost_usd;
  started = run.started;
  ended = none;
  result_summary = none;
  diffstat = none;
}

-- ORDER BY started DESC; rows that started together keep the order of insertion.
unfoldable pub insert_newest : {V : Type 0} → AgentRun V → List (AgentRun V) → List (AgentRun V)
insert_newest r [] = r ∷ []
insert_newest r (x ∷ xs) = if leb x.started r.started then r ∷ x ∷ xs else x ∷ insert_newest r xs

unfoldable pub newest_first : {V : Type 0} → List (AgentRun V) → List (AgentRun V)
unfolding insert_newest
newest_first [] = []
newest_first (x ∷ xs) = insert_newest x (newest_first xs)

module _ {V : Type 0} (db : Runs V) where
  unfoldable pub do_insert_agent_run :
      String → NewAgentRun V → db.Table → Result StoreError (AgentRun V) × db.Table
  unfolding new_run
  do_insert_agent_run id run t = elim (db.insert (new_run id run) t) [
    | none ↦ (err sqlite, t)
    | some t' ↦ (ok (new_run id run), t')
  ]

  abbrev pub status_row : String → Option ℕ → Option (List ℕ) → Option V → AgentRun V → AgentRun V
  status_row status ended result_summary diffstat r = record r {
    status = status;
    ended = ended;
    result_summary = result_summary;
    diffstat = diffstat;
  }

  unfoldable pub do_update_agent_run_status :
      String → String → Option ℕ → Option (List ℕ) → Option V → db.Table → db.Table
  do_update_agent_run_status id status ended result_summary diffstat t =
      db.update (λ r. r.id == id) (status_row status ended result_summary diffstat) t

  unfoldable pub do_recent_agent_runs : ℕ → db.Table → List (AgentRun V)
  unfolding newest_first
  do_recent_agent_runs n t = take n (newest_first (db.rows t))

  unfoldable pub do_get_agent_run : String → db.Table → Option (AgentRun V)
  do_get_agent_run id t = get_row db id t
