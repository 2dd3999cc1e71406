-- ===== src/Workbench/Start.antt =====
-- crates/rat-workbench/src/runner.rs: `start_with_backend`. The world is the runs table and the machine.
-- `id` is the fresh id of the row and `now` the reading of the clock; the two command lines of the
-- adapter and its name are arguments.
pub mod Slug
use rato.Prelude.{
  ℕ, String, Bool, true, false, not, ◌||◌, ◌&&◌, Option, none, some, List, [], ◌∷◌, ◌++◌, eqb, leb,
  ◌+◌, codes, is_empty, min, if◌then◌else◌, take,
}
use rato.Prelude.Paths.{FilePath, Text, path_text}
use rato.Prelude.Result.{Result, ok, err, or_err, map_err, Exec, pure, fail, lift, ◌>>=◌, ◌>>◌}
use rato.Store.Sql.{Json}
use rato.Store.Runs.{AgentRun, NewAgentRun, Runs, do_insert_agent_run}
use rato.Daemon.Ingest.{byte_length, first_bytes}
use rato.Workbench.Git.{WorkbenchError, parse, panicked}
use rato.Workbench.Command.{ExecutionBackend, mode_label, wrapped_run_command}
use rato.Workbench.Host.{Host, OnHost, ensure_server, ensure_session, new_window, run_in_window}
use rato.Workbench.Worktree.{Worktree, create}

unfoldable pub to_ascii_lowercase : ℕ → ℕ
to_ascii_lowercase c = if leb 65 c && leb c 90 then c + 32 else c

-- The loop of `title_to_slug` from the flag `last_dash` on.
unfoldable pub slug_chars : (ℕ → Bool) → Bool → Text → Text
unfolding to_ascii_lowercase
slug_chars is_alphanumeric last_dash [] = []
slug_chars is_alphanumeric last_dash (c ∷ s) =
    let rest = slug_chars is_alphanumeric (not (is_alphanumeric c)) s in
    if is_alphanumeric c
    then to_ascii_lowercase c ∷ rest
    else if not last_dash
    then 45 ∷ rest
    else rest

-- `trim_end_matches('-')`
unfoldable pub trim_end_dashes : Text → Text
trim_end_dashes [] = []
trim_end_dashes (c ∷ s) =
    let rest = trim_end_dashes s in if eqb c 45 && is_empty rest then [] else c ∷ rest

unfoldable pub title_to_slug : (ℕ → Bool) → Text → Text
unfolding slug_chars trim_end_dashes
title_to_slug is_alphanumeric title =
    let slug = trim_end_dashes (slug_chars is_alphanumeric true title) in
    if is_empty slug then codes "task" else slug

-- The slices `[..12]` and `[..8]` of the name, which panic where they cut a character.
unfoldable pub window_name : Text → Text → Option Text
unfolding byte_length first_bytes
window_name slug task_id = elim (first_bytes (min (byte_length slug) 12) slug) [
  | none ↦ none
  | some s ↦ some (s ++ (codes "-" ++ take 8 task_id))
]

pub record Adapter : Type 0 where
  pub name : String
  pub headless_cmd : Text → FilePath → Text
  pub container_cmd : Text → Text

module _ (J : Json) (R : Runs J.Value) (H : Host) where
  pub record World : Type 0 where
    pub runs : R.Table
    pub disk : H.Disk

  abbrev pub M : Type 0 → Type 0
  M A = Exec World WorkbenchError A

  abbrev pub on_host : {A : Type 0} → OnHost H A → M A
  on_host m w = let (r, d) = m w.disk in (r, record w { disk = d })

  unfoldable pub new_agent_run :
      Adapter → String → Text → Worktree → Text → ExecutionBackend → ℕ → NewAgentRun J.Value
  unfolding mode_label path_text
  new_agent_run adapter project_id title worktree target backend now = record {
    adapter = adapter.name;
    task_title = H.string_of title;
    project_id = project_id;
    worktree_path = H.string_of (path_text worktree.path);
    branch = H.string_of worktree.branch;
    tmux_target = some (H.string_of target);
    mode = H.string_of (mode_label backend);
    tokens = J.object [];
    cost_usd = J.number 0;
    started = now;
  }

  unfoldable pub insert_run : String → NewAgentRun J.Value → M (AgentRun J.Value)
  unfolding do_insert_agent_run
  insert_run id run w =
      let (r, t) = do_insert_agent_run R id run w.runs in
      (map_err (λ e. parse) r, record w { runs = t })

  unfoldable pub start_with_backend :
      String
      → ℕ
      → FilePath
      → String
      → Text
      → Adapter
      → Text
      → ExecutionBackend
      → M (AgentRun J.Value)
  unfolding title_to_slug create ensure_server ensure_session window_name new_window new_agent_run
      insert_run run_in_window wrapped_run_command path_text
  start_with_backend id now project_root project_id title adapter base backend = do
    let slug = title_to_slug H.is_alphanumeric title
    let task_id = H.lower_hex now
    worktree ← on_host (create H project_root task_id slug base)
    on_host (ensure_server H)
    on_host (ensure_session H (codes "rato"))
    name ← lift (or_err (window_name slug task_id) panicked)
    target ← on_host (new_window H (codes "rato") name worktree.path)
    run ← insert_run id (new_agent_run adapter project_id title worktree target backend now)
    on_host (
        run_in_window H target (
          wrapped_run_command (adapter.headless_cmd title worktree.path)
            (adapter.container_cmd title) (path_text worktree.path) backend))
    pure run
