-- ===== src/Daemon/Server/Workbench.antt =====
-- crates/rat-daemon/src/server.rs: the arms of the workbench and of approvals.
use rato.Prelude.{
  ℕ, String, none, some, List, [], ◌∷◌, ◌++◌, ◌==◌, map, filter, codes, if◌then◌else◌,
}
use rato.Prelude.Result.{Result, ok, err, pure, ◌>>=◌, ◌>>◌}
use rato.Store.Runs.{AgentRun}
use rato.Store.Actor.Client as Store
use rato.Workbench.Command.{ExecutionBackend, local, docker}
use rato.Daemon.Server.{
  Env, Value, Ctx, Arm, Services, Adapter, fake_agent, claude_code, codex, or_refuse, refuse,
  stored, params_of, params_or, found,
}
use rato.Daemon.Server.Arms.{or_number, docker_image}
use rato.Daemon.Server.Wire.{RpcError, invalid_request, internal, WorkbenchStartParams}
use rato.Daemon.Server.Dto.{agent_run_to_dto, approval_to_dto}

module _ (E : Env) where
  open E use {codec}

  unfoldable pub backend_of : WorkbenchStartParams → Arm E ExecutionBackend
  backend_of p =
      if p.executor == "local"
      then pure local
      else if p.executor == "docker"
      then (elim (docker_image p.docker_image) [
        | none ↦ refuse E invalid_request (codes "docker executor requires docker_image")
        | some image ↦ pure (docker image)
      ])
      else refuse E invalid_request
          (codes "unknown executor: " ++ (codes p.executor ++ codes "; must be local|docker"))

  unfoldable pub adapter_of : String → Arm E Adapter
  adapter_of name =
      if name == "fakeagent"
      then pure fake_agent
      else if name == "claude-code"
      then pure claude_code
      else if name == "codex"
      then pure codex
      else refuse E invalid_request (
          codes "unknown adapter: "
          ++ (codes name ++ codes "; must be fakeagent|claude-code|codex"))

  unfoldable pub workbench_start : Services E → Value E → Arm E (Value E)
  unfolding agent_run_to_dto backend_of adapter_of
  workbench_start S params = do
    p ← params_of E codec.start params
    row ← stored E (Store.get_project_by_id E.store p.project_id)
    project ← found E row (codes "project " ++ (codes p.project_id ++ codes " not found"))
    backend ← backend_of p
    adapter ← adapter_of p.adapter
    run ← or_refuse E internal (S.start project.root_path p.project_id p.title adapter backend)
    pure (codec.of_run (agent_run_to_dto run))

  -- A poll that fails is only logged.
  unfoldable pub poll_all : Services E → List (AgentRun (Value E)) → Ctx E → Ctx E
  poll_all S [] c = c
  poll_all S (r ∷ rs) c = poll_all S rs (S.poll r.id c).1

  -- Before the listing the running ones of the last hundred are polled, if they can be read.
  abbrev pub poll_running : Services E → Result RpcError (List (AgentRun (Value E))) × Ctx E → Ctx E
  poll_running S (err e, c) = c
  poll_running S (ok rows, c) = poll_all S (filter (λ r. r.status == "running") rows) c

  unfoldable pub workbench_runs : Services E → Value E → Arm E (Value E)
  unfolding agent_run_to_dto poll_all
  workbench_runs S params = do
    p ← params_or E (record { n = none }) codec.count params
    (λ c. (ok tt, poll_running S (stored E (Store.recent_agent_runs E.store 100) c)))
    rows ← stored E (Store.recent_agent_runs E.store (or_number p.n 20))
    pure (codec.of_runs (map agent_run_to_dto rows))

  unfoldable pub workbench_tail : Services E → Value E → Arm E (Value E)
  workbench_tail S params = do
    p ← params_of E codec.tail params
    row ← stored E (Store.get_agent_run E.store p.run_id)
    run ← found E row (codes "run " ++ (codes p.run_id ++ codes " not found"))
    target ← found E run.tmux_target (codes "run has no tmux_target")
    output ← or_refuse E internal (S.capture_tail target (or_number p.lines 50))
    pure (codec.of_lines output)

  unfoldable pub approvals_pending : Arm E (Value E)
  unfolding approval_to_dto
  approvals_pending = do
    rows ← stored E (Store.pending_approvals E.store)
    pure (codec.of_approvals (map (approval_to_dto E.digest) rows))

  unfoldable pub approvals_decide : Services E → ℕ → Value E → Arm E (Value E)
  unfolding approval_to_dto
  approvals_decide S now params = do
    p ← params_of E codec.decide params
    a ← S.decide p now
    pure (codec.of_approval (approval_to_dto E.digest a))

  unfoldable pub workbench_merge_back : Services E → Value E → Arm E (Value E)
  unfolding approval_to_dto
  workbench_merge_back S params = do
    p ← params_of E (codec.id_under "run_id") params
    a ← or_refuse E invalid_request (S.merge_back p.id)
    pure (codec.of_approval (approval_to_dto E.digest a))
