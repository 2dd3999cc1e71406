-- ===== src/Workbench/Poll/Verdict.antt =====
-- What a poll does to the runs.
use mathlib.Core.Option
use rato.Prelude.{ℕ, String, Option, none, some, ◌≡◌, false, if◌then◌else◌, ◌==◌, true, ◌⊎◌}
use rato.Store.Sql.{get_row}
use rato.Store.Runs.{AgentRun, Runs, status_row}
use rato.Workbench.Poll.Marker.{TailTells}
use rato.Workbench.Poll.{Tmux, window_status}

module _ (tmux : Tmux) where
  -- A window that is gone tells that the run failed, and one that is there tells what its last 50 lines
  -- tell.
  abbrev pub Tells : tmux.Server → String → Option String → Type 0
  Tells server target status =
      ((tmux.window_alive target server ≡ false) × (status ≡ some "failed"))
      ⊎ ((tmux.window_alive target server ≡ true)
          × TailTells tmux.is_digit (tmux.capture_tail target 50 server) status)

module _ (tmux : Tmux) {V : Type 0} (db : Runs V) where
  -- The run that a poll makes of a run: one that is running, in a window that tells its end, ends.
  abbrev pub polled : tmux.Server → ℕ → AgentRun V → AgentRun V
  polled server now run =
      if run.status == "running"
      then elim run.tmux_target [
        | none ↦ run
        | some target ↦ elim (window_status tmux target server) [
          | none ↦ run
          | some status ↦ status_row db status (some now) none none run
        ]
      ]
      else run

  abbrev pub Polls :
      tmux.Server → ℕ → AgentRun V → db.Table → Option (AgentRun V) × db.Table → Type 0
  Polls server now run t r =
      (r.0 ≡ some (polled server now run))
      × ((k : String)
          → get_row db k r.1
            ≡ (if k == run.id then some (polled server now run) else get_row db k t))

  abbrev told : tmux.Server → ℕ → AgentRun V → String → AgentRun V
  told server now run target = elim (window_status tmux target server) [
    | none ↦ run
    | some status ↦ status_row db status (some now) none none run
  ]

  abbrev Leaves : AgentRun V → AgentRun V → db.Table → Option (AgentRun V) × db.Table → Type 0
  Leaves run run' t r =
      (r.0 ≡ some run')
      × ((k : String) → get_row db k r.1 ≡ (if k == run.id then some run' else get_row db k t))
