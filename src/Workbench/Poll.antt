-- ===== src/Workbench/Poll.antt =====
-- crates/rat-workbench/src/runner.rs, `poll`: the exit marker in the tail of a run's tmux window. tmux
-- is an interface; a capture is a list of code points. The pattern's `\d` is any decimal digit of Unicode, a test
-- whose values below U+0080 are given.
pub mod Marker
pub mod Verdict
use rato.Prelude.{
  ℕ, zero, suc, ◌+◌, ◌-◌, ◌*◌, ◌<◌, ◌≡◌, String, Option, none, some, List, [], ◌∷◌, Bool, true,
  false, ◌&&◌, not, if◌then◌else◌, ltb, leb, eqb, ◌==◌, codes, length, drop, starts_with, is_empty,
}
use rato.Prelude.Result.{Result, ok, err}
use rato.Store.Sql.{Json}
use rato.Store.Runs.{AgentRun, Runs, do_get_agent_run, do_update_agent_run_status}

-- A server that `poll` only reads.
pub record Tmux : Type 1 where
  pub Server : Type 0
  pub window_alive : String → Server → Bool
  pub capture_tail : String → ℕ → Server → Option (List ℕ)
  -- the class of `\d`
  pub is_digit : ℕ → Bool
  pub is_digit-ascii : (c : ℕ) → c < 128 → is_digit c ≡ (leb 48 c && leb c 57)

unfoldable pub all_ascii : List ℕ → Bool
all_ascii [] = true
all_ascii (c ∷ s) = leb 48 c && leb c 57 && all_ascii s

-- The longest run of digits at the front.
unfoldable pub digits : (ℕ → Bool) → List ℕ → List ℕ
digits is_digit [] = []
digits is_digit (c ∷ s) = if is_digit c then c ∷ digits is_digit s else []

abbrev pub exit_marker : List ℕ
exit_marker = codes "RATO_EXIT="

unfoldable pub exit_here : (ℕ → Bool) → List ℕ → List ℕ
unfolding digits
exit_here is_digit s =
    if starts_with s exit_marker then digits is_digit (drop (length exit_marker) s) else []

-- The capture of RATO_EXIT=(\d+), at the first place where it matches.
unfoldable pub exit_digits : (ℕ → Bool) → List ℕ → Option (List ℕ)
unfolding exit_here
exit_digits is_digit [] = none
exit_digits is_digit (c ∷ s) =
    if is_empty (exit_here is_digit (c ∷ s))
    then exit_digits is_digit s
    else some (exit_here is_digit (c ∷ s))

unfoldable pub number : ℕ → List ℕ → ℕ
number acc [] = acc
number acc (c ∷ s) = number (acc * 10 + (c - 48)) s

-- `parse::<i32>().unwrap_or(1)`: a number out of range and a digit that is not ASCII read as 1.
unfoldable pub exit_code : List ℕ → ℕ
unfolding all_ascii number
exit_code ds = if all_ascii ds && ltb (number 0 ds) 2147483648 then number 0 ds else 1

-- The status that the tail of a window tells, `none` while the run goes on.
unfoldable pub tail_status : (ℕ → Bool) → Option (List ℕ) → Option String
unfolding exit_digits exit_code
tail_status is_digit none = some "failed"
tail_status is_digit (some output) = elim (exit_digits is_digit output) [
  | none ↦ none
  | some ds ↦ if eqb (exit_code ds) 0 then some "done" else some "failed"
]

module _ (tmux : Tmux) where
  unfoldable pub window_status : String → tmux.Server → Option String
  unfolding tail_status
  window_status target server =
      if tmux.window_alive target server
      then tail_status tmux.is_digit (tmux.capture_tail target 50 server)
      else some "failed"

  module _ {V : Type 0} (db : Runs V) where
    unfoldable pub poll_target :
        tmux.Server → ℕ → AgentRun V → String → db.Table → Option (AgentRun V) × db.Table
    unfolding window_status
    poll_target server now run target t = elim (window_status target server) [
      | none ↦ (do_get_agent_run db run.id t, t)
      | some status ↦
          let t' = do_update_agent_run_status db run.id status (some now) none none t in
          (do_get_agent_run db run.id t', t')
    ]

    unfoldable pub poll_run :
        tmux.Server → ℕ → Option (AgentRun V) → db.Table → Option (AgentRun V) × db.Table
    unfolding poll_target
    poll_run server now none t = (none, t)
    poll_run server now (some run) t =
        if not (run.status == "running") then (some run, t) else elim run.tmux_target [
          | none ↦ (some run, t)
          | some target ↦ poll_target server now run target t
        ]

    unfoldable pub poll : tmux.Server → ℕ → String → db.Table → Option (AgentRun V) × db.Table
    unfolding poll_run
    poll server now id t = poll_run server now (do_get_agent_run db id t) t
