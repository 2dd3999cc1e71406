-- ===== src/Daemon/Mode.antt =====
-- crates/rat-daemon/src/mode.rs: whether the operator is away. Times are milliseconds since the epoch,
-- and a measured idle time is no less than 0. Without a measurement the idle time counts from the last
-- event; it is taken as 0 where that event has a later time than now, which gives the mode that the
-- negative number gives; the payload of its event then holds 0 where the code writes that number. The
-- atomics are the fields of a record: one task writes them.
pub mod Transitions
use rato.Prelude.{
  ℕ, ◌-◌, ◌*◌, String, Bool, true, false, ◌&&◌, ◌||◌, not, Option, none, some, List, [], ◌∷◌, ◌==◌,
  if◌then◌else◌, leb,
}
use rato.Store.Sql.{Json}
use rato.Store.Events.{NewEvent}

abbrev pub away_threshold_ms : ℕ
away_threshold_ms = 15 * 60 * 1000

pub record ModeManager : Type 0 where
  pub away : Bool
  pub since_ms : ℕ
  -- `none` is the -1 of a time that is not known
  pub idle_ms : Option ℕ
  pub last_event_ms : ℕ

pub record ModeState : Type 0 where
  pub mode : String
  pub since_ms : ℕ
  pub idle_ms : Option ℕ

unfoldable pub new : ℕ → ModeManager
new now = record { away = false; since_ms = now; idle_ms = none; last_event_ms = now }

unfoldable pub note_activity : ℕ → ModeManager → ModeManager
note_activity ts m = record m { last_event_ms = ts }

abbrev pub mode_name : Bool → String
mode_name true = "away"
mode_name false = "active"

unfoldable pub state : ModeManager → ModeState
state m = record { mode = mode_name m.away; since_ms = m.since_ms; idle_ms = m.idle_ms }

-- `probe_idle_ms.unwrap_or(now - last_event)`
unfoldable pub idle_of : Option ℕ → ℕ → ModeManager → ℕ
idle_of none now m = now - m.last_event_ms
idle_of (some idle) now m = idle

unfoldable pub same : Bool → Bool → Bool
same a b = (a && b) || (not a && not b)

module _ (J : Json) where
  unfoldable pub mode_changed : Bool → ℕ → NewEvent J.Value
  mode_changed away idle = record {
    kind = "mode_changed";
    source = "idle";
    payload = J.object (("mode", J.string (mode_name away)) ∷ ("idle_ms", J.number idle) ∷ []);
    project_id = none;
    session_id = none;
    lang = none;
  }

  unfoldable pub update : Option ℕ → ℕ → ModeManager → ModeManager × Option (NewEvent J.Value)
  unfolding idle_of same mode_changed
  update probe now m =
      let idle = idle_of probe now m in
      let should_be_away = leb away_threshold_ms idle in
      let m' = record m { idle_ms = some idle; away = should_be_away } in
      if same m.away should_be_away
      then (m', none)
      else (record m' { since_ms = now }, some (mode_changed should_be_away idle))
