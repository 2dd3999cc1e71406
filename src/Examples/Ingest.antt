-- ===== src/Examples/Ingest.antt =====
-- Events on their way into a small store, and measurements of the mode.
use rato.Prelude.{
  ◌≡◌, refl, String, Bool, false, none, some, List, [], ◌∷◌, codes, trim_start, starts_with,
  contains, text_eq, if◌then◌else◌,
}
use rato.Prelude.Paths.{FilePath, path_of, path_eq, path_text, parent, file_name, is_normal}
use rato.Prelude.Result.{ok}
use rato.Store.Sql.{list_sql}
use rato.Store.Events.{NewEvent, event_id, project_key, do_append, do_upsert_project}
use rato.Store.Prune.{observation_id, is_in}
use rato.Store.Observations.{do_add_observation}
use rato.Store.Sessions.{session_key, do_session_open}
use rato.Daemon.Sessionizer.{new, default_gap_ms, get, on_activity}
use rato.Daemon.Ingest.{Env, World, Call, ingest, tick_sessions, find_git_root, observed}
use rato.Daemon.Ingest.Refines.{InSync, tick_sessions-InSync}
use rato.Daemon.Ingest.Events.{ingest-InSync}
use rato.Daemon.Mode.{ModeManager, update, state}
use rato.Daemon.Mode.Transitions.{
  Call as ModeCall, noted, measured, log, replay, Alternates, replay-log,
}
use rato.Examples.Fixtures.{Js, Fields, js_object, js_string, js_json, no_fields, field}

without_fields : List String → Fields → Fields
unfolding is_in
without_fields ks no_fields = no_fields
without_fields ks (field k v fs) =
    if is_in k ks then without_fields ks fs else field k v (without_fields ks fs)

abbrev remove_from : List String → Js → Js
remove_from ks (js_object fs) = js_object (without_fields ks fs)
remove_from ks v = v

abbrev repository : FilePath → Bool
repository p = path_eq p (codes "HEAD" ∷ codes ".git" ∷ codes "rato" ∷ codes "src" ∷ codes "/" ∷ [])

abbrev git_dir : FilePath → Bool
git_dir p = path_eq p (codes ".git" ∷ codes "rato" ∷ codes "src" ∷ codes "/" ∷ [])

abbrev ingest_env : Env
ingest_env = record {
  json = js_json;
  events = list_sql event_id;
  projects = list_sql project_key;
  observations = list_sql observation_id;
  sessions = list_sql session_key;
  is_file = repository;
  is_dir = git_dir;
  remove_fields = remove_from;
}

abbrev empty_world : World ingest_env
empty_world = record {
  events = [];
  projects = [];
  observations = [];
  sessions = [];
  sessionizer = new default_gap_ms;
  project_cache = [];
}

empty_world-InSync : InSync ingest_env empty_world
unfolding new get
empty_world-InSync = record {
  distinct = tt;
  mirrors = record { stored = λ p. tt; opened = λ id. tt };
}

abbrev small_call : Call
small_call = record {
  project_id = "p1";
  project_now = 100;
  event_id = "e1";
  event_now = 101;
  observation_id = "o1";
  observation_now = 102;
  session_id = "s1";
}

abbrev shell_event : String → NewEvent Js
shell_event cmd = record {
  kind = "shell_cmd";
  source = "zsh";
  payload =
      js_object
        (field "cmd" (js_string cmd) (field "cwd" (js_string "/src/rato/crates") no_fields));
  project_id = none;
  session_id = none;
  lang = none;
}

-- One event opens a session of the project around its directory.
opens_session :
    get "p1"
      (ingest ingest_env small_call (shell_event "cargo test") empty_world).1.sessionizer.opened
    ≡ some (record { id = "s1"; last_activity = 101; commands = 1 })
unfolding ingest new get path_of path_text path_eq parent file_name is_normal starts_with contains
    trim_start text_eq do_append do_upsert_project do_add_observation do_session_open on_activity
    find_git_root observed
opens_session = refl

-- The hooks' own commands are dropped.
drops_own :
    ingest ingest_env small_call (shell_event "  rat emit shell_cmd") empty_world
    ≡ (ok none, empty_world)
unfolding ingest starts_with contains trim_start
drops_own = refl

ingest-InSync_example :
    InSync ingest_env (ingest ingest_env small_call (shell_event "cargo test") empty_world).1
ingest-InSync_example =
    ingest-InSync ingest_env small_call (shell_event "cargo test") empty_world empty_world-InSync
      refl

tick_sessions-InSync_example :
    ((tick_sessions ingest_env 9000000
        (ingest ingest_env small_call (shell_event "cargo test") empty_world).1).0
      ≡ ok tt)
    × InSync ingest_env
        (tick_sessions ingest_env 9000000
          (ingest ingest_env small_call (shell_event "cargo test") empty_world).1).1
tick_sessions-InSync_example =
    tick_sessions-InSync ingest_env 9000000
      (ingest ingest_env small_call (shell_event "cargo test") empty_world).1 ingest-InSync_example

abbrev at_desk : ModeManager
at_desk = record { away = false; since_ms = 0; idle_ms = none; last_event_ms = 0 }

abbrev an_hour : List ModeCall
an_hour =
    measured (some 1000) 30000 ∷ measured none 930000 ∷ noted 950000 ∷ measured none 960000 ∷ []

leaves_and_returns : (state (log js_json an_hour at_desk).0).since_ms ≡ 960000
unfolding state log update
leaves_and_returns = refl

replay-log_example :
    let (last, es) = log js_json an_hour at_desk in
    (replay js_json (some (state at_desk).mode) (state at_desk).since_ms es
      ≡ (some (state last).mode, (state last).since_ms))
    × Alternates js_json (some (state at_desk).mode) es
replay-log_example = replay-log js_json an_hour at_desk
