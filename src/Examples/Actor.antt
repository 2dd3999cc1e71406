-- ===== src/Examples/Actor.antt =====
-- The actor over tables as lists.
use rato.Prelude.{ℕ, ◌≡◌, ◌++◌, refl, arith, false, none, some, List, [], ◌∷◌}
use rato.Store.Sql.{list_sql}
use rato.Store.Approvals.{approval_id}
use rato.Store.Runs.{run_id}
use rato.Store.Pins.{pin_id}
use rato.Store.Prune.{observation_id, call_id, vec_id}
use rato.Store.Events.{NewEvent, event_id, project_key}
use rato.Store.Sessions.{session_key}
use rato.Store.Pushbacks.{pushback_id, disclosure_id}
use rato.Store.Blobs.{blob_id}
use rato.Store.DotfileEdits.{edit_id}
use rato.Store.Terminals.{terminal_id, utterance_id}
use rato.Store.Memories.{memory_id}
use rato.Store.Actor.{Env, Db, Cmd}
use rato.Store.Actor.Loop.{Happening, sends, serves, ends, happen_all, opened, happen}
use rato.Store.Actor.Loop.Schedule.{sent, IsSerial, happen_all-IsSerial}
use rato.Store.Actor.Loop.Answered.{answered, turns, happen_all-answered}
use rato.Examples.Fixtures.{Js, js_json, js_number}

-- A float is its four bytes.
abbrev pub actor_env : Env
actor_env = record {
  json = js_json;
  Float = ℕ;
  float32 = record {
    F = ℕ × ℕ × ℕ × ℕ;
    to_le_bytes = λ f. f;
    from_le_bytes = λ a b c d. (a, b, c, d);
    from-to = λ f. refl;
  };
  is_null = λ v. false;
  sha256_hex = λ bytes. bytes;
  events = list_sql event_id;
  projects = list_sql project_key;
  observations = list_sql observation_id;
  sessions = list_sql session_key;
  memories = list_sql memory_id;
  vec_observations = list_sql vec_id;
  vec_memories = list_sql vec_id;
  pushbacks = list_sql pushback_id;
  api_calls = list_sql call_id;
  disclosures = list_sql disclosure_id;
  approvals = list_sql approval_id;
  runs = list_sql run_id;
  blobs = list_sql blob_id;
  pins = list_sql pin_id;
  utterances = list_sql utterance_id;
  terminals = list_sql terminal_id;
  dotfile_edits = list_sql edit_id;
  match_observations = λ query rows. some rows;
  match_memories = λ query rows. none;
  moment = λ n. record { id = "row"; now = n };
}

abbrev pub empty_db : Db actor_env
empty_db = record {
  events = [];
  projects = [];
  observations = [];
  sessions = [];
  memories = [];
  vec_observations = [];
  vec_memories = [];
  pushbacks = [];
  api_calls = [];
  disclosures = [];
  approvals = [];
  runs = [];
  blobs = [];
  pins = [];
  utterances = [];
  terminals = [];
  dotfile_edits = [];
  retention = none;
}

abbrev small_event : NewEvent Js
small_event = record {
  kind = "note";
  source = "shell";
  payload = js_number 1;
  project_id = none;
  session_id = none;
  lang = none;
}

-- Two inserts under one id, of which the second fails, and a count that the thread does not live to serve.
abbrev rush : List (Happening actor_env)
rush =
    sends (Cmd.append small_event)
    ∷ sends (Cmd.append small_event)
    ∷ serves
    ∷ serves
    ∷ sends Cmd.count
    ∷ ends
    ∷ []

happen_all-IsSerial_example :
    IsSerial actor_env empty_db
      (sent actor_env rush)
      (happen_all actor_env rush (opened actor_env empty_db))
happen_all-IsSerial_example = happen_all-IsSerial actor_env empty_db rush

abbrev two_sent : List (Happening actor_env)
two_sent = sends (Cmd.append small_event) ∷ sends Cmd.count ∷ []

happen_all-answered_example :
    (more : List (Cmd actor_env)) × (answered actor_env (
        happen_all actor_env
          (serves ∷ serves ∷ [])
          (happen_all actor_env two_sent (opened actor_env empty_db)))
      ≡ sent actor_env two_sent ++ more)
unfolding happen_all happen turns
happen_all-answered_example =
    happen_all-answered actor_env empty_db two_sent (serves ∷ serves ∷ []) (omega arith)
