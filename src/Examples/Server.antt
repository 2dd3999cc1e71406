-- ===== src/Examples/Server.antt =====
-- A daemon whose codec reads a line as the name of a method, with 1 as the version of every greeting
-- but that of the line "old".
use rato.Prelude.{ℕ, ◌≡◌, refl, false, none, List, [], ◌∷◌, codes, All, text_eq, if◌then◌else◌}
use rato.Prelude.Paths.{Text}
use rato.Prelude.Result.{Result, ok, err}
use rato.Store.Actor.Loop.{opened}
use rato.Daemon.Server.{Env, Ctx, Services, Codec}
use rato.Daemon.Server.Wire.{internal, default_recent}
use rato.Daemon.Server.Connection.{handle_conn}
use rato.Daemon.Server.Connection.Greeting.{is_greeting, IsRefusal, handle_conn-ungreeted}
use rato.Daemon.Sensors.{not_started}
use rato.Daemon.Mode.{new}
use rato.Examples.Fixtures.{Js, js_number}
use rato.Examples.Actor.{actor_env, empty_db}
use rato.Examples.Dotfile.{memory_fs, small_parsers, has_all}

abbrev refused : {A : Type 0} → Js → Result Text A
refused v = err (codes "no")

abbrev number_of : Js → ℕ
number_of (js_number n) = n
number_of _ = 0

abbrev small_codec : Codec Js ℕ
small_codec = record {
  request = λ line.
      if text_eq line (codes "hello")
      then ok (record { id = 1; method = "hello"; params = js_number 1 })
      else if text_eq line (codes "old")
      then ok (record { id = 2; method = "hello"; params = js_number 0 })
      else if text_eq line (codes "count")
      then ok (record { id = 3; method = "status"; params = js_number 0 })
      else err (codes "no");
  is_null = λ v. false;
  null = js_number 0;
  hello = λ v. ok (record { version = number_of v });
  event = refused;
  recent = λ v. ok default_recent;
  obs_recent = refused;
  memory_search = refused;
  memory_list = refused;
  count = refused;
  feedback = refused;
  start = refused;
  tail = refused;
  decide = refused;
  pin_recent = refused;
  set_role = refused;
  dotfile_apply = refused;
  id_under = λ field. refused;
  of_hello = λ n v. js_number n;
  of_status = λ s. js_number s.event_count;
  of_event = λ e. js_number 0;
  of_events = λ e. js_number 0;
  of_observations = λ o. js_number 0;
  of_projects = λ p. js_number 0;
  of_sessions = λ w. js_number 0;
  of_mode = λ m. js_number 0;
  of_hits = λ h. js_number 0;
  of_memories = λ m. js_number 0;
  of_disclosures = λ d. js_number 0;
  of_pushbacks = λ p. js_number 0;
  of_pushback = λ p. js_number 0;
  of_llm_status = λ s. js_number 0;
  of_run = λ r. js_number 0;
  of_runs = λ r. js_number 0;
  of_lines = λ l. js_number 0;
  of_approvals = λ a. js_number 0;
  of_approval = λ a. js_number 0;
  of_pins = λ p. js_number 0;
  of_pin = λ p. js_number 0;
  of_ring_status = λ r. js_number 0;
  of_retention = λ r. js_number 0;
  of_voice_status = λ v. js_number 0;
  of_utterances = λ u. js_number 0;
  of_terminals = λ t. js_number 0;
  of_terminal = λ t. js_number 0;
  of_edits = λ e. js_number 0;
  of_edit = λ e. js_number 0;
}

abbrev server_env : Env
server_env = record {
  store = actor_env;
  fs = memory_fs;
  Rest = ℕ;
  codec = small_codec;
  show_store = λ e. codes "store";
  show_dotfile = λ e. codes "dotfile";
  decimal = λ n. n ∷ [];
  parsers = small_parsers;
  command_exists = has_all;
  pid = codes "7";
  version = "0.1.0";
  db_path = codes "/home/user/rato.db";
  digest = λ id. (0, 0);
}

abbrev no_services : Services server_env
no_services = record {
  ingest = λ ev c. (err (codes "no"), c);
  search = λ query project n c. (err (codes "no"), c);
  start = λ root project title adapter backend c. (err (codes "no"), c);
  poll = λ id c. (err (codes "no"), c);
  capture_tail = λ target n c. (err (codes "no"), c);
  merge_back = λ id c. (err (codes "no"), c);
  decide = λ p now c. (err (record { code = internal; message = [] }), c);
  pins = none;
  panics = λ now line c. false;
  after_panic = λ now line c. c;
}

abbrev fresh_ctx : Ctx server_env
fresh_ctx = record {
  store = opened actor_env empty_db;
  disk = λ p. none;
  mode = new 0;
  sensors = not_started;
  llm = record {
    provider = "openai";
    openai_key = false;
    anthropic_key = false;
    openrouter_key = false;
    embedding_enabled = false;
    critic_enabled = false;
    last_error = none;
  };
  uptime_ms = 5;
  rest = 0;
}

-- An old client asks, and asks again.
abbrev old_lines : List (ℕ × Text)
old_lines = (1, codes "old") ∷ (2, codes "count") ∷ (3, codes "what") ∷ []

handle_conn-ungreeted_example :
    All
      (IsRefusal server_env no_services)
      (handle_conn server_env no_services old_lines fresh_ctx).0
    × ((handle_conn server_env no_services old_lines fresh_ctx).1 ≡ fresh_ctx)
unfolding is_greeting text_eq
handle_conn-ungreeted_example =
    handle_conn-ungreeted server_env no_services old_lines fresh_ctx (refl, (refl, (refl, tt)))

abbrev good_lines : List (ℕ × Text)
good_lines =
    (1, codes "count")
    ∷ (2, codes "")
    ∷ (3, codes "hello")
    ∷ (4, codes "count")
    ∷ (5, codes "what")
    ∷ []
