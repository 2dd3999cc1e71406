-- ===== src/Examples/Critic.antt =====
-- The critic on a small store, with natural numbers for the floats and a model with one answer.
use rato.Prelude.{
  ℕ, ◌≤◌, ◌≡◌, refl, String, false, Option, none, some, List, [], ◌∷◌, codes, arith, ltb, length,
  filter,
}
use rato.Prelude.Result.{ok}
use rato.Store.Sql.{list_sql}
use rato.Store.Prune.{Observation, observation_id}
use rato.Store.Observations.{do_recent_observations}
use rato.Store.Prune.{call_id}
use rato.Store.Pushbacks.{pushback_id, disclosure_id, do_insert_pushback}
use rato.Brain.Governor.{admit, new, in_last_hour}
use rato.Brain.Detect.{Signal, stuck, Int64, pos, stuck_loop, error_burst, is_failure}
use rato.Brain.Critic.{
  Env, Call, Critic, PushbackVerdict, fast_tick, slow_tick, read_verdict, judge, valid_evidence,
  digest_of, admit_and_show, record_call, is_dupe, show, build_pb,
}
use rato.Brain.Critic.Shown.{Ticked, slow_tick-Ticked}
use rato.Brain.Critic.Hourly.{ticks, ticks-cap}
use rato.Examples.Fixtures.{Js, js_json, js_object, js_number, no_fields, field}
use rato.Examples.Brain.{small_float}

abbrev number_of : Js → Option Int64
number_of (js_number n) = some (pos n)
number_of v = none

abbrev small_verdict : PushbackVerdict ℕ
small_verdict = record {
  severity = "nudge";
  title = "The test fails for the same reason";
  message_en = "Read the first error.";
  message_pt = "Leia o primeiro erro.";
  evidence =
      record { observation_id = "o2"; quote = "cargo test" }
      ∷ record { observation_id = "made up"; quote = "rm" }
      ∷ [];
  proposed_actions = [];
  confidence = 8;
}

abbrev critic_env : Env
critic_env = record {
  json = js_json;
  as_i64 = number_of;
  is_null = λ v. false;
  floats = small_float;
  is_below_bar = λ f. ltb f 6;
  verdict_of = λ v. some small_verdict;
  model_for = "model";
  complete = λ msg. ok (record {
    json = js_object (field "pushback" (js_object no_fields) no_fields);
    tokens_in = 10;
    tokens_out = 5;
    model = "model";
  });
  search = λ query project. [];
  debug = λ ids. [];
  decimal = λ n. 48 ∷ [];
  observations = list_sql observation_id;
  pushbacks = list_sql pushback_id;
  api_calls = list_sql call_id;
  disclosures = list_sql disclosure_id;
}

abbrev failing : String → ℕ → Observation Js
failing id ts = record {
  id = id;
  event_id = none;
  ts = ts;
  kind = "shell_cmd";
  project_id = none;
  content = codes "RUST_LOG=debug  cargo test";
  meta = js_object (field "exit" (js_number 1) no_fields);
}

abbrev small_critic : Critic critic_env
small_critic = record {
  observations = failing "o1" 1000 ∷ failing "o2" 2000 ∷ failing "o3" 3000 ∷ [];
  pushbacks = [];
  api_calls = [];
  disclosures = [];
  governor = new small_float;
  mode = "mentor";
}

abbrev tick_call : String → Call
tick_call id = record {
  call_id = id;
  call_now = 4000;
  disclosure_id = id;
  disclosure_now = 4000;
  pushback_id = id;
  pushback_now = 4000;
}

abbrev small_signals : List Signal
small_signals = stuck (codes "cargo test") 3 ("o1" ∷ "o2" ∷ "o3" ∷ []) ∷ []

finds_loop : fast_tick critic_env 4000 small_critic ≡ small_signals
unfolding fast_tick stuck_loop do_recent_observations is_failure error_burst
finds_loop = refl

abbrev two_ticks : List (Call × ℕ × List Signal)
two_ticks = (tick_call "t1", 4000, small_signals) ∷ (tick_call "t2", 5000, small_signals) ∷ []

-- The second is a duplicate of the first.
shows_once : (ticks critic_env two_ticks small_critic).1 ≡ 4000 ∷ []
unfolding ticks slow_tick read_verdict judge valid_evidence digest_of do_recent_observations
    admit_and_show admit record_call new is_dupe show do_insert_pushback build_pb
shows_once = refl

slow_tick-Ticked_example :
    let out = slow_tick critic_env (tick_call "t1") 4000 small_signals small_critic in
    Ticked critic_env 4000 small_critic out.0 out.1.pushbacks
slow_tick-Ticked_example =
    slow_tick-Ticked critic_env (tick_call "t1") 4000 small_signals small_critic

ticks-cap_example :
    length (filter (in_last_hour 6000) (ticks critic_env two_ticks small_critic).1) ≤ 8
ticks-cap_example =
    ticks-cap critic_env 0 6000 two_ticks small_critic (omega arith, (omega arith, tt))
      (omega arith) refl
