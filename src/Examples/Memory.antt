-- ===== src/Examples/Memory.antt =====
-- A run of the retention steps on small tables.
use rato.Prelude.{
  ◌≤◌, ◌+◌, length, arith, true, All, ℕ, ◌*◌, String, none, some, List, [], ◌∷◌, ◌≡◌, refl,
}
use rato.Examples.Fixtures.{
  small_call, Js, js_json, js_object, field, no_fields, js_string, js_array, js_number, js_nil,
  js_cons,
}
use rato.Store.Sql.{list_sql}
use rato.Store.Prune.{Observation, observation_id, call_id, vec_id, is_in}
use rato.Store.Memories.{MemoryRow, memory_id}
use rato.Store.Pins.{Pin, pin_id}
use rato.Memory.Nightly.Citations.{Cites, protected_ids-Cites}
use rato.Memory.Nightly.{
  protected_ids, cited_by_memories, cited_by_pins, sort, dedup, Env, Tables, day_ms, retention,
}
use rato.Memory.Nightly.Retention.{Retained, retention-Retained}

abbrev retention_env : Env
retention_env = record {
  json = js_json;
  observations = list_sql observation_id;
  vecs = list_sql vec_id;
  pins = list_sql pin_id;
  Float = ℕ;
  memories = list_sql memory_id;
  api_calls = list_sql call_id;
  Disk = List String;
  remove_dir_all = λ path removed. path ∷ removed;
}

abbrev small_observation : String → ℕ → Observation Js
small_observation id ts = record {
  id = id;
  event_id = none;
  ts = ts;
  kind = "note";
  project_id = none;
  content = [];
  meta = js_number 0;
}

-- A pin that cites "o2".
abbrev cited_pin : Pin Js
cited_pin = record {
  id = "p1";
  kind = "manual";
  media = "screen";
  path = "/pins/p1";
  created = 8;
  expires_at = none;
  reason = "kept";
  meta = js_object (field "observation_ids" (js_array (js_cons (js_string "o2") js_nil)) no_fields);
}

-- A memory that cites "o2" too.
abbrev archived_memory : MemoryRow Js ℕ
archived_memory = record {
  id = "m1";
  memory = record {
    kind = "project";
    project_id = none;
    title = [];
    body = [];
    confidence = 1;
    source_event_ids = js_array (js_cons (js_string "o2") js_nil);
  };
  created = 3;
  updated = 4;
  archived = true;
}

-- "o2" is cited by a memory; "o3" is new.
abbrev small_tables : Tables retention_env
small_tables = record {
  memories = archived_memory ∷ [];
  observations =
      small_observation "o1" 5
      ∷ small_observation "o2" 6
      ∷ small_observation "o3" (399 * day_ms)
      ∷ [];
  vecs = record { obs_id = "o1"; embedding = js_number 1 } ∷ [];
  pins = cited_pin ∷ [];
  api_calls = small_call "c1" 7 ∷ [];
  retention = none;
  disk = [];
}

few_protected : 2 + length (protected_ids retention_env small_tables) ≤ 32766
unfolding protected_ids cited_by_memories cited_by_pins sort dedup
few_protected = omega arith

retention-Retained_example :
    (s' : Tables retention_env) × (retention retention_env (400 * day_ms) small_tables ≡ some s')
    × Retained retention_env (400 * day_ms) small_tables s'
retention-Retained_example =
    retention-Retained retention_env (400 * day_ms) small_tables
      ((refl, (refl, tt)), ((refl, tt), (tt, tt))) (tt, tt) few_protected

protected_ids-Cites_example :
    All
      (λ m.
        (k : String)
        → Cites js_json m.memory.source_event_ids k
        → is_in k (protected_ids retention_env small_tables) ≡ true)
      small_tables.memories
    × All
        (λ p.
          (k : String) (v : Js)
          → js_json.get p.meta "observation_ids" ≡ some v
          → Cites js_json v k
          → is_in k (protected_ids retention_env small_tables) ≡ true)
        small_tables.pins
protected_ids-Cites_example = protected_ids-Cites retention_env small_tables
