-- ===== src/Memory/Nightly.antt =====
-- crates/rat-memory/src/jobs.rs, the retention steps of `nightly` (3 to 6): observations that nothing
-- cites, pins past their date, API calls, and the summary row. Times are counted from the epoch: a
-- cutoff before it selects no row, and neither does 0. The counters are u32 and stay below 2^32 here.
-- The closing `add_observation` only logs the counts, by a call whose failure is ignored, and is not
-- modelled; nor are steps 1 and 2, which ask a model.
pub mod Retention
pub mod Citations
use rato.Prelude.{
  codes, ◌==◌, ℕ, zero, suc, ◌+◌, ◌-◌, ◌*◌, String, Option, none, some, List, [], ◌∷◌, ◌++◌, Bool,
  true, false, if◌then◌else◌, ltb, length,
}
use rato.Prelude.Maybe.{◌>>=◌}
use rato.Store.Sql.{Sql, Json}
use rato.Store.Prune.{
  Observation, ApiCallRow, VecRow, observation_id, call_id, vec_id,
  do_delete_observations_older_than, do_delete_api_calls_older_than,
}
use rato.Prelude.Result.{ok, err}
use rato.Store.Order.{order_by, text_leb}
use rato.Store.Memories.{MemoryRow, MemoryFilter, memory_id, do_list_memories}
use rato.Store.Pins.{
  Pin, Pins, do_list_pins, do_expire_pins, RetentionStatus, do_set_retention_status,
}

abbrev pub day_ms : ℕ
day_ms = 86400000

abbrev pub prune_age_days : ℕ
prune_age_days = 180

abbrev pub prune_max_rows : ℕ
prune_max_rows = 5000

abbrev pub api_call_prune_age_days : ℕ
api_call_prune_age_days = 365

module _ (json : Json) where
  unfoldable pub strings : List json.Value → List String
  strings [] = []
  strings (v ∷ vs) = elim (json.as_str v) [ none ↦ strings vs | some s ↦ s ∷ strings vs ]

  unfoldable pub cited : Option json.Value → List String
  unfolding strings
  cited none = []
  cited (some v) = elim (json.as_array v) [ none ↦ [] | some arr ↦ strings arr ]

  unfoldable pub cited_by_memories : {F : Type 0} → List (MemoryRow json.Value F) → List String
  unfolding cited
  cited_by_memories [] = []
  cited_by_memories (m ∷ ms) = cited (some m.memory.source_event_ids) ++ cited_by_memories ms

  unfoldable pub cited_by_pins : List (Pin json.Value) → List String
  unfolding cited
  cited_by_pins [] = []
  cited_by_pins (p ∷ ps) = cited (json.get p.meta "observation_ids") ++ cited_by_pins ps

-- `Vec::sort` on strings, and `Vec::dedup`.
unfoldable pub sort : List String → List String
unfolding order_by text_leb
sort ids = order_by (λ a b. text_leb (codes a) (codes b)) ids

unfoldable pub dedup : List String → List String
dedup [] = []
dedup (k ∷ []) = k ∷ []
dedup (k ∷ j ∷ js) = let rest = dedup (j ∷ js) in if k == j then rest else k ∷ rest

abbrev pub with_archived : MemoryFilter
with_archived = record { kind = none; project_id = none; include_archived = true }

-- The two loops. `none` means that the fuel ran out, or that a statement failed, which ends the job.
module _ {V : Type 0} (db : Sql (Observation V) observation_id) (vecs : Sql (VecRow V) vec_id) where
  unfoldable pub prune_observations :
      ℕ → ℕ → List String → ℕ → ℕ → db.Table × vecs.Table → Option (ℕ × (db.Table × vecs.Table))
  unfolding do_delete_observations_older_than
  prune_observations zero cutoff protected max_rows deleted s = none
  prune_observations (suc fuel) cutoff protected max_rows deleted s =
      let (r, s') = do_delete_observations_older_than db vecs cutoff protected max_rows s in
      elim r [
        | err e ↦ none
        | ok n ↦
            let rest = prune_observations fuel cutoff protected max_rows (deleted + n) s' in
            if ltb n max_rows then some (deleted + n, s') else rest
      ]

module _ {F : Type 0} (db : Sql (ApiCallRow F) call_id) where
  unfoldable pub prune_api_calls : ℕ → ℕ → ℕ → ℕ → db.Table → Option (ℕ × db.Table)
  unfolding do_delete_api_calls_older_than
  prune_api_calls zero cutoff max_rows deleted t = none
  prune_api_calls (suc fuel) cutoff max_rows deleted t =
      let (n, t') = do_delete_api_calls_older_than db cutoff max_rows t in
      let rest = prune_api_calls fuel cutoff max_rows (deleted + n) t' in
      if ltb n max_rows then some (deleted + n, t') else rest

pub record Env : Type 1 where
  pub json : Json
  pub observations : Sql (Observation json.Value) observation_id
  pub vecs : Sql (VecRow json.Value) vec_id
  pub pins : Pins json.Value
  pub Float : Type 0
  pub memories : Sql (MemoryRow json.Value Float) memory_id
  pub api_calls : Sql (ApiCallRow Float) call_id
  -- the file system under the pins' paths, and `remove_dir_all`, whose failure is only logged
  pub Disk : Type 0
  pub remove_dir_all : String → Disk → Disk

module _ (env : Env) where
  pub record Tables : Type 0 where
    pub memories : env.memories.Table
    pub observations : env.observations.Table
    pub vecs : env.vecs.Table
    pub pins : env.pins.Table
    pub api_calls : env.api_calls.Table
    pub retention : Option RetentionStatus
    pub disk : env.Disk

  unfoldable pub unlink : List (Pin env.json.Value) → env.Disk → env.Disk
  unlink [] d = d
  unlink (p ∷ ps) d = unlink ps (env.remove_dir_all p.path d)

  unfoldable pub protected_ids : Tables → List String
  unfolding sort dedup cited_by_memories cited_by_pins do_list_memories do_list_pins
  protected_ids s = dedup (
      sort (
        cited_by_memories env.json (do_list_memories env.json env.memories with_archived s.memories)
        ++ cited_by_pins env.json (do_list_pins env.pins s.pins)))

  -- Steps 4 and 6 around the count of step 3 and the result of step 5.
  unfoldable pub finish : ℕ → ℕ → Tables → ℕ × env.api_calls.Table → Tables
  unfolding unlink do_expire_pins do_set_retention_status
  finish now observations_deleted s (api_calls_deleted, api_calls) =
      let (expired, pins) = do_expire_pins env.pins now s.pins in
      record s {
        pins = pins;
        disk = unlink expired s.disk;
        api_calls = api_calls;
        retention =
            do_set_retention_status
              (record {
                last_run_ms = now;
                observations_deleted = observations_deleted;
                pins_expired = length expired;
                api_calls_deleted = api_calls_deleted;
              })
              s.retention;
      }

  -- Fuel: one more than the rows of a table.
  unfoldable pub retention : ℕ → Tables → Option Tables
  unfolding prune_observations prune_api_calls protected_ids finish
  retention now s = do
    (n, (observations, vecs)) ←
        prune_observations env.observations env.vecs
          (suc (length (env.observations.rows s.observations))) (now - prune_age_days * day_ms)
          (protected_ids s) prune_max_rows 0 (s.observations, s.vecs)
    calls ←
        prune_api_calls env.api_calls (suc (length (env.api_calls.rows s.api_calls)))
          (now - api_call_prune_age_days * day_ms) prune_max_rows 0 s.api_calls
    some (finish now n (record s { observations = observations; vecs = vecs }) calls)
