-- ===== src/Store/Prune.antt =====
-- crates/rat-store/src/store.rs, batched deletion: `do_delete_observations_older_than` and
-- `do_delete_api_calls_older_than` select at most `max_rows` ids and delete their rows. A SELECT with
-- LIMIT and no ORDER BY takes rows in the order of the table.
pub mod Batches
use rato.Prelude.{
  ℕ, zero, suc, ◌+◌, String, Bool, true, false, not, ◌&&◌, ◌||◌, Option, none, some, List, [], ◌∷◌,
  map, ◌==◌, if◌then◌else◌, ltb, length, take, filter, is_empty,
}
use rato.Prelude.Result.{Result, ok, err}
use rato.Store.Sql.{Sql}
use rato.Store.Approvals.{StoreError, sqlite}

-- `id IN (…)`
unfoldable pub is_in : String → List String → Bool
is_in k [] = false
is_in k (j ∷ js) = j == k || is_in k js

module _ {Row : Type 0} {key : Row → String} (db : Sql Row key) (eligible : Row → Bool) where
  unfoldable pub ids_to_delete : ℕ → db.Table → List String
  ids_to_delete max_rows t = take max_rows (map key (filter eligible (db.rows t)))

  -- The number of rows deleted, and the table.
  unfoldable pub delete_batch : ℕ → db.Table → ℕ × db.Table
  unfolding ids_to_delete is_in
  delete_batch max_rows t =
      let ids = ids_to_delete max_rows t in
      if is_empty ids then (0, t) else (length ids, db.delete (λ r. is_in (key r) ids) t)

  -- The loop of the nightly job: batches until one is not full. `none` means that the fuel ran out.
  unfoldable pub prune_loop : ℕ → ℕ → ℕ → db.Table → Option (ℕ × db.Table)
  unfolding delete_batch
  prune_loop zero max_rows deleted t = none
  prune_loop (suc fuel) max_rows deleted t =
      let (n, t') = delete_batch max_rows t in
      let rest = prune_loop fuel max_rows (deleted + n) t' in
      if ltb n max_rows then some (deleted + n, t') else rest

pub record Observation (V : Type 0) : Type 0 where
  pub id : String
  pub event_id : Option String
  pub ts : ℕ
  pub kind : String
  pub project_id : Option String
  pub content : List ℕ
  pub meta : V

pub record ApiCallRow (F : Type 0) : Type 0 where
  pub id : String
  pub ts : ℕ
  pub model : String
  pub purpose : String
  pub tokens_in : Option ℕ
  pub tokens_out : Option ℕ
  pub cost_usd : Option F
  pub succeeded : Bool
  pub error : Option String

-- An embedding row of vec_observations, by the id of its observation.
pub record VecRow (V : Type 0) : Type 0 where
  pub obs_id : String
  pub embedding : V

abbrev pub observation_id : {V : Type 0} → Observation V → String
observation_id o = o.id

abbrev pub call_id : {F : Type 0} → ApiCallRow F → String
call_id c = c.id

abbrev pub vec_id : {V : Type 0} → VecRow V → String
vec_id v = v.obs_id

-- SQLITE_MAX_VARIABLE_NUMBER of the bundled SQLite.
abbrev pub max_variables : ℕ
max_variables = 32766

-- `ts < ?1 AND id NOT IN (protected)`
abbrev pub old_observation : {V : Type 0} → ℕ → List String → Observation V → Bool
old_observation cutoff protected o = ltb o.ts cutoff && not (is_in o.id protected)

abbrev pub old_api_call : {F : Type 0} → ℕ → ApiCallRow F → Bool
old_api_call cutoff c = ltb c.ts cutoff

module _ {V B : Type 0} (db : Sql (Observation V) observation_id)
    (vecs : Sql (VecRow B) vec_id) where
  -- The rows of vec_observations go first, one DELETE for each id.
  unfoldable pub delete_vecs : List String → vecs.Table → vecs.Table
  delete_vecs [] t = t
  delete_vecs (k ∷ ks) t = delete_vecs ks (vecs.delete (λ v. v.obs_id == k) t)

  -- The SELECT binds two values and one for each protected id, and fails on more than SQLite takes.
  unfoldable pub do_delete_observations_older_than :
      ℕ → List String → ℕ → db.Table × vecs.Table → Result StoreError ℕ × (db.Table × vecs.Table)
  unfolding delete_batch delete_vecs ids_to_delete
  do_delete_observations_older_than cutoff protected max_rows (t, vt) =
      let eligible = old_observation cutoff protected in
      let (n, t') = delete_batch db eligible max_rows t in
      if ltb max_variables (2 + length protected)
      then (err sqlite, (t, vt))
      else (ok n, (t', delete_vecs (ids_to_delete db eligible max_rows t) vt))

module _ {F : Type 0} (db : Sql (ApiCallRow F) call_id) where
  unfoldable pub do_delete_api_calls_older_than : ℕ → ℕ → db.Table → ℕ × db.Table
  unfolding delete_batch
  do_delete_api_calls_older_than cutoff max_rows t =
      delete_batch db (old_api_call cutoff) max_rows t
