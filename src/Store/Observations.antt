-- ===== src/Store/Observations.antt =====
-- crates/rat-store/src/store.rs, the observations table as it is written and read. The record is
-- `Observation` of Store/Prune, which models how rows are deleted.
use rato.Prelude.{ℕ, String, Bool, false, ◌&&◌, Option, none, some, List, ◌==◌, filter, take, leb}
use rato.Prelude.Result.{Result}
use rato.Store.Sql.{Sql}
use rato.Store.Approvals.{StoreError}
use rato.Store.Order.{order_by, newest}
use rato.Store.Prune.{Observation, observation_id}
use rato.Store.Events.{insert_new}

pub record NewObservation (V : Type 0) : Type 0 where
  pub event_id : Option String
  pub kind : String
  pub project_id : Option String
  pub content : List ℕ
  pub meta : V

unfoldable pub new_observation : {V : Type 0} → String → ℕ → NewObservation V → Observation V
new_observation id now obs = record {
  id = id;
  event_id = obs.event_id;
  ts = now;
  kind = obs.kind;
  project_id = obs.project_id;
  content = obs.content;
  meta = obs.meta;
}

-- `WHERE kind = ?2`, if a kind is asked for.
abbrev pub of_kind : {V : Type 0} → Option String → List (Observation V) → List (Observation V)
of_kind none xs = xs
of_kind (some k) xs = filter (λ o. o.kind == k) xs

-- `WHERE project_id = ?1`: NULL is no project.
abbrev pub in_project : String → Option String → Bool
in_project p none = false
in_project p (some q) = q == p

module _ {V : Type 0} (db : Sql (Observation V) observation_id) where
  unfoldable pub do_add_observation :
      String → ℕ → NewObservation V → db.Table → Result StoreError (Observation V) × db.Table
  unfolding new_observation
  do_add_observation id now obs t = insert_new db (new_observation id now obs) t

  unfoldable pub do_recent_observations : ℕ → Option String → db.Table → List (Observation V)
  unfolding order_by newest
  do_recent_observations limit kind t =
      take limit
        (order_by (λ (o p : Observation V). newest o.ts o.id p.ts p.id) (of_kind kind (db.rows t)))

  unfoldable pub do_observations_between : String → ℕ → ℕ → ℕ → db.Table → List (Observation V)
  unfolding order_by
  do_observations_between project_id from_ms to_ms limit t = take limit (
      order_by (λ (o p : Observation V). leb o.ts p.ts)
        (filter (λ o. in_project project_id o.project_id && (leb from_ms o.ts && leb o.ts to_ms))
          (db.rows t)))
