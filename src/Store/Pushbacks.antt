-- ===== src/Store/Pushbacks.antt =====
-- crates/rat-store/src/store.rs, the tables of pushbacks, API calls and disclosures. `V` is the type of
-- JSON values, `F` that of floats. Ids and times of new rows are arguments. The row of
-- an API call is in Store/Prune.
use rato.Prelude.{ℕ, String, Option, none, some, List, ◌==◌, filter, take, leb}
use rato.Prelude.Result.{Result, ok, err}
use rato.Store.Sql.{Sql, get_row}
use rato.Store.Approvals.{StoreError, sqlite}
use rato.Store.Order.{order_by}
use rato.Store.Events.{insert_new}
use rato.Store.Prune.{ApiCallRow, call_id}

pub record NewPushback (V F : Type 0) : Type 0 where
  pub mode : String
  pub trigger : String
  pub severity : String
  pub title : String
  pub message_en : String
  pub message_pt : String
  pub evidence : V
  pub proposals : V
  pub confidence : F
  pub status : String

pub record Pushback (V F : Type 0) : Type 0 where
  pub id : String
  pub ts : ℕ
  pub content : NewPushback V F
  pub decided_at : Option ℕ
  pub latency_ms : Option ℕ

abbrev pub pushback_id : {V F : Type 0} → Pushback V F → String
pushback_id p = p.id

unfoldable pub new_pushback : {V F : Type 0} → String → ℕ → NewPushback V F → Pushback V F
new_pushback id now pb = record {
  id = id;
  ts = now;
  content = pb;
  decided_at = none;
  latency_ms = none;
}

abbrev pub feedback_row : {V F : Type 0} → String → ℕ → ℕ → Pushback V F → Pushback V F
feedback_row status decided_at latency_ms p = record p {
  content = record (p.content) { status = status };
  decided_at = some decided_at;
  latency_ms = some latency_ms;
}

module _ {V F : Type 0} (db : Sql (Pushback V F) pushback_id) where
  unfoldable pub do_insert_pushback :
      String → ℕ → NewPushback V F → db.Table → Result StoreError (Pushback V F) × db.Table
  unfolding new_pushback
  do_insert_pushback id now pb t = insert_new db (new_pushback id now pb) t

  unfoldable pub do_recent_pushbacks : ℕ → db.Table → List (Pushback V F)
  unfolding order_by
  do_recent_pushbacks limit t =
      take limit (order_by (λ (p q : Pushback V F). leb q.ts p.ts) (db.rows t))

  unfoldable pub do_get_pushback : String → db.Table → Option (Pushback V F)
  do_get_pushback id t = get_row db id t

  unfoldable pub do_pushback_feedback :
      String → String → ℕ → ℕ → db.Table → Result StoreError (Unit {0}) × db.Table
  do_pushback_feedback id status decided_at latency_ms t =
      (ok tt, db.update (λ p. p.id == id) (feedback_row status decided_at latency_ms) t)

  unfoldable pub do_pushbacks_since : ℕ → db.Table → List (Pushback V F)
  unfolding order_by
  do_pushbacks_since ts t =
      order_by (λ (p q : Pushback V F). leb p.ts q.ts) (filter (λ p. leb ts p.ts) (db.rows t))

-- The id is the answer.
unfoldable pub do_insert_api_call :
    {F : Type 0} (db : Sql (ApiCallRow F) call_id)
    → ApiCallRow F
    → db.Table
    → Result StoreError String × db.Table
do_insert_api_call db row t = elim (db.insert row t) [
  | none ↦ (err sqlite, t)
  | some t' ↦ (ok row.id, t')
]

pub record Disclosure : Type 0 where
  pub id : String
  pub ts : ℕ
  pub api_call_id : Option String
  pub model : String
  pub purpose : String
  pub memory_ids : List String
  pub observation_ids : List String

abbrev pub disclosure_id : Disclosure → String
disclosure_id d = d.id

module _ (db : Sql Disclosure disclosure_id) where
  unfoldable pub do_insert_disclosure : Disclosure → db.Table → Result StoreError String × db.Table
  do_insert_disclosure row t = elim (db.insert row t) [
    | none ↦ (err sqlite, t)
    | some t' ↦ (ok row.id, t')
  ]

  unfoldable pub do_recent_disclosures : ℕ → db.Table → List Disclosure
  unfolding order_by
  do_recent_disclosures limit t =
      take limit (order_by (λ (d e : Disclosure). leb e.ts d.ts) (db.rows t))
