-- ===== src/Store/Events.antt =====
-- crates/rat-store/src/store.rs, the events and projects tables. `V` is the type of JSON values. Ids
-- and times of new rows are arguments. The column root_path is unique.
use rato.Prelude.{ℕ, String, Option, none, some, List, ◌==◌, text_eq, find, take, length, leb}
use rato.Prelude.Paths.{Text}
use rato.Prelude.Result.{Result, ok, err}
use rato.Store.Sql.{Sql, get_row}
use rato.Store.Approvals.{StoreError, sqlite}
use rato.Store.Order.{order_by, newest}

pub record NewEvent (V : Type 0) : Type 0 where
  pub kind : String
  pub source : String
  pub payload : V
  pub project_id : Option String
  pub session_id : Option String
  pub lang : Option String

pub record Event (V : Type 0) : Type 0 where
  pub id : String
  pub ts : ℕ
  pub kind : String
  pub source : String
  pub project_id : Option String
  pub session_id : Option String
  pub payload : V
  pub lang : Option String

abbrev pub event_id : {V : Type 0} → Event V → String
event_id e = e.id

unfoldable pub new_event : {V : Type 0} → String → ℕ → NewEvent V → Event V
new_event id now ev = record {
  id = id;
  ts = now;
  kind = ev.kind;
  source = ev.source;
  project_id = ev.project_id;
  session_id = ev.session_id;
  payload = ev.payload;
  lang = ev.lang;
}

-- An INSERT of a row that was put together, and the row as the answer.
abbrev pub insert_new :
    {Row : Type 0} {key : Row → String} (db : Sql Row key)
    → Row
    → db.Table
    → Result StoreError Row × db.Table
insert_new db r t = elim (db.insert r t) [ none ↦ (err sqlite, t) | some t' ↦ (ok r, t') ]

module _ {V : Type 0} (db : Sql (Event V) event_id) where
  unfoldable pub do_append :
      String → ℕ → NewEvent V → db.Table → Result StoreError (Event V) × db.Table
  unfolding new_event
  do_append id now ev t = insert_new db (new_event id now ev) t

  unfoldable pub do_recent : ℕ → db.Table → List (Event V)
  unfolding order_by newest
  do_recent limit t =
      take limit (order_by (λ (e f : Event V). newest e.ts e.id f.ts f.id) (db.rows t))

  unfoldable pub do_count : db.Table → ℕ
  do_count t = length (db.rows t)

pub record Project : Type 0 where
  pub id : String
  pub root_path : Text
  pub name : Text
  pub first_seen : ℕ
  pub last_seen : ℕ

abbrev pub project_key : Project → String
project_key p = p.id

unfoldable pub new_project : String → ℕ → Text → Text → Project
new_project id now root_path name = record {
  id = id;
  root_path = root_path;
  name = name;
  first_seen = now;
  last_seen = now;
}

module _ (db : Sql Project project_key) where
  -- Both arms of the match on the row that the SELECT found.
  upsert_found :
      String → ℕ → Text → Text → db.Table → Option Project → Result StoreError Project × db.Table
  unfolding new_project
  upsert_found id now root_path name t (some p) = (
    ok (record p { last_seen = now }),
    db.update (λ r. r.id == p.id) (λ r. record r { last_seen = now }) t,
  )
  upsert_found id now root_path name t none = insert_new db (new_project id now root_path name) t

  unfoldable pub do_upsert_project :
      String → ℕ → Text → Text → db.Table → Result StoreError Project × db.Table
  unfolding upsert_found
  do_upsert_project id now root_path name t =
      upsert_found id now root_path name t (find (λ r. text_eq r.root_path root_path) (db.rows t))

  unfoldable pub do_list_projects : db.Table → List Project
  unfolding order_by
  do_list_projects t = order_by (λ (p q : Project). leb q.last_seen p.last_seen) (db.rows t)

  unfoldable pub do_get_project_by_id : String → db.Table → Option Project
  do_get_project_by_id id t = get_row db id t
