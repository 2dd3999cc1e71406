-- ===== src/Store/Approvals.antt =====
-- crates/rat-store/src/store.rs, the approvals table: `do_insert_approval` and the functions below
-- it. Each handler takes the table and returns its result beside the new table. `V` is the type of
-- JSON values. Time is an argument where the source asks the clock, and so is the fresh id.
pub mod Decisions
pub mod Order
pub mod Expiry
use rato.Prelude.{
  ℕ, String, Bool, true, false, Option, none, some, List, [], ◌∷◌, ◌==◌, if◌then◌else◌, leb, filter,
  ◌&&◌,
}
use rato.Prelude.Result.{Result, ok, err, or_err}
use rato.Store.Sql.{Sql, get_row, affected}

pub data StoreError : Type 0 where
  sqlite not_found actor_gone : StoreError
  -- the id and the status that the message names
  invalid_state : String → String → StoreError

pub record Approval (V : Type 0) : Type 0 where
  pub id : String
  pub created : ℕ
  pub kind : String
  pub risk : ℕ
  pub title : String
  pub reason : String
  pub cwd : Option String
  pub target : Option String
  pub agent_identity : String
  pub payload : V
  pub expected_impact : V
  pub expires_at : ℕ
  pub status : String
  pub decided_at : Option ℕ
  pub decided_via : Option String
  pub decision_note : Option String
  pub execution : Option V

pub record NewApproval (V : Type 0) : Type 0 where
  pub kind : String
  pub risk : ℕ
  pub title : String
  pub reason : String
  pub cwd : Option String
  pub target : Option String
  pub agent_identity : String
  pub payload : V
  pub expected_impact : V
  pub expires_at : ℕ

abbrev pub approval_id : {V : Type 0} → Approval V → String
approval_id a = a.id

abbrev pub Approvals : Type 0 → Type 1
Approvals V = Sql (Approval V) approval_id

-- The row that `do_insert_approval` builds.
unfoldable pub new_row : {V : Type 0} → String → ℕ → NewApproval V → Approval V
new_row id now na = record {
  id = id;
  created = now;
  kind = na.kind;
  risk = na.risk;
  title = na.title;
  reason = na.reason;
  cwd = na.cwd;
  target = na.target;
  agent_identity = na.agent_identity;
  payload = na.payload;
  expected_impact = na.expected_impact;
  expires_at = na.expires_at;
  status = "pending";
  decided_at = none;
  decided_via = none;
  decision_note = none;
  execution = none;
}

abbrev pub is_pending : {V : Type 0} → Approval V → Bool
is_pending a = a.status == "pending"

-- The WHERE clause of `do_expire_approvals`.
abbrev pub is_due : {V : Type 0} → ℕ → Approval V → Bool
is_due now a = is_pending a && leb a.expires_at now

-- ORDER BY created ASC; rows created together keep the order of the table.
unfoldable pub insert_oldest : {V : Type 0} → Approval V → List (Approval V) → List (Approval V)
insert_oldest a [] = a ∷ []
insert_oldest a (x ∷ xs) = if leb a.created x.created then a ∷ x ∷ xs else x ∷ insert_oldest a xs

unfoldable pub oldest_first : {V : Type 0} → List (Approval V) → List (Approval V)
unfolding insert_oldest
oldest_first [] = []
oldest_first (x ∷ xs) = insert_oldest x (oldest_first xs)

module _ {V : Type 0} (db : Approvals V) where
  unfoldable pub do_insert_approval :
      String → ℕ → NewApproval V → db.Table → Result StoreError (Approval V) × db.Table
  unfolding new_row
  do_insert_approval id now na t = elim (db.insert (new_row id now na) t) [
    | none ↦ (err sqlite, t)
    | some t' ↦ (ok (new_row id now na), t')
  ]

  unfoldable pub do_get_approval : String → db.Table → Option (Approval V)
  do_get_approval id t = get_row db id t

  -- The UPDATE of `do_decide_approval`.
  abbrev pub decide_row : String → ℕ → String → Option String → Approval V → Approval V
  decide_row status at via memo a = record a {
    status = status;
    decided_at = some at;
    decided_via = some via;
    decision_note = memo;
  }

  decide_found :
      String
      → String
      → ℕ
      → String
      → Option String
      → db.Table
      → Option (Approval V)
      → Result StoreError (Approval V) × db.Table
  decide_found id status at via memo t none = (err not_found, t)
  decide_found id status at via memo t (some current) =
      if is_pending current
      then (let t' = db.update (λ a. a.id == id) (decide_row status at via memo) t in
          (or_err (get_row db id t') not_found, t'))
      else (err (invalid_state id current.status), t)

  unfoldable pub do_decide_approval :
      String
      → String
      → ℕ
      → String
      → Option String
      → db.Table
      → Result StoreError (Approval V) × db.Table
  unfolding decide_found
  do_decide_approval id status at via memo t =
      decide_found id status at via memo t (get_row db id t)

  unfoldable pub do_set_approval_execution : String → V → db.Table → db.Table
  do_set_approval_execution id execution t =
      db.update (λ a. a.id == id) (λ a. record a { execution = some execution }) t

  -- With the number of rows that were expired.
  unfoldable pub do_expire_approvals : ℕ → db.Table → ℕ × db.Table
  do_expire_approvals now t =
      (affected db (is_due now) t, db.update (is_due now) (λ a. record a { status = "expired" }) t)

  unfoldable pub do_pending_approvals : db.Table → List (Approval V)
  unfolding oldest_first
  do_pending_approvals t = oldest_first (filter is_pending (db.rows t))

  -- One message of the store's actor that writes to the table.
  pub data Op : Type 0 where
    inserts : String → ℕ → NewApproval V → Op
    decides : String → String → ℕ → String → Option String → Op
    executes : String → V → Op
    expires : ℕ → Op

  unfoldable pub step : Op → db.Table → db.Table
  unfolding do_insert_approval do_decide_approval do_set_approval_execution do_expire_approvals
  step (inserts id now na) t = (do_insert_approval id now na t).1
  step (decides id status at via memo) t = (do_decide_approval id status at via memo t).1
  step (executes id v) t = do_set_approval_execution id v t
  step (expires now) t = (do_expire_approvals now t).1

  -- The actor handles its messages one after another.
  unfoldable pub run : List Op → db.Table → db.Table
  run [] t = t
  run (o ∷ os) t = run os (step o t)
