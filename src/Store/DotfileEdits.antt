-- ===== src/Store/DotfileEdits.antt =====
-- crates/rat-store/src/store.rs, the dotfile_edits table. `V` is the type of JSON values.
pub mod Reverted
use rato.Prelude.{
  ℕ, String, Bool, true, false, Option, none, some, List, [], ◌∷◌, ◌==◌, if◌then◌else◌, leb, eqb,
  take, length, filter,
}
use rato.Prelude.Paths.{Text}
use rato.Prelude.Result.{Result, ok, err, or_err}
use rato.Store.Sql.{Sql, get_row, affected}
use rato.Store.Approvals.{StoreError, not_found}
use rato.Store.Order.{order_by}
use rato.Store.Events.{insert_new}

pub record NewDotfileEdit (V : Type 0) : Type 0 where
  pub path : Text
  pub kind : String
  pub before_blob : String
  pub after_blob : String
  pub diff : Text
  pub reason : Text
  pub source : String
  pub risk : ℕ
  pub applied : Bool
  pub meta : V

pub record DotfileEdit (V : Type 0) : Type 0 where
  pub id : String
  pub edit : NewDotfileEdit V
  pub created : ℕ
  pub reverted_by : Option String

abbrev pub edit_id : {V : Type 0} → DotfileEdit V → String
edit_id e = e.id

unfoldable pub new_edit : {V : Type 0} → String → ℕ → NewDotfileEdit V → DotfileEdit V
new_edit id now edit = record { id = id; edit = edit; created = now; reverted_by = none }

abbrev pub reverted_row : {V : Type 0} → String → DotfileEdit V → DotfileEdit V
reverted_row by e = record e { reverted_by = some by }

module _ {V : Type 0} (db : Sql (DotfileEdit V) edit_id) where
  unfoldable pub do_insert_dotfile_edit :
      String → ℕ → NewDotfileEdit V → db.Table → Result StoreError (DotfileEdit V) × db.Table
  unfolding new_edit
  do_insert_dotfile_edit id now edit t = insert_new db (new_edit id now edit) t

  unfoldable pub do_recent_dotfile_edits : ℕ → db.Table → List (DotfileEdit V)
  unfolding order_by
  do_recent_dotfile_edits limit t =
      take limit (order_by (λ (e f : DotfileEdit V). leb f.created e.created) (db.rows t))

  unfoldable pub do_get_dotfile_edit : String → db.Table → Option (DotfileEdit V)
  do_get_dotfile_edit id t = get_row db id t

  unfoldable pub do_mark_dotfile_edit_reverted :
      String → String → db.Table → Result StoreError (DotfileEdit V) × db.Table
  unfolding do_get_dotfile_edit
  do_mark_dotfile_edit_reverted id reverted_by t =
      let t' = db.update (λ e. e.id == id) (reverted_row reverted_by) t in
      if eqb (affected db (λ e. e.id == id) t) 0
      then (err not_found, t')
      else (or_err (do_get_dotfile_edit id t') not_found, t')
