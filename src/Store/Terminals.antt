-- ===== src/Store/Terminals.antt =====
-- crates/rat-store/src/store.rs, the tables of terminals and of voice utterances. `V` is the type of
-- JSON values.
use rato.Prelude.{ℕ, String, Bool, ◌&&◌, Option, none, some, List, ◌==◌, find, leb, take}
use rato.Prelude.Result.{Result, ok}
use rato.Store.Sql.{Sql, get_row}
use rato.Store.Approvals.{StoreError}
use rato.Store.Order.{order_by}
use rato.Store.Events.{insert_new}

pub record NewTerminal (V : Type 0) : Type 0 where
  pub tty : String
  pub pid : ℕ
  pub emulator : String
  pub tmux_target : Option String
  pub role : String
  pub project_id : Option String
  pub cmd_hash : String
  pub meta : V

pub record Terminal (V : Type 0) : Type 0 where
  pub id : String
  pub seen : NewTerminal V
  pub first_seen : ℕ
  pub last_seen : ℕ

abbrev pub terminal_id : {V : Type 0} → Terminal V → String
terminal_id x = x.id

unfoldable pub new_terminal : {V : Type 0} → String → ℕ → NewTerminal V → Terminal V
new_terminal id now n = record { id = id; seen = n; first_seen = now; last_seen = now }

-- The columns of the UPDATE: all but the terminal and the hash, which are those of the row.
unfoldable pub seen_again : {V : Type 0} → ℕ → NewTerminal V → Terminal V → Terminal V
seen_again now n x = record x {
  seen = record n { tty = x.seen.tty; cmd_hash = x.seen.cmd_hash };
  last_seen = now;
}

module _ {V : Type 0} (db : Sql (Terminal V) terminal_id) where
  terminal_found :
      String
      → ℕ
      → NewTerminal V
      → db.Table
      → Option (Terminal V)
      → Result StoreError (Terminal V) × db.Table
  unfolding new_terminal seen_again
  terminal_found id now n t (some x) =
      (ok (seen_again now n x), db.update (λ y. y.id == x.id) (seen_again now n) t)
  terminal_found id now n t none = insert_new db (new_terminal id now n) t

  unfoldable pub do_upsert_terminal :
      String → ℕ → NewTerminal V → db.Table → Result StoreError (Terminal V) × db.Table
  unfolding terminal_found
  do_upsert_terminal id now n t =
      terminal_found id now n t
        (find (λ x. x.seen.tty == n.tty && x.seen.cmd_hash == n.cmd_hash) (db.rows t))

  unfoldable pub do_list_terminals : db.Table → List (Terminal V)
  unfolding order_by
  do_list_terminals t = order_by (λ (x y : Terminal V). leb y.last_seen x.last_seen) (db.rows t)

  unfoldable pub do_get_terminal : String → db.Table → Option (Terminal V)
  do_get_terminal id t = get_row db id t

pub record NewVoiceUtterance : Type 0 where
  pub lang : String
  pub text : String
  pub intent : Option String
  pub wake_word : String
  pub handled : Bool

pub record VoiceUtterance : Type 0 where
  pub id : String
  pub ts : ℕ
  pub said : NewVoiceUtterance

abbrev pub utterance_id : VoiceUtterance → String
utterance_id u = u.id

unfoldable pub new_utterance : String → ℕ → NewVoiceUtterance → VoiceUtterance
new_utterance id now u = record { id = id; ts = now; said = u }

module _ (db : Sql VoiceUtterance utterance_id) where
  unfoldable pub do_insert_voice_utterance :
      String → ℕ → NewVoiceUtterance → db.Table → Result StoreError VoiceUtterance × db.Table
  unfolding new_utterance
  do_insert_voice_utterance id now u t = insert_new db (new_utterance id now u) t

  unfoldable pub do_recent_voice_utterances : ℕ → db.Table → List VoiceUtterance
  unfolding order_by
  do_recent_voice_utterances limit t =
      take limit (order_by (λ (u v : VoiceUtterance). leb v.ts u.ts) (db.rows t))
