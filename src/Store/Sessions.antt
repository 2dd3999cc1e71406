-- ===== src/Store/Sessions.antt =====
-- crates/rat-store/src/store.rs, the work_sessions table: the rows of `WorkSession` with the summary
-- that the nightly job writes.
use rato.Prelude.{
  ℕ, String, Bool, true, false, not, ◌&&◌, Option, none, some, List, map, ◌==◌, filter, take, leb,
}
use rato.Prelude.Paths.{Text}
use rato.Prelude.Result.{Result, ok, err}
use rato.Store.Sql.{Sql}
use rato.Store.Approvals.{StoreError, sqlite}
use rato.Store.Order.{order_by}
use rato.Daemon.Sessionizer.{WorkSession}

pub record SessionRow : Type 0 where
  pub session : WorkSession
  pub summary : Option Text

abbrev pub session_key : SessionRow → String
session_key r = r.session.id

-- `IS NULL`
abbrev pub is_null : {A : Type 0} → Option A → Bool
is_null none = true
is_null (some a) = false

-- `SET last_activity = ?2, commands = ?3` and `SET ended = ?2`
abbrev pub touched_row : ℕ → ℕ → SessionRow → SessionRow
touched_row last_activity commands r = record r {
  session = record (r.session) { last_activity = last_activity; commands = commands };
}

abbrev pub closed_row : ℕ → SessionRow → SessionRow
closed_row at r = record r { session = record (r.session) { ended = some at } }

abbrev pub sessions_of : List SessionRow → List WorkSession
sessions_of = map (λ r. r.session)

abbrev pub newest_start : SessionRow → SessionRow → Bool
newest_start r q = leb q.session.started r.session.started

abbrev pub first_end : SessionRow → SessionRow → Bool
first_end r q = elim r.session.ended [
  | none ↦ true
  | some a ↦ elim q.session.ended [ none ↦ false | some b ↦ leb a b ]
]

abbrev pub Sessions : Type 1
Sessions = Sql SessionRow session_key

module _ (db : Sessions) where
  unfoldable pub do_session_open : WorkSession → db.Table → Result StoreError (Unit {0}) × db.Table
  do_session_open ws t = elim (db.insert (record { session = ws; summary = none }) t) [
    | none ↦ (err sqlite, t)
    | some t' ↦ (ok tt, t')
  ]

  unfoldable pub do_session_touch :
      String → ℕ → ℕ → db.Table → Result StoreError (Unit {0}) × db.Table
  do_session_touch id last_activity commands t =
      (ok tt, db.update (λ r. r.session.id == id) (touched_row last_activity commands) t)

  unfoldable pub do_session_close : String → ℕ → db.Table → Result StoreError (Unit {0}) × db.Table
  do_session_close id ended t = (ok tt, db.update (λ r. r.session.id == id) (closed_row ended) t)

  unfoldable pub do_sessions : Option ℕ → db.Table → List WorkSession
  unfolding order_by
  do_sessions none t =
      sessions_of (order_by newest_start (filter (λ r. is_null r.session.ended) (db.rows t)))
  do_sessions (some n) t = sessions_of (take n (order_by newest_start (db.rows t)))

  unfoldable pub do_closed_sessions_without_summary : ℕ → db.Table → List WorkSession
  unfolding order_by
  do_closed_sessions_without_summary limit t = sessions_of (
      take limit (
        order_by first_end
          (filter (λ r. not (is_null r.session.ended) && is_null r.summary) (db.rows t))))

  unfoldable pub do_set_session_summary :
      String → Text → db.Table → Result StoreError (Unit {0}) × db.Table
  do_set_session_summary id summary t =
      (ok tt, db.update (λ r. r.session.id == id) (λ r. record r { summary = some summary }) t)
