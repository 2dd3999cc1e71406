-- ===== src/Daemon/Ingest/Refines.antt =====
-- The store's open sessions against the sessionizer, over whole calls.
use rato.Prelude.{ℕ, ◌≡◌, refl, sym, subst, String, Bool, not, none, some, List, filter, map}
use rato.Prelude.Result.{Result, ok}
use rato.Store.Sql.{get_row}
use rato.Daemon.Sessionizer.{Sessionizer, SessionUpdate, OpenSession, get, on_activity, is_stale}
use rato.Daemon.Sessionizer.Activity.{next_session, get-on_activity}
use rato.Daemon.Sessionizer.Closing.{
  Distinct, Distinct-filter, close_of, tick-stale, on_activity-Distinct,
}
use rato.Daemon.Ingest.{Env, World, IngestError, apply, tick_sessions}
use rato.Daemon.Ingest.Mirror.{View, Mirrors, put}
use rato.Daemon.Ingest.Updates.{Mirrors-same}
use rato.Daemon.Ingest.Applied.{Applied, updates_Applied}
use rato.Daemon.Ingest.Closed.{without, get-kept, get-each, closes_Applied}

abbrev pub sessions_in : Sessionizer → View
sessions_in z q = get q z.opened

module _ (E : Env) where
  open E use {sessions}

  -- Each project has one open session, and the store's rows that have not ended are these sessions,
  -- each under its id with its project, its last activity and its commands.
  pub record Synced (z : Sessionizer) (t : sessions.Table) : Type 0 where
    pub distinct : Distinct z.opened
    pub mirrors : Mirrors sessions (sessions_in z) t

  abbrev pub InSync : World E → Type 0
  InSync w = Synced w.sessionizer w.sessions

  Applied-InSync :
      (us : List SessionUpdate) (w : World E) (view : View)
      → Distinct w.sessionizer.opened
      → ((q : String) → view q ≡ get q w.sessionizer.opened)
      → Applied E us w view
      → ((apply E us w).0 ≡ ok tt) × InSync (apply E us w).1
  Applied-InSync us w view d same (t, e, m) =
      subst (λ (x : Result IngestError (Unit {0}) × World E). (x.0 ≡ ok tt) × InSync x.1) (sym e)
        (
          refl,
          record {
            distinct = d;
            mirrors = Mirrors-same sessions view (sessions_in w.sessionizer) t same m;
          },
        )

  -- The updates of the sessionizer, once it has moved on.
  abbrev pub moved :
      World E → Sessionizer × List SessionUpdate → Result IngestError (Unit {0}) × World E
  moved w x = apply E x.1 (record w { sessionizer = x.0 })

  pub activity-InSync :
      (id p : String) (ts : ℕ) (is_command : Bool) (w : World E)
      → InSync w
      → get_row sessions id w.sessions ≡ none
      → let after = moved w (on_activity id p ts is_command w.sessionizer) in
        (after.0 ≡ ok tt) × InSync after.1
  activity-InSync id p ts is_command w s free =
      let z : Sessionizer = w.sessionizer in
      let z' : Sessionizer = (on_activity id p ts is_command z).0 in
      let view : View =
        put p (some (next_session id ts is_command z.gap_ms (get p z.opened))) (sessions_in z) in
      Applied-InSync (on_activity id p ts is_command z).1 (record w { sessionizer = z' }) view
        (on_activity-Distinct id p ts is_command z s.distinct)
        (λ q. sym (get-on_activity id p ts is_command z q).0)
        (subst (λ us. Applied E us (record w { sessionizer = z' }) view)
          (sym (get-on_activity id p ts is_command z p).1)
          (updates_Applied E (record w { sessionizer = z' }) (sessions_in z) id p ts is_command
            z.gap_ms (get p z.opened) s.mirrors free refl))

  stale-InSync :
      (now : ℕ) (w : World E)
      → InSync w
      → let z = w.sessionizer in
        let after = moved w (
          record z { opened = filter (λ e. not (is_stale z.gap_ms now e)) z.opened },
          map close_of (filter (is_stale z.gap_ms now) z.opened),
        ) in
        (after.0 ≡ ok tt) × InSync after.1
  stale-InSync now w s =
      let z : Sessionizer = w.sessionizer in
      let stale : String × OpenSession → Bool = is_stale z.gap_ms now in
      Applied-InSync _ _ (without (filter stale z.opened) (sessions_in z))
        (Distinct-filter (λ e. not (stale e)) z.opened s.distinct)
        (λ q. get-kept stale q z.opened s.distinct)
        (closes_Applied E (filter stale z.opened) _ (sessions_in z)
          (Distinct-filter stale z.opened s.distinct) (get-each stale z.opened s.distinct)
          s.mirrors)

  -- A tick that no other call of `ingest` or `tick` overlaps succeeds, and closes in the store what it
  -- closes in the map.
  pub tick_sessions-InSync :
      (now : ℕ) (w : World E)
      → InSync w
      → ((tick_sessions E now w).0 ≡ ok tt) × InSync (tick_sessions E now w).1
  unfolding tick_sessions
  tick_sessions-InSync now w s =
      subst (λ x. ((moved w x).0 ≡ ok tt) × InSync (moved w x).1)
        (sym (tick-stale now w.sessionizer s.distinct)) (stale-InSync now w s)
