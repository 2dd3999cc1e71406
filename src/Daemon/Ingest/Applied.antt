-- ===== src/Daemon/Ingest/Applied.antt =====
-- The updates of the sessionizer, written to the store one after the other.
use rato.Prelude.{
  ℕ, ◌+◌, ◌≡◌, refl, ap, ◌∙◌, String, Bool, Option, none, some, List, [], ◌∷◌, arith, ◌==◌, eq_refl,
  Bool-cases, inl, inr, leb,
}
use rato.Prelude.Result.{Result, ok, err, map_err, continue}
use rato.Store.Sql.{get_row, get_row-update_id, insert-fresh}
use rato.Store.Approvals.{StoreError, sqlite}
use rato.Store.Sessions.{closed_row, do_session_open, do_session_touch, do_session_close}
use rato.Daemon.Sessionizer.{WorkSession, OpenSession, SessionUpdate, opens, touches, closes, adopt}
use rato.Daemon.Sessionizer.Activity.{next_session, next_updates, session_from, opened_from}
use rato.Daemon.Ingest.{Env, World, IngestError, store, apply, apply_one}
use rato.Daemon.Ingest.Updates.{Mirrors-same, Mirrors-touch, Mirrors-close, Mirrors-open}
use rato.Daemon.Ingest.Mirror.{View, Mirrors, put}

put_twice :
    (p : String) (n : Option OpenSession) (view : View) (q : String)
    → put p n (put p none view) q ≡ put p n view q
put_twice p n view q = elim (Bool-cases (q == p)) [ inl e ↦ rw e | inr e ↦ rw e ]

module _ (E : Env) where
  open E use {sessions}

  -- The updates were written, and the rows mirror the sessions of the view.
  abbrev pub Applied : List SessionUpdate → World E → View → Type 0
  Applied us w view =
      (t : sessions.Table) × (apply E us w ≡ (ok tt, record w { sessions = t }))
      × Mirrors sessions view t

  apply-cons :
      (u : SessionUpdate) (us : List SessionUpdate) (w w' : World E)
      → apply_one E u w ≡ (ok tt, w')
      → apply E (u ∷ us) w ≡ apply E us w'
  unfolding apply
  apply-cons u us w w' h =
      ap (λ (x : Result IngestError (Unit {0}) × World E). continue x.0 (λ _. apply E us) x.1) h

  apply_one-open :
      (w : World E) (ws : WorkSession) (t : sessions.Table)
      → sessions.insert (record { session = ws; summary = none }) w.sessions ≡ some t
      → apply_one E (opens ws) w ≡ (ok tt, record w { sessions = t })
  unfolding apply_one do_session_open
  apply_one-open w ws t h =
      ap
        (λ (o : Option sessions.Table).
          let x : Result StoreError (Unit {0}) × sessions.Table = elim o [
            | none ↦ (err sqlite, w.sessions)
            | some t' ↦ (ok tt, t')
          ] in
          (map_err store x.0, record w { sessions = x.1 }))
        h

  open_Applied :
      (w : World E) (view : View) (ws : WorkSession)
      → Mirrors sessions view w.sessions
      → view ws.project_id ≡ none
      → ws.ended ≡ none
      → get_row sessions ws.id w.sessions ≡ none
      → Applied (opens ws ∷ []) w (put ws.project_id (some (adopt ws)) view)
  open_Applied w view ws m h live free =
      let (t, e) =
        insert-fresh sessions (record { session = ws; summary = none }) w.sessions free in
      (
        t,
        apply-cons (opens ws) [] w _ (apply_one-open w ws t e) ∙ unfold apply in refl,
        Mirrors-open sessions view w.sessions t ws m h live e,
      )

  touch_Applied :
      (w : World E) (view : View) (p : String) (s : OpenSession) (last commands : ℕ)
      → Mirrors sessions view w.sessions
      → view p ≡ some s
      → Applied
          (touches s.id last commands ∷ [])
          w
          (put p (some (record s { last_activity = last; commands = commands })) view)
  unfolding apply apply_one do_session_touch
  touch_Applied w view p s last commands m h =
      (_, refl, Mirrors-touch sessions view w.sessions p s last commands m h)

  -- A close in front of other updates.
  pub close_Applied :
      (w : World E) (view view' : View) (p : String) (s : OpenSession) (at : ℕ)
      (us : List SessionUpdate)
      → Mirrors sessions view w.sessions
      → view p ≡ some s
      → (Mirrors sessions (put p none view) (do_session_close sessions s.id at w.sessions).1
          → Applied us
              (record w { sessions = (do_session_close sessions s.id at w.sessions).1 })
              view')
      → Applied (closes s.id at ∷ us) w view'
  unfolding apply_one do_session_close
  close_Applied w view view' p s at us m h rest =
      let (t, e, m') = rest (Mirrors-close sessions view w.sessions p s at m h) in
      (t, apply-cons (closes s.id at) us w _ refl ∙ e, m')

  free-close :
      (t : sessions.Table) (id old : String) (at : ℕ)
      → get_row sessions id t ≡ none
      → get_row sessions id (do_session_close sessions old at t).1 ≡ none
  unfolding do_session_close
  free-close t id old at h =
      get_row-update_id sessions old id (closed_row at) t (λ r. refl) ∙ ground (arith, h)

  fresh-Applied :
      (w : World E) (view : View) (id p : String) (ts : ℕ) (is_command : Bool)
      → Mirrors sessions view w.sessions
      → view p ≡ none
      → get_row sessions id w.sessions ≡ none
      → Applied
          (opens (session_from id p ts is_command) ∷ [])
          w
          (put p (some (opened_from id ts is_command)) view)
  unfolding adopt
  fresh-Applied w view id p ts is_command m h free =
      open_Applied w view (session_from id p ts is_command) m h refl free

  -- The updates of an event, by the session before.
  pub updates_Applied :
      (w : World E) (view : View) (id p : String) (ts : ℕ) (is_command : Bool) (gap : ℕ)
      (o : Option OpenSession)
      → Mirrors sessions view w.sessions
      → get_row sessions id w.sessions ≡ none
      → view p ≡ o
      → Applied
          (next_updates id p ts is_command gap o)
          w
          (put p (some (next_session id ts is_command gap o)) view)
  updates_Applied w view id p ts is_command gap none m free h =
      fresh-Applied w view id p ts is_command m h free
  updates_Applied w view id p ts is_command gap (some s) m free h =
      elim (Bool-cases (leb ts (s.last_activity + gap))) [
        | inl near ↦ rw near (touch_Applied w view p s ts _ m h)
        | inr far ↦ rw far (
            close_Applied w view _ p s s.last_activity
              (opens (session_from id p ts is_command) ∷ []) m h
              λ m'.
                let reopened =
                  fresh-Applied _ (put p none view) id p ts is_command m' (rw (eq_refl p))
                    (free-close w.sessions id s.id s.last_activity free) in
                (
                  reopened.0,
                  reopened.1,
                  Mirrors-same sessions _ _ reopened.0 (put_twice p _ view) reopened.2,
                ))
      ]
