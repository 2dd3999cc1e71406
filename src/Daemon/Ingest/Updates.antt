-- ===== src/Daemon/Ingest/Updates.antt =====
-- What an open, a touch and a close of one session do to the mirrored sessions.
use rato.Prelude.{ℕ, ◌≡◌, refl, sym, ap, subst, ◌∙◌, String, Option, none, some, arith}
use rato.Store.Sql.{get_row-insert_self}
use rato.Store.Sessions.{Sessions, do_session_touch, do_session_close}
use rato.Daemon.Sessionizer.{WorkSession, OpenSession, adopt}
use rato.Daemon.Ingest.Mirror.{
  View, Mirrors, StoredAs, OpenedAs, put, Mirrors-put, open_at, open_at-touch, open_at-close,
  open_at-open, Entry, seen,
}

module _ (db : Sessions) where
  pub Mirrors-same :
      (view view' : View) (t : db.Table)
      → ((q : String) → view q ≡ view' q)
      → Mirrors db view t
      → Mirrors db view' t
  Mirrors-same view view' t h m = record {
    stored = λ q. subst (StoredAs db t q) (h q) (m.stored q);
    opened = λ i. go i (open_at db i t) (m.opened i);
  }
    where
      go : (i : String) (o : Option Entry) → OpenedAs db view i o → OpenedAs db view' i o
      go i none k = tt
      go i (some (q, u)) k = (sym (h q) ∙ k.0, k.1)

  pub stored_at :
      (view : View) (t : db.Table) (p : String) (s : OpenSession)
      → Mirrors db view t
      → view p ≡ some s
      → open_at db s.id t ≡ some (p, s)
  stored_at view t p s m h = subst (StoredAs db t p) h (m.stored p)

  pub opened_at :
      (view : View) (t : db.Table) (i p : String) (s : OpenSession)
      → Mirrors db view t
      → open_at db i t ≡ some (p, s)
      → (view p ≡ some s) × (s.id ≡ i)
  opened_at view t i p s m h = subst (OpenedAs db view i) h (m.opened i)

  pub only_project :
      (view : View) (t : db.Table) (p : String) (s : OpenSession)
      → Mirrors db view t
      → view p ≡ some s
      → (q : String) (u : OpenSession) → view q ≡ some u
      → u.id ≡ s.id
      → q ≡ p
  only_project view t p s m h q u k same =
      let a = stored_at view t p s m h in
      let b = stored_at view t q u m k in ground (arith, a, b, same)

  pub only_id :
      (view : View) (t : db.Table) (p : String) (s : OpenSession)
      → Mirrors db view t
      → view p ≡ some s
      → (i : String) (u : OpenSession) → open_at db i t ≡ some (p, u)
      → i ≡ s.id
  only_id view t p s m h i u k = let a = opened_at view t i p u m k in ground (arith, a.0, a.1, h)

  pub Mirrors-touch :
      (view : View) (t : db.Table) (p : String) (s : OpenSession) (last commands : ℕ)
      → Mirrors db view t
      → view p ≡ some s
      → Mirrors db
          (put p (some (record s { last_activity = last; commands = commands })) view)
          (do_session_touch db s.id last commands t).1
  Mirrors-touch view t p s last commands m h =
      Mirrors-put db view t _ p s.id _ m refl
        (λ i. open_at-touch db i s.id last commands t s p (stored_at view t p s m h))
        (only_project view t p s m h) (only_id view t p s m h)

  pub Mirrors-close :
      (view : View) (t : db.Table) (p : String) (s : OpenSession) (at : ℕ)
      → Mirrors db view t
      → view p ≡ some s
      → Mirrors db (put p none view) (do_session_close db s.id at t).1
  Mirrors-close view t p s at m h =
      Mirrors-put db view t _ p s.id none m tt (λ i. open_at-close db i s.id at t)
        (only_project view t p s m h) (only_id view t p s m h)

  pub Mirrors-open :
      (view : View) (t t' : db.Table) (ws : WorkSession)
      → Mirrors db view t
      → view ws.project_id ≡ none
      → ws.ended ≡ none
      → db.insert (record { session = ws; summary = none }) t ≡ some t'
      → Mirrors db (put ws.project_id (some (adopt ws)) view) t'
  Mirrors-open view t t' ws m h live e =
      Mirrors-put db view t t' ws.project_id ws.id (some (adopt ws)) m (unfold adopt in refl)
        (λ i. open_at-open db i ws t t' live e)
        (λ q u k same.
          let a = stored_at view t q u m k in
          let b = get_row-insert_self db (record { session = ws; summary = none }) t t' e in
          let c : none ≡ some (q, u) =
            sym (ap seen b) ∙ subst (λ i. open_at db i t ≡ some (q, u)) same a in
          absurd (ground (arith, c)))
        (λ i u k. let a = opened_at view t i ws.project_id u m k in absurd (ground (arith, a.0, h)))
