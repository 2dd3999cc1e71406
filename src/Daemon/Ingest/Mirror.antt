-- ===== src/Daemon/Ingest/Mirror.antt =====
-- The open sessions of the store against those of the sessionizer.
use mathlib.Core.Option
use rato.Prelude.{
  ℕ, ◌≡◌, ◌≢◌, refl, sym, ap, subst, ◌∙◌, String, false, Option, none, some, arith, ◌==◌, eq_iff,
  eq_refl, if◌then◌else◌, Bool-cases, Option-cases, inl, inr, find-holds,
}
use rato.Store.Sql.{get_row, get_row-update_id, get_row-insert}
use rato.Store.Sessions.{
  SessionRow, Sessions, touched_row, closed_row, do_session_touch, do_session_close,
}
use rato.Daemon.Sessionizer.{WorkSession, OpenSession, adopt}

-- The project and the session of a row that is open.
abbrev pub Entry : Type 0
Entry = String × OpenSession

abbrev pub if_open : Option ℕ → Entry → Option Entry
if_open none x = some x
if_open (some at) x = none

abbrev pub seen : Option SessionRow → Option Entry
seen none = none
seen (some r) = if_open r.session.ended (r.session.project_id, adopt r.session)

if_open-map :
    (ended : Option ℕ) (g : Entry → Entry) (x y : Entry)
    → if_open ended x ≡ some y
    → if_open ended (g x) ≡ some (g y)
if_open-map none g x y h = ap (Option.map g) h
if_open-map (some at) g x y h = ground arith

if_open_inner : (ended : Option ℕ) (x y : Entry) → if_open ended x ≡ some y → x ≡ y
if_open_inner none x y h = ground arith
if_open_inner (some at) x y h = ground arith

abbrev pub with_touch : ℕ → ℕ → Entry → Entry
with_touch last commands (p, s) = (p, record s { last_activity = last; commands = commands })

seen_touched :
    (last commands : ℕ) (y : Entry) (o : Option SessionRow)
    → seen o ≡ some y
    → seen (Option.map (touched_row last commands) o) ≡ some (with_touch last commands y)
unfolding adopt
seen_touched last commands y none h = ground arith
seen_touched last commands y (some r) h =
    if_open-map r.session.ended (with_touch last commands) _ y h

seen_closed : (at : ℕ) (o : Option SessionRow) → seen (Option.map (closed_row at) o) ≡ none
seen_closed at none = refl
seen_closed at (some r) = refl

seen_id : (r : SessionRow) (y : Entry) → seen (some r) ≡ some y → y.1.id ≡ r.session.id
unfolding adopt
seen_id r y h = sym (ap (λ (x : Entry). x.1.id) (if_open_inner r.session.ended _ y h))

differ : (i j : String) → (i == j) ≡ false → i ≢ j
differ i j h e = ground (arith, eq_iff i j, h, e)

other_way : (i j : String) → (i == j) ≡ false → (j == i) ≡ false
other_way i j h = ground (arith, eq_iff i j, eq_iff j i)

-- The session of a project, among those that are open.
abbrev pub View : Type 0
View = String → Option OpenSession

module _ (db : Sessions) where
  abbrev pub open_at : String → db.Table → Option Entry
  open_at id t = seen (get_row db id t)

  -- An open session stands in the store under its id,
  abbrev pub StoredAs : db.Table → String → Option OpenSession → Type 0
  StoredAs t p none = Unit {0}
  StoredAs t p (some s) = open_at s.id t ≡ some (p, s)

  -- and an open row of the store is the open session of its project.
  abbrev pub OpenedAs : View → String → Option Entry → Type 0
  OpenedAs view id none = Unit {0}
  OpenedAs view id (some (p, s)) = (view p ≡ some s) × (s.id ≡ id)

  pub record Mirrors (view : View) (t : db.Table) : Type 0 where
    pub stored : (p : String) → StoredAs t p (view p)
    pub opened : (id : String) → OpenedAs view id (open_at id t)

  pub open_at-touch :
      (i id : String) (last commands : ℕ) (t : db.Table) (s : OpenSession) (p : String)
      → open_at id t ≡ some (p, s)
      → open_at i (do_session_touch db id last commands t).1 ≡ (
          if i == id
          then some (p, record s { last_activity = last; commands = commands })
          else open_at i t)
  unfolding do_session_touch
  open_at-touch i id last commands t s p h =
      ap seen (get_row-update_id db id i (touched_row last commands) t (λ r. refl))
      ∙ elim (Bool-cases (i == id)) [
        | inl e ↦ rw e (
            seen_touched last commands (p, s) (get_row db i t)
              (subst (λ k. open_at k t ≡ some (p, s)) (sym ((eq_iff i id).0 e)) h))
        | inr e ↦ rw e
      ]

  pub open_at-close :
      (i id : String) (at : ℕ) (t : db.Table)
      → open_at i (do_session_close db id at t).1 ≡ (if i == id then none else open_at i t)
  unfolding do_session_close
  open_at-close i id at t =
      ap seen (get_row-update_id db id i (closed_row at) t (λ r. refl))
      ∙ elim (Bool-cases (i == id)) [
        | inl e ↦ rw e (seen_closed at (get_row db i t))
        | inr e ↦ rw e
      ]

  open_at_id :
      (i : String) (t : db.Table) (p : String) (s : OpenSession)
      → open_at i t ≡ some (p, s)
      → s.id ≡ i
  open_at_id i t p s h = elim (Option-cases (get_row db i t)) [
    | inl e ↦ ground (arith, e, h)
    | inr (r, e) ↦
        seen_id r (p, s) (sym (ap seen e) ∙ h)
        ∙ (eq_iff r.session.id i).0 (find-holds _ (db.rows t) r e)
  ]

  pub open_at-open :
      (i : String) (ws : WorkSession) (t t' : db.Table)
      → ws.ended ≡ none
      → db.insert (record { session = ws; summary = none }) t ≡ some t'
      → open_at i t' ≡ (if i == ws.id then some (ws.project_id, adopt ws) else open_at i t)
  open_at-open i ws t t' live h =
      ap seen (get_row-insert db _ t t' i h) ∙ elim (Bool-cases (i == ws.id)) [
        | inl e ↦
            rw (e, (eq_iff i ws.id).0 e, eq_refl ws.id)
              (ap (λ o. if_open o (ws.project_id, adopt ws)) live)
        | inr e ↦ rw (e, other_way i ws.id e)
      ]

-- One project and one id change together.
abbrev pub put : String → Option OpenSession → View → View
put p n view q = if q == p then n else view q

abbrev pub entry : String → Option OpenSession → Option Entry
entry p none = none
entry p (some s) = some (p, s)

abbrev pub HasId : String → Option OpenSession → Type 0
HasId id none = Unit {0}
HasId id (some s) = s.id ≡ id

module _ (db : Sessions) where
  put-stored :
      (view : View) (t t' : db.Table) (p id : String) (n : Option OpenSession) (q : String)
      (o : Option OpenSession)
      → ((i : String) → open_at db i t' ≡ (if i == id then entry p n else open_at db i t))
      → ((u : OpenSession) → o ≡ some u → u.id ≡ id → q ≡ p)
      → (q == p) ≡ false
      → StoredAs db t q o
      → StoredAs db t' q o
  put-stored view t t' p id n q none at only e h = tt
  put-stored view t t' p id n q (some u) at only e h = elim (Bool-cases (u.id == id)) [
    | inl same ↦ absurd (differ q p e (only u refl ((eq_iff u.id id).0 same)))
    | inr other ↦ at u.id ∙ rw other h
  ]

  put_self :
      (t t' : db.Table) (p id : String) (n : Option OpenSession)
      → ((i : String) → open_at db i t' ≡ (if i == id then entry p n else open_at db i t))
      → HasId id n
      → StoredAs db t' p n
  put_self t t' p id none at h = tt
  put_self t t' p id (some s) at h = at s.id ∙ rw (h, eq_refl id)

  put-opened_self :
      (view : View) (p id : String) (n : Option OpenSession)
      → HasId id n
      → OpenedAs db (put p n view) id (entry p n)
  put-opened_self view p id none h = tt
  put-opened_self view p id (some s) h = (rw (eq_refl p), h)

  put-opened :
      (view : View) (p : String) (n : Option OpenSession) (i : String) (o : Option Entry)
      → ((u : OpenSession) → o ≢ some (p, u))
      → OpenedAs db view i o
      → OpenedAs db (put p n view) i o
  put-opened view p n i none other h = tt
  put-opened view p n i (some (q, u)) other h = elim (Bool-cases (q == p)) [
    | inl same ↦ absurd (other u (ap (λ r. some (r, u)) ((eq_iff q p).0 same)))
    | inr e ↦ (rw e (h.0), h.1)
  ]

  -- No other project has a session of this id, and no other id is open for this project.
  pub Mirrors-put :
      (view : View) (t t' : db.Table) (p id : String) (n : Option OpenSession)
      → Mirrors db view t
      → HasId id n
      → ((i : String) → open_at db i t' ≡ (if i == id then entry p n else open_at db i t))
      → ((q : String) (u : OpenSession) → view q ≡ some u → u.id ≡ id → q ≡ p)
      → ((i : String) (u : OpenSession) → open_at db i t ≡ some (p, u) → i ≡ id)
      → Mirrors db (put p n view) t'
  Mirrors-put view t t' p id n m has at only_project only_id = record {
    stored = λ q. elim (Bool-cases (q == p)) [
      | inl e ↦ rw (e, (eq_iff q p).0 e) (put_self t t' p id n at has)
      | inr e ↦ rw e (put-stored view t t' p id n q (view q) at (only_project q) e (m.stored q))
    ];
    opened = λ i. subst (OpenedAs db (put p n view) i) (sym (at i)) (elim (Bool-cases (i == id)) [
      | inl e ↦ rw (e, (eq_iff i id).0 e) (put-opened_self view p id n has)
      | inr e ↦ rw e (
          put-opened view p n i (open_at db i t) (λ u h. differ i id e (only_id i u h))
            (m.opened i))
    ]);
  }
