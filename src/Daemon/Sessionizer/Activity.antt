-- ===== src/Daemon/Sessionizer/Activity.antt =====
-- What an activity event does to the open sessions, as a reader by project sees them.
use rato.Prelude.{
  ℕ, ◌+◌, ◌%◌, ◌^◌, ap, true, String, ◌≡◌, refl, Bool, false, Option, none, some, List, [], ◌∷◌,
  ◌++◌, arith, ◌==◌, eq_iff, if◌then◌else◌, leb, Bool-cases, inl, inr,
}
use rato.Daemon.Sessionizer.{
  WorkSession, SessionUpdate, opens, touches, closes, OpenSession, OpenMap, Sessionizer, get,
  remove, insert, set, on_activity, activity_at, fresh, adopt, touched,
}

get-remove : (q p : String) (m : OpenMap) → get q (remove p m) ≡ (if q == p then none else get q m)
unfolding get remove
get-remove q p [] = ground arith
get-remove q p ((r, s) ∷ m) = ground (arith, get-remove q p m, eq_iff r p, eq_iff r q, eq_iff q p)

get-append_one :
    (q p : String) (s : OpenSession) (m : OpenMap)
    → get q (m ++ (p, s) ∷ [])
      ≡ (elim (get q m) [ none ↦ if p == q then some s else none | some u ↦ some u ])
unfolding get
get-append_one q p s [] = refl
get-append_one q p s ((r, u) ∷ m) = ground (arith, get-append_one q p s m)

get-insert :
    (q p : String) (s : OpenSession) (m : OpenMap)
    → get q (insert p s m) ≡ (if q == p then some s else get q m)
unfolding insert
get-insert q p s m =
    ground (arith, get-append_one q p s (remove p m), get-remove q p m, eq_iff q p, eq_iff p q)

get-set_other :
    (q p : String) (s : OpenSession) (m : OpenMap) → (q == p) ≡ false → get q (set p s m) ≡ get q m
unfolding get set
get-set_other q p s [] h = refl
get-set_other q p s ((r, u) ∷ m) h = elim (Bool-cases (r == q)) [
  | inl here ↦
      let miss : (r == p) ≡ false = ground (arith, eq_iff r q, eq_iff r p, eq_iff q p) in
      rw (here, miss)
  | inr there ↦ rw there (get-set_other q p s m h)
]

get-set_self :
    (p : String) (s old : OpenSession) (m : OpenMap)
    → get p m ≡ some old
    → get p (set p s m) ≡ some s
unfolding get set
get-set_self p s old [] h = ground arith
get-set_self p s old ((r, u) ∷ m) h = elim (Bool-cases (r == p)) [
  | inl here ↦ rw here
  | inr there ↦ rw there (get-set_self p s old m (rw there at h))
]

get-set :
    (q p : String) (s old : OpenSession) (m : OpenMap)
    → get p m ≡ some old
    → get q (set p s m) ≡ (if q == p then some s else get q m)
get-set q p s old m h = elim (Bool-cases (q == p)) [
  | inl same ↦ rw (same, (eq_iff q p).0 same) (get-set_self p s old m h)
  | inr other ↦ rw other (get-set_other q p s m other)
]

-- A command counts, modulo 2^32.
abbrev pub counted : ℕ → Bool → ℕ
counted n true = (n + 1) % 2 ^ 32
counted n false = n % 2 ^ 32

-- A session of its own, at the time of the event, and as it is kept in the map.
abbrev pub session_from : String → String → ℕ → Bool → WorkSession
session_from id project ts is_command = record {
  id = id;
  project_id = project;
  started = ts;
  last_activity = ts;
  ended = none;
  commands = counted 0 is_command;
}

abbrev pub opened_from : String → ℕ → Bool → OpenSession
opened_from id ts is_command = record {
  id = id;
  last_activity = ts;
  commands = counted 0 is_command;
}

-- The session of the project after the event, and the updates for the store, by the session before.
abbrev pub next_session : String → ℕ → Bool → ℕ → Option OpenSession → OpenSession
next_session id ts is_command gap none = opened_from id ts is_command
next_session id ts is_command gap (some s) =
    if leb ts (s.last_activity + gap)
    then record { id = s.id; last_activity = ts; commands = counted s.commands is_command }
    else opened_from id ts is_command

abbrev pub next_updates : String → String → ℕ → Bool → ℕ → Option OpenSession → List SessionUpdate
next_updates id project ts is_command gap none = opens (session_from id project ts is_command) ∷ []
next_updates id project ts is_command gap (some s) =
    if leb ts (s.last_activity + gap)
    then touches s.id ts (counted s.commands is_command) ∷ []
    else closes s.id s.last_activity ∷ opens (session_from id project ts is_command) ∷ []

touched_lem :
    (s : OpenSession) (ts : ℕ) (is_command : Bool)
    → touched s ts is_command
      ≡ record { id = s.id; last_activity = ts; commands = counted s.commands is_command }
unfolding touched
touched_lem s ts true = refl
touched_lem s ts false =
    ap (λ n. record { id = s.id; last_activity = ts; commands = n % 2 ^ 32 }) (omega arith)

fresh_lem :
    (id project : String) (ts : ℕ) (is_command : Bool)
    → fresh id project ts is_command ≡ session_from id project ts is_command
unfolding fresh
fresh_lem id project ts true = refl
fresh_lem id project ts false = refl

activity_at-get :
    (id project : String) (ts : ℕ) (is_command : Bool) (z : Sessionizer) (o : Option OpenSession)
    (q : String)
    → get project z.opened ≡ o
    → (get q (activity_at id project ts is_command z o).0.opened ≡ (
        if q == project then some (next_session id ts is_command z.gap_ms o) else get q z.opened))
      × ((activity_at id project ts is_command z o).1
          ≡ next_updates id project ts is_command z.gap_ms o)
unfolding activity_at adopt
activity_at-get id project ts is_command z none q e =
    rw (fresh_lem id project ts is_command) (get-insert q project _ z.opened, refl)
activity_at-get id project ts is_command z (some s) q e =
    elim (Bool-cases (leb ts (s.last_activity + z.gap_ms))) [
      | inl near ↦ rw near (
        rw (touched_lem s ts is_command) (get-set q project _ s z.opened e),
        ap (λ (x : OpenSession). touches x.id x.last_activity x.commands ∷ [])
            (touched_lem s ts is_command),
      )
      | inr far ↦
          rw (far, fresh_lem id project ts is_command) (get-insert q project _ z.opened, refl)
    ]

-- An event within the gap extends the session of its project to its time, under the same id; any other
-- event opens a new one from its time on, behind the close of the old at its last activity. A command adds
-- one to the count, which wraps at 2^32. No other project's session changes.
pub get-on_activity :
    (id project : String) (ts : ℕ) (is_command : Bool) (z : Sessionizer) (q : String)
    → let before = get project z.opened in
      (get q (on_activity id project ts is_command z).0.opened ≡ (
        if q == project
        then some (next_session id ts is_command z.gap_ms before)
        else get q z.opened))
      × ((on_activity id project ts is_command z).1
          ≡ next_updates id project ts is_command z.gap_ms before)
unfolding on_activity
get-on_activity id project ts is_command z q =
    activity_at-get id project ts is_command z (get project z.opened) q refl
