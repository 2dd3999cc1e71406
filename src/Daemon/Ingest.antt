-- ===== src/Daemon/Ingest.antt =====
-- crates/rat-daemon/src/ingest.rs: the way of an event into the store. The file system is the two tests
-- `is_file` and `is_dir`, as it stands during the call; `remove_fields` is the removal of keys from a
-- JSON object, which leaves other values alone. Ids and times of new rows are arguments. A call is
-- modelled as it runs alone: the lock on the sessionizer is released before its updates are written, so
-- that what calls that overlap write to the store may interleave, which is not modelled.
pub mod Mirror
pub mod Updates
pub mod Applied
pub mod Closed
pub mod Refines
pub mod Events
use mathlib.Core.Option
use rato.Prelude.{
  ℕ, zero, suc, ◌+◌, ◌-◌, String, Bool, true, false, ◌&&◌, ◌||◌, Option, none, some, List, [], ◌∷◌,
  ◌++◌, ◌==◌, codes, min, starts_with, contains, trim_start, if◌then◌else◌, ltb, leb, any,
}
use rato.Prelude.Paths.{FilePath, Text, path_of, path_text, path_eq, file_name, parent}
use rato.Prelude.Result.{Result, ok, err, map_err, Exec, pure, fail, lift, gets, ◌>>=◌, ◌>>◌}
use rato.Store.Sql.{Sql, Json}
use rato.Store.Approvals.{StoreError}
use rato.Store.Prune.{Observation, observation_id}
use rato.Store.Events.{
  Event, NewEvent, event_id, Project, project_key, do_append, do_upsert_project,
}
use rato.Store.Observations.{NewObservation, do_add_observation}
use rato.Store.Sessions.{
  SessionRow, session_key, Sessions, do_session_open, do_session_touch, do_session_close,
}
use rato.Daemon.Sessionizer.{SessionUpdate, opens, touches, closes, Sessionizer, on_activity, tick}

-- A slice of a string that cuts a character is a panic.
pub data IngestError : Type 0 where
  store : StoreError → IngestError
  panicked : IngestError

pub record Env : Type 1 where
  pub json : Json
  pub events : Sql (Event json.Value) event_id
  pub projects : Sql Project project_key
  pub observations : Sql (Observation json.Value) observation_id
  pub sessions : Sessions
  pub is_file : FilePath → Bool
  pub is_dir : FilePath → Bool
  pub remove_fields : List String → json.Value → json.Value

-- The ids and times that the rows of one call get.
pub record Call : Type 0 where
  pub project_id : String
  pub project_now : ℕ
  pub event_id : String
  pub event_now : ℕ
  pub observation_id : String
  pub observation_now : ℕ
  pub session_id : String

abbrev pub ProjectCache : Type 0
ProjectCache = List (FilePath × Option FilePath)

unfoldable pub cached : FilePath → ProjectCache → Option (Option FilePath)
cached p [] = none
cached p ((q, root) ∷ cache) = if path_eq q p then some root else cached p cache

abbrev pub is_activity : String → Bool
is_activity kind = any (λ k. k == kind) ("shell_cmd" ∷ "git_head" ∷ "proc_started" ∷ [])

-- `s[..n]` by bytes: none where the cut is inside a character.
unfoldable pub utf8_width : ℕ → ℕ
utf8_width c = if ltb c 128 then 1 else if ltb c 2048 then 2 else if ltb c 65536 then 3 else 4

unfoldable pub byte_length : Text → ℕ
unfolding utf8_width
byte_length [] = 0
byte_length (c ∷ s) = utf8_width c + byte_length s

unfoldable pub first_bytes : ℕ → Text → Option Text
unfolding utf8_width
first_bytes zero s = some []
first_bytes (suc n) [] = none
first_bytes (suc n) (c ∷ s) =
    let rest = first_bytes (suc n - utf8_width c) s in
    if leb (utf8_width c) (suc n) then (elim rest [ none ↦ none | some t ↦ some (c ∷ t) ]) else none

module _ (E : Env) where
  open E use {json, events, projects, observations, sessions}
  open json use {Value}

  pub record World : Type 0 where
    pub events : events.Table
    pub projects : projects.Table
    pub observations : observations.Table
    pub sessions : sessions.Table
    pub sessionizer : Sessionizer
    pub project_cache : ProjectCache

  abbrev pub str_field : String → Value → Option String
  str_field k v = elim (json.get v k) [ none ↦ none | some x ↦ json.as_str x ]

  -- The loop guard: the shell hooks' own commands.
  unfoldable pub is_own_command : Text → Bool
  unfolding trim_start
  is_own_command cmd =
      let trimmed = trim_start cmd in
      starts_with trimmed (codes "rat emit") || contains trimmed (codes "/rat emit")

  unfoldable pub is_looped : NewEvent Value → Bool
  unfolding is_own_command
  is_looped ev = ev.kind == "shell_cmd" && (elim (str_field "cmd" ev.payload) [
    | none ↦ false
    | some cmd ↦ is_own_command (codes cmd)
  ])

  unfoldable pub is_git_worktree_marker : FilePath → Bool
  is_git_worktree_marker path = E.is_file path || (E.is_dir path && E.is_file (codes "HEAD" ∷ path))

  -- The loop `for _ in 0..20`, by the turns left.
  unfoldable pub find_root_in : ℕ → FilePath → Option FilePath
  unfolding is_git_worktree_marker parent
  find_root_in zero dir = none
  find_root_in (suc n) dir =
      if is_git_worktree_marker (codes ".git" ∷ dir)
      then some dir
      else (elim (parent dir) [ none ↦ none | some up ↦ find_root_in n up ])

  unfoldable pub find_git_root : FilePath → Option FilePath
  unfolding find_root_in
  find_git_root start = find_root_in 20 start

  unfoldable pub short_commit : Text → Option Text
  unfolding byte_length first_bytes
  short_commit commit = first_bytes (min (byte_length commit) 12) commit

  abbrev pub or_text : Option String → String → Text
  or_text none d = codes d
  or_text (some s) d = codes s

  -- The content of the observation, if there is one.
  unfoldable pub observed : String → Value → Result IngestError (Option Text)
  unfolding short_commit
  observed kind payload =
      if kind == "shell_cmd"
      then ok (Option.map codes (str_field "cmd" payload))
      else if kind == "clipboard_text" || kind == "clipboard_redacted"
      then ok (Option.map codes (str_field "text" payload))
      else if kind == "git_head"
      then (elim (short_commit (or_text (str_field "commit" payload) "?")) [
        | none ↦ err panicked
        | some commit ↦ ok (
            some (
              codes "checkout "
              ++ (or_text (str_field "branch" payload) "detached" ++ (codes "@" ++ commit))))
      ])
      else ok none

  abbrev pub observation_of : Event Value → Text → NewObservation Value
  observation_of event content = record {
    event_id = some event.id;
    kind = event.kind;
    project_id = event.project_id;
    content = content;
    meta = E.remove_fields ("cmd" ∷ "text" ∷ []) event.payload;
  }

  unfoldable pub derive_observation :
      Event Value → Result IngestError (Option (NewObservation Value))
  derive_observation event = elim (observed event.kind event.payload) [
    | err e ↦ err e
    | ok none ↦ ok none
    | ok (some content) ↦ ok (some (observation_of event content))
  ]

  abbrev Step : Type 0 → Type 0
  Step = Exec World IngestError

  abbrev pub on_events : {A : Type 0} → (events.Table → Result StoreError A × events.Table) → Step A
  on_events f w = let (r, t) = f w.events in (map_err store r, record w { events = t })

  abbrev pub on_projects :
      {A : Type 0} → (projects.Table → Result StoreError A × projects.Table) → Step A
  on_projects f w = let (r, t) = f w.projects in (map_err store r, record w { projects = t })

  abbrev pub on_observations :
      {A : Type 0} → (observations.Table → Result StoreError A × observations.Table) → Step A
  on_observations f w =
      let (r, t) = f w.observations in (map_err store r, record w { observations = t })

  abbrev pub on_sessions :
      {A : Type 0} → (sessions.Table → Result StoreError A × sessions.Table) → Step A
  on_sessions f w = let (r, t) = f w.sessions in (map_err store r, record w { sessions = t })

  -- The root of the project of a directory, looked up once.
  root_of : FilePath → Option (Option FilePath) → Step (Option FilePath)
  root_of cwd (some root) w = (ok root, w)
  root_of cwd none w =
      let found = find_git_root cwd in
      (ok found, record w { project_cache = (cwd, found) ∷ w.project_cache })

  project_at : Call → Option FilePath → Step (Option Project)
  project_at c none = pure none
  project_at c (some root) = do
    p ← on_projects (
        do_upsert_project projects c.project_id c.project_now (path_text root)
          (elim (file_name root) [ none ↦ codes "unnamed" | some n ↦ n ]))
    pure (some p)

  unfoldable pub resolve_project : Call → FilePath → Step (Option Project)
  unfolding root_of project_at cached
  resolve_project c cwd = do
    known ← gets (λ w. cached cwd w.project_cache)
    root ← root_of cwd known
    project_at c root

  -- `ev.project_id = Some(p.id)`
  abbrev pub in_project : NewEvent Value → Option Project → NewEvent Value
  in_project ev none = ev
  in_project ev (some p) = record ev { project_id = some p.id }

  -- By the project and the directory that the event names: the directory counts only without a project.
  attribute_by : Call → NewEvent Value → Option String → Option String → Step (NewEvent Value)
  unfolding resolve_project path_of
  attribute_by c ev (some p) cwd = pure ev
  attribute_by c ev none none = pure ev
  attribute_by c ev none (some cwd) = do
    project ← resolve_project c (path_of (codes cwd))
    pure (in_project ev project)

  unfoldable pub attribute : Call → NewEvent Value → Step (NewEvent Value)
  unfolding attribute_by
  attribute c ev = attribute_by c ev ev.project_id (str_field "cwd" ev.payload)

  unfoldable pub apply_one : SessionUpdate → Step (Unit {0})
  apply_one (opens ws) = on_sessions (do_session_open sessions ws)
  apply_one (touches id last_activity commands) =
      on_sessions (do_session_touch sessions id last_activity commands)
  apply_one (closes id ended) = on_sessions (do_session_close sessions id ended)

  unfoldable pub apply : List SessionUpdate → Step (Unit {0})
  unfolding apply_one
  apply [] = pure tt
  apply (u ∷ us) = apply_one u >> apply us

  add_derived : Call → Option (NewObservation Value) → Step (Unit {0})
  add_derived c none = pure tt
  add_derived c (some obs) = do
    on_observations (do_add_observation observations c.observation_id c.observation_now obs)
    pure tt

  -- Under the lock of the sessionizer, which is released before the updates are applied.
  abbrev pub with_sessionizer :
      (Sessionizer → Sessionizer × List SessionUpdate) → Step (List SessionUpdate)
  with_sessionizer f w = let (z, us) = f w.sessionizer in (ok us, record w { sessionizer = z })

  group : Call → Event Value → Option String → Step (Unit {0})
  unfolding apply
  group c event none = pure tt
  group c event (some project_id) =
      if is_activity event.kind
      then (with_sessionizer
            (on_activity c.session_id project_id event.ts (event.kind == "shell_cmd"))
          >>= apply)
      else pure tt

  -- What follows the append.
  observe : Call → Event Value → Step (Option (Event Value))
  unfolding derive_observation add_derived group
  observe c event = do
    obs ← lift (derive_observation event)
    add_derived c obs
    group c event event.project_id
    pure (some event)

  accept : Call → NewEvent Value → Step (Option (Event Value))
  unfolding attribute observe
  accept c ev = do
    attributed ← attribute c ev
    event ← on_events (do_append events c.event_id c.event_now attributed)
    observe c event

  -- `none` is an event that the loop guard dropped.
  unfoldable pub ingest : Call → NewEvent Value → Step (Option (Event Value))
  unfolding is_looped accept
  ingest c ev = if is_looped ev then pure none else accept c ev

  unfoldable pub tick_sessions : ℕ → Step (Unit {0})
  unfolding apply tick
  tick_sessions now = with_sessionizer (tick now) >>= apply
