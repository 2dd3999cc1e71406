-- ===== src/Daemon/Ingest/Events.antt =====
-- An event on its way: what comes before the sessionizer leaves the sessions as they are.
use rato.Prelude.{
  ◌≡◌, refl, sym, subst, ◌∙◌, String, Option, none, some, ◌==◌, codes, Bool-cases, inl, inr,
}
use rato.Prelude.Result.{Result, ok, err, Exec, continue, pure, lift, gets, bind_leads, ◌>>=◌, ◌>>◌}
use rato.Prelude.Paths.{FilePath, path_of}
use rato.Store.Sql.{get_row}
use rato.Store.Events.{Event, NewEvent, do_append}
use rato.Store.Observations.{NewObservation}
use rato.Daemon.Sessionizer.{Sessionizer}
use rato.Daemon.Ingest.{
  Env, World, Call, IngestError, ingest, group, attribute, is_looped, is_activity, str_field,
  in_project, attribute_by, observe, accept, derive_observation, add_derived, on_events,
  resolve_project, project_at, root_of, cached,
}
use rato.Daemon.Ingest.Refines.{InSync, Synced, activity-InSync}

module _ (E : Env) where
  open E use {json, events, projects, observations, sessions}
  open json use {Value}

  abbrev Step : Type 0 → Type 0
  Step = Exec (World E) IngestError

  abbrev core : World E → Sessionizer × sessions.Table
  core w = (w.sessionizer, w.sessions)

  -- A step that leaves the sessions of the map and of the store as they are.
  abbrev Keeps : {A : Type 0} → Step A → Type 0
  Keeps m = (w : World E) → core (m w).1 ≡ core w

  Keeps-bind :
      {A B : Type 0} (m : Step A) (f : A → Step B)
      → Keeps m
      → ((a : A) → Keeps (f a))
      → Keeps (m >>= f)
  Keeps-bind m f h k w =
      bind_leads (λ w'. core w' ≡ core w) (λ w'. core w' ≡ core w) m f (λ w' e. e)
        (λ w' e. h w' ∙ e) (λ a w' e. k a w' ∙ e) w refl

  pure_after :
      {A B : Type 0} (r : Result IngestError A) (f : A → B) (w : World E)
      → core (continue r (λ a. pure (f a)) w).1 ≡ core w
  pure_after (ok a) f w = refl
  pure_after (err e) f w = refl

  Keeps-root_of : (cwd : FilePath) (known : Option (Option FilePath)) → Keeps (root_of E cwd known)
  unfolding root_of
  Keeps-root_of cwd none w = refl
  Keeps-root_of cwd (some root) w = refl

  Keeps-project_at : (c : Call) (root : Option FilePath) → Keeps (project_at E c root)
  unfolding project_at
  Keeps-project_at c none w = refl
  Keeps-project_at c (some root) w = pure_after _ some (record w { projects = _ })

  Keeps-resolve_project : (c : Call) (cwd : FilePath) → Keeps (resolve_project E c cwd)
  unfolding resolve_project
  Keeps-resolve_project c cwd =
      Keeps-bind (gets (λ w. cached cwd w.project_cache))
        (λ known. root_of E cwd known >>= project_at E c) (λ w. refl)
        (λ known.
          Keeps-bind (root_of E cwd known) (project_at E c) (Keeps-root_of cwd known)
            (Keeps-project_at c))

  Keeps-attribute_by :
      (c : Call) (ev : NewEvent Value) (p cwd : Option String) → Keeps (attribute_by E c ev p cwd)
  unfolding attribute_by
  Keeps-attribute_by c ev (some p) cwd w = refl
  Keeps-attribute_by c ev none none w = refl
  Keeps-attribute_by c ev none (some cwd) w =
      Keeps-bind (resolve_project E c (path_of (codes cwd)))
        (λ project. pure (in_project E ev project)) (Keeps-resolve_project c (path_of (codes cwd)))
        (λ project w. refl) w

  Keeps-add_derived : (c : Call) (obs : Option (NewObservation Value)) → Keeps (add_derived E c obs)
  unfolding add_derived
  Keeps-add_derived c none w = refl
  Keeps-add_derived c (some obs) w = pure_after _ (λ o. tt) (record w { observations = _ })

  -- The id of the session that the event may open is not taken.
  abbrev Ready : String → Sessionizer × sessions.Table → Type 0
  Ready id x = Synced E x.0 x.1 × (get_row sessions id x.1 ≡ none)

  group-InSync :
      (c : Call) (event : Event Value) (p : Option String) (w : World E)
      → Ready c.session_id (core w)
      → InSync E (group E c event p w).1
  unfolding group
  group-InSync c event none w r = r.0
  group-InSync c event (some p) w r = elim (Bool-cases (is_activity event.kind)) [
    | inl e ↦
        rw e ((activity-InSync E c.session_id p event.ts (event.kind == "shell_cmd") w r.0 r.1).1)
    | inr e ↦ rw e (r.0)
  ]

  group_last :
      (m : Step (Unit {0})) (event : Event Value) (w : World E)
      → InSync E (m w).1
      → InSync E ((m >> pure (some event)) w).1
  group_last m event w h =
      subst (λ (x : Sessionizer × sessions.Table). Synced E x.0 x.1)
        (sym (pure_after (m w).0 (λ _. some event) (m w).1)) h

  -- A step that keeps the sessions, in front of steps that leave them in sync.
  Keeps-InSync :
      {A B : Type 0} (id : String) (m : Step A) (f : A → Step B)
      → Keeps m
      → ((a : A) (w : World E) → Ready id (core w) → InSync E (f a w).1)
      → (w : World E) → Ready id (core w)
      → InSync E ((m >>= f) w).1
  Keeps-InSync id m f h =
      bind_leads (λ w. Ready id (core w)) (InSync E) m f (λ w r. r.0)
        λ w r. subst (Ready id) (sym (h w)) r

  observe-InSync :
      (c : Call) (event : Event Value) (w : World E)
      → Ready c.session_id (core w)
      → InSync E (observe E c event w).1
  unfolding observe
  observe-InSync c event =
      Keeps-InSync c.session_id (lift (derive_observation E event)) _ (λ w. refl)
        λ obs. Keeps-InSync c.session_id (add_derived E c obs) _ (Keeps-add_derived c obs) λ _ w r.
          group_last (group E c event event.project_id) event w
            (group-InSync c event event.project_id w r)

  accept-InSync :
      (c : Call) (ev : NewEvent Value) (w : World E)
      → Ready c.session_id (core w)
      → InSync E (accept E c ev w).1
  unfolding accept attribute
  accept-InSync c ev =
      Keeps-InSync c.session_id (attribute E c ev) _
        (Keeps-attribute_by c ev ev.project_id (str_field E "cwd" ev.payload))
        λ attributed.
          Keeps-InSync c.session_id
            (on_events E (do_append events c.event_id c.event_now attributed)) _ (λ w. refl)
            (observe-InSync c)

  -- Whatever an event holds and wherever its way ends, a call of `ingest` that no other call of `ingest` or
  -- `tick` overlaps leaves the open sessions of the store and of the sessionizer in agreement, if they
  -- agree before it and the new session's id is not taken.
  pub ingest-InSync :
      (c : Call) (ev : NewEvent Value) (w : World E)
      → InSync E w
      → get_row sessions c.session_id w.sessions ≡ none
      → InSync E (ingest E c ev w).1
  unfolding ingest
  ingest-InSync c ev w s free = elim (Bool-cases (is_looped E ev)) [
    | inl e ↦ rw e s
    | inr e ↦ rw e (accept-InSync c ev w (s, free))
  ]
