-- ===== src/Memory/Nightly/Retention.antt =====
-- What the retention steps keep and delete.
use mathlib.Core.Option
use rato.Prelude.{
  sym, All, All-filter, All-take, is_empty, eq_iff, ap, if◌then◌else◌, ◌==◌, map, true, [], ◌∷◌, ℕ,
  ◌≤◌, ◌+◌, false, zero, suc, ◌-◌, ◌*◌, String, Option, none, some, List, ◌≡◌, refl, ◌∙◌, Bool, not,
  arith, ltb, length, filter, Bool-cases, inl, inr,
}
use rato.Prelude.Result.{Result, ok, err}
use rato.Store.Approvals.{StoreError}
use rato.Store.Sql.{Sql}
use rato.Store.Prune.{
  Observation, ApiCallRow, VecRow, observation_id, call_id, vec_id, old_observation, old_api_call,
  prune_loop, do_delete_observations_older_than, do_delete_api_calls_older_than, delete_batch,
  max_variables, delete_vecs, ids_to_delete, is_in,
}
use rato.Store.Prune.Batches.{DistinctKeys, prune_loop-all}
use rato.Store.Pins.{Pin, is_expired, do_expire_pins, rows-do_expire_pins, do_set_retention_status}
use rato.Memory.Nightly.{
  Env, Tables, day_ms, prune_age_days, prune_max_rows, api_call_prune_age_days, prune_observations,
  prune_api_calls, protected_ids, finish, retention, unlink,
}

module _ {V : Type 0} (db : Sql (Observation V) observation_id) (vecs : Sql (VecRow V) vec_id) where
  module _ (cutoff : ℕ) (protected : List String) (max_rows : ℕ)
      (fits : ltb max_variables (2 + length protected) ≡ false) where
    abbrev stale : Observation V → Bool
    stale = old_observation cutoff protected

    abbrev batch : db.Table → ℕ × db.Table
    batch t = delete_batch db stale max_rows t

    abbrev left_vecs : db.Table → vecs.Table → vecs.Table
    left_vecs t vt = delete_vecs db vecs (ids_to_delete db stale max_rows t) vt

    delete_fits :
        (t : db.Table) (vt : vecs.Table)
        → do_delete_observations_older_than db vecs cutoff protected max_rows (t, vt)
          ≡ (ok (batch t).0, ((batch t).1, left_vecs t vt))
    unfolding do_delete_observations_older_than
    delete_fits t vt = rw fits refl

    prune_observations-step :
        (fuel deleted : ℕ) (t : db.Table) (vt : vecs.Table)
        → prune_observations db vecs (suc fuel) cutoff protected max_rows deleted (t, vt) ≡ (
            if ltb (batch t).0 max_rows
            then some (deleted + (batch t).0, ((batch t).1, left_vecs t vt))
            else prune_observations db vecs fuel cutoff protected max_rows
                (deleted + (batch t).0)
                ((batch t).1, left_vecs t vt))
    unfolding prune_observations
    prune_observations-step fuel deleted t vt =
        ap
          (λ (x : Result StoreError ℕ × (db.Table × vecs.Table)). elim x.0 [
            | err e ↦ none
            | ok n ↦
                if ltb n max_rows
                then some (deleted + n, x.1)
                else prune_observations db vecs fuel cutoff protected max_rows (deleted + n) x.1
          ])
          (delete_fits t vt)

    prune_observations-prune_loop :
        (fuel deleted : ℕ) (t : db.Table) (vt : vecs.Table)
        → Option.map
            (λ r. (r.0, r.1.0))
            (prune_observations db vecs fuel cutoff protected max_rows deleted (t, vt))
          ≡ prune_loop db stale fuel max_rows deleted t
    unfolding prune_loop
    prune_observations-prune_loop zero deleted t vt = unfold prune_observations in refl
    prune_observations-prune_loop (suc fuel) deleted t vt =
        ap (Option.map _) (prune_observations-step fuel deleted t vt)
        ∙ elim (Bool-cases (ltb (batch t).0 max_rows)) [
          | inl e ↦ rw e
          | inr e ↦ rw e (prune_observations-prune_loop fuel _ _ _)
        ]

    -- No row that is selected has this id.
    abbrev Spared : String → List (Observation V) → Type 0
    Spared k rows = All (λ o. stale o ≡ true → (o.id == k) ≡ false) rows

    abbrev under : String → vecs.Table → List (VecRow V)
    under k vt = filter (λ v. v.obs_id == k) (vecs.rows vt)

    filter_other :
        (k i : String)
        → (i == k) ≡ false
        → (rows : List (VecRow V))
        → filter (λ v. v.obs_id == k) (filter (λ v. not (v.obs_id == i)) rows)
          ≡ filter (λ v. v.obs_id == k) rows
    filter_other k i h [] = refl
    filter_other k i h (v ∷ rows) =
        ground (arith, filter_other k i h rows, eq_iff v.obs_id k, eq_iff v.obs_id i, eq_iff i k)

    delete_vecs-under :
        (k : String) (ks : List String) (vt : vecs.Table)
        → All (λ i. (i == k) ≡ false) ks
        → under k (delete_vecs db vecs ks vt) ≡ under k vt
    unfolding delete_vecs
    delete_vecs-under k [] vt h = refl
    delete_vecs-under k (i ∷ ks) vt h =
        delete_vecs-under k ks (vecs.delete (λ v. v.obs_id == i) vt) h.1
        ∙ ap (filter (λ v. v.obs_id == k)) (vecs.rows-delete (λ v. v.obs_id == i) vt)
        ∙ filter_other k i h.0 (vecs.rows vt)

    stale_ids-Spared :
        (k : String) (rows : List (Observation V))
        → Spared k rows
        → All (λ i. (i == k) ≡ false) (map observation_id (filter stale rows))
    stale_ids-Spared k [] h = tt
    stale_ids-Spared k (o ∷ rows) h = elim (Bool-cases (stale o)) [
      | inl e ↦ rw e (h.0 e, stale_ids-Spared k rows h.1)
      | inr e ↦ rw e (stale_ids-Spared k rows h.1)
    ]

    ids-Spared :
        (k : String) (t : db.Table)
        → Spared k (db.rows t)
        → All (λ i. (i == k) ≡ false) (ids_to_delete db stale max_rows t)
    unfolding ids_to_delete
    ids-Spared k t h = All-take _ max_rows _ (stale_ids-Spared k (db.rows t) h)

    batch-Spared :
        (k : String) (t : db.Table) → Spared k (db.rows t) → Spared k (db.rows (batch t).1)
    unfolding delete_batch
    batch-Spared k t h = elim (Bool-cases (is_empty (ids_to_delete db stale max_rows t))) [
      | inl e ↦ rw e h
      | inr e ↦
          rw (e, db.rows-delete (λ o. is_in o.id (ids_to_delete db stale max_rows t)) t)
            (All-filter _ _ (db.rows t) h)
    ]

    -- The embeddings of an observation that no batch selects stay.
    prune_observations-under :
        (k : String) (fuel deleted : ℕ) (t : db.Table) (vt : vecs.Table) (n : ℕ) (t' : db.Table)
        (vt' : vecs.Table)
        → Spared k (db.rows t)
        → prune_observations db vecs fuel cutoff protected max_rows deleted (t, vt)
          ≡ some (n, (t', vt'))
        → under k vt' ≡ under k vt
    prune_observations-under k zero deleted t vt n t' vt' h e =
        absurd (unfold prune_observations in ground (arith, e))
    prune_observations-under k (suc fuel) deleted t vt n t' vt' h e =
        let ids_spared = ids-Spared k t h in
        let over = sym (prune_observations-step fuel deleted t vt) ∙ e in
        elim (Bool-cases (ltb (batch t).0 max_rows)) [
          | inl c ↦
              ap (under k) (
                sym (
                  ap
                    (λ (o : Option (ℕ × (db.Table × vecs.Table))). elim o [
                      | none ↦ vt
                      | some r ↦ r.1.1
                    ])
                    (rw c at over)))
              ∙ delete_vecs-under k _ vt ids_spared
          | inr c ↦
              prune_observations-under k fuel _ (batch t).1 (left_vecs t vt) n t' vt'
                (batch-Spared k t h) (rw c at over)
              ∙ delete_vecs-under k _ vt ids_spared
        ]

module _ {F : Type 0} (db : Sql (ApiCallRow F) call_id) where
  prune_api_calls-prune_loop :
      (fuel cutoff max_rows deleted : ℕ) (t : db.Table)
      → prune_api_calls db fuel cutoff max_rows deleted t
        ≡ prune_loop db (old_api_call cutoff) fuel max_rows deleted t
  unfolding prune_api_calls prune_loop do_delete_api_calls_older_than
  prune_api_calls-prune_loop zero cutoff max_rows deleted t = refl
  prune_api_calls-prune_loop (suc fuel) cutoff max_rows deleted t =
      elim (Bool-cases (ltb (delete_batch db (old_api_call cutoff) max_rows t).0 max_rows)) [
        | inl e ↦ rw e
        | inr e ↦ rw e (prune_api_calls-prune_loop fuel cutoff max_rows _ _)
      ]

map-some :
    {A B C : Type 0} (o : Option (A × (B × C))) (a : A) (b : B)
    → Option.map {B = A × B} (λ r. (r.0, r.1.0)) o ≡ some (a, b)
    → (c : C) × (o ≡ some (a, (b, c)))
map-some none a b e = absurd (ground (arith, e))
map-some (some (a', (b', c))) a b e = (c, ground (arith, e))

module _ (env : Env) where
  -- The rows that the retention at `now` selects in the two tables with loops.
  abbrev pub stale_observation : ℕ → Tables env → Observation env.json.Value → Bool
  stale_observation now s = old_observation (now - prune_age_days * day_ms) (protected_ids env s)

  abbrev pub stale_api_call : ℕ → ApiCallRow env.Float → Bool
  stale_api_call now = old_api_call (now - api_call_prune_age_days * day_ms)

  -- The directories of these pins removed, one after the other.
  abbrev pub removed : List (Pin env.json.Value) → env.Disk → env.Disk
  removed [] d = d
  removed (p ∷ ps) d = removed ps (env.remove_dir_all p.path d)

  unlink-removed : (ps : List (Pin env.json.Value)) (d : env.Disk) → unlink env ps d ≡ removed ps d
  unfolding unlink
  unlink-removed [] d = refl
  unlink-removed (p ∷ ps) d = unlink-removed ps (env.remove_dir_all p.path d)

  -- The three tables after retention, row by row, the memories, the embeddings of each id that no deleted
  -- observation has, the directories of the pins, and the summary.
  abbrev pub Retained : ℕ → Tables env → Tables env → Type 0
  Retained now s s' =
      (env.observations.rows s'.observations
        ≡ filter (λ o. not (stale_observation now s o)) (env.observations.rows s.observations))
      × (env.pins.rows s'.pins ≡ filter (λ p. not (is_expired now p)) (env.pins.rows s.pins))
      × (env.api_calls.rows s'.api_calls
          ≡ filter (λ c. not (stale_api_call now c)) (env.api_calls.rows s.api_calls))
      × (s'.memories ≡ s.memories)
      × ((k : String)
          → All (λ o. stale_observation now s o ≡ true → (o.id == k) ≡ false)
              (env.observations.rows s.observations)
          → filter (λ v. v.obs_id == k) (env.vecs.rows s'.vecs)
            ≡ filter (λ v. v.obs_id == k) (env.vecs.rows s.vecs))
      × (s'.disk ≡ removed (filter (is_expired now) (env.pins.rows s.pins)) s.disk)
      × (s'.retention
          ≡ some (record {
            last_run_ms = now;
            observations_deleted =
                length (filter (stale_observation now s) (env.observations.rows s.observations));
            pins_expired = length (filter (is_expired now) (env.pins.rows s.pins));
            api_calls_deleted =
                length (filter (stale_api_call now) (env.api_calls.rows s.api_calls));
          }))

  prune_observations-lem :
      (now : ℕ) (s : Tables env)
      → DistinctKeys observation_id (env.observations.rows s.observations)
      → ltb max_variables (2 + length (protected_ids env s)) ≡ false
      → (t : env.observations.Table) × (vt : env.vecs.Table) × (prune_observations env.observations
            env.vecs
            (suc (length (env.observations.rows s.observations)))
            (now - prune_age_days * day_ms)
            (protected_ids env s)
            prune_max_rows
            0
            (s.observations, s.vecs)
          ≡ some (
            length (filter (stale_observation now s) (env.observations.rows s.observations)),
            (t, vt),
          ))
        × (env.observations.rows t
            ≡ filter (λ o. not (stale_observation now s o)) (env.observations.rows s.observations))
        × ((k : String)
            → All
                (λ o. stale_observation now s o ≡ true → (o.id == k) ≡ false)
                (env.observations.rows s.observations)
            → filter (λ v. v.obs_id == k) (env.vecs.rows vt)
              ≡ filter (λ v. v.obs_id == k) (env.vecs.rows s.vecs))
  prune_observations-lem now s distinct fits =
      let (t, found, left) =
        prune_loop-all observation_id (stale_observation now s) env.observations prune_max_rows
          s.observations distinct (omega arith) in
      let (vt, pruned) =
        map-some _ _ t (
          prune_observations-prune_loop env.observations env.vecs _ _ _ fits _ _ _ s.vecs
          ∙ found) in
      (
        t,
        vt,
        pruned,
        left,
        λ k spared.
            prune_observations-under env.observations env.vecs _ _ _ fits k _ _ s.observations
              s.vecs _ t vt spared pruned,
      )

  prune_api_calls-lem :
      (now : ℕ) (s : Tables env)
      → DistinctKeys call_id (env.api_calls.rows s.api_calls)
      → (t : env.api_calls.Table) × (prune_api_calls env.api_calls
            (suc (length (env.api_calls.rows s.api_calls)))
            (now - api_call_prune_age_days * day_ms)
            prune_max_rows
            0
            s.api_calls
          ≡ some (length (filter (stale_api_call now) (env.api_calls.rows s.api_calls)), t))
        × (env.api_calls.rows t
            ≡ filter (λ c. not (stale_api_call now c)) (env.api_calls.rows s.api_calls))
  prune_api_calls-lem now s distinct =
      let (t, found, left) =
        prune_loop-all call_id (stale_api_call now) env.api_calls prune_max_rows s.api_calls
          distinct (omega arith) in
      (t, prune_api_calls-prune_loop env.api_calls _ _ _ _ _ ∙ found, left)

  -- Where the ids of a table differ, and the protected ids fit into one statement, the retention steps
  -- end with a result. They then have deleted exactly the observations that are older than the cutoff
  -- and that no memory and no pin cites, the expired pins and the old API calls, and have removed the
  -- directories of the expired pins and no other. The memories stay, and so do the embeddings under every
  -- id that no deleted observation has; the summary row counts what was deleted.
  pub retention-Retained :
      (now : ℕ) (s : Tables env)
      → DistinctKeys observation_id (env.observations.rows s.observations)
      → DistinctKeys call_id (env.api_calls.rows s.api_calls)
      → 2 + length (protected_ids env s) ≤ max_variables
      → (s' : Tables env) × (retention env now s ≡ some s') × Retained now s s'
  unfolding retention finish do_expire_pins do_set_retention_status
  retention-Retained now s distinct distinct_calls fits =
      let (t, vt, pruned, rows, embeddings) =
        prune_observations-lem now s distinct (ground (arith, fits)) in
      let (calls, calls_pruned, calls_rows) = prune_api_calls-lem now s distinct_calls in
      (
        finish env now _ (record s { observations = t; vecs = vt }) (_, calls),
        rw pruned (rw calls_pruned),
        (
          rows,
          rows-do_expire_pins env.pins now s.pins,
          calls_rows,
          refl,
          embeddings,
          unlink-removed (filter (is_expired now) (env.pins.rows s.pins)) s.disk,
          refl,
        ),
      )
