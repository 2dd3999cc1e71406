-- ===== src/Memory/Retrieve/Found.antt =====
-- What a search finds is in the store and may be seen.
use rato.Prelude.{
  leb, ℕ, ◌≡◌, ◌≤◌, refl, sym, subst, String, true, false, Option, none, some, List, [], ◌∷◌, ◌++◌,
  inl, inr, map, filter, take, length, length-take, arith, All, All-take, All-append, All-filter,
  Bool-cases,
}
use rato.Prelude.Result.{Result, ok, err, map_err, pure, ◌>>=◌}
use rato.Store.Approvals.{StoreError}
use rato.Store.Memories.{MemoryRow, MemoryFilter, is_listed, do_list_memories}
use rato.Store.Embeddings.{do_observations_by_ids}
use rato.Store.Order.{order_by}
use rato.Store.Order.Sorted.{All-order_by}
use rato.Store.Actor.{Env, Moment, Db, Cmd, Reply}
use rato.Store.Actor.Serve.{handle}
use rato.Store.Actor.Loop.{Actor, ask}
use rato.Store.Actor.Client as Store
use rato.Store.Actor.Reads.{is_read}
use rato.Store.Actor.Idle.{OkIs, IsIdle, ask-is_read, Gives, bind-Gives}
use rato.Memory.Retrieve.{
  Reals, Hit, store, SearchParams, observation_hits, memory_hits, stored, or_nothing, vector_ids,
  find_observations, find_memories, search, hit_first, nearest, best, with_memories, gathered,
  with_vectors,
}
use rato.Memory.Retrieve.Hits.{
  All-Among, observation_hits-IsFound, memory_hits-IsFound, Among, IsShown, IsFound,
}

module _ (E : Env) (R : Reals E.Float E.float32.F) where
  OkIs-map_err :
      {A : Type 0} (P : A → Type 0) (r : Result StoreError A)
      → OkIs P r
      → OkIs P (map_err (λ e. store e) r)
  OkIs-map_err P (ok a) h = h
  OkIs-map_err P (err e) h = tt

  -- What a command that only reads answers through a method.
  stored-Gives :
      (db : Db E) (c : Cmd E) (P : Reply E c → Type 0)
      → is_read E c ≡ true
      → ((m : Moment) → OkIs P (handle E c m db).0)
      → Gives E db P (stored E R (ask E c))
  stored-Gives db c P r h a i =
      let (same, still) = ask-is_read E c db a r i in
      (still, OkIs-map_err P (ask E c a).0 (subst (OkIs P) (sym same) (h _)))

  abbrev Anything : {A : Type 0} → A → Type 0
  Anything x = Unit

  OkIs-Anything : {F A : Type 0} (r : Result F A) → OkIs {A = A} Anything r
  OkIs-Anything (ok a) = tt
  OkIs-Anything (err e) = tt

  vector_ids-Gives :
      (db : Db E) (embedded : Option (List (List E.float32.F)))
      → Gives E db Anything (vector_ids E R embedded)
  unfolding vector_ids handle is_read Store.all_observation_embeddings Store.all_memory_embeddings
  vector_ids-Gives db none = λ a i. (i, tt)
  vector_ids-Gives db (some []) = λ a i. (i, tt)
  vector_ids-Gives db (some (query_vec ∷ more)) =
      bind-Gives E db Anything Anything (stored E R (Store.all_observation_embeddings E 10000))
        (λ observations. stored E R (Store.all_memory_embeddings E 10000) >>= λ memories.
          pure (nearest R query_vec observations, nearest R query_vec memories))
        (stored-Gives db (Cmd.all_observation_embeddings 10000) Anything refl (λ m. tt))
        (λ observations _.
          bind-Gives E db Anything Anything (stored E R (Store.all_memory_embeddings E 10000))
            (λ memories. pure (nearest R query_vec observations, nearest R query_vec memories))
            (stored-Gives db (Cmd.all_memory_embeddings 10000) Anything refl (λ m. tt))
            (λ memories _ a i. (i, tt)))

  find_observations-Gives :
      (db : Db E) (now : ℕ) (wanted : Option String) (fused : List (String × E.Float))
      → Gives E db (All (IsFound E R db wanted)) (find_observations E R now wanted fused)
  unfolding find_observations handle is_read do_observations_by_ids Store.observations_by_ids
  find_observations-Gives db now wanted [] = λ a i. (i, tt)
  find_observations-Gives db now wanted (f ∷ fused) =
      bind-Gives E db (All (λ o. Among o (E.observations.rows db.observations)))
        (All (IsFound E R db wanted))
        (stored E R (Store.observations_by_ids E (map (λ (x : String × E.Float). x.0) (f ∷ fused))))
        (λ rows. pure (observation_hits R now wanted rows (f ∷ fused)))
        (stored-Gives db (Cmd.observations_by_ids _) _ refl
          (λ m. All-filter _ _ _ (All-Among (E.observations.rows db.observations) _ (λ x h. h))))
        (λ rows h a i. (i, observation_hits-IsFound E R db now wanted rows (f ∷ fused) h))

  abbrev unarchived : MemoryFilter
  unarchived = record { kind = none; project_id = none; include_archived = false }

  listed-unarchived :
      (m : MemoryRow E.json.Value E.Float) → is_listed unarchived m ≡ true → m.archived ≡ false
  unfolding is_listed
  listed-unarchived m h = ground (arith, h)

  filter-IsShown :
      (db : Db E) (rows : List (MemoryRow E.json.Value E.Float))
      → All (λ m. Among m (E.memories.rows db.memories)) rows
      → All (IsShown E R db) (filter (is_listed unarchived) rows)
  filter-IsShown db [] h = tt
  filter-IsShown db (m ∷ rows) h = elim (Bool-cases (is_listed unarchived m)) [
    | inl e ↦ rw e ((h.0, listed-unarchived m e), filter-IsShown db rows h.1)
    | inr e ↦ rw e (filter-IsShown db rows h.1)
  ]

  listed-IsShown :
      (db : Db E) → All (IsShown E R db) (do_list_memories E.json E.memories unarchived db.memories)
  unfolding do_list_memories
  listed-IsShown db =
      All-order_by (λ (m n : MemoryRow E.json.Value E.Float). leb n.updated m.updated)
        (IsShown E R db) (filter (is_listed unarchived) (E.memories.rows db.memories))
        (filter-IsShown db _ (All-Among (E.memories.rows db.memories) _ (λ x h. h)))

  find_memories-Gives :
      (db : Db E) (now : ℕ) (wanted : Option String) (fused : List (String × E.Float))
      → Gives E db (All (IsFound E R db wanted)) (find_memories E R now wanted fused)
  unfolding find_memories handle is_read Store.list_memories
  find_memories-Gives db now wanted [] = λ a i. (i, tt)
  find_memories-Gives db now wanted (f ∷ fused) =
      bind-Gives E db (All (IsShown E R db)) (All (IsFound E R db wanted))
        (stored E R (Store.list_memories E unarchived))
        (λ rows. pure (memory_hits R now wanted rows (f ∷ fused)))
        (stored-Gives db (Cmd.list_memories _) _ refl (λ m. listed-IsShown db))
        (λ rows h a i. (i, memory_hits-IsFound E R db now wanted rows (f ∷ fused) h))

  or_nothing-Gives :
      {A : Type 0} (db : Db E) (m : Actor E → Result StoreError (List A) × Actor E)
      → ((a : Actor E) → IsIdle E db a → IsIdle E db (m a).1)
      → Gives E db Anything (or_nothing E R m)
  or_nothing-Gives db m keep a i = (keep a i, tt)

  abbrev IsAnswer : Db E → SearchParams → List (Hit E.Float) → Type 0
  IsAnswer db p hits = (length hits ≤ p.n) × All (IsFound E R db p.project_id) hits

  best-IsAnswer :
      (db : Db E) (p : SearchParams) (obs mem : List (Hit E.Float))
      → All (IsFound E R db p.project_id) obs
      → All (IsFound E R db p.project_id) mem
      → IsAnswer db p (take p.n (order_by (hit_first E R) (obs ++ mem)))
  best-IsAnswer db p obs mem found_obs found_mem = (
    omega (arith, length-take p.n (order_by (hit_first E R) (obs ++ mem))),
    All-take (IsFound E R db p.project_id) p.n _ (
        All-order_by (hit_first E R) (IsFound E R db p.project_id) (obs ++ mem)
          (All-append (IsFound E R db p.project_id) obs mem found_obs found_mem)),
  )

  with_memories-Gives :
      (db : Db E) (now : ℕ) (p : SearchParams) (fused : List (String × E.Float))
      (obs : List (Hit E.Float))
      → All (IsFound E R db p.project_id) obs
      → Gives E db (IsAnswer db p) (with_memories E R now p fused obs)
  with_memories-Gives db now p fused obs found_obs =
      bind-Gives E db (All (IsFound E R db p.project_id)) (IsAnswer db p)
        (find_memories E R now p.project_id fused) (best E R p.n obs)
        (find_memories-Gives db now p.project_id fused)
        (λ mem found_mem a i. (i, best-IsAnswer db p obs mem found_obs found_mem))

  with_vectors-Gives :
      (db : Db E) (now : ℕ) (embedded : Option (List (List E.float32.F))) (p : SearchParams)
      (fts_obs fts_mem : List String)
      → Gives E db (IsAnswer db p) (with_vectors E R now embedded p fts_obs fts_mem)
  with_vectors-Gives db now embedded p fts_obs fts_mem =
      bind-Gives E db Anything (IsAnswer db p) (vector_ids E R embedded)
        (gathered E R now p fts_obs fts_mem) (vector_ids-Gives db embedded)
        (λ near _.
          bind-Gives E db (All (IsFound E R db p.project_id)) (IsAnswer db p)
            (find_observations E R now p.project_id _) (with_memories E R now p _)
            (find_observations-Gives db now p.project_id _)
            (λ obs found_obs. with_memories-Gives db now p _ obs found_obs))

  -- A search over a store that waits for nothing gives, if it succeeds, at most n hits, each of them an
  -- observation of the store of the wanted project, or a memory of it that is not archived and is
  -- personal or of the wanted project; and it leaves the database as it is.
  pub search-Gives :
      (db : Db E) (now : ℕ) (embedded : Option (List (List E.float32.F))) (p : SearchParams)
      (a : Actor E)
      → IsIdle E db a
      → IsIdle E db (search E R now embedded p a).1
        × OkIs
            (λ hits. (length hits ≤ p.n) × All (IsFound E R db p.project_id) hits)
            (search E R now embedded p a).0
  unfolding search is_read Store.fts_observations Store.fts_memories
  search-Gives db now embedded p =
      bind-Gives E db Anything (IsAnswer db p)
        (or_nothing E R (Store.fts_observations E p.query 40))
        (λ fts_obs.
          or_nothing E R (Store.fts_memories E p.query 40)
          >>= with_vectors E R now embedded p fts_obs)
        (or_nothing-Gives db (Store.fts_observations E p.query 40)
          (λ a i. (ask-is_read E (Cmd.fts_observations p.query 40) db a refl i).1))
        (λ fts_obs _.
          bind-Gives E db Anything (IsAnswer db p)
            (or_nothing E R (Store.fts_memories E p.query 40))
            (with_vectors E R now embedded p fts_obs)
            (or_nothing-Gives db (Store.fts_memories E p.query 40)
              (λ a i. (ask-is_read E (Cmd.fts_memories p.query 40) db a refl i).1))
            (λ fts_mem _. with_vectors-Gives db now embedded p fts_obs fts_mem))
