-- ===== src/Memory/Retrieve.antt =====
-- crates/rat-memory/src/retrieve.rs, and `cosine` of embed.rs of the same crate: the search over
-- observations and memories by words and by embeddings, over the store's actor. The operations of f64
-- and f32 are an interface; the client of the embeddings is a function, where `none` is a failed call.
-- A hash map is the list of its entries: they are sorted, with their ids, before their order is read.
pub mod Hits
pub mod Found
use rato.Prelude.{
  ℕ, suc, ◌-◌, String, Bool, true, false, not, ◌&&◌, ◌||◌, Option, none, some, List, [], ◌∷◌, ◌++◌,
  ◌==◌, map, take, find, is_empty, codes, if◌then◌else◌,
}
use rato.Prelude.Result.{Result, ok, err, map_err, Exec, pure, fail, ◌>>=◌, ◌>>◌}
use rato.Store.Approvals.{StoreError}
use rato.Store.Prune.{Observation}
use rato.Store.Memories.{MemoryRow}
use rato.Store.Order.{order_by, text_leb}
use rato.Store.Actor.{Env}
use rato.Store.Actor.Loop.{Actor}
use rato.Store.Actor.Client as Store

-- f64 is `F`, f32 is `G`.
pub record Reals (F G : Type 0) : Type 0 where
  pub of_nat : ℕ → F
  pub add : F → F → F
  pub mul : F → F → F
  pub div : F → F → F
  pub neg : F → F
  pub exp : F → F
  -- 0.25
  pub quarter : F
  pub gt : F → F → Bool
  pub zero32 : G
  pub add32 : G → G → G
  pub mul32 : G → G → G
  pub div32 : G → G → G
  pub sqrt32 : G → G
  pub eq32 : G → G → Bool
  pub gt32 : G → G → Bool

pub data HitKind : Type 0 where
  observation memory : HitKind

pub record Hit (F : Type 0) : Type 0 where
  pub id : String
  pub kind : HitKind
  pub score : F

pub record SearchParams : Type 0 where
  pub query : String
  pub project_id : Option String
  pub n : ℕ

-- The index of the first vector is out of bounds where a call answers with none.
pub data MemoryError : Type 0 where
  store : StoreError → MemoryError
  panicked : MemoryError

abbrev pub ms_per_day : ℕ
ms_per_day = 86400000

module _ {F G : Type 0} (R : Reals F G) where
  unfoldable pub cosine_sums : List G → List G → G → G → G → G × G × G
  cosine_sums (a ∷ as') (b ∷ bs) dot norm_a norm_b =
      cosine_sums as' bs (R.add32 dot (R.mul32 a b)) (R.add32 norm_a (R.mul32 a a))
        (R.add32 norm_b (R.mul32 b b))
  cosine_sums _ _ dot norm_a norm_b = (dot, norm_a, norm_b)

  unfoldable pub cosine : List G → List G → G
  unfolding cosine_sums
  cosine a b =
      let (dot, norm_a, norm_b) = cosine_sums a b R.zero32 R.zero32 R.zero32 in
      let denom = R.mul32 (R.sqrt32 norm_a) (R.sqrt32 norm_b) in
      if R.eq32 denom R.zero32 then R.zero32 else R.div32 dot denom

  -- `*scores.entry(id).or_insert(0.0) += s`
  unfoldable pub bump : F → String → List (String × F) → List (String × F)
  bump s id [] = (id, R.add (R.of_nat 0) s) ∷ []
  bump s id ((j, t) ∷ scores) =
      if j == id then (j, R.add t s) ∷ scores else (j, t) ∷ bump s id scores

  -- One of the two loops, from a position on.
  unfoldable pub add_ranks : F → ℕ → List String → List (String × F) → List (String × F)
  unfolding bump
  add_ranks k pos [] scores = scores
  add_ranks k pos (id ∷ ids) scores =
      add_ranks k (suc pos) ids (bump (R.div (R.of_nat 1) (R.add k (R.of_nat (suc pos)))) id scores)

  -- Descending by score, equal ones ascending by id.
  unfoldable pub score_first : F → String → F → String → Bool
  score_first s id t j = R.gt s t || (not (R.gt t s) && text_leb (codes id) (codes j))

  unfoldable pub rrf_fuse : List String → List String → F → List (String × F)
  unfolding add_ranks score_first order_by
  rrf_fuse fts vec k =
      order_by (λ (x y : String × F). score_first x.1 x.0 y.1 y.0)
        (add_ranks k 0 vec (add_ranks k 0 fts []))

  unfoldable pub recency_boost : F → F → F
  recency_boost score age_days =
      R.mul score
        (R.add (R.of_nat 1) (R.mul R.quarter (R.exp (R.div (R.neg age_days) (R.of_nat 14)))))

  -- The forty ids whose embeddings are nearest to the query's.
  unfoldable pub nearest : List G → List (String × List G) → List String
  unfolding cosine order_by
  nearest query_vec all =
      map (λ (x : String × G). x.0)
        (take 40 (
          order_by (λ (x y : String × G). not (R.gt32 y.1 x.1))
            (map (λ (x : String × List G). (x.0, cosine query_vec x.1)) all)))

  abbrev pub age_days : ℕ → ℕ → F
  age_days now ts = R.div (R.of_nat (now - ts)) (R.of_nat ms_per_day)

  -- No project is asked for, or this one.
  abbrev pub passes : Option String → Option String → Bool
  passes none project_id = true
  passes (some pid) none = false
  passes (some pid) (some project_id) = project_id == pid

  abbrev pub memory_passes : Option String → String → Option String → Bool
  memory_passes wanted kind project_id =
      if kind == "personal"
      then true
      else if kind == "project"
      then passes wanted project_id
      else passes wanted project_id

  -- The hit of one entry, in front of the others, if its row is there and passes the filter.
  unfoldable pub add_observation :
      {V : Type 0}
      → ℕ
      → Option String
      → String × F
      → Option (Observation V)
      → List (Hit F)
      → List (Hit F)
  unfolding recency_boost
  add_observation now wanted (id, score) none hits = hits
  add_observation now wanted (id, score) (some o) hits =
      if passes wanted o.project_id
      then record { id = id; kind = observation; score = recency_boost score (age_days now o.ts) }
        ∷ hits
      else hits

  unfoldable pub observation_hits :
      {V : Type 0} → ℕ → Option String → List (Observation V) → List (String × F) → List (Hit F)
  unfolding add_observation
  observation_hits now wanted rows [] = []
  observation_hits now wanted rows (f ∷ fused) =
      add_observation now wanted f (find (λ o. o.id == f.0) rows)
        (observation_hits now wanted rows fused)

  unfoldable pub add_memory :
      {V : Type 0}
      → ℕ
      → Option String
      → String × F
      → Option (MemoryRow V F)
      → List (Hit F)
      → List (Hit F)
  unfolding recency_boost
  add_memory now wanted (id, score) none hits = hits
  add_memory now wanted (id, score) (some m) hits =
      if memory_passes wanted m.memory.kind m.memory.project_id
      then record { id = id; kind = memory; score = recency_boost score (age_days now m.updated) }
        ∷ hits
      else hits

  unfoldable pub memory_hits :
      {V : Type 0} → ℕ → Option String → List (MemoryRow V F) → List (String × F) → List (Hit F)
  unfolding add_memory
  memory_hits now wanted rows [] = []
  memory_hits now wanted rows (f ∷ fused) =
      add_memory now wanted f (find (λ m. m.id == f.0) rows) (memory_hits now wanted rows fused)

module _ (E : Env) (R : Reals E.Float E.float32.F) where
  abbrev pub Search : Type 0 → Type 0
  Search A = Exec (Actor E) MemoryError A

  abbrev pub stored : {A : Type 0} → Store.Call E A → Search A
  stored m a = let (r, a') = m a in (map_err store r, a')

  -- `unwrap_or_default`
  abbrev pub or_nothing : {A : Type 0} → Store.Call E (List A) → Search (List A)
  or_nothing m a = let (r, a') = m a in (ok (elim r [ ok xs ↦ xs | err e ↦ [] ]), a')

  -- What the embedding of the query gives for observations and memories; none without an embedding.
  unfoldable pub vector_ids : Option (List (List E.float32.F)) → Search (List String × List String)
  unfolding nearest
  vector_ids none = pure ([], [])
  vector_ids (some []) = fail panicked
  vector_ids (some (query_vec ∷ more)) = do
    observations ← stored (Store.all_observation_embeddings E 10000)
    memories ← stored (Store.all_memory_embeddings E 10000)
    pure (nearest R query_vec observations, nearest R query_vec memories)

  unfoldable pub find_observations :
      ℕ → Option String → List (String × E.Float) → Search (List (Hit E.Float))
  unfolding observation_hits
  find_observations now wanted [] = pure []
  find_observations now wanted (f ∷ fused) = do
    rows ← stored (Store.observations_by_ids E (map (λ (x : String × E.Float). x.0) (f ∷ fused)))
    pure (observation_hits R now wanted rows (f ∷ fused))

  unfoldable pub find_memories :
      ℕ → Option String → List (String × E.Float) → Search (List (Hit E.Float))
  unfolding memory_hits
  find_memories now wanted [] = pure []
  find_memories now wanted (f ∷ fused) = do
    rows ← stored (
        Store.list_memories E (record { kind = none; project_id = none; include_archived = false }))
    pure (memory_hits R now wanted rows (f ∷ fused))

  abbrev pub hit_first : Hit E.Float → Hit E.Float → Bool
  hit_first h i = score_first R h.score h.id i.score i.id

  -- The search behind the lookups by words.
  abbrev pub best : ℕ → List (Hit E.Float) → List (Hit E.Float) → Search (List (Hit E.Float))
  best n obs mem = pure (take n (order_by hit_first (obs ++ mem)))

  abbrev pub with_memories :
      ℕ → SearchParams → List (String × E.Float) → List (Hit E.Float) → Search (List (Hit E.Float))
  with_memories now p fused obs = find_memories now p.project_id fused >>= best p.n obs

  abbrev pub gathered :
      ℕ
      → SearchParams
      → List String
      → List String
      → List String × List String
      → Search (List (Hit E.Float))
  gathered now p fts_obs fts_mem near =
      find_observations now p.project_id (rrf_fuse R fts_obs near.0 (R.of_nat 60))
      >>= with_memories now p (rrf_fuse R fts_mem near.1 (R.of_nat 60))

  abbrev pub with_vectors :
      ℕ
      → Option (List (List E.float32.F))
      → SearchParams
      → List String
      → List String
      → Search (List (Hit E.Float))
  with_vectors now embedded p fts_obs fts_mem =
      vector_ids embedded >>= gathered now p fts_obs fts_mem

  -- `embedded` is what the embedder, if there is one, made of the query.
  unfoldable pub search :
      ℕ → Option (List (List E.float32.F)) → SearchParams → Search (List (Hit E.Float))
  unfolding vector_ids find_observations find_memories rrf_fuse order_by
  search now embedded p = do
    fts_obs ← or_nothing (Store.fts_observations E p.query 40)
    fts_mem ← or_nothing (Store.fts_memories E p.query 40)
    with_vectors now embedded p fts_obs fts_mem
