-- ===== src/Memory/Retrieve/Hits.antt =====
-- What a hit stands for, and the hits of the rows that are there.
use rato.Prelude.{
  ℕ, ◌≡◌, refl, subst, String, Bool, true, false, Option, none, some, List, [], ◌∷◌, ◌==◌, ◌⊎◌, inl,
  inr, find, eq_iff, All, find-holds, Bool-cases,
}
use rato.Store.Prune.{Observation}
use rato.Store.Memories.{MemoryRow}
use rato.Store.Actor.{Env, Db}
use rato.Memory.Retrieve.{
  Reals, Hit, HitKind, add_observation, add_memory, observation, memory, passes, memory_passes,
  observation_hits, memory_hits,
}

-- The elements of a list.
abbrev pub Among : {A : Type 0} → A → List A → Type 0
Among x [] = ⊥
Among x (y ∷ ys) = (x ≡ y) ⊎ Among x ys

pub All-Among :
    {A : Type 0} (xs ys : List A) → ((x : A) → Among x xs → Among x ys) → All (λ x. Among x ys) xs
All-Among [] ys sub = tt
All-Among (x ∷ xs) ys sub = (sub x (inl refl), All-Among xs ys (λ z m. sub z (inr m)))

find-All :
    {A : Type 0} (P : A → Type 0) (p : A → Bool) (xs : List A) (x : A)
    → All P xs
    → find p xs ≡ some x
    → P x
find-All P p [] x h e = absurd (cc e)
find-All P p (y ∷ ys) x h e = elim (Bool-cases (p y)) [
  | inl yes_ ↦ subst P (cc (rw yes_ at e)) h.0
  | inr no_ ↦ find-All P p ys x h.1 (rw no_ at e)
]

module _ (E : Env) (R : Reals E.Float E.float32.F) where
  -- What a hit stands for: an observation of the wanted project, or a memory that is not archived and
  -- is personal or of the wanted project.
  abbrev pub IsFoundAs : HitKind → Db E → Option String → String → Type 0
  IsFoundAs observation db wanted id =
      (o : Observation E.json.Value) × Among o (E.observations.rows db.observations)
      × (o.id ≡ id)
      × (passes R wanted o.project_id ≡ true)
  IsFoundAs memory db wanted id =
      (m : MemoryRow E.json.Value E.Float) × Among m (E.memories.rows db.memories)
      × (m.archived ≡ false)
      × (m.id ≡ id)
      × (memory_passes R wanted m.memory.kind m.memory.project_id ≡ true)

  abbrev pub IsFound : Db E → Option String → Hit E.Float → Type 0
  IsFound db wanted h = IsFoundAs h.kind db wanted h.id

  add_observation-IsFound :
      (db : Db E) (now : ℕ) (wanted : Option String) (rows : List (Observation E.json.Value))
      (f : String × E.Float) (found : Option (Observation E.json.Value)) (hits : List (Hit E.Float))
      → find (λ o. o.id == f.0) rows ≡ found
      → All (λ o. Among o (E.observations.rows db.observations)) rows
      → All (IsFound db wanted) hits
      → All (IsFound db wanted) (add_observation R now wanted f found hits)
  unfolding add_observation
  add_observation-IsFound db now wanted rows (id, score) none hits e h rest = rest
  add_observation-IsFound db now wanted rows (id, score) (some o) hits e h rest =
      elim (Bool-cases (passes R wanted o.project_id)) [
        | inl p ↦ rw p (
          (
            o,
            find-All _ (λ x. x.id == id) rows o h e,
            (eq_iff o.id id).0 (find-holds (λ x. x.id == id) rows o e),
            p,
          ),
          rest,
        )
        | inr p ↦ rw p rest
      ]

  pub observation_hits-IsFound :
      (db : Db E) (now : ℕ) (wanted : Option String) (rows : List (Observation E.json.Value))
      (fused : List (String × E.Float))
      → All (λ o. Among o (E.observations.rows db.observations)) rows
      → All (IsFound db wanted) (observation_hits R now wanted rows fused)
  unfolding observation_hits
  observation_hits-IsFound db now wanted rows [] h = tt
  observation_hits-IsFound db now wanted rows (f ∷ fused) h =
      add_observation-IsFound db now wanted rows f (find (λ o. o.id == f.0) rows) _ refl h
        (observation_hits-IsFound db now wanted rows fused h)

  abbrev pub IsShown : Db E → MemoryRow E.json.Value E.Float → Type 0
  IsShown db m = Among m (E.memories.rows db.memories) × (m.archived ≡ false)

  add_memory-IsFound :
      (db : Db E) (now : ℕ) (wanted : Option String) (rows : List (MemoryRow E.json.Value E.Float))
      (f : String × E.Float) (found : Option (MemoryRow E.json.Value E.Float))
      (hits : List (Hit E.Float))
      → find (λ m. m.id == f.0) rows ≡ found
      → All (IsShown db) rows
      → All (IsFound db wanted) hits
      → All (IsFound db wanted) (add_memory R now wanted f found hits)
  unfolding add_memory
  add_memory-IsFound db now wanted rows (id, score) none hits e h rest = rest
  add_memory-IsFound db now wanted rows (id, score) (some m) hits e h rest =
      let shown = find-All (IsShown db) (λ x. x.id == id) rows m h e in
      elim (Bool-cases (memory_passes R wanted m.memory.kind m.memory.project_id)) [
        | inl p ↦ rw p (
          (m, shown.0, shown.1, (eq_iff m.id id).0 (find-holds (λ x. x.id == id) rows m e), p),
          rest,
        )
        | inr p ↦ rw p rest
      ]

  pub memory_hits-IsFound :
      (db : Db E) (now : ℕ) (wanted : Option String) (rows : List (MemoryRow E.json.Value E.Float))
      (fused : List (String × E.Float))
      → All (IsShown db) rows
      → All (IsFound db wanted) (memory_hits R now wanted rows fused)
  unfolding memory_hits
  memory_hits-IsFound db now wanted rows [] h = tt
  memory_hits-IsFound db now wanted rows (f ∷ fused) h =
      add_memory-IsFound db now wanted rows f (find (λ m. m.id == f.0) rows) _ refl h
        (memory_hits-IsFound db now wanted rows fused h)
