-- ===== src/Store/Embeddings.antt =====
-- crates/rat-store/src/store.rs, the embeddings and the full-text search, and the coding of an embedding
-- of crates/rat-store/src/rows.rs. A float of 32 bits is known by its four bytes. What FTS5 matches and
-- in which order of bm25 is `matched`, where `none` is a query that it refuses; the triggers of
-- crates/rat-store/src/db.rs keep its index equal to the table.
use rato.Prelude.{
  ℕ, String, ◌&&◌, Option, none, some, List, [], ◌∷◌, map, ◌==◌, ◌≡◌, refl, is_empty, not, filter,
  any, take, leb, if◌then◌else◌,
}
use rato.Prelude.Result.{Result, ok, err}
use rato.Store.Sql.{Sql}
use rato.Store.Approvals.{StoreError, sqlite}
use rato.Store.Order.{order_by}
use rato.Store.Prune.{Observation, observation_id, VecRow, vec_id, is_in}

pub record Float32 : Type 1 where
  pub F : Type 0
  pub to_le_bytes : F → ℕ × ℕ × ℕ × ℕ
  pub from_le_bytes : ℕ → ℕ → ℕ → ℕ → F
  pub from-to :
      (f : F)
      → from_le_bytes (to_le_bytes f).0 (to_le_bytes f).1 (to_le_bytes f).2 (to_le_bytes f).3 ≡ f

module _ (floats : Float32) where
  open floats use {F, to_le_bytes, from_le_bytes}

  unfoldable pub encode_embedding : List F → List ℕ
  encode_embedding [] = []
  encode_embedding (f ∷ v) = let (a, b, c, d) = to_le_bytes f in a ∷ b ∷ c ∷ d ∷ encode_embedding v

  -- `chunks_exact(4)` leaves a rest of fewer than four bytes out.
  unfoldable pub decode_embedding : List ℕ → List F
  decode_embedding (a ∷ b ∷ c ∷ d ∷ bytes) = from_le_bytes a b c d ∷ decode_embedding bytes
  decode_embedding _ = []

  pub decode_embedding-encode_embedding : (v : List F) → decode_embedding (encode_embedding v) ≡ v
  unfolding decode_embedding encode_embedding
  decode_embedding-encode_embedding [] = refl
  decode_embedding-encode_embedding (f ∷ v) =
      rw (floats.from-to f, decode_embedding-encode_embedding v)

  -- INSERT … ON CONFLICT(obs_id) DO UPDATE SET embedding = excluded.embedding
  unfoldable pub set_embedding :
      (vecs : Sql (VecRow (List ℕ)) vec_id) → String → List ℕ → vecs.Table → vecs.Table
  set_embedding vecs id blob t = elim (vecs.insert (record { obs_id = id; embedding = blob }) t) [
    | some t' ↦ t'
    | none ↦ vecs.update (λ v. v.obs_id == id) (λ v. record v { embedding = blob }) t
  ]

  unfoldable pub all_embeddings :
      (vecs : Sql (VecRow (List ℕ)) vec_id) → ℕ → vecs.Table → List (String × List F)
  unfolding decode_embedding
  all_embeddings vecs limit t =
      map (λ (v : VecRow (List ℕ)). (v.obs_id, decode_embedding v.embedding))
        (take limit (vecs.rows t))

unfoldable pub do_fts :
    {Row : Type 0} {key : Row → String} (db : Sql Row key)
    → (String → List Row → Option (List Row))
    → String
    → ℕ
    → db.Table
    → Result StoreError (List String)
do_fts {key = key} db matched query limit t = elim (matched query (db.rows t)) [
  | none ↦ err sqlite
  | some found ↦ ok (map key (take limit found))
]

module _ {V B : Type 0} (db : Sql (Observation V) observation_id)
    (vecs : Sql (VecRow B) vec_id) where
  unfoldable pub do_unembedded_observations :
      List String → ℕ → db.Table → vecs.Table → List (Observation V)
  unfolding order_by is_in
  do_unembedded_observations kinds limit t vt =
      if is_empty kinds
      then []
      else take limit (
          order_by (λ (o p : Observation V). leb o.ts p.ts)
            (filter (λ o. not (any (λ v. v.obs_id == o.id) (vecs.rows vt)) && is_in o.kind kinds)
              (db.rows t)))

module _ {V : Type 0} (db : Sql (Observation V) observation_id) where
  unfoldable pub do_observations_by_ids : List String → db.Table → List (Observation V)
  unfolding is_in
  do_observations_by_ids ids t =
      if is_empty ids then [] else filter (λ o. is_in o.id ids) (db.rows t)
