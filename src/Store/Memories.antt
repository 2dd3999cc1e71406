-- ===== src/Store/Memories.antt =====
-- crates/rat-store/src/store.rs, the memories table as it is written and listed. `V` is the type of JSON
-- values, `F` that of floats. Memory/Nightly has the part of a memory that retention reads.
use rato.Prelude.{
  ℕ, String, Bool, true, false, not, ◌&&◌, ◌||◌, Option, none, some, List, [], ◌==◌, if◌then◌else◌,
  filter, leb,
}
use rato.Prelude.Paths.{Text}
use rato.Prelude.Result.{Result, ok}
use rato.Store.Sql.{Sql, Json}
use rato.Store.Approvals.{StoreError}
use rato.Store.Order.{order_by}
use rato.Store.Events.{insert_new}

pub record NewMemory (V F : Type 0) : Type 0 where
  pub kind : String
  pub project_id : Option String
  pub title : Text
  pub body : Text
  pub confidence : F
  pub source_event_ids : V

pub record MemoryRow (V F : Type 0) : Type 0 where
  pub id : String
  pub memory : NewMemory V F
  pub created : ℕ
  pub updated : ℕ
  pub archived : Bool

pub record MemoryFilter : Type 0 where
  pub kind : Option String
  pub project_id : Option String
  pub include_archived : Bool

abbrev pub memory_id : {V F : Type 0} → MemoryRow V F → String
memory_id m = m.id

-- A null list of sources is stored as an empty one.
unfoldable pub new_memory :
    {F : Type 0} (J : Json)
    → (J.Value → Bool)
    → String
    → ℕ
    → NewMemory J.Value F
    → MemoryRow J.Value F
new_memory J is_null id now mem = record {
  id = id;
  memory = record mem {
    source_event_ids = if is_null mem.source_event_ids then J.array [] else mem.source_event_ids;
  };
  created = now;
  updated = now;
  archived = false;
}

-- A condition that the filter leaves out, or an equality; NULL equals nothing.
abbrev pub matches : Option String → Option String → Bool
matches none x = true
matches (some k) none = false
matches (some k) (some x) = x == k

unfoldable pub is_listed : {V F : Type 0} → MemoryFilter → MemoryRow V F → Bool
is_listed f m =
    matches f.kind (some m.memory.kind)
    && (matches f.project_id m.memory.project_id && (f.include_archived || not m.archived))

module _ {F : Type 0} (J : Json) (db : Sql (MemoryRow J.Value F) memory_id) where
  unfoldable pub do_add_memory :
      (J.Value → Bool)
      → String
      → ℕ
      → NewMemory J.Value F
      → db.Table
      → Result StoreError (MemoryRow J.Value F) × db.Table
  unfolding new_memory
  do_add_memory is_null id now mem t = insert_new db (new_memory J is_null id now mem) t

  unfoldable pub do_update_memory_confidence :
      String → F → ℕ → db.Table → Result StoreError (Unit {0}) × db.Table
  do_update_memory_confidence id confidence now t = (
    ok tt,
    db.update (λ m. m.id == id)
        (λ m. record m { memory = record (m.memory) { confidence = confidence }; updated = now }) t,
  )

  unfoldable pub do_archive_memory : String → ℕ → db.Table → Result StoreError (Unit {0}) × db.Table
  do_archive_memory id now t =
      (ok tt, db.update (λ m. m.id == id) (λ m. record m { archived = true; updated = now }) t)

  unfoldable pub do_list_memories : MemoryFilter → db.Table → List (MemoryRow J.Value F)
  unfolding order_by is_listed
  do_list_memories f t =
      order_by (λ (m n : MemoryRow J.Value F). leb n.updated m.updated)
        (filter (is_listed f) (db.rows t))
