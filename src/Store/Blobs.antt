-- ===== src/Store/Blobs.antt =====
-- crates/rat-store/src/store.rs, the blobs table: bytes under their SHA-256, which is a parameter.
pub mod Once
use rato.Prelude.{
  ℕ, String, Bool, Option, none, some, List, [], ◌∷◌, ◌==◌, if◌then◌else◌, find, text_eq,
}
use rato.Prelude.Paths.{Text}
use rato.Prelude.Result.{Result, ok, err}
use rato.Store.Sql.{Sql, get_row}
use rato.Store.Approvals.{StoreError}
use rato.Store.Events.{insert_new}

pub record Blob : Type 0 where
  pub id : String
  pub sha256 : Text
  pub bytes : List ℕ
  pub created : ℕ

abbrev pub blob_id : Blob → String
blob_id b = b.id

module _ (sha256_hex : List ℕ → Text) (db : Sql Blob blob_id) where
  unfoldable pub new_blob : String → List ℕ → ℕ → Blob
  new_blob id bytes created = record {
    id = id;
    sha256 = sha256_hex bytes;
    bytes = bytes;
    created = created;
  }

  -- `SELECT … WHERE sha256 = ?1`
  unfoldable pub find_digest : Text → db.Table → Option Blob
  find_digest digest t = find (λ b. text_eq b.sha256 digest) (db.rows t)

  insert_unless : String → List ℕ → ℕ → db.Table → Option Blob → Result StoreError Blob × db.Table
  unfolding new_blob
  insert_unless id bytes created t (some blob) = (ok blob, t)
  insert_unless id bytes created t none = insert_new db (new_blob id bytes created) t

  unfoldable pub do_insert_blob : String → List ℕ → ℕ → db.Table → Result StoreError Blob × db.Table
  unfolding insert_unless
  do_insert_blob id bytes created t =
      insert_unless id bytes created t (find_digest (sha256_hex bytes) t)

  unfoldable pub do_get_blob : String → db.Table → Option Blob
  do_get_blob id t = get_row db id t
