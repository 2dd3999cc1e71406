-- ===== src/Examples/Tables.antt =====
-- Runs on the tables of blobs and of dotfile edits.
use rato.Prelude.{codes, ℕ, ◌≡◌, refl, true, none, List, [], ◌∷◌, text_eq}
use rato.Prelude.Paths.{Text}
use rato.Prelude.Result.{err}
use rato.Store.Sql.{list_sql}
use rato.Store.Approvals.{not_found}
use rato.Store.Blobs.{blob_id, do_insert_blob, find_digest}
use rato.Store.DotfileEdits.{DotfileEdit, edit_id, do_mark_dotfile_edit_reverted}

abbrev no_digest : List ℕ → Text
no_digest bytes = bytes

-- The second insert finds the first.
stores_once :
    (do_insert_blob no_digest
      (list_sql blob_id)
      "b2"
      (1 ∷ 2 ∷ [])
      20
      (do_insert_blob no_digest (list_sql blob_id) "b1" (1 ∷ 2 ∷ []) 10 []).1).1
    ≡ record { id = "b1"; sha256 = 1 ∷ 2 ∷ []; bytes = 1 ∷ 2 ∷ []; created = 10 } ∷ []
unfolding do_insert_blob find_digest text_eq
stores_once = refl

abbrev one_edit : List (DotfileEdit ℕ)
one_edit =
    record {
      id = "d1";
      edit = record {
        path = codes "/home/user/.zshrc";
        kind = "text";
        before_blob = "b1";
        after_blob = "b2";
        diff = [];
        reason = codes "alias";
        source = "operator";
        risk = 2;
        applied = true;
        meta = 0;
      };
      created = 10;
      reverted_by = none;
    }
    ∷ []

marks_none : (do_mark_dotfile_edit_reverted (list_sql edit_id) "d9" "d2" one_edit).0 ≡ err not_found
unfolding do_mark_dotfile_edit_reverted
marks_none = refl
