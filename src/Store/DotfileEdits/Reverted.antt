-- ===== src/Store/DotfileEdits/Reverted.antt =====
-- The mark of a revert.
use mathlib.Core.Option
use rato.Prelude.{
  String, ◌≡◌, refl, ap, sym, ◌∙◌, Bool, true, false, Option, none, some, List, [], ◌∷◌, arith,
  ◌==◌, eq_refl, eqb, if◌then◌else◌, find, filter, length, Option-cases, inl, inr,
}
use rato.Prelude.Result.{Result, ok, err, or_err}
use rato.Store.Sql.{Sql, get_row, get_row-update_id}
use rato.Store.Approvals.{StoreError, not_found}
use rato.Store.DotfileEdits.{
  DotfileEdit, edit_id, reverted_row, do_get_dotfile_edit, do_mark_dotfile_edit_reverted,
}

module _ {A : Type 0} (q : A → Bool) where
  length-filter-none : (xs : List A) → find q xs ≡ none → eqb (length (filter q xs)) 0 ≡ true
  length-filter-none [] h = refl
  length-filter-none (x ∷ xs) h = ground (arith, length-filter-none xs)

  length-filter-some :
      (xs : List A) (x : A) → find q xs ≡ some x → eqb (length (filter q xs)) 0 ≡ false
  length-filter-some [] x h = ground arith
  length-filter-some (y ∷ ys) x h = ground (arith, length-filter-some ys x)

module _ {V : Type 0} (db : Sql (DotfileEdit V) edit_id) where
  -- The answer by the edit that was there.
  abbrev pub marked : String → Option (DotfileEdit V) → Result StoreError (DotfileEdit V)
  marked by none = err not_found
  marked by (some e) = ok (reverted_row by e)

  -- The mark answers with the edit as it then stands in the table, or not found, and changes no other
  -- edit.
  pub do_mark_dotfile_edit_reverted-marked :
      (id by other : String) (t : db.Table)
      → ((do_mark_dotfile_edit_reverted db id by t).0 ≡ marked by (do_get_dotfile_edit db id t))
        × (do_get_dotfile_edit db other (do_mark_dotfile_edit_reverted db id by t).1 ≡ (
            if other == id
            then Option.map (reverted_row by) (do_get_dotfile_edit db other t)
            else do_get_dotfile_edit db other t))
  unfolding do_mark_dotfile_edit_reverted do_get_dotfile_edit
  do_mark_dotfile_edit_reverted-marked id by other t =
      let law : (k : String)
          → get_row db k (db.update (λ e. e.id == id) (reverted_row by) t)
            ≡ (if k == id then Option.map (reverted_row by) (get_row db k t) else get_row db k t) =
        λ k. get_row-update_id db id k (reverted_row by) t (λ e. refl) in
      let after : (x : DotfileEdit V)
          → get_row db id t ≡ some x
          → get_row db id (db.update (λ e. e.id == id) (reverted_row by) t)
            ≡ some (reverted_row by x) =
        λ x e. ground (arith, law id, e, eq_refl id) in
      elim (Option-cases (get_row db id t)) [
        | inl e ↦ rw (length-filter-none _ (db.rows t) e) (ap (marked by) (sym e), law other)
        | inr (x, e) ↦
            rw (length-filter-some _ (db.rows t) x e)
              (ap (λ o. or_err o not_found) (after x e) ∙ ap (marked by) (sym e), law other)
      ]
