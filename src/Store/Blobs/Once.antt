-- ===== src/Store/Blobs/Once.antt =====
-- The same bytes are stored once.
use rato.Prelude.{
  ℕ, String, ◌≡◌, refl, ap, sym, subst, ◌∙◌, Bool, true, Option, none, some, List, [], ◌∷◌, ◌++◌,
  arith, find, text_eq_refl, Option-cases, inl, inr,
}
use rato.Prelude.Paths.{Text}
use rato.Prelude.Result.{Result, ok, err}
use rato.Store.Sql.{Sql, rows-insert_some}
use rato.Store.Approvals.{StoreError, sqlite}
use rato.Store.Blobs.{Blob, blob_id, new_blob, find_digest, insert_unless, do_insert_blob}

find-append_first :
    {A : Type 0} (q : A → Bool) (xs : List A) (x : A)
    → find q xs ≡ none
    → q x ≡ true
    → find q (xs ++ x ∷ []) ≡ some x
find-append_first q [] x h e = rw e
find-append_first q (y ∷ ys) x h e = ground (arith, find-append_first q ys x)

module _ (sha256_hex : List ℕ → Text) (db : Sql Blob blob_id) where
  -- A stored blob is found under the digest of its bytes.
  abbrev pub Stored : List ℕ → Result StoreError Blob × db.Table → Type 0
  Stored bytes (err e, t) = Unit {0}
  Stored bytes (ok blob, t) = find_digest sha256_hex db (sha256_hex bytes) t ≡ some blob

  insert_unless-Stored :
      (id : String) (bytes : List ℕ) (created : ℕ) (t : db.Table) (o : Option Blob)
      → find_digest sha256_hex db (sha256_hex bytes) t ≡ o
      → Stored bytes (insert_unless sha256_hex db id bytes created t o)
  unfolding insert_unless
  insert_unless-Stored id bytes created t (some blob) h = h
  insert_unless-Stored id bytes created t none h =
      let b : Blob = new_blob sha256_hex db id bytes created in
      elim (Option-cases (db.insert b t)) [
        | inl e ↦
            subst
              (λ (o : Option db.Table).
                Stored bytes (elim o [ none ↦ (err sqlite, t) | some t' ↦ (ok b, t') ]))
              (sym e) tt
        | inr (t', e) ↦
            subst
              (λ (o : Option db.Table).
                Stored bytes (elim o [ none ↦ (err sqlite, t) | some t' ↦ (ok b, t') ]))
              (sym e)
              (unfold find_digest in
                ap (find _) (rows-insert_some db b t t' e)
                ∙ find-append_first _ (db.rows t) b (unfold find_digest in h)
                    (unfold new_blob in text_eq_refl (sha256_hex bytes)))
      ]

  -- The answer and the table of a second insert of the same bytes.
  abbrev pub IsSame : List ℕ → Result StoreError Blob × db.Table → String → ℕ → Type 0
  IsSame bytes (err e, t) id created = Unit {0}
  IsSame bytes (ok blob, t) id created =
      do_insert_blob sha256_hex db id bytes created t ≡ (ok blob, t)

  Stored-IsSame :
      (bytes : List ℕ) (x : Result StoreError Blob × db.Table) (id : String) (created : ℕ)
      → Stored bytes x
      → IsSame bytes x id created
  unfolding do_insert_blob insert_unless
  Stored-IsSame bytes (err e, t) id created h = tt
  Stored-IsSame bytes (ok blob, t) id created h = rw h

  -- Once bytes are stored, storing them again adds nothing and answers with the blob that is there.
  pub do_insert_blob-IsSame :
      (id id' : String) (bytes : List ℕ) (created later : ℕ) (t : db.Table)
      → IsSame bytes (do_insert_blob sha256_hex db id bytes created t) id' later
  do_insert_blob-IsSame id id' bytes created later t =
      Stored-IsSame bytes _ id' later
        (unfold do_insert_blob in insert_unless-Stored id bytes created t _ refl)
