-- ===== src/Store/Sql.antt =====
-- SQLite and serde_json, which the store calls and does not implement: two interfaces whose laws are
-- the documented behaviour that the store relies on. `Sql` is one table with a text primary key. Its
-- calls are the four statements that crates/rat-store/src/store.rs sends; a SELECT is a function of
-- `rows`, and the count that `execute` returns is `affected`. Failures of the disk are not modelled.
use mathlib.Core.Option
use rato.Prelude.{
  ℕ, String, ◌≡◌, refl, Bool, false, not, Option, none, some, List, [], ◌∷◌, ◌++◌, map, arith, ◌==◌,
  eq_iff, if◌then◌else◌, length, filter, find, any, Bool-cases, Option-cases, find-holds, inl, inr,
  ap,
}

pub record Sql (Row : Type 0) (key : Row → String) : Type 1 where
  pub Table : Type 0
  -- SELECT with no WHERE
  pub rows : Table → List Row
  -- INSERT: `none` is the failure of the primary key
  pub insert : Row → Table → Option Table
  -- UPDATE … WHERE
  pub update : (Row → Bool) → (Row → Row) → Table → Table
  -- DELETE … WHERE
  pub delete : (Row → Bool) → Table → Table
  pub rows-insert :
      (r : Row) (t : Table)
      → Option.map rows (insert r t)
        ≡ (if any (λ x. key x == key r) (rows t) then none else some (rows t ++ r ∷ []))
  pub rows-update :
      (p : Row → Bool) (f : Row → Row) (t : Table)
      → rows (update p f t) ≡ map (λ r. if p r then f r else r) (rows t)
  pub rows-delete :
      (p : Row → Bool) (t : Table) → rows (delete p t) ≡ filter (λ r. not (p r)) (rows t)

-- The values of serde_json, as far as the store and the runner look into them.
pub record Json : Type 1 where
  pub Value : Type 0
  pub string : String → Value
  -- a string that the program put together, by its code points
  pub text : List ℕ → Value
  pub number : ℕ → Value
  pub array : List Value → Value
  pub object : List (String × Value) → Value
  pub as_str : Value → Option String
  pub as_array : Value → Option (List Value)
  pub get : Value → String → Option Value
  pub as_str-string : (s : String) → as_str (string s) ≡ some s
  pub get-object :
      (k : String) (v : Value) (fs : List (String × Value)) → get (object ((k, v) ∷ fs)) k ≡ some v

module _ {Row : Type 0} {key : Row → String} (db : Sql Row key) where
  -- SELECT … WHERE id = ?1, with `query_row`.
  abbrev pub get_row : String → db.Table → Option Row
  get_row k t = find (λ r. key r == k) (db.rows t)

  -- The number of rows that `execute` reports for a statement with this WHERE.
  abbrev pub affected : (Row → Bool) → db.Table → ℕ
  affected p t = length (filter p (db.rows t))

module _ {Row : Type 0} (key : Row → String) where
  pub find-map :
      (g : Row → Row)
      → ((r : Row) → key (g r) ≡ key r)
      → (k : String) (xs : List Row)
      → find (λ r. key r == k) (map g xs) ≡ Option.map g (find (λ r. key r == k) xs)
  find-map g same k [] = refl
  find-map g same k (x ∷ xs) = rw (same x) (ground (arith, find-map g same k xs))

  pub find-append_one :
      (r : Row) (k : String) (xs : List Row)
      → any (λ x. key x == key r) xs ≡ false
      → find (λ x. key x == k) (xs ++ r ∷ [])
        ≡ (if key r == k then some r else find (λ x. key x == k) xs)
  find-append_one r k [] h = refl
  find-append_one r k (x ∷ xs) h =
      ground
        (arith, find-append_one r k xs, eq_iff (key x) k, eq_iff (key r) k, eq_iff (key x) (key r))

  find-none :
      (k : String) (xs : List Row)
      → any (λ x. key x == k) xs ≡ false
      → find (λ x. key x == k) xs ≡ none
  find-none k [] h = refl
  find-none k (x ∷ xs) h = ground (arith, find-none k xs)

module _ {Row : Type 0} {key : Row → String} (db : Sql Row key) where
  -- A statement that keeps the keys acts on the row found under each key.
  pub get_row-update :
      (p : Row → Bool) (f : Row → Row)
      → ((r : Row) → key (if p r then f r else r) ≡ key r)
      → (k : String) (t : db.Table)
      → get_row db k (db.update p f t) ≡ Option.map (λ r. if p r then f r else r) (get_row db k t)
  get_row-update p f same k t = rw (db.rows-update p f t) (find-map key _ same k (db.rows t))

  -- An UPDATE of the row with one id.
  pub get_row-update_id :
      (id k : String) (f : Row → Row) (t : db.Table)
      → ((r : Row) → key (f r) ≡ key r)
      → get_row db k (db.update (λ r. key r == id) f t)
        ≡ (if k == id then Option.map f (get_row db k t) else get_row db k t)
  get_row-update_id id k f t same =
      let law = get_row-update (λ r. key r == id) f (λ r. ground (arith, same r)) k t in
      elim (Option-cases (get_row db k t)) [
        | inl e ↦ ground (arith, law, e)
        | inr (r, e) ↦ ground (
          arith,
          law,
          e,
          find-holds _ (db.rows t) r e,
          eq_iff (key r) k,
          eq_iff (key r) id,
          eq_iff k id,
        )
      ]

  insert-some :
      (r : Row) (t t' : db.Table)
      → db.insert r t ≡ some t'
      → (any (λ x. key x == key r) (db.rows t) ≡ false) × (db.rows t' ≡ db.rows t ++ r ∷ [])
  insert-some r t t' e =
      let law = db.rows-insert r t in
      elim (Bool-cases (any (λ x. key x == key r) (db.rows t))) [
        | inl taken ↦ cc (law, taken, ap (Option.map db.rows) e)
        | inr fresh ↦ (fresh, ground (arith, law, fresh))
      ]

  pub rows-insert_some :
      (r : Row) (t t' : db.Table) → db.insert r t ≡ some t' → db.rows t' ≡ db.rows t ++ r ∷ []
  rows-insert_some r t t' e = (insert-some r t t' e).1

  pub get_row-insert :
      (r : Row) (t t' : db.Table) (k : String)
      → db.insert r t ≡ some t'
      → get_row db k t' ≡ (if key r == k then some r else get_row db k t)
  get_row-insert r t t' k e =
      let (fresh, grown) = insert-some r t t' e in
      rw grown (find-append_one key r k (db.rows t) fresh)

  -- An INSERT succeeds only under a key that is not there.
  pub get_row-insert_self :
      (r : Row) (t t' : db.Table) → db.insert r t ≡ some t' → get_row db (key r) t ≡ none
  get_row-insert_self r t t' e = find-none key (key r) (db.rows t) (insert-some r t t' e).0

  any-find-none :
      (k : String) (xs : List Row)
      → find (λ r. key r == k) xs ≡ none
      → any (λ x. key x == k) xs ≡ false
  any-find-none k [] h = refl
  any-find-none k (x ∷ xs) h = ground (arith, any-find-none k xs)

  -- An INSERT under a key that is not there succeeds.
  pub insert-fresh :
      (r : Row) (t : db.Table)
      → get_row db (key r) t ≡ none
      → (t' : db.Table) × (db.insert r t ≡ some t')
  insert-fresh r t h = elim (Option-cases (db.insert r t)) [
    | inl e ↦ absurd (
        let law = db.rows-insert r t in
        let free = any-find-none (key r) (db.rows t) h in ground (arith, law, e, free))
    | inr found ↦ found
  ]

-- A list of rows is such a table.
abbrev pub list_insert : {Row : Type 0} → (Row → String) → Row → List Row → Option (List Row)
list_insert key r t = if any (λ x. key x == key r) t then none else some (t ++ r ∷ [])

pub list_rows-insert :
    {Row : Type 0} (key : Row → String) (r : Row) (t : List Row)
    → Option.map (λ x. x) (list_insert key r t)
      ≡ (if any (λ x. key x == key r) t then none else some (t ++ r ∷ []))
list_rows-insert key r t = ground arith

abbrev pub list_sql : {Row : Type 0} (key : Row → String) → Sql Row key
list_sql {Row} key = record {
  Table = List Row;
  rows = λ t. t;
  insert = list_insert key;
  update = λ p f t. map (λ r. if p r then f r else r) t;
  delete = λ p t. filter (λ r. not (p r)) t;
  rows-insert = list_rows-insert key;
  rows-update = λ p f t. refl;
  rows-delete = λ p t. refl;
}
