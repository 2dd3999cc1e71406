-- ===== src/Store/Pins.antt =====
-- crates/rat-store/src/store.rs, the pins table and the one row of retention_status. `V` is the type
-- of JSON values. `expire` is split into the rows returned and the table left.
use rato.Prelude.{
  ℕ, String, Bool, false, not, Option, none, some, List, [], ◌∷◌, ◌≡◌, refl, sym, ◌==◌, arith,
  if◌then◌else◌, leb, filter, is_empty,
}
use rato.Prelude.Result.{Result, ok, err}
use rato.Store.Sql.{Sql, get_row}
use rato.Store.Approvals.{StoreError, sqlite}

pub record Pin (V : Type 0) : Type 0 where
  pub id : String
  pub kind : String
  pub media : String
  pub path : String
  pub created : ℕ
  pub expires_at : Option ℕ
  pub reason : String
  pub meta : V

pub record NewPin (V : Type 0) : Type 0 where
  pub kind : String
  pub media : String
  pub path : String
  pub expires_at : Option ℕ
  pub reason : String
  pub meta : V

abbrev pub pin_id : {V : Type 0} → Pin V → String
pin_id p = p.id

abbrev pub Pins : Type 0 → Type 1
Pins V = Sql (Pin V) pin_id

unfoldable pub new_pin : {V : Type 0} → String → ℕ → NewPin V → Pin V
new_pin id now np = record {
  id = id;
  kind = np.kind;
  media = np.media;
  path = np.path;
  created = now;
  expires_at = np.expires_at;
  reason = np.reason;
  meta = np.meta;
}

-- `expires_at IS NOT NULL AND expires_at <= ?1`
unfoldable pub is_expired : {V : Type 0} → ℕ → Pin V → Bool
is_expired now p = elim p.expires_at [ none ↦ false | some at ↦ leb at now ]

-- ORDER BY created DESC; pins created together keep the order of insertion.
unfoldable pub insert_latest : {V : Type 0} → Pin V → List (Pin V) → List (Pin V)
insert_latest p [] = p ∷ []
insert_latest p (x ∷ xs) = if leb x.created p.created then p ∷ x ∷ xs else x ∷ insert_latest p xs

unfoldable pub latest_first : {V : Type 0} → List (Pin V) → List (Pin V)
unfolding insert_latest
latest_first [] = []
latest_first (x ∷ xs) = insert_latest x (latest_first xs)

module _ {V : Type 0} (db : Pins V) where
  unfoldable pub do_insert_pin :
      String → ℕ → NewPin V → db.Table → Result StoreError (Pin V) × db.Table
  unfolding new_pin
  do_insert_pin id now np t = elim (db.insert (new_pin id now np) t) [
    | none ↦ (err sqlite, t)
    | some t' ↦ (ok (new_pin id now np), t')
  ]

  unfoldable pub do_list_pins : db.Table → List (Pin V)
  unfolding latest_first
  do_list_pins t = latest_first (db.rows t)

  unfoldable pub do_get_pin : String → db.Table → Option (Pin V)
  do_get_pin id t = get_row db id t

  -- The DELETE is sent only if the SELECT found a pin.
  unfoldable pub do_expire_pins : ℕ → db.Table → List (Pin V) × db.Table
  unfolding is_expired
  do_expire_pins now t =
      let pins = filter (is_expired now) (db.rows t) in
      (pins, if is_empty pins then t else db.delete (is_expired now) t)

  unfoldable pub do_delete_pin : String → db.Table → db.Table
  do_delete_pin id t = db.delete (λ p. p.id == id) t

pub record RetentionStatus : Type 0 where
  pub last_run_ms : ℕ
  pub observations_deleted : ℕ
  pub pins_expired : ℕ
  pub api_calls_deleted : ℕ

-- The table has the row 'last' or none.
unfoldable pub do_set_retention_status :
    RetentionStatus → Option RetentionStatus → Option RetentionStatus
do_set_retention_status status row = some status

unfoldable pub do_get_retention_status : Option RetentionStatus → Option RetentionStatus
do_get_retention_status row = row

filter-none :
    {A : Type 0} (p : A → Bool) (xs : List A) → filter p xs ≡ [] → filter (λ x. not (p x)) xs ≡ xs
filter-none p [] e = refl
filter-none p (x ∷ xs) e = ground (arith, filter-none p xs)

module _ {V : Type 0} (db : Pins V) where
  -- The pins that the sweep leaves are those that are not expired, in the order they had.
  pub rows-do_expire_pins :
      (now : ℕ) (t : db.Table)
      → db.rows (do_expire_pins db now t).1 ≡ filter (λ p. not (is_expired now p)) (db.rows t)
  unfolding do_expire_pins
  rows-do_expire_pins now t = go (filter (is_expired now) (db.rows t)) refl
    where
      go :
          (pins : List (Pin V))
          → filter (is_expired now) (db.rows t) ≡ pins
          → db.rows (if is_empty pins then t else db.delete (is_expired now) t)
            ≡ filter (λ p. not (is_expired now p)) (db.rows t)
      go [] e = sym (filter-none _ (db.rows t) e)
      go (p ∷ ps) e = db.rows-delete _ t
