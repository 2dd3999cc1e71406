-- ===== src/Store/Prune/Batches.antt =====
-- Batched deletion, from one batch to the whole loop.
use rato.Prelude.{
  ℕ, zero, suc, ◌+◌, ◌≤◌, ◌<◌, min, String, ◌≡◌, refl, sym, ap, ◌∙◌, Bool, true, false, not, Option,
  some, List, [], ◌∷◌, map, arith, ◌==◌, eq_iff, eq_refl, if◌then◌else◌, ltb, length, take, drop,
  filter, is_empty, All, Bool-cases, inl, inr, length-take, length-drop, length-filter-le, subst,
  ltb→lt, All-filter,
}
use rato.Store.Sql.{Sql}
use rato.Store.Prune.{is_in, ids_to_delete, delete_batch, prune_loop}

module _ {Row : Type 0} (key : Row → String) where
  -- The primary key: no two rows have the same.
  abbrev pub KeyAbsent : String → List Row → Type 0
  KeyAbsent k = All (λ r. (key r == k) ≡ false)

  abbrev pub DistinctKeys : List Row → Type 0
  DistinctKeys [] = Unit {0}
  DistinctKeys (r ∷ rs) = KeyAbsent (key r) rs × DistinctKeys rs

  module _ (p : Row → Bool) where
    abbrev chosen : ℕ → List Row → List String
    chosen n xs = take n (map key (filter p xs))

    abbrev left : List String → List Row → List Row
    left ids xs = filter (λ r. not (is_in (key r) ids)) xs

    absent-chosen :
        (k : String) (n : ℕ) (xs : List Row) → KeyAbsent k xs → is_in k (chosen n xs) ≡ false
    unfolding is_in
    absent-chosen k zero xs h = refl
    absent-chosen k (suc n) [] h = refl
    absent-chosen k (suc n) (x ∷ xs) h = elim (Bool-cases (p x)) [
      | inl e ↦ rw (e, h.0) (absent-chosen k n xs h.1)
      | inr e ↦ rw e (absent-chosen k (suc n) xs h.1)
    ]

    left-nil : (xs : List Row) → left [] xs ≡ xs
    unfolding is_in
    left-nil [] = refl
    left-nil (x ∷ xs) = ap (λ l. x ∷ l) (left-nil xs)

    -- The tests of two names agree whichever comes first.
    ==-false_comm : (a b : String) → (a == b) ≡ false → (b == a) ≡ false
    ==-false_comm a b h = elim (Bool-cases (b == a)) [
      | inl e ↦ (ground (arith, eq_refl a, subst (λ c. (a == c) ≡ false) ((eq_iff b a).0 e) h))
      | inr e ↦ e
    ]

    -- A name that no row has may be added.
    left-absent :
        (k : String) (ids : List String) (xs : List Row)
        → KeyAbsent k xs
        → left (k ∷ ids) xs ≡ left ids xs
    unfolding is_in
    left-absent k ids [] h = refl
    left-absent k ids (x ∷ xs) h =
        rw (==-false_comm (key x) k h.0) (ground (arith, left-absent k ids xs h.1))

    -- The eligible rows that are left, with the ones that a batch may not touch.
    abbrev kept : List Row → List Row
    kept xs = filter (λ r. not (p r)) xs

    chosen-eligible :
        (n : ℕ) (x : Row) (xs : List Row)
        → p x ≡ true
        → chosen (suc n) (x ∷ xs) ≡ key x ∷ chosen n xs
    chosen-eligible n x xs e = rw e

    chosen-other : (n : ℕ) (x : Row) (xs : List Row) → p x ≡ false → chosen n (x ∷ xs) ≡ chosen n xs
    chosen-other n x xs e = rw e

    chosen-taken :
        (n : ℕ) (x : Row) (xs : List Row)
        → p x ≡ true
        → KeyAbsent (key x) xs
        → left (chosen (suc n) (x ∷ xs)) (x ∷ xs) ≡ left (chosen n xs) xs
    unfolding is_in
    chosen-taken n x xs e h =
        subst (λ ids. left ids (x ∷ xs) ≡ left (chosen n xs) xs) (sym (chosen-eligible n x xs e))
          (rw (eq_refl (key x)) (left-absent (key x) (chosen n xs) xs h))

    chosen-passed :
        (n : ℕ) (x : Row) (xs : List Row)
        → p x ≡ false
        → KeyAbsent (key x) xs
        → left (chosen n (x ∷ xs)) (x ∷ xs) ≡ x ∷ left (chosen n xs) xs
    chosen-passed n x xs e h =
        subst (λ ids. left ids (x ∷ xs) ≡ x ∷ left (chosen n xs) xs) (sym (chosen-other n x xs e))
          (rw (absent-chosen (key x) n xs h))

    -- One batch takes the first `n` of the eligible rows.
    filter-left :
        (n : ℕ) (xs : List Row)
        → DistinctKeys xs
        → (filter p (left (chosen n xs) xs) ≡ drop n (filter p xs))
          × (kept (left (chosen n xs) xs) ≡ kept xs)
    unfolding is_in
    filter-left zero xs h = rw (left-nil xs) (refl, refl)
    filter-left (suc n) [] h = (refl, refl)
    filter-left (suc n) (x ∷ xs) h = elim (Bool-cases (p x)) [
      | inl e ↦ rw (chosen-taken n x xs e h.0) (rw e (filter-left n xs h.1))
      | inr e ↦
          rw (chosen-passed (suc n) x xs e h.0) (rw e (ground (arith, filter-left (suc n) xs h.1)))
    ]

    filter-All_not : (xs : List Row) → filter p xs ≡ [] → kept xs ≡ xs
    filter-All_not [] e = refl
    filter-All_not (x ∷ xs) e = ground (arith, filter-All_not xs)

    left-Distinct :
        (ids : List String) (xs : List Row) → DistinctKeys xs → DistinctKeys (left ids xs)
    left-Distinct ids [] h = h
    left-Distinct ids (x ∷ xs) h = elim (Bool-cases (is_in (key x) ids)) [
      | inl e ↦ rw e (left-Distinct ids xs h.1)
      | inr e ↦ rw e (All-filter _ _ xs h.0, left-Distinct ids xs h.1)
    ]

    length-map : (xs : List Row) → length (map key xs) ≡ length xs
    length-map [] = refl
    length-map (x ∷ xs) = ap suc (length-map xs)

    length-nil : {A : Type 0} (xs : List A) → length xs ≡ 0 → xs ≡ []
    length-nil [] e = refl
    length-nil (x ∷ xs) e = ground arith

    module _ (db : Sql Row key) where
      delete_ids-lem :
          (ids : List String) (t : db.Table) (r : ℕ × db.Table)
          → r
            ≡ (if is_empty ids then (0, t) else (length ids, db.delete (λ r. is_in (key r) ids) t))
          → (r.0 ≡ length ids) × (db.rows r.1 ≡ left ids (db.rows t))
      delete_ids-lem [] t r e =
          (ap (λ x. x.0) e, ap (λ x. db.rows x.1) e ∙ sym (left-nil (db.rows t)))
      delete_ids-lem (k ∷ ks) t r e =
          (ap (λ x. x.0) e, ap (λ x. db.rows x.1) e ∙ db.rows-delete _ t)

      batch-lem :
          (max : ℕ) (t : db.Table)
          → ((delete_batch db p max t).0 ≡ min max (length (filter p (db.rows t))))
            × (db.rows (delete_batch db p max t).1 ≡ left (chosen max (db.rows t)) (db.rows t))
      unfolding delete_batch ids_to_delete
      batch-lem max t =
          let (n, rest) =
            delete_ids-lem (chosen max (db.rows t)) t (delete_batch db p max t) refl in
          (n ∙ length-take max _ ∙ ap (min max) (length-map _), rest)

      batch-filters :
          (max : ℕ) (t : db.Table)
          → DistinctKeys (db.rows t)
          → (filter p (db.rows (delete_batch db p max t).1) ≡ drop max (filter p (db.rows t)))
            × (kept (db.rows (delete_batch db p max t).1) ≡ kept (db.rows t))
            × DistinctKeys (db.rows (delete_batch db p max t).1)
      batch-filters max t d =
          subst
            (λ l.
              (filter p l ≡ drop max (filter p (db.rows t)))
              × (kept l ≡ kept (db.rows t))
              × DistinctKeys l)
            (sym (batch-lem max t).1)
            (
              (filter-left max (db.rows t) d).0,
              (filter-left max (db.rows t) d).1,
              left-Distinct _ (db.rows t) d,
            )

      abbrev pub Pruned : ℕ → db.Table → Option (ℕ × db.Table) → Type 0
      Pruned deleted t r =
          (t' : db.Table) × (r ≡ some (deleted + length (filter p (db.rows t)), t'))
          × (db.rows t' ≡ kept (db.rows t))

      Pruned-last :
          (max deleted : ℕ) (t : db.Table)
          → DistinctKeys (db.rows t)
          → ltb (delete_batch db p max t).0 max ≡ true
          → Pruned deleted t
              (some (deleted + (delete_batch db p max t).0, (delete_batch db p max t).1))
      Pruned-last max deleted t d e =
          let (n, _) = batch-lem max t in
          let (gone, same, _) = batch-filters max t d in
          let none_left : drop max (filter p (db.rows t)) ≡ [] =
            length-nil _ (omega (arith, length-drop max (filter p (db.rows t)), n, ltb→lt _ _ e)) in
          (
            (delete_batch db p max t).1,
            ap (λ m. some (deleted + m, (delete_batch db p max t).1))
                (omega (arith, n, ltb→lt _ _ e)),
            sym (filter-All_not _ (gone ∙ none_left)) ∙ same,
          )

      ltb-full : (n m k : ℕ) → n ≡ min m k → ltb n m ≡ false → (n ≡ m) × (m ≤ k)
      ltb-full n m k e h = ground arith

      Pruned-batch :
          (max deleted : ℕ) (t : db.Table) (r : Option (ℕ × db.Table))
          → DistinctKeys (db.rows t)
          → ltb (delete_batch db p max t).0 max ≡ false
          → Pruned (deleted + (delete_batch db p max t).0) (delete_batch db p max t).1 r
          → Pruned deleted t r
      Pruned-batch max deleted t r d e (t', result, same) =
          let (n, _) = batch-lem max t in
          let (n_max, enough) = ltb-full _ max _ n e in
          let (gone, kept_same, _) = batch-filters max t d in
          (
            t',
            result
                ∙ ap (λ m. some (m, t'))
                    (omega (
                      arith,
                      n_max,
                      enough,
                      ap length gone,
                      length-drop max (filter p (db.rows t)),
                    )),
            same ∙ kept_same,
          )

      -- With more fuel than there are eligible rows, and a batch that is not empty, the loop ends; it has
      -- then deleted every eligible row and no other, and it reports how many there were.
      pub prune_loop-Pruned :
          (fuel max deleted : ℕ) (t : db.Table)
          → DistinctKeys (db.rows t)
          → 0 < max
          → length (filter p (db.rows t)) < fuel
          → Pruned deleted t (prune_loop db p fuel max deleted t)
      unfolding prune_loop
      prune_loop-Pruned zero max deleted t d pos h = absurd (omega arith)
      prune_loop-Pruned (suc fuel) max deleted t d pos h =
          elim (Bool-cases (ltb (delete_batch db p max t).0 max)) [
            | inl e ↦ rw e (Pruned-last max deleted t d e)
            | inr e ↦
                let (n, _) = batch-lem max t in
                let (n_max, enough) = ltb-full _ max _ n e in
                let (gone, _, distinct) = batch-filters max t d in
                rw e (
                  Pruned-batch max deleted t _ d e (
                    prune_loop-Pruned fuel max _ (delete_batch db p max t).1 distinct pos (
                      omega (
                        arith,
                        h,
                        pos,
                        enough,
                        ap length gone,
                        length-drop max (filter p (db.rows t)),
                      ))))
          ]

      pub prune_loop-all :
          (max : ℕ) (t : db.Table)
          → DistinctKeys (db.rows t)
          → 0 < max
          → (t' : db.Table) × (prune_loop db p (suc (length (db.rows t))) max 0 t
              ≡ some (length (filter p (db.rows t)), t'))
            × (db.rows t' ≡ kept (db.rows t))
      prune_loop-all max t d pos =
          let (t', found, left_over) =
            prune_loop-Pruned (suc (length (db.rows t))) max 0 t d pos
              (omega (arith, length-filter-le p (db.rows t))) in
          (t', found ∙ ap (λ m. some (m, t')) (omega arith), left_over)
