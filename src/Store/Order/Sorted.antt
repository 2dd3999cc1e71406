-- ===== src/Store/Order/Sorted.antt =====
-- What ORDER BY does to a list of rows.
use rato.Prelude.{
  ℕ, ◌≤◌, ◌≡◌, refl, ◌∙◌, Bool, List, [], ◌∷◌, arith, leb, leb→le, length, filter, All, Bool-cases,
  inl, inr,
}
use rato.Store.Order.{place, order_by}

module _ {Row : Type 0} (first : Row → Row → Bool) where
  count-place :
      (q : Row → Bool) (r : Row) (xs : List Row)
      → length (filter q (place first r xs)) ≡ length (filter q (r ∷ xs))
  unfolding place
  count-place q r [] = refl
  count-place q r (x ∷ xs) = ground (arith, count-place q r xs)

  -- Sorting keeps how many rows pass any test.
  pub count-order_by :
      (q : Row → Bool) (xs : List Row)
      → length (filter q (order_by first xs)) ≡ length (filter q xs)
  unfolding order_by
  count-order_by q [] = refl
  count-order_by q (x ∷ xs) =
      count-place q x (order_by first xs) ∙ ground (arith, count-order_by q xs)

  All-place :
      (P : Row → Type 0) (r : Row) (xs : List Row) → P r → All P xs → All P (place first r xs)
  unfolding place
  All-place P r [] p h = (p, tt)
  All-place P r (x ∷ xs) p h = elim (Bool-cases (first r x)) [
    | inl e ↦ rw e (p, h)
    | inr e ↦ rw e (h.0, All-place P r xs p h.1)
  ]

  pub All-order_by : (P : Row → Type 0) (xs : List Row) → All P xs → All P (order_by first xs)
  unfolding order_by
  All-order_by P [] h = tt
  All-order_by P (x ∷ xs) h = All-place P x (order_by first xs) h.0 (All-order_by P xs h.1)

module _ {Row : Type 0} (first : Row → Row → Bool) (P : Row → Type 0) where
  All-of_place : (r : Row) (xs : List Row) → All P (place first r xs) → P r × All P xs
  unfolding place
  All-of_place r [] h = h
  All-of_place r (x ∷ xs) h = elim (Bool-cases (first r x)) [
    | inl e ↦ rw e at h
    | inr e ↦
        (let (front, rest) = rw e at h in
          let (pr, others) = All-of_place r xs rest in (pr, (front, others)))
  ]

  -- What holds of the sorted rows holds of the rows.
  pub All-of_order_by : (xs : List Row) → All P (order_by first xs) → All P xs
  unfolding order_by
  All-of_order_by [] h = tt
  All-of_order_by (x ∷ xs) h =
      let (px, rest) = All-of_place x (order_by first xs) h in (px, All-of_order_by xs rest)

-- Each row stands in front of rows with no smaller key.
abbrev pub Ascending : {Row : Type 0} → (Row → ℕ) → List Row → Type 0
Ascending key [] = Unit {0}
Ascending key (x ∷ xs) = All (λ y. key x ≤ key y) xs × Ascending key xs

module _ {Row : Type 0} (key : Row → ℕ) where
  All-below : (a b : ℕ) (xs : List Row) → a ≤ b → All (λ y. b ≤ key y) xs → All (λ y. a ≤ key y) xs
  All-below a b [] h k = tt
  All-below a b (x ∷ xs) h k = (omega (arith, h, k.0), All-below a b xs h k.1)

  Ascending-place :
      (r : Row) (xs : List Row)
      → Ascending key xs
      → Ascending key (place (λ x y. leb (key x) (key y)) r xs)
  unfolding place
  Ascending-place r [] h = (tt, tt)
  Ascending-place r (x ∷ xs) h = elim (Bool-cases (leb (key r) (key x))) [
    | inl e ↦
        rw e (
          (leb→le (key r) (key x) e, All-below (key r) (key x) xs (leb→le (key r) (key x) e) h.0),
          h,
        )
    | inr e ↦ rw e (
      All-place (λ a b. leb (key a) (key b)) (λ y. key x ≤ key y) r xs (ground (arith, e)) h.0,
      Ascending-place r xs h.1,
    )
  ]

  pub Ascending-order_by :
      (xs : List Row) → Ascending key (order_by (λ x y. leb (key x) (key y)) xs)
  unfolding order_by
  Ascending-order_by [] = tt
  Ascending-order_by (x ∷ xs) = Ascending-place x _ (Ascending-order_by xs)
