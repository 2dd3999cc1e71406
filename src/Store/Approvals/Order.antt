-- ===== src/Store/Approvals/Order.antt =====
-- The order in which pending approvals are listed.
use rato.Prelude.{
  ◌≤◌, ◌≡◌, refl, sym, ap, ◌∙◌, Bool, List, [], ◌∷◌, arith, if◌then◌else◌, leb, filter, length, All,
  All-filter, Bool-cases, inl, inr, leb→le, suc,
}
use rato.Store.Approvals.{Approval, insert_oldest, oldest_first}

module _ {V : Type 0} where
  abbrev Later : Approval V → List (Approval V) → Type 0
  Later a = All (λ (x : Approval V). a.created ≤ x.created)

  abbrev IsSorted : List (Approval V) → Type 0
  IsSorted [] = Unit {0}
  IsSorted (x ∷ xs) = Later x xs × IsSorted xs

  Later-trans :
      (a b : Approval V) (xs : List (Approval V)) → a.created ≤ b.created → Later b xs → Later a xs
  Later-trans a b [] h l = tt
  Later-trans a b (x ∷ xs) h l = (omega (arith, h, l.0), Later-trans a b xs h l.1)

  Later-insert_oldest :
      (a b : Approval V) (xs : List (Approval V))
      → a.created ≤ b.created
      → Later a xs
      → Later a (insert_oldest b xs)
  unfolding insert_oldest
  Later-insert_oldest a b [] h l = (h, tt)
  Later-insert_oldest a b (x ∷ xs) h l = elim (Bool-cases (leb b.created x.created)) [
    | inl front ↦ rw front (h, l)
    | inr behind ↦ rw behind (l.0, Later-insert_oldest a b xs h l.1)
  ]

  insert_oldest-IsSorted :
      (a : Approval V) (xs : List (Approval V)) → IsSorted xs → IsSorted (insert_oldest a xs)
  unfolding insert_oldest
  insert_oldest-IsSorted a [] s = (tt, tt)
  insert_oldest-IsSorted a (x ∷ xs) s = elim (Bool-cases (leb a.created x.created)) [
    | inl front ↦ rw front ((leb→le _ _ front, Later-trans a x xs (leb→le _ _ front) s.0), s)
    | inr behind ↦
        rw behind (Later-insert_oldest x a xs (ground arith) s.0, insert_oldest-IsSorted a xs s.1)
  ]

  oldest_first-IsSorted : (xs : List (Approval V)) → IsSorted (oldest_first xs)
  unfolding oldest_first
  oldest_first-IsSorted [] = tt
  oldest_first-IsSorted (x ∷ xs) =
      insert_oldest-IsSorted x (oldest_first xs) (oldest_first-IsSorted xs)

  insert_oldest_front :
      (a : Approval V) (xs : List (Approval V)) → Later a xs → insert_oldest a xs ≡ a ∷ xs
  unfolding insert_oldest
  insert_oldest_front a [] l = refl
  insert_oldest_front a (x ∷ xs) l = ground arith

  filter-front :
      (p : Approval V → Bool) (a : Approval V) (xs : List (Approval V))
      → Later a xs
      → filter p (a ∷ xs) ≡ (if p a then insert_oldest a (filter p xs) else filter p xs)
  filter-front p a xs l = elim (Bool-cases (p a)) [
    | inl kept ↦ rw kept (
        sym (
          insert_oldest_front a (filter p xs)
            (All-filter (λ (x : Approval V). a.created ≤ x.created) p xs l)))
    | inr gone ↦ rw gone
  ]

  filter-insert_oldest :
      (p : Approval V → Bool) (a : Approval V) (xs : List (Approval V))
      → IsSorted xs
      → filter p (insert_oldest a xs) ≡ (if p a then insert_oldest a (filter p xs) else filter p xs)
  unfolding insert_oldest
  filter-insert_oldest p a [] s = ground arith
  filter-insert_oldest p a (x ∷ xs) s = elim (Bool-cases (leb a.created x.created)) [
    | inl front ↦
        rw front
          (filter-front p a (x ∷ xs) (leb→le _ _ front, Later-trans a x xs (leb→le _ _ front) s.0))
    | inr behind ↦ ground (arith, behind, filter-insert_oldest p a xs s.1)
  ]

  length-insert_oldest :
      (a : Approval V) (xs : List (Approval V)) → length (insert_oldest a xs) ≡ suc (length xs)
  unfolding insert_oldest
  length-insert_oldest a [] = refl
  length-insert_oldest a (x ∷ xs) = ground (arith, length-insert_oldest a xs)

  pub length-oldest_first : (xs : List (Approval V)) → length (oldest_first xs) ≡ length xs
  unfolding oldest_first
  length-oldest_first [] = refl
  length-oldest_first (x ∷ xs) =
      length-insert_oldest x (oldest_first xs) ∙ ap suc (length-oldest_first xs)

  pub filter-oldest_first :
      (p : Approval V → Bool) (xs : List (Approval V))
      → filter p (oldest_first xs) ≡ oldest_first (filter p xs)
  unfolding oldest_first
  filter-oldest_first p [] = refl
  filter-oldest_first p (x ∷ xs) =
      filter-insert_oldest p x (oldest_first xs) (oldest_first-IsSorted xs)
      ∙ elim (Bool-cases (p x)) [
        | inl kept ↦ rw kept (ap (insert_oldest x) (filter-oldest_first p xs))
        | inr gone ↦ rw gone (filter-oldest_first p xs)
      ]
