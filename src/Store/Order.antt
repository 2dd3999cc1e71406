-- ===== src/Store/Order.antt =====
-- ORDER BY: the rows one after the other into their place. `first x y` says that x may stand in front
-- of y. Rows that the order leaves equal keep the order of the table or reverse it, as `first` has it.
pub mod Sorted
use rato.Prelude.{
  ℕ, Bool, true, false, ◌&&◌, ◌||◌, List, [], ◌∷◌, ltb, eqb, if◌then◌else◌, String, codes,
}

module _ {Row : Type 0} (first : Row → Row → Bool) where
  unfoldable pub place : Row → List Row → List Row
  place r [] = r ∷ []
  place r (x ∷ xs) = if first r x then r ∷ x ∷ xs else x ∷ place r xs

  unfoldable pub order_by : List Row → List Row
  unfolding place
  order_by [] = []
  order_by (x ∷ xs) = place x (order_by xs)

-- Texts as SQLite orders them, by their bytes, which is by their code points.
unfoldable pub text_leb : List ℕ → List ℕ → Bool
text_leb [] ys = true
text_leb (x ∷ xs) [] = false
text_leb (x ∷ xs) (y ∷ ys) = ltb x y || (eqb x y && text_leb xs ys)

-- `ORDER BY ts DESC, id DESC`
unfoldable pub newest : ℕ → String → ℕ → String → Bool
unfolding text_leb
newest ts id ts' id' = ltb ts' ts || (eqb ts ts' && text_leb (codes id') (codes id))
