-- ===== src/Dotfile/Jsonc/Comments.antt =====
-- What the scan takes out of a document and what it keeps.
use rato.Prelude.{
  ℕ, Bool, true, false, not, ◌&&◌, ◌||◌, List, [], ◌∷◌, ◌++◌, ◌≡◌, refl, ap, eqb, arith, Bool-cases,
  inl, inr, All,
}
use rato.Dotfile.Jsonc.{Scan, plain, quoted, line, block, scan, strip_from, strip_jsonc_comments}

-- A document in pieces. A character of a string literal may stand behind a backslash.
pub data Piece : Type 0 where
  text : List ℕ → Piece
  literal : List (Bool × ℕ) → Piece
  line_comment : List ℕ → Piece
  block_comment : List ℕ → Piece

abbrev pub render_body : List (Bool × ℕ) → List ℕ
render_body [] = []
render_body ((true, c) ∷ cs) = 92 ∷ c ∷ render_body cs
render_body ((false, c) ∷ cs) = c ∷ render_body cs

abbrev pub render : List Piece → List ℕ
render [] = []
render (text s ∷ ps) = s ++ render ps
render (literal b ∷ ps) = 34 ∷ render_body b ++ 34 ∷ render ps
render (line_comment s ∷ ps) = 47 ∷ 47 ∷ s ++ 10 ∷ render ps
render (block_comment s ∷ ps) = 47 ∷ 42 ∷ s ++ 42 ∷ 47 ∷ render ps

-- Without the comments; the end of a line stays.
abbrev pub without_comments : List Piece → List ℕ
without_comments [] = []
without_comments (text s ∷ ps) = s ++ without_comments ps
without_comments (literal b ∷ ps) = 34 ∷ render_body b ++ 34 ∷ without_comments ps
without_comments (line_comment s ∷ ps) = 10 ∷ without_comments ps
without_comments (block_comment s ∷ ps) = without_comments ps

-- `*/` at some place, behind the character `prev`.
abbrev pub has_end : ℕ → List ℕ → Bool
has_end prev [] = false
has_end prev (c ∷ s) = (eqb prev 42 && eqb c 47) || has_end c s

-- Text holds no quote and no slash, an unescaped character of a literal is no quote and no backslash,
-- a line comment holds no end of line, a block comment no end of its own.
abbrev pub IsPiece : Piece → Type 0
IsPiece (text s) = All (λ c. (eqb c 34 || eqb c 47) ≡ false) s
IsPiece (literal b) = All (λ (e : Bool × ℕ). (e.0 || not (eqb e.1 34 || eqb e.1 92)) ≡ true) b
IsPiece (line_comment s) = All (λ c. eqb c 10 ≡ false) s
IsPiece (block_comment s) = has_end 0 s ≡ false

strip_from-cons :
    (st : Scan) (ch : ℕ) (next : List ℕ)
    → strip_from st (ch ∷ next) ≡ (scan st ch next).1 ++ strip_from (scan st ch next).0 next
unfolding strip_from
strip_from-cons st ch next = refl

strip-text :
    (s t : List ℕ)
    → All (λ c. (eqb c 34 || eqb c 47) ≡ false) s
    → strip_from plain (s ++ t) ≡ s ++ strip_from plain t
unfolding scan
strip-text [] t h = refl
strip-text (c ∷ s) t h =
    rw (strip_from-cons plain c (s ++ t)) (ground (arith, strip-text s t h.1, h.0))

strip-literal :
    (b : List (Bool × ℕ)) (t : List ℕ)
    → All (λ (e : Bool × ℕ). (e.0 || not (eqb e.1 34 || eqb e.1 92)) ≡ true) b
    → strip_from (quoted false) (render_body b ++ 34 ∷ t) ≡ render_body b ++ 34 ∷ strip_from plain t
unfolding strip_from
strip-literal [] t h = refl
strip-literal ((true, c) ∷ b) t h = ap (λ u. 92 ∷ c ∷ u) (strip-literal b t h.1)
strip-literal ((false, c) ∷ b) t h = ground (arith, strip-literal b t h.1, h.0)

strip-line :
    (s t : List ℕ)
    → All (λ c. eqb c 10 ≡ false) s
    → strip_from line (s ++ 10 ∷ t) ≡ 10 ∷ strip_from plain t
unfolding strip_from
strip-line [] t h = refl
strip-line (c ∷ s) t h = rw h.0 (strip-line s t h.1)

strip-block :
    (prev : ℕ) (s t : List ℕ)
    → has_end prev s ≡ false
    → strip_from (block prev) (s ++ 42 ∷ 47 ∷ t) ≡ strip_from plain t
unfolding strip_from scan
strip-block prev [] t h = elim (Bool-cases (eqb prev 42)) [ inl e ↦ rw e | inr e ↦ rw e ]
strip-block prev (c ∷ s) t h = elim (Bool-cases (eqb prev 42 && eqb c 47)) [
  | inl e ↦ ground (arith, e, h)
  | inr e ↦ rw e (strip-block c s t (rw e at h))
]

strip-render :
    (ps : List Piece) → All IsPiece ps → strip_from plain (render ps) ≡ without_comments ps
unfolding strip_from
strip-render [] h = refl
strip-render (text s ∷ ps) h =
    rw (strip-text s (render ps) h.0) (ap (λ u. s ++ u) (strip-render ps h.1))
strip-render (literal b ∷ ps) h =
    ap (λ u. 34 ∷ u)
      (rw (strip-literal b (render ps) h.0)
        (ap (λ u. render_body b ++ 34 ∷ u) (strip-render ps h.1)))
strip-render (line_comment s ∷ ps) h =
    rw (strip-line s (render ps) h.0) (ap (λ u. 10 ∷ u) (strip-render ps h.1))
strip-render (block_comment s ∷ ps) h = rw (strip-block 0 s (render ps) h.0) (strip-render ps h.1)

-- A document of text, string literals and comments keeps its text, its literals (with what looks like
-- a comment inside them) and the ends of its line comments, and loses the comments. Text holds no
-- quote and no slash, and every comment and literal is closed.
pub strip_jsonc_comments-render :
    (ps : List Piece) → All IsPiece ps → strip_jsonc_comments (render ps) ≡ without_comments ps
unfolding strip_jsonc_comments
strip_jsonc_comments-render = strip-render
