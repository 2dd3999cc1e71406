-- ===== src/Workbench/Start/Slug.antt =====
-- The name of a run's branch: `title_to_slug` against the words of the title.
use rato.Prelude.{
  ℕ, ◌≡◌, refl, Bool, true, false, not, List, [], ◌∷◌, ◌++◌, map, filter, eqb, codes, is_empty,
  pieces, if◌then◌else◌, arith, ap, eqb→eq, Bool-cases, inl, inr,
}
use rato.Prelude.Paths.{Text}
use rato.Workbench.Start.{to_ascii_lowercase, slug_chars, trim_end_dashes, title_to_slug}

-- The maximal runs of alphanumeric characters, in lower case.
unfoldable pub kept_words : List Text → List Text
unfolding to_ascii_lowercase
kept_words ws = map (λ w. map to_ascii_lowercase w) (filter (λ w. not (is_empty w)) ws)

unfoldable pub words : (ℕ → Bool) → Text → List Text
unfolding kept_words pieces
words is_alphanumeric title = kept_words (pieces (λ c. not (is_alphanumeric c)) title)

unfoldable pub dashed : List Text → Text
dashed [] = []
dashed (w ∷ ws) = 45 ∷ (w ++ dashed ws)

unfoldable pub joined : List Text → Text
unfolding dashed
joined [] = []
joined (w ∷ ws) = w ++ dashed ws

dashed_if : List Text → Text
unfolding joined
dashed_if ws = if is_empty (joined ws) then [] else 45 ∷ joined ws

-- The kept words are not empty, so neither is what they are joined to.
dashed_if_lem : (ws : List Text) → dashed_if (kept_words ws) ≡ dashed (kept_words ws)
unfolding dashed_if kept_words joined dashed
dashed_if_lem [] = refl
dashed_if_lem ([] ∷ ws) = dashed_if_lem ws
dashed_if_lem ((c ∷ w) ∷ ws) = refl

module _ (is_alphanumeric : ℕ → Bool) (dash : is_alphanumeric 45 ≡ false) where
  to_ascii_lowercase-dash :
      (c : ℕ) → is_alphanumeric c ≡ true → eqb (to_ascii_lowercase c) 45 ≡ false
  unfolding to_ascii_lowercase
  to_ascii_lowercase-dash c h = elim (Bool-cases (eqb c 45)) [
    | inl e ↦ ground (arith, h, dash, ap is_alphanumeric (eqb→eq c 45 e))
    | inr n ↦ ground arith
  ]

  abbrev cut : ℕ → Bool
  cut c = not (is_alphanumeric c)

  -- The two states of the loop, on the pieces of the rest.
  record Slugged (s : Text) : Type 0 where
    first : Text
    others : List Text
    split : pieces cut s ≡ first ∷ others
    in_word :
        trim_end_dashes (slug_chars is_alphanumeric false s)
        ≡ map to_ascii_lowercase first ++ dashed (kept_words others)
    after_dash :
        trim_end_dashes (slug_chars is_alphanumeric true s) ≡ joined (kept_words (first ∷ others))

  slug_chars-Slugged : (s : Text) → Slugged s
  unfolding dashed_if slug_chars pieces trim_end_dashes kept_words joined dashed
  slug_chars-Slugged [] = record {
    first = [];
    others = [];
    split = refl;
    in_word = refl;
    after_dash = refl;
  }
  slug_chars-Slugged (c ∷ s) = elim (Bool-cases (is_alphanumeric c)) [
    | inl e ↦
        (let r = slug_chars-Slugged s in
          record {
            first = c ∷ r.first;
            others = r.others;
            split = rw (e, r.split) refl;
            in_word = rw (e, to_ascii_lowercase-dash c e, r.in_word) refl;
            after_dash = rw (e, to_ascii_lowercase-dash c e, r.in_word) refl;
          })
    | inr e ↦
        (let r = slug_chars-Slugged s in
          record {
            first = [];
            others = r.first ∷ r.others;
            split = rw (e, r.split) refl;
            in_word = rw (e, r.after_dash) (dashed_if_lem (r.first ∷ r.others));
            after_dash = rw e r.after_dash;
          })
  ]

  -- Where the dash is no alphanumeric character, the slug of a title is the title's words in lower case
  -- with one dash between two, or "task" if it has none.
  pub title_to_slug-words :
      (title : Text)
      → title_to_slug is_alphanumeric title ≡ (
          if is_empty (joined (words is_alphanumeric title))
          then codes "task"
          else joined (words is_alphanumeric title))
  unfolding title_to_slug words
  title_to_slug-words title = let r = slug_chars-Slugged title in rw (r.split, r.after_dash) refl
