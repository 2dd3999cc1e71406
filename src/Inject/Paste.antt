-- ===== src/Inject/Paste.antt =====
-- A terminal in bracketed-paste mode: between the two markers input is text to insert, and what
-- follows the end marker is typed.
use mathlib.Core.List.{append_assoc}
use rato.Prelude.{
  ℕ, ◌≡◌, refl, ◌≢◌, false, Option, none, some, List, [], ◌∷◌, ◌++◌, arith, if◌then◌else◌,
  starts_with, drop, eqb, All,
}
use rato.Inject.{bracketed_paste, paste_start, paste_end}

-- The text inserted and the input left, from behind the start marker; nothing without an end marker.
read_pasted : List ℕ → Option (List ℕ × List ℕ)
read_pasted [] = none
read_pasted (c ∷ s) =
    if starts_with (c ∷ s) paste_end
    then some ([], drop 5 s)
    else elim (read_pasted s) [ none ↦ none | some (text, rest) ↦ some (c ∷ text, rest) ]

-- What a terminal makes of input that begins with a paste.
pub read_paste : List ℕ → Option (List ℕ × List ℕ)
unfolding read_pasted
read_paste s = if starts_with s paste_start then read_pasted (drop 6 s) else none

-- No escape character.
abbrev pub IsPlain : List ℕ → Type 0
IsPlain = All (λ c. c ≢ 27)

eqb-false : (a b : ℕ) → a ≢ b → eqb a b ≡ false
eqb-false a b h = ground arith

no_end : (c : ℕ) (s : List ℕ) → c ≢ 27 → starts_with (c ∷ s) paste_end ≡ false
unfolding starts_with
no_end c s h = rw (eqb-false c 27 h)

read_pasted_plain :
    (s rest : List ℕ) → IsPlain s → read_pasted (s ++ (paste_end ++ rest)) ≡ some (s, rest)
unfolding read_pasted
read_pasted_plain [] rest h = unfold starts_with in refl
read_pasted_plain (c ∷ s) rest h =
    rw (no_end c (s ++ (paste_end ++ rest)) h.0) (rw (read_pasted_plain s rest h.1))

-- A request without escape characters is inserted as it is, and leaves nothing to be typed. One that
-- holds the end marker behind such text is cut there, and the terminal takes the rest as typed keys.
pub read_paste-bracketed_paste :
    (s rest : List ℕ)
    → IsPlain s
    → (read_paste (bracketed_paste s) ≡ some (s, []))
      × (read_paste (bracketed_paste (s ++ (paste_end ++ rest))) ≡ some (s, rest ++ paste_end))
unfolding read_paste bracketed_paste starts_with
read_paste-bracketed_paste s rest h = (
  read_pasted_plain s [] h,
  rw (append_assoc s (paste_end ++ rest) paste_end) (read_pasted_plain s (rest ++ paste_end) h),
)
