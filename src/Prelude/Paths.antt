-- ===== src/Prelude/Paths.antt =====
-- `std::path`: a path is the list of its components from the last to the first, each by its code
-- points; an absolute path ends in "/". Names that are no Unicode are not modelled, and a path is
-- printed in its plain spelling: doubled slashes and inner "." are lost when it is read.
use Prim.Native.Nat.{ℕ}
use mathlib.Core.Path.{◌≡◌, refl}
use mathlib.Core.Bool.{Bool, true, false, not, ◌&&◌, ◌||◌}
use mathlib.Core.List.{List, [], ◌∷◌, ◌++◌, reverse}
use mathlib.Core.Option.{Option, none, some}
use native.Mathlib.Omega.{arith}
use rato.Prelude.Tests.{eqb, if◌then◌else◌}
use rato.Prelude.Lists.{filter, is_empty}
use rato.Prelude.Text.{codes, text_eq, text_eq_sound, text_eq_refl, starts_with, pieces}

abbrev pub Text : Type 0
Text = List ℕ

abbrev pub FilePath : Type 0
FilePath = List Text

-- `Component::Normal`
unfoldable pub is_normal : Text → Bool
unfolding text_eq
is_normal c = not (text_eq c (codes "/") || (text_eq c (codes ".") || text_eq c (codes "..")))

-- `Path::file_name`
unfoldable pub file_name : FilePath → Option Text
unfolding is_normal
file_name [] = none
file_name (c ∷ cs) = if is_normal c then some c else none

-- `Path::parent`
unfoldable pub parent : FilePath → Option FilePath
unfolding text_eq
parent [] = none
parent (c ∷ cs) = if text_eq c (codes "/") then none else some cs

-- `Path::new`
unfoldable pub path_of : Text → FilePath
unfolding pieces text_eq
path_of s =
    reverse (filter (λ c. not (is_empty c || text_eq c (codes "."))) (pieces (λ c. eqb c 47) s))
    ++ (if starts_with s (codes "/")
        then codes "/" ∷ []
        else if text_eq s (codes ".") || starts_with s (codes "./")
        then codes "." ∷ []
        else [])

-- `to_string_lossy`
unfoldable pub path_text : FilePath → Text
unfolding text_eq
path_text [] = []
path_text (c ∷ []) = c
path_text (c ∷ d ∷ cs) =
    let front = path_text (d ∷ cs) in
    if text_eq d (codes "/") then front ++ c else front ++ (codes "/" ++ c)

unfoldable pub path_eq : FilePath → FilePath → Bool
unfolding text_eq
path_eq [] [] = true
path_eq (c ∷ p) (e ∷ q) = text_eq c e && path_eq p q
path_eq _ _ = false

pub path_eq_sound : (p q : FilePath) → path_eq p q ≡ true → p ≡ q
unfolding path_eq
path_eq_sound [] [] h = refl
path_eq_sound [] (e ∷ q) h = ground arith
path_eq_sound (c ∷ p) [] h = ground arith
path_eq_sound (c ∷ p) (e ∷ q) h = ground (arith, path_eq_sound p q, text_eq_sound c e)

pub path_eq_refl : (p : FilePath) → path_eq p p ≡ true
unfolding path_eq
path_eq_refl [] = refl
path_eq_refl (c ∷ p) = rw (text_eq_refl c) (path_eq_refl p)

round_trip : path_text (path_of (codes "/home//user/./a/")) ≡ codes "/home/user/a"
unfolding path_text path_of starts_with
round_trip = refl
