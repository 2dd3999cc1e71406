-- ===== src/Dotfile/Jsonc.antt =====
-- `strip_jsonc_comments` of crates/rat-dotfile/src/lib.rs. The flags `in_string` and `escaped` and the
-- two inner loops over the characters of a comment are the states of one scan.
pub mod Comments
use rato.Prelude.{ℕ, Bool, true, false, ◌&&◌, List, [], ◌∷◌, ◌++◌, ◌≡◌, refl, eqb, if◌then◌else◌}

pub data Scan : Type 0 where
  plain : Scan
  -- inside a string, behind a backslash or not
  quoted : Bool → Scan
  -- in front of the second character of `//` and of `/*`
  line_opens : Scan
  block_opens : Scan
  line : Scan
  -- inside a block comment, with the character before
  block : ℕ → Scan

-- `chars.peek() == Some(&c)`
abbrev pub peeks : ℕ → List ℕ → Bool
peeks c [] = false
peeks c (x ∷ xs) = eqb x c

-- One character in front of the text that follows: the state after it and what it puts out.
unfoldable pub scan : Scan → ℕ → List ℕ → Scan × List ℕ
scan (quoted true) ch next = (quoted false, ch ∷ [])
scan (quoted false) ch next =
    (if eqb ch 92 then quoted true else if eqb ch 34 then plain else quoted false, ch ∷ [])
scan plain ch next =
    if eqb ch 34
    then (quoted false, ch ∷ [])
    else if eqb ch 47 && peeks 47 next
    then (line_opens, [])
    else if eqb ch 47 && peeks 42 next
    then (block_opens, [])
    else (plain, ch ∷ [])
scan line_opens ch next = (line, [])
scan line ch next = if eqb ch 10 then (plain, 10 ∷ []) else (line, [])
scan block_opens ch next = (block 0, [])
scan (block prev) ch next = (if eqb prev 42 && eqb ch 47 then plain else block ch, [])

unfoldable pub strip_from : Scan → List ℕ → List ℕ
unfolding scan
strip_from st [] = []
strip_from st (ch ∷ next) = let (st', out) = scan st ch next in out ++ strip_from st' next

unfoldable pub strip_jsonc_comments : List ℕ → List ℕ
unfolding strip_from
strip_jsonc_comments = strip_from plain
