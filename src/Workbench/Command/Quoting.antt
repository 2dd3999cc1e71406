-- ===== src/Workbench/Command/Quoting.antt =====
-- How a POSIX shell reads a quoted argument back.
use rato.Prelude.{
  ℕ, List, [], ◌∷◌, ◌++◌, ◌≡◌, refl, sym, ap, zero, suc, drop, starts_with, ◌∙◌, codes, eqb,
  if◌then◌else◌, Bool-cases, inl, inr, Bool, any, eqb→eq,
}
use mathlib.Core.List.{append_assoc, append-nil}
use rato.Workbench.Command.{
  escape_quotes, shell_quote, shell_escape_path, docker_run_command, docker, wrapped_run_command,
}

-- Where the shell stands in a word.
pub data Quoting : Type 0 where
  plain escaped quoted : Quoting

-- Blanks, operators, expansions and the double quote: what ends the reading below.
unfoldable pub is_special : ℕ → Bool
is_special c = any (λ m. eqb c m) (codes " \t\n;&|<>()$`\"*?[#~=%!{}")

-- One word by quote removal, up to the first special character that stands unquoted: the text of the
-- word, and what follows.
unfoldable pub read_word : Quoting → List ℕ → List ℕ × List ℕ
unfolding is_special
read_word _ [] = ([], [])
read_word plain (c ∷ s) =
    let inside = read_word quoted s in
    let next = read_word escaped s in
    let (w, rest) = read_word plain s in
    if eqb c 39
    then inside
    else if eqb c 92
    then next
    else if is_special c
    then ([], c ∷ s)
    else (c ∷ w, rest)
read_word escaped (c ∷ s) = let (w, rest) = read_word plain s in (c ∷ w, rest)
read_word quoted (c ∷ s) =
    let outside = read_word plain s in
    let (w, rest) = read_word quoted s in if eqb c 39 then outside else (c ∷ w, rest)

abbrev pub before : List ℕ → List ℕ × List ℕ → List ℕ × List ℕ
before s (w, rest) = (s ++ w, rest)

read_word-escape_quotes :
    (s rest : List ℕ)
    → read_word quoted (escape_quotes s ++ 39 ∷ rest) ≡ before s (read_word plain rest)
unfolding read_word escape_quotes
read_word-escape_quotes [] rest = refl
read_word-escape_quotes (c ∷ s) rest = elim (Bool-cases (eqb c 39)) [
  | inl e ↦ rw e (
      ap (before (39 ∷ [])) (read_word-escape_quotes s rest)
      ∙ ap (λ d. before (d ∷ s) (read_word plain rest)) (sym (eqb→eq c 39 e)))
  | inr e ↦ rw (e, e) (ap (before (c ∷ [])) (read_word-escape_quotes s rest))
]

-- Whatever text is quoted, and whatever follows it, the shell reads the quoted text back as it was,
-- as the front of a word, and goes on with what follows.
pub read_word-shell_quote :
    (s rest : List ℕ) → read_word plain (shell_quote s ++ rest) ≡ before s (read_word plain rest)
unfolding read_word shell_quote
read_word-shell_quote s rest =
    ap (read_word quoted) (append_assoc (escape_quotes s) (39 ∷ []) rest)
    ∙ read_word-escape_quotes s rest

-- The words of one simple command, at most n: a blank goes on to the next word, and any other special
-- character ends the command and is left standing.
unfoldable pub read_words : ℕ → List ℕ → List (List ℕ) × List ℕ
unfolding read_word
read_words zero s = ([], s)
read_words (suc n) s =
    let (w, rest) = read_word plain s in
    let (ws, end) = read_words n (drop 1 rest) in
    if starts_with rest (codes " ") then (w ∷ ws, end) else (w ∷ [], rest)

-- Whatever the image, the path of the worktree and the agent's command are, the first command that the
-- shell reads on the line of a container run is `docker` with these eleven arguments, separated by
-- blanks; behind the semicolon that ends it the line goes on to print the exit code.
pub read_words-wrapped_run_command :
    (headless_cmd container_cmd worktree_path image : List ℕ)
    → read_words 20 (wrapped_run_command headless_cmd container_cmd worktree_path (docker image))
      ≡ (
        codes "docker"
            ∷ codes "run"
            ∷ codes "--rm"
            ∷ codes "-i"
            ∷ codes "-v"
            ∷ (worktree_path ++ codes ":/workspace")
            ∷ codes "-w"
            ∷ codes "/workspace"
            ∷ image
            ∷ codes "sh"
            ∷ codes "-lc"
            ∷ container_cmd
            ∷ [],
        codes "; echo RATO_EXIT=$?",
      )
unfolding read_words read_word starts_with wrapped_run_command docker_run_command shell_escape_path
read_words-wrapped_run_command headless_cmd container_cmd worktree_path image =
    simp (append_assoc, read_word-escape_quotes, append-nil)
