-- ===== src/Workbench/Worktree.antt =====
-- crates/rat-workbench/src/worktree.rs: the worktree of a run, its differences, its removal, and the guard of its
-- directory; with the way back to the repository, `find_project_root_from_worktree` of runner.rs. Paths
-- are valid UTF-8.
pub mod Guard
use rato.Prelude.{
  ℕ, ◌+◌, ◌-◌, ◌*◌, ◌^◌, ltb, leb, ◌&&◌, Bool, true, false, not, ◌||◌, Option, none, some, List, [],
  ◌∷◌, ◌++◌, map, eqb, take, drop, length, codes, trim, pieces, starts_with, if◌then◌else◌,
}
use rato.Prelude.Paths.{FilePath, Text, path_of, path_text, path_eq, parent}
use rato.Prelude.Result.{ok, err, or_err, pure, fail, lift, gets, ◌>>=◌, ◌>>◌}
use rato.Workbench.Git.{io, parse, worktree_exists, canonicalize, escaped}
use rato.Workbench.Host.{Host, OnHost, git_in}

pub record Worktree : Type 0 where
  pub path : FilePath
  pub branch : Text
  pub base : Text

-- `str::lines`: a line ends at "\n" or "\r\n". An empty piece at the end is a line here, and starts
-- with nothing that is looked for.
abbrev pub without_cr : Text → Text
without_cr [] = []
without_cr (c ∷ []) = if eqb c 13 then [] else c ∷ []
without_cr (c ∷ d ∷ s) = c ∷ without_cr (d ∷ s)

unfoldable pub find_prefixed : Text → List Text → Option Text
unfolding starts_with
find_prefixed prefix [] = none
find_prefixed prefix (l ∷ ls) =
    if starts_with l prefix then some (drop (length prefix) l) else find_prefixed prefix ls

-- The path behind "gitdir: " in a worktree's .git file.
unfoldable pub gitdir_of : Text → Option FilePath
unfolding find_prefixed pieces trim path_of
gitdir_of content =
    elim (find_prefixed (codes "gitdir: ") (map without_cr (pieces (λ c. eqb c 10) content))) [
      | none ↦ none
      | some rest ↦ some (path_of (trim rest))
    ]

-- `str::parse::<u32>`: digits behind an optional plus, below 2^32.
unfoldable pub digits_value : ℕ → Text → Option ℕ
digits_value n [] = some n
digits_value n (c ∷ s) =
    let rest = digits_value (n * 10 + (c - 48)) s in if leb 48 c && leb c 57 then rest else none

unfoldable pub below_2_32 : Option ℕ → Option ℕ
below_2_32 none = none
below_2_32 (some n) = if ltb n (2 ^ 32) then some n else none

unfoldable pub parse_u32 : Text → Option ℕ
unfolding digits_value below_2_32
parse_u32 [] = none
parse_u32 (c ∷ []) = digits_value 0 (c ∷ [])
parse_u32 (c ∷ d ∷ s) = below_2_32 (digits_value 0 (if eqb c 43 then d ∷ s else c ∷ d ∷ s))

-- Three components up: from <repo>/.git/worktrees/<name> to <repo>.
unfoldable pub three_up : FilePath → Option FilePath
unfolding parent
three_up p = elim (parent p) [
  | none ↦ none
  | some q ↦ elim (parent q) [ none ↦ none | some r ↦ parent r ]
]

-- `Path::starts_with`, by components.
unfoldable pub is_under : FilePath → FilePath → Bool
unfolding path_eq
is_under [] root = path_eq [] root
is_under (c ∷ cs) root = path_eq (c ∷ cs) root || is_under cs root

module _ (H : Host) where
  unfoldable pub canonical : FilePath → OnHost H FilePath
  canonical p d = (or_err (H.canonicalize p d) canonicalize, d)

  unfoldable pub repo_hash : FilePath → OnHost H Text
  unfolding canonical path_text
  repo_hash repo_root = do c ← canonical repo_root; pure (take 12 (H.sha256_hex (path_text c)))

  unfoldable pub create : FilePath → Text → Text → Text → OnHost H Worktree
  unfolding git_in repo_hash path_text trim
  create repo_root task_id slug base = do
    hash ← repo_hash repo_root
    let dir = task_id ∷ hash ∷ codes "worktrees" ∷ H.data_dir
    there ← gets (λ d. H.exists dir d)
    if there then fail worktree_exists else pure tt
    sha ← git_in H repo_root (codes "rev-parse" ∷ base ∷ [])
    git_in H repo_root (
        codes "worktree"
        ∷ codes "add"
        ∷ codes "-b"
        ∷ (codes "rato/" ++ slug)
        ∷ path_text dir
        ∷ base
        ∷ [])
    pure (record { path = dir; branch = codes "rato/" ++ slug; base = trim sha })

  unfoldable pub diffstat : Worktree → OnHost H Text
  unfolding git_in
  diffstat w = git_in H w.path (codes "diff" ∷ codes "--stat" ∷ (w.base ++ codes "...HEAD") ∷ [])

  unfoldable pub full_diff : Worktree → OnHost H Text
  unfolding git_in
  full_diff w = git_in H w.path (codes "diff" ∷ (w.base ++ codes "...HEAD") ∷ [])

  -- Number of commits ahead of `base`, as git counts and prints it.
  unfoldable pub commits_ahead : Worktree → OnHost H ℕ
  unfolding git_in parse_u32 trim
  commits_ahead w = do
    out ← git_in H w.path (codes "rev-list" ∷ codes "--count" ∷ (w.base ++ codes "..HEAD") ∷ [])
    lift (or_err (parse_u32 (trim out)) parse)

  unfoldable pub find_main_repo : FilePath → OnHost H FilePath
  unfolding gitdir_of three_up
  find_main_repo worktree_path d = elim (H.read_to_string (codes ".git" ∷ worktree_path) d) [
    | none ↦ (err io, d)
    | some content ↦ elim (gitdir_of content) [
      | none ↦ (err parse, d)
      | some gitdir ↦ (or_err (three_up gitdir) parse, d)
    ]
  ]

  unfoldable pub remove : Worktree → OnHost H (Unit {0})
  unfolding git_in find_main_repo path_text
  remove w = do
    main_repo ← find_main_repo w.path
    git_in H main_repo (codes "worktree" ∷ codes "remove" ∷ codes "--force" ∷ path_text w.path ∷ [])
    pure tt

  unfoldable pub escape_guard : FilePath → FilePath → OnHost H (Unit {0})
  unfolding canonical is_under
  escape_guard worktree_root cwd = do
    root ← canonical worktree_root
    current ← canonical cwd
    if is_under current root then pure tt else fail escaped

  -- The nearest directory above that has a .git.
  unfoldable pub up_to_git : FilePath → H.Disk → Option FilePath
  unfolding parent
  up_to_git [] d = if H.exists (codes ".git" ∷ []) d then some [] else none
  up_to_git (c ∷ cs) d =
      let above = up_to_git cs d in
      if H.exists (codes ".git" ∷ c ∷ cs) d
      then some (c ∷ cs)
      else if (elim (parent (c ∷ cs)) [ none ↦ true | some p ↦ false ])
      then none
      else above

  unfoldable pub find_project_root_from_worktree : FilePath → OnHost H FilePath
  unfolding up_to_git gitdir_of three_up
  find_project_root_from_worktree worktree_path d =
      let git_file = codes ".git" ∷ worktree_path in
      if not (H.is_file git_file d)
      then if H.is_dir git_file d
        then (ok worktree_path, d)
        else (or_err (up_to_git worktree_path d) parse, d)
      else (elim (H.read_to_string git_file d) [
        | none ↦ (err io, d)
        | some content ↦ elim (gitdir_of content) [
          | none ↦ (err parse, d)
          | some gitdir ↦ (or_err (three_up gitdir) parse, d)
        ]
      ])

  unfoldable pub derive_base_sha : FilePath → OnHost H Text
  unfolding git_in find_project_root_from_worktree trim
  derive_base_sha worktree_path = do
    main_repo ← find_project_root_from_worktree worktree_path
    sha ← git_in H main_repo (codes "rev-parse" ∷ codes "HEAD" ∷ [])
    pure (trim sha)
