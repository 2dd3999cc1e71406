-- ===== src/Workbench/Git.antt =====
-- crates/rat-workbench/src/worktree.rs, the merge helpers, over the `git` command as an interface:
-- one call runs it in a directory and yields the status and the output, or nothing when the process
-- cannot be started. Its laws say which commands leave the live repositories as they are.
use rato.Prelude.{
  ℕ, String, ◌≡◌, Bool, true, false, not, ◌&&◌, Option, none, some, List, [], ◌∷◌, codes, contains,
  trim, if◌then◌else◌, refl, ◌∙◌, arith, ◌≢◌, ◌⊎◌, inl, inr,
}
use rato.Prelude.Paths.{Text}
use rato.Prelude.Utf8.{from_utf8}
use rato.Prelude.Result.{Result, ok, err, or_err, Exec, pure, fail, lift, ◌>>=◌, ◌>>◌, continue}

pub data WorkbenchError : Type 0 where
  io git_failed tmux_failed utf8 worktree_exists canonicalize escaped parse panicked :
      WorkbenchError

pub data MergeOutcome : Type 0 where
  merged : Text → MergeOutcome
  needs_manual : MergeOutcome

pub record Git : Type 1 where
  pub Disk : Type 0
  -- what the operator's repositories hold: branches, index and working tree
  pub Live : Type 0
  pub live : Disk → Live
  -- `Command::new("git").current_dir(dir).args(args).output()`
  pub git : String → List String → Disk → Option (Bool × List ℕ) × Disk
  -- whether the installed git is 2.38 or later
  pub has_merge_tree : Bool
  -- the directory that `is_fast_mergeable_via_clone` works in, if it can be made
  pub clone_dir : Option String
  pub remove_dir : String → Disk → Disk
  pub merge_tree-live :
      (dir branch : String) (d : Disk)
      → live (git dir ("merge-tree" ∷ "--write-tree" ∷ "HEAD" ∷ branch ∷ []) d).1 ≡ live d
  -- `git clone` writes to its target, which is the scratch directory here
  pub clone-live :
      (dir to : String) (d : Disk)
      → clone_dir ≡ some to
      → live (git dir ("clone" ∷ "--local" ∷ dir ∷ to ∷ []) d).1 ≡ live d
  -- in the scratch clone, a fetch from its origin, a checkout, a merge and its abort write to the clone
  pub fetch-live :
      (to branch : String) (d : Disk)
      → clone_dir ≡ some to
      → live (git to ("fetch" ∷ "origin" ∷ branch ∷ []) d).1 ≡ live d
  pub checkout-live :
      (to branch : String) (d : Disk)
      → clone_dir ≡ some to
      → live (git to ("checkout" ∷ "-b" ∷ branch ∷ "FETCH_HEAD" ∷ []) d).1 ≡ live d
  pub dry_run-live :
      (to : String) (d : Disk)
      → clone_dir ≡ some to
      → live (git to ("merge" ∷ "--no-commit" ∷ "--no-ff" ∷ "FETCH_HEAD" ∷ []) d).1 ≡ live d
  pub abort-live :
      (to : String) (d : Disk)
      → clone_dir ≡ some to
      → live (git to ("merge" ∷ "--abort" ∷ []) d).1 ≡ live d
  pub remove-live : (to : String) (d : Disk) → clone_dir ≡ some to → live (remove_dir to d) ≡ live d

module _ (G : Git) where
  open G use {Disk, git}

  git_in_raw : String → List String → Exec Disk WorkbenchError (Bool × List ℕ)
  git_in_raw dir args d =
      let (out, d') = git dir args d in elim out [ none ↦ (err io, d') | some r ↦ (ok r, d') ]

  -- The output of a command that succeeds, as text.
  git_in : String → List String → Exec Disk WorkbenchError Text
  unfolding git_in_raw from_utf8
  git_in dir args = do
    out ← git_in_raw dir args
    if out.0 then lift (or_err (from_utf8 out.1) utf8) else fail git_failed

  -- `let _ = git_in(…)`: the result is dropped.
  try_git : String → List String → Exec Disk WorkbenchError (Unit {0})
  try_git dir args d = (ok tt, (git dir args d).1)

  try_remove : String → Exec Disk WorkbenchError (Unit {0})
  try_remove dir d = (ok tt, G.remove_dir dir d)

  via_clone_in : String → String → String → Exec Disk WorkbenchError Bool
  unfolding git_in_raw git_in try_git try_remove
  via_clone_in to repo_root branch = do
    cloned ← git_in_raw repo_root ("clone" ∷ "--local" ∷ repo_root ∷ to ∷ [])
    if not cloned.0 then (do try_remove to; pure false) else do
      git_in to ("fetch" ∷ "origin" ∷ branch ∷ [])
      try_git to ("checkout" ∷ "-b" ∷ branch ∷ "FETCH_HEAD" ∷ [])
      result ← git_in_raw to ("merge" ∷ "--no-commit" ∷ "--no-ff" ∷ "FETCH_HEAD" ∷ [])
      try_git to ("merge" ∷ "--abort" ∷ [])
      try_remove to
      pure result.0

  -- `tempfile_dir()?` may have failed.
  clone_in : String → String → Option String → Exec Disk WorkbenchError Bool
  unfolding via_clone_in
  clone_in repo_root branch none = fail io
  clone_in repo_root branch (some to) = via_clone_in to repo_root branch

  is_fast_mergeable_via_clone : String → String → Exec Disk WorkbenchError Bool
  unfolding clone_in
  is_fast_mergeable_via_clone repo_root branch = clone_in repo_root branch G.clone_dir

  via_merge_tree : String → String → Exec Disk WorkbenchError Bool
  unfolding git_in_raw
  via_merge_tree repo_root branch = do
    out ← git_in_raw repo_root ("merge-tree" ∷ "--write-tree" ∷ "HEAD" ∷ branch ∷ [])
    pure (out.0 && not (contains out.1 (codes "<<<<<<<")))

  unfoldable pub is_fast_mergeable : String → String → Exec Disk WorkbenchError Bool
  unfolding via_merge_tree is_fast_mergeable_via_clone
  is_fast_mergeable repo_root branch =
      if G.has_merge_tree
      then via_merge_tree repo_root branch
      else is_fast_mergeable_via_clone repo_root branch

  -- `merge_into_live` after its check.
  merge_checked : String → String → Bool → Exec Disk WorkbenchError MergeOutcome
  unfolding git_in
  merge_checked repo_root branch clean = if not clean then pure needs_manual else do
    git_in repo_root ("merge" ∷ "--no-ff" ∷ "--no-edit" ∷ branch ∷ [])
    sha ← git_in repo_root ("rev-parse" ∷ "HEAD" ∷ [])
    pure (merged (trim sha))

  unfoldable pub merge_into_live : String → String → Exec Disk WorkbenchError MergeOutcome
  unfolding merge_checked
  merge_into_live repo_root branch = do
    clean ← is_fast_mergeable repo_root branch
    merge_checked repo_root branch clean

  -- The action leaves the live repositories as they are, whether it returns or fails.
  record Quiet {A : Type 0} (m : Exec Disk WorkbenchError A) : Type 0 where
    at : (d : Disk) → G.live (m d).1 ≡ G.live d

  continue-live :
      {A B : Type 0} (f : A → Exec Disk WorkbenchError B) (r : Result WorkbenchError A) (d : Disk)
      → ((a : A) → Quiet (f a))
      → G.live (continue r f d).1 ≡ G.live d
  continue-live f (ok a) d kf = (kf a).at d
  continue-live f (err e) d kf = refl

  Quiet-bind :
      {A B : Type 0} (m : Exec Disk WorkbenchError A) (f : A → Exec Disk WorkbenchError B)
      → Quiet m
      → ((a : A) → Quiet (f a))
      → Quiet (m >>= f)
  Quiet-bind m f km kf = record { at = λ d. continue-live f (m d).0 (m d).1 kf ∙ km.at d }

  Quiet-if :
      {A : Type 0} (b : Bool) (m n : Exec Disk WorkbenchError A)
      → Quiet m
      → Quiet n
      → Quiet (if b then m else n)
  Quiet-if true m n km kn = km
  Quiet-if false m n km kn = kn

  Quiet-pure : {A : Type 0} (a : A) → Quiet {A = A} (pure a)
  Quiet-pure a = record { at = λ d. refl }

  Quiet-fail : {A : Type 0} (e : WorkbenchError) → Quiet {A = A} (fail e)
  Quiet-fail e = record { at = λ d. refl }

  Quiet-lift : {A : Type 0} (r : Result WorkbenchError A) → Quiet {A = A} (lift r)
  Quiet-lift r = record { at = λ d. refl }

  module _ (dir : String) (args : List String)
      (h : (d : Disk) → G.live (git dir args d).1 ≡ G.live d) where
    git_in_raw-Quiet : Quiet (git_in_raw dir args)
    unfolding git_in_raw
    git_in_raw-Quiet = record { at = λ d. ground (arith, h d) }

    git_in-Quiet : Quiet (git_in dir args)
    unfolding git_in
    git_in-Quiet = Quiet-bind _ _ git_in_raw-Quiet λ out.
        Quiet-if out.0 _ _ (Quiet-lift (or_err (from_utf8 out.1) utf8)) (Quiet-fail git_failed)

    try_git-Quiet : Quiet (try_git dir args)
    unfolding try_git
    try_git-Quiet = record { at = h }

  module _ (to : String) (made : G.clone_dir ≡ some to) where
    try_remove-Quiet : Quiet (try_remove to)
    unfolding try_remove
    try_remove-Quiet = record { at = λ d. G.remove-live to d made }

    via_clone_in-Quiet : (repo_root branch : String) → Quiet (via_clone_in to repo_root branch)
    unfolding via_clone_in
    via_clone_in-Quiet repo_root branch =
        Quiet-bind _ _ (git_in_raw-Quiet repo_root _ λ d. G.clone-live repo_root to d made)
          λ cloned.
            Quiet-if (not cloned.0) _ _ (Quiet-bind _ _ try_remove-Quiet λ _. Quiet-pure false) (
              Quiet-bind _ _ (git_in-Quiet to _ λ d. G.fetch-live to branch d made) λ _.
                Quiet-bind _ _ (try_git-Quiet to _ λ d. G.checkout-live to branch d made) λ _.
                  Quiet-bind _ _ (git_in_raw-Quiet to _ λ d. G.dry_run-live to d made) λ result.
                    Quiet-bind _ _ (try_git-Quiet to _ λ d. G.abort-live to d made)
                      λ _. Quiet-bind _ _ try_remove-Quiet λ _. Quiet-pure result.0)

  clone_in-Quiet :
      (repo_root branch : String) (o : Option String)
      → G.clone_dir ≡ o
      → Quiet (clone_in repo_root branch o)
  unfolding clone_in
  clone_in-Quiet repo_root branch none e = Quiet-fail io
  clone_in-Quiet repo_root branch (some to) e = via_clone_in-Quiet to e repo_root branch

  via_merge_tree-Quiet : (repo_root branch : String) → Quiet (via_merge_tree repo_root branch)
  unfolding via_merge_tree
  via_merge_tree-Quiet repo_root branch =
      Quiet-bind _ _ (git_in_raw-Quiet repo_root _ (G.merge_tree-live repo_root branch))
        λ out. Quiet-pure _

  -- The check for a clean merge leaves the live repositories as they are, on both of its paths and
  -- whatever the commands return.
  pub is_fast_mergeable-live :
      (repo_root branch : String) (d : Disk)
      → G.live (is_fast_mergeable repo_root branch d).1 ≡ G.live d
  unfolding is_fast_mergeable
  is_fast_mergeable-live repo_root branch d =
      (Quiet-if G.has_merge_tree _ _ (via_merge_tree-Quiet repo_root branch)
          (clone_in-Quiet repo_root branch G.clone_dir refl)).at
        d

  -- The outcome of a merge whose check did not find the branch clean.
  abbrev pub Withheld : Result WorkbenchError Bool → Result WorkbenchError MergeOutcome → Type 0
  Withheld check outcome =
      ((check ≡ ok false) × (outcome ≡ ok needs_manual))
      ⊎ ((e : WorkbenchError) × (check ≡ err e) × (outcome ≡ err e))

  merge_checked-unclean :
      (repo_root branch : String) (r : Result WorkbenchError Bool) (d : Disk)
      → r ≢ ok true
      → (G.live (continue r (merge_checked repo_root branch) d).1 ≡ G.live d)
        × Withheld r (continue r (merge_checked repo_root branch) d).0
  unfolding merge_checked
  merge_checked-unclean repo_root branch (ok true) d h = absurd (h refl)
  merge_checked-unclean repo_root branch (ok false) d h = (refl, inl (refl, refl))
  merge_checked-unclean repo_root branch (err e) d h = (refl, inr (e, refl, refl))

  -- `merge_into_live` runs `git merge` only behind a check that found the branch clean. Where the check
  -- did not, the repositories are as they were; the caller is told to merge by hand, or gets the
  -- error of the check.
  pub merge_into_live-unclean :
      (repo_root branch : String) (d : Disk)
      → (is_fast_mergeable repo_root branch d).0 ≢ ok true
      → (G.live (merge_into_live repo_root branch d).1 ≡ G.live d)
        × Withheld (is_fast_mergeable repo_root branch d).0 (merge_into_live repo_root branch d).0
  unfolding merge_into_live
  merge_into_live-unclean repo_root branch d h =
      let (same, withheld) =
        merge_checked-unclean repo_root branch (is_fast_mergeable repo_root branch d).0
          (is_fast_mergeable repo_root branch d).1 h in
      (same ∙ is_fast_mergeable-live repo_root branch d, withheld)
