-- ===== src/Examples/Workbench.antt =====
-- Runs of merges, polls and commands on small inputs.
use rato.Prelude.{
  String, leb, ◌&&◌, ℕ, ◌≢◌, ◌≡◌, refl, ◌⊎◌, true, false, not, ◌==◌, Bool, Option, some, List, [],
  ◌∷◌, ◌++◌, codes, arith,
}
use rato.Prelude.Result.{ok}
use rato.Examples.Fixtures.{counting_git, small_env, small_world, merge_approval}
use rato.Workbench.Git.{Git, is_fast_mergeable, merge_into_live, merge_into_live-unclean, Withheld}
use rato.Workbench.Merge.{execute_merge, Untouched, MergeReady}
use rato.Workbench.Merge.Guards.{execute_merge-guarded}
use rato.Workbench.Poll.{Tmux}
use rato.Workbench.Command.{docker, shell_quote, wrapped_run_command}
use rato.Workbench.Command.Quoting.{
  plain, read_word, read_words, before, read_word-shell_quote, read_words-wrapped_run_command,
}

execute_merge-guarded_example :
    Untouched small_env small_world
      (execute_merge small_env (merge_approval "a1" 2 "approved") 20 21 small_world).1
    ⊎ MergeReady small_env (merge_approval "a1" 2 "approved") 20 small_world
execute_merge-guarded_example =
    execute_merge-guarded small_env (merge_approval "a1" 2 "approved") 20 21 small_world

-- A git that finds a conflict in the scratch clone.
abbrev conflicting_run : String → List String → ℕ → Option (Bool × List ℕ) × ℕ
conflicting_run dir [] d = (some (true, []), d)
conflicting_run dir (a ∷ args) d = (some (not (a == "merge"), codes "<<<<<<<"), d)

abbrev conflicting_git : Git
conflicting_git = record counting_git {
  git = conflicting_run;
  merge_tree-live = λ dir branch d. refl;
  clone-live = λ dir to d e. refl;
  fetch-live = λ to branch d e. refl;
  checkout-live = λ to branch d e. refl;
  dry_run-live = λ to d e. refl;
  abort-live = λ to d e. refl;
}

conflict : (is_fast_mergeable conflicting_git "/repo" "rato/fix" 4).0 ≡ ok false
unfolding is_fast_mergeable
conflict = refl

conflict-ne : (is_fast_mergeable conflicting_git "/repo" "rato/fix" 4).0 ≢ ok true
conflict-ne e = ground (arith, conflict, e)

merge_into_live-unclean_example :
    ((merge_into_live conflicting_git "/repo" "rato/fix" 4).1 ≡ 4)
    × Withheld conflicting_git
        (is_fast_mergeable conflicting_git "/repo" "rato/fix" 4).0
        (merge_into_live conflicting_git "/repo" "rato/fix" 4).0
merge_into_live-unclean_example =
    merge_into_live-unclean conflicting_git "/repo" "rato/fix" 4 conflict-ne

-- A server whose windows show this tail.
abbrev small_tmux : Tmux
small_tmux = record {
  Server = List ℕ;
  window_alive = λ target server. true;
  capture_tail = λ target n server. some server;
  is_digit = λ c. leb 48 c && leb c 57;
  is_digit-ascii = λ c h. refl;
}

read_word-shell_quote_example :
    read_word plain (shell_quote (codes "it's; rm") ++ codes " &")
    ≡ before (codes "it's; rm") (read_word plain (codes " &"))
read_word-shell_quote_example = read_word-shell_quote (codes "it's; rm") (codes " &")

read_words-wrapped_run_command_example :
    read_words 20
      (wrapped_run_command [] (codes "codex exec 'x'") (codes "/w t") (docker (codes "img")))
    ≡ (
      codes "docker"
          ∷ codes "run"
          ∷ codes "--rm"
          ∷ codes "-i"
          ∷ codes "-v"
          ∷ codes "/w t:/workspace"
          ∷ codes "-w"
          ∷ codes "/workspace"
          ∷ codes "img"
          ∷ codes "sh"
          ∷ codes "-lc"
          ∷ codes "codex exec 'x'"
          ∷ [],
      codes "; echo RATO_EXIT=$?",
    )
read_words-wrapped_run_command_example =
    read_words-wrapped_run_command [] (codes "codex exec 'x'") (codes "/w t") (codes "img")
