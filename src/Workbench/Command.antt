-- ===== src/Workbench/Command.antt =====
-- crates/rat-workbench/src/runner.rs and src/adapter.rs of the same crate: the command line that a run
-- sends to its window. Texts are lists of code points; the adapter's part of the command is an argument.
pub mod Quoting
use rato.Prelude.{ℕ, List, [], ◌∷◌, ◌++◌, codes, eqb, if◌then◌else◌}

pub data ExecutionBackend : Type 0 where
  local : ExecutionBackend
  docker : List ℕ → ExecutionBackend

unfoldable pub mode_label : ExecutionBackend → List ℕ
mode_label local = codes "headless"
mode_label (docker image) = codes "docker:" ++ image

-- `replace('\'', r"'\''")`
unfoldable pub escape_quotes : List ℕ → List ℕ
escape_quotes [] = []
escape_quotes (c ∷ s) =
    if eqb c 39 then 39 ∷ 92 ∷ 39 ∷ 39 ∷ escape_quotes s else c ∷ escape_quotes s

unfoldable pub shell_quote : List ℕ → List ℕ
unfolding escape_quotes
shell_quote s = 39 ∷ (escape_quotes s ++ 39 ∷ [])

unfoldable pub shell_escape_path : List ℕ → List ℕ
unfolding escape_quotes
shell_escape_path path = 39 ∷ (escape_quotes path ++ 39 ∷ [])

unfoldable pub docker_run_command : List ℕ → List ℕ → List ℕ → List ℕ
unfolding shell_quote shell_escape_path
docker_run_command image worktree_path inner_cmd =
    codes "docker run --rm -i -v "
    ++ shell_escape_path worktree_path
    ++ codes ":/workspace -w /workspace "
    ++ shell_quote image
    ++ codes " sh -lc "
    ++ shell_quote inner_cmd

-- `headless_cmd` of the Codex adapter.
unfoldable pub codex_cmd : List ℕ → List ℕ
unfolding shell_quote
codex_cmd task = codes "codex exec " ++ shell_quote task

-- The two commands of an adapter are given: `headless_cmd` and `container_cmd`, on the title.
unfoldable pub wrapped_run_command : List ℕ → List ℕ → List ℕ → ExecutionBackend → List ℕ
unfolding docker_run_command shell_escape_path
wrapped_run_command headless_cmd container_cmd worktree_path local =
    codes "cd "
    ++ shell_escape_path worktree_path
    ++ codes " && "
    ++ headless_cmd
    ++ codes "; echo RATO_EXIT=$?"
wrapped_run_command headless_cmd container_cmd worktree_path (docker image) =
    docker_run_command image worktree_path container_cmd ++ codes "; echo RATO_EXIT=$?"
