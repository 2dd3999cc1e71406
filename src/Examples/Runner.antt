-- ===== src/Examples/Runner.antt =====
-- A run that is merged back, the guard of its worktree, and the slugs of titles.
use rato.Prelude.{
  ℕ, ◌↔◌, none, suc, ◌≡◌, refl, Bool, true, false, ◌&&◌, ◌||◌, some, [], ◌∷◌, codes, leb, is_empty,
  length, if◌then◌else◌,
}
use rato.Prelude.Result.{ok, err}
use rato.Store.Sql.{list_sql}
use rato.Store.Approvals.{approval_id}
use rato.Store.Runs.{run_id}
use rato.Store.Blobs.{blob_id}
use rato.Workbench.Host.{Host}
use rato.Workbench.Start.{title_to_slug}
use rato.Workbench.Start.Slug.{words, joined, title_to_slug-words}
use rato.Workbench.Git.{escaped}
use rato.Workbench.Worktree.{find_project_root_from_worktree, escape_guard, parse_u32}
use rato.Workbench.Worktree.Guard.{Inside, escape_guard-ok_iff}
use rato.Workbench.MergeBack.{Env, World, merge_back}
use rato.Workbench.MergeBack.Asks.{Asked, merge_back-Asked}
use rato.Examples.Fixtures.{js_json, small_run}

-- A machine whose disk counts the commands; each prints "ok".
abbrev counting_host : Host
counting_host = record {
  Disk = ℕ;
  git = λ dir args d. (some (true, codes "ok"), suc d);
  tmux = λ args d. (some (true, []), suc d);
  exists = λ p d. false;
  is_file = λ p d. true;
  is_dir = λ p d. false;
  read_to_string = λ p d. some (codes "gitdir: /repo/.git/worktrees/t1");
  canonicalize = λ p d. some p;
  data_dir = codes "rato" ∷ codes "/" ∷ [];
  sha256_hex = λ t. t;
  lower_hex = λ n. n ∷ [];
  decimal = λ n. n ∷ [];
  is_alphanumeric = λ c. leb 97 c && leb c 122;
  string_of = λ t. "text";
}

abbrev runner : Env
runner = record {
  json = js_json;
  runs = list_sql run_id;
  approvals = list_sql approval_id;
  blobs = list_sql blob_id;
  blob_digest = λ bytes. bytes;
  host = counting_host;
}

abbrev one_run : World runner
one_run = record { runs = small_run "r1" "done" ∷ []; approvals = []; blobs = []; disk = 0 }

-- The worktree's pointer file leads to the repository.
finds_root :
    (find_project_root_from_worktree counting_host (codes "t1" ∷ codes "/" ∷ []) 0).0
    ≡ ok (codes "repo" ∷ codes "/" ∷ [])
unfolding find_project_root_from_worktree
finds_root = refl

-- Three commands run, and one approval is there.
asks_once :
    (length (merge_back runner "a1" "b1" 9 "r1" one_run).1.approvals ≡ 1)
    × ((merge_back runner "a1" "b1" 9 "r1" one_run).1.disk ≡ 3)
unfolding merge_back
asks_once = (refl, refl)

merge_back-Asked_example : Asked runner 9 "r1" one_run (merge_back runner "a1" "b1" 9 "r1" one_run)
merge_back-Asked_example = merge_back-Asked runner 9 "r1" one_run "a1" "b1"

abbrev is_letter : ℕ → Bool
is_letter c = (leb 65 c && leb c 90) || (leb 97 c && leb c 122)

slugs :
    (title_to_slug is_letter (codes "  add   CI/CD  ") ≡ codes "add-ci-cd")
    × (title_to_slug is_letter [] ≡ codes "task")
unfolding title_to_slug
slugs = (refl, refl)

title_to_slug-words_example : title_to_slug is_letter (codes "Fix the  bug!") ≡ (
    if is_empty (joined (words is_letter (codes "Fix the  bug!")))
    then codes "task"
    else joined (words is_letter (codes "Fix the  bug!")))
title_to_slug-words_example = title_to_slug-words is_letter refl (codes "Fix the  bug!")

-- A directory below the worktree, and a sibling whose name only begins alike.
guards :
    ((escape_guard counting_host
        (codes "t1" ∷ codes "/" ∷ [])
        (codes "src" ∷ codes "t1" ∷ codes "/" ∷ [])
        0).0
      ≡ ok tt)
    × ((escape_guard counting_host (codes "t1" ∷ codes "/" ∷ []) (codes "t11" ∷ codes "/" ∷ []) 0).0
        ≡ err escaped)
unfolding escape_guard
guards = (refl, refl)

escape_guard-ok_iff_example :
    ((escape_guard counting_host
        (codes "t1" ∷ codes "/" ∷ [])
        (codes "src" ∷ codes "t1" ∷ codes "/" ∷ [])
        0).0
      ≡ ok tt)
    ↔ Inside counting_host
        (codes "t1" ∷ codes "/" ∷ [])
        (codes "src" ∷ codes "t1" ∷ codes "/" ∷ [])
        0
escape_guard-ok_iff_example =
    escape_guard-ok_iff counting_host (codes "t1" ∷ codes "/" ∷ [])
      (codes "src" ∷ codes "t1" ∷ codes "/" ∷ []) 0

-- The count of commits, and what does not fit.
counts :
    (parse_u32 (codes "12") ≡ some 12)
    × ((parse_u32 (codes "+7") ≡ some 7) × (parse_u32 (codes "4294967296") ≡ none))
unfolding parse_u32
counts = (refl, (refl, refl))
