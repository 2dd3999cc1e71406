-- ===== src/Examples/Fixtures.antt =====
-- Small instances of the interfaces: JSON values as a tree, a git whose disk counts the merges, and a
-- world with one approval and one run.
use rato.Prelude.{
  ℕ, ◌+◌, String, Bool, true, false, Option, none, some, List, [], ◌∷◌, ◌≡◌, refl, ◌==◌, eq_refl,
  arith, codes, if◌then◌else◌,
}
use rato.Store.Sql.{Json, list_sql}
use rato.Store.Approvals.{Approval, approval_id}
use rato.Store.Prune.{ApiCallRow}
use rato.Store.Runs.{AgentRun, run_id}
use rato.Workbench.Git.{Git}
use rato.Workbench.Merge.{Env, World}

mutual
  pub data Js : Type 0 where
    js_number : ℕ → Js
    js_string : String → Js
    js_text : List ℕ → Js
    js_array : Jss → Js
    js_object : Fields → Js

  pub data Jss : Type 0 where
    js_nil : Jss
    js_cons : Js → Jss → Jss

  pub data Fields : Type 0 where
    no_fields : Fields
    field : String → Js → Fields → Fields

abbrev pub of_list : List Js → Jss
of_list [] = js_nil
of_list (v ∷ vs) = js_cons v (of_list vs)

abbrev pub to_list : Jss → List Js
to_list js_nil = []
to_list (js_cons v vs) = v ∷ to_list vs

abbrev pub of_fields : List (String × Js) → Fields
of_fields [] = no_fields
of_fields ((k, v) ∷ fs) = field k v (of_fields fs)

abbrev pub get_field : Fields → String → Option Js
get_field no_fields k = none
get_field (field j v fs) k = if j == k then some v else get_field fs k

abbrev pub js_as_str : Js → Option String
js_as_str (js_string s) = some s
js_as_str _ = none

abbrev pub js_as_array : Js → Option (List Js)
js_as_array (js_array vs) = some (to_list vs)
js_as_array _ = none

abbrev pub js_get : Js → String → Option Js
js_get (js_object fs) k = get_field fs k
js_get _ k = none

pub get_field-first :
    (k : String) (v : Js) (fs : List (String × Js)) → get_field (of_fields ((k, v) ∷ fs)) k ≡ some v
get_field-first k v fs = rw (eq_refl k)

abbrev pub js_json : Json
js_json = record {
  Value = Js;
  string = js_string;
  text = js_text;
  number = js_number;
  array = λ vs. js_array (of_list vs);
  object = λ fs. js_object (of_fields fs);
  as_str = js_as_str;
  as_array = js_as_array;
  get = js_get;
  as_str-string = λ s. refl;
  get-object = get_field-first;
}

-- `git merge` in a directory other than the scratch clone adds one to the disk; each command succeeds
-- and prints a commit.
abbrev pub counting_run : String → List String → ℕ → Option (Bool × List ℕ) × ℕ
counting_run dir [] d = (some (true, []), d)
counting_run dir (a ∷ args) d = (
  some (true, codes "0123456789abcdef"),
  if dir == "/tmp/clone" then d else if a == "merge" then d + 1 else d,
)

pub at_clone : (to : String) → some "/tmp/clone" ≡ some to → to ≡ "/tmp/clone"
at_clone to e = ground (arith, e)

pub counting_run-at_clone :
    (to : String) (args : List String) (d : ℕ)
    → some "/tmp/clone" ≡ some to
    → (counting_run to args d).1 ≡ d
counting_run-at_clone to [] d e = refl
counting_run-at_clone to (a ∷ args) d e = rw (at_clone to e) refl

pub other_command :
    (dir a : String) (args : List String) (d : ℕ)
    → (a == "merge") ≡ false
    → (counting_run dir (a ∷ args) d).1 ≡ d
other_command dir a args d e = ground (arith, e)

-- A git without merge-tree, so that the check works in the scratch clone.
abbrev pub counting_git : Git
counting_git = record {
  Disk = ℕ;
  Live = ℕ;
  live = λ d. d;
  git = counting_run;
  has_merge_tree = false;
  clone_dir = some "/tmp/clone";
  remove_dir = λ to d. d;
  merge_tree-live =
      λ dir branch d. other_command dir "merge-tree" ("--write-tree" ∷ "HEAD" ∷ branch ∷ []) d refl;
  clone-live = λ dir to d e. other_command dir "clone" ("--local" ∷ dir ∷ to ∷ []) d refl;
  fetch-live = λ to branch d e. counting_run-at_clone to ("fetch" ∷ "origin" ∷ branch ∷ []) d e;
  checkout-live = λ to branch d e.
      counting_run-at_clone to ("checkout" ∷ "-b" ∷ branch ∷ "FETCH_HEAD" ∷ []) d e;
  dry_run-live = λ to d e.
      counting_run-at_clone to ("merge" ∷ "--no-commit" ∷ "--no-ff" ∷ "FETCH_HEAD" ∷ []) d e;
  abort-live = λ to d e. counting_run-at_clone to ("merge" ∷ "--abort" ∷ []) d e;
  remove-live = λ to d e. refl;
}

abbrev pub small_env : Env
small_env = record {
  json = js_json;
  git = counting_git;
  approvals = list_sql approval_id;
  runs = list_sql run_id;
}

abbrev pub merge_payload_js : Js
merge_payload_js =
    js_object (field "branch" (js_string "rato/fix") (field "target" (js_string "/repo") no_fields))

-- An approval of a merge, which expires at 1000.
abbrev pub merge_approval : String → ℕ → String → Approval Js
merge_approval id risk status = record {
  id = id;
  created = 10;
  kind = "merge_back";
  risk = risk;
  title = "Merge back";
  reason = "done";
  cwd = none;
  target = some "/repo";
  agent_identity = "codex";
  payload = merge_payload_js;
  expected_impact = js_number 0;
  expires_at = 1000;
  status = status;
  decided_at = none;
  decided_via = none;
  decision_note = none;
  execution = none;
}

abbrev pub small_run : String → String → AgentRun Js
small_run id status = record {
  id = id;
  adapter = "codex";
  task_title = "fix";
  project_id = "p";
  worktree_path = "/wt";
  branch = "rato/fix";
  tmux_target = some "rato:1";
  mode = "headless";
  status = status;
  tokens = js_number 0;
  cost_usd = js_number 0;
  started = 5;
  ended = none;
  result_summary = none;
  diffstat = none;
}

abbrev pub small_world : World small_env
small_world = record {
  approvals = merge_approval "01KTYABCDEFG" 3 "pending" ∷ [];
  runs = small_run "r1" "done" ∷ [];
  disk = 0;
}

abbrev pub small_call : String → ℕ → ApiCallRow ℕ
small_call id ts = record {
  id = id;
  ts = ts;
  model = "m";
  purpose = "critic";
  tokens_in = none;
  tokens_out = none;
  cost_usd = none;
  succeeded = true;
  error = none;
}
