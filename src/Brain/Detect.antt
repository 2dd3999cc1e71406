-- ===== src/Brain/Detect.antt =====
-- crates/rat-brain/src/detect.rs: loops and bursts of failing commands. `as_i64` reads a JSON number. The
-- map by command gives its groups in no fixed order; here it is the order of their first failures.
use rato.Prelude.{
  ℕ, ◌+◌, String, Bool, true, false, not, ◌&&◌, ◌||◌, Option, none, some, List, [], ◌∷◌, ◌++◌, map,
  ◌==◌, text_eq, trim, is_whitespace, pieces, if◌then◌else◌, eqb, leb, length, take, drop, filter,
  is_empty,
}
use rato.Prelude.Paths.{Text}
use rato.Store.Sql.{Json}
use rato.Store.Order.{order_by}
use rato.Store.Prune.{Observation}

pub data Signal : Type 0 where
  -- the command, its failures, and three of them
  stuck : Text → ℕ → List String → Signal
  burst : List String → Signal

-- An `i64`, from its JSON number.
pub data Int64 : Type 0 where
  pos : ℕ → Int64
  negsuc : ℕ → Int64

abbrev pub is_zero : Int64 → Bool
is_zero (pos n) = eqb n 0
is_zero (negsuc n) = false

-- The text in front of the first "=".
unfoldable pub before_eq : Text → Option Text
before_eq [] = none
before_eq (c ∷ s) =
    let rest = before_eq s in
    if eqb c 61 then some [] else (elim rest [ none ↦ none | some k ↦ some (c ∷ k) ])

abbrev pub is_ascii_upper : ℕ → Bool
is_ascii_upper c = leb 65 c && leb c 90

abbrev pub is_key_char : ℕ → Bool
is_key_char c = is_ascii_upper c || (leb 48 c && leb c 57) || eqb c 95

unfoldable pub all_key : Text → Bool
all_key [] = true
all_key (c ∷ s) = is_key_char c && all_key s

-- A first character that is no ASCII fails the test of the whole key.
unfoldable pub is_key : Text → Bool
unfolding all_key
is_key [] = false
is_key (c ∷ s) = (is_ascii_upper c || eqb c 95) && all_key (c ∷ s)

unfoldable pub is_env_assignment : Text → Bool
unfolding before_eq is_key
is_env_assignment token = elim (before_eq token) [ none ↦ false | some key ↦ is_key key ]

-- `split_whitespace`
unfoldable pub words : Text → List Text
unfolding pieces is_whitespace
words s = filter (λ w. not (is_empty w)) (pieces is_whitespace s)

-- On the words: what stands behind a token and the space after it are the words behind the first.
unfoldable pub strip_env_assignments : List Text → List Text
unfolding is_env_assignment
strip_env_assignments [] = []
strip_env_assignments (w ∷ ws) =
    let rest = strip_env_assignments ws in if is_env_assignment w then rest else w ∷ ws

abbrev pub join_spaced : List Text → Text
join_spaced [] = []
join_spaced (w ∷ []) = w
join_spaced (w ∷ v ∷ ws) = w ++ (32 ∷ join_spaced (v ∷ ws))

unfoldable pub normalize_cmd : Text → Text
unfolding words strip_env_assignments trim
normalize_cmd content = join_spaced (strip_env_assignments (words (trim content)))

abbrev pub Entry : Type 0
Entry = ℕ × String

-- `by_cmd.entry(norm).or_default().push(…)`
unfoldable pub push_entry : Text → Entry → List (Text × List Entry) → List (Text × List Entry)
unfolding text_eq
push_entry cmd e [] = (cmd, e ∷ []) ∷ []
push_entry cmd e ((k, es) ∷ groups) =
    let rest = push_entry cmd e groups in
    if text_eq k cmd then (k, es ++ e ∷ []) ∷ groups else (k, es) ∷ rest

abbrev earlier : Entry → Entry → Bool
earlier (ts, id) (ts', id') = leb ts ts'

-- The first window of `suc k` entries, in order of time, that spans no more than `span`.
unfoldable pub find_window : ℕ → ℕ → List Entry → Option (List Entry)
find_window k span [] = none
find_window k span (x ∷ xs) =
    let rest = find_window k span xs in
    elim (drop k (x ∷ xs)) [
      | [] ↦ none
      | y ∷ ys ↦ if leb y.0 (x.0 + span) then some (x ∷ take k xs) else rest
    ]

abbrev pub ids_of : List Entry → List String
ids_of = map (λ (e : Entry). e.1)

-- The loop over the groups.
unfoldable pub stuck_in : List (Text × List Entry) → Option Signal
unfolding find_window order_by
stuck_in [] = none
stuck_in ((cmd, es) ∷ groups) =
    let entries = order_by earlier es in
    let rest = stuck_in groups in
    elim (find_window 2 600000 entries) [
      | none ↦ rest
      | some window ↦ some (stuck cmd (length entries) (ids_of window))
    ]

module _ (J : Json) (as_i64 : J.Value → Option Int64) where
  open J use {Value}

  unfoldable pub exit_code : Observation Value → Int64
  exit_code o = elim (J.get o.meta "exit") [
    | none ↦ pos 0
    | some v ↦ elim (as_i64 v) [ none ↦ pos 0 | some n ↦ n ]
  ]

  unfoldable pub is_failure : Observation Value → Bool
  unfolding exit_code
  is_failure o = o.kind == "shell_cmd" && not (is_zero (exit_code o))

  abbrev pub entry_of : Observation Value → Entry
  entry_of o = (o.ts, o.id)

  unfoldable pub group_failures :
      List (Observation Value) → List (Text × List Entry) → List (Text × List Entry)
  unfolding push_entry normalize_cmd
  group_failures [] groups = groups
  group_failures (o ∷ os) groups =
      group_failures os
        (if is_failure o then push_entry (normalize_cmd o.content) (entry_of o) groups else groups)

  unfoldable pub stuck_loop : List (Observation Value) → Option Signal
  unfolding stuck_in group_failures
  stuck_loop obs = stuck_in (group_failures obs [])

  unfoldable pub error_burst : List (Observation Value) → Option Signal
  unfolding find_window order_by
  error_burst obs =
      elim (find_window 9 300000 (order_by earlier (map entry_of (filter is_failure obs)))) [
        | none ↦ none
        | some window ↦ some (burst (ids_of window))
      ]
