-- ===== src/Dotfile/Validate/Commands.antt =====
-- The walk over a JSON value against the list of the commands in it.
use rato.Prelude.{String, Bool, List, [], ◌∷◌, ◌++◌, ◌≡◌, refl, ◌==◌, if◌then◌else◌, arith}
use rato.Prelude.Result.{Result, ok, err}
use rato.Dotfile.Validate.{
  DotfileError, missing_mcp_command, Value, Values, Fields, other, string, array, object, no_values,
  value, no_fields, field, walk_json, walk_values, walk_fields, check_command,
  validate_mcp_commands, and_then,
}

-- The text under a field with the name "command".
abbrev pub command_of : String → Value → List String
command_of key (string s) = if key == "command" then s ∷ [] else []
command_of key _ = []

-- The commands of a value, in the order of its arrays and of the entries of its maps.
unfoldable mutual
  pub commands : Value → List String
  commands other = []
  commands (string s) = []
  commands (array vs) = commands_in vs
  commands (object fs) = commands_of fs

  pub commands_in : Values → List String
  commands_in no_values = []
  commands_in (value v vs) = commands v ++ commands_in vs

  pub commands_of : Fields → List String
  commands_of no_fields = []
  commands_of (field key v fs) = command_of key v ++ (commands v ++ commands_of fs)

abbrev pub first_missing : (String → Bool) → List String → Result DotfileError (Unit {0})
first_missing exists [] = ok tt
first_missing exists (c ∷ cs) =
    if exists c then first_missing exists cs else err (missing_mcp_command c)

first_missing-append :
    (exists : String → Bool) (cs ds : List String)
    → first_missing exists (cs ++ ds)
      ≡ and_then (first_missing exists cs) (λ _. first_missing exists ds)
first_missing-append exists [] ds = refl
first_missing-append exists (c ∷ cs) ds = ground (arith, first_missing-append exists cs ds)

check_command-first :
    (exists : String → Bool) (key : String) (v : Value)
    → check_command exists key v ≡ first_missing exists (command_of key v)
unfolding check_command
check_command-first exists key other = ground arith
check_command-first exists key (string s) = ground arith
check_command-first exists key (array vs) = ground arith
check_command-first exists key (object fs) = ground arith

mutual
  unfolding walk_json commands

  walk-first :
      (exists : String → Bool) (v : Value)
      → walk_json (check_command exists) v ≡ first_missing exists (commands v)
  walk-first exists other = refl
  walk-first exists (string s) = refl
  walk-first exists (array vs) = walk_values-first exists vs
  walk-first exists (object fs) = walk_fields-first exists fs

  walk_values-first :
      (exists : String → Bool) (vs : Values)
      → walk_values (check_command exists) vs ≡ first_missing exists (commands_in vs)
  walk_values-first exists no_values = refl
  walk_values-first exists (value v vs) = rw (
    walk-first exists v,
    walk_values-first exists vs,
    first_missing-append exists (commands v) (commands_in vs),
  )

  walk_fields-first :
      (exists : String → Bool) (fs : Fields)
      → walk_fields (check_command exists) fs ≡ first_missing exists (commands_of fs)
  walk_fields-first exists no_fields = refl
  walk_fields-first exists (field key v fs) = rw (
    check_command-first exists key v,
    walk-first exists v,
    walk_fields-first exists fs,
    first_missing-append exists (command_of key v) (commands v ++ commands_of fs),
    first_missing-append exists (commands v) (commands_of fs),
  )

-- A JSON value passes exactly when every text in a field named "command", at any depth, is a command
-- that exists; otherwise the first that does not is the error, in the order of the arrays and of the
-- entries of the maps. An object's own "command" stands in front of what is inside that field.
pub validate_mcp_commands-first_missing :
    (exists : String → Bool) (v : Value)
    → validate_mcp_commands exists v ≡ first_missing exists (commands v)
unfolding validate_mcp_commands
validate_mcp_commands-first_missing = walk-first
