-- ===== src/Dotfile/Validate.antt =====
-- `validate` of crates/rat-dotfile/src/lib.rs. The parsers of serde_json, toml and serde_yaml are
-- parameters. A JSON value has the constructors that the code tells apart: an object is the
-- entries of its map as serde_json iterates them, which is by key, with the last of the fields of a text
-- that share one; `other` is null, a Boolean or a number.
pub mod Commands
use rato.Prelude.{
  ℕ, String, Bool, true, false, not, ◌&&◌, Option, none, some, List, [], ◌∷◌, ◌≡◌, refl, ◌==◌,
  if◌then◌else◌,
}
use rato.Prelude.Utf8.{from_utf8}
use rato.Prelude.Result.{Result, ok, err, map_err}
use rato.Dotfile.Jsonc.{strip_jsonc_comments}

pub data ConfigKind : Type 0 where
  json jsonc toml yaml text : ConfigKind

pub data DotfileError : Type 0 where
  invalid_utf8 : DotfileError
  invalid_json invalid_toml invalid_yaml : String → DotfileError
  unsupported_kind : DotfileError
  missing_mcp_command : String → DotfileError
  io : String → DotfileError

mutual
  pub data Value : Type 0 where
    other : Value
    string : String → Value
    array : Values → Value
    object : Fields → Value

  pub data Values : Type 0 where
    no_values : Values
    value : Value → Values → Values

  pub data Fields : Type 0 where
    no_fields : Fields
    field : String → Value → Fields → Fields

pub record Parsers : Type 0 where
  -- `serde_json::from_slice`, and `from_str` on text
  pub json_bytes : List ℕ → Result String Value
  pub json_text : List ℕ → Result String Value
  pub toml_text : List ℕ → Result String (Unit {0})
  pub yaml_bytes : List ℕ → Result String (Unit {0})

-- `e?` in front of the rest.
abbrev pub and_then :
    {A B : Type 0} → Result DotfileError A → (A → Result DotfileError B) → Result DotfileError B
and_then (ok a) k = k a
and_then (err e) k = err e

-- `walk_json` calls `f` on each field of an object, in front of the walk into its value.
unfoldable mutual
  pub walk_json :
      (String → Value → Result DotfileError (Unit {0})) → Value → Result DotfileError (Unit {0})
  walk_json f other = ok tt
  walk_json f (string s) = ok tt
  walk_json f (array vs) = walk_values f vs
  walk_json f (object fs) = walk_fields f fs

  pub walk_values :
      (String → Value → Result DotfileError (Unit {0})) → Values → Result DotfileError (Unit {0})
  walk_values f no_values = ok tt
  walk_values f (value v vs) = and_then (walk_json f v) (λ _. walk_values f vs)

  pub walk_fields :
      (String → Value → Result DotfileError (Unit {0})) → Fields → Result DotfileError (Unit {0})
  walk_fields f no_fields = ok tt
  walk_fields f (field key v fs) =
      and_then (f key v) (λ _. and_then (walk_json f v) (λ _. walk_fields f fs))

abbrev pub as_str : Value → Option String
as_str (string s) = some s
as_str _ = none

unfoldable pub check_command : (String → Bool) → String → Value → Result DotfileError (Unit {0})
check_command command_exists key v =
    if key == "command"
    then (elim (as_str v) [
      | none ↦ ok tt
      | some command ↦ if command_exists command then ok tt else err (missing_mcp_command command)
    ])
    else ok tt

unfoldable pub validate_mcp_commands : (String → Bool) → Value → Result DotfileError (Unit {0})
unfolding walk_json check_command
validate_mcp_commands command_exists v = walk_json (check_command command_exists) v

abbrev pub or_utf8_error : Option (List ℕ) → Result DotfileError (List ℕ)
or_utf8_error none = err invalid_utf8
or_utf8_error (some t) = ok t

unfoldable pub validate :
    Parsers → (String → Bool) → ConfigKind → List ℕ → Result DotfileError (Unit {0})
validate P exists json bytes =
    and_then (map_err invalid_json (P.json_bytes bytes)) (validate_mcp_commands exists)
validate P exists jsonc bytes = and_then (or_utf8_error (from_utf8 bytes)) λ t.
    and_then (map_err invalid_json (P.json_text (strip_jsonc_comments t)))
      (validate_mcp_commands exists)
validate P exists toml bytes =
    and_then (or_utf8_error (from_utf8 bytes)) λ t. map_err invalid_toml (P.toml_text t)
validate P exists yaml bytes = map_err invalid_yaml (P.yaml_bytes bytes)
validate P exists text bytes = and_then (or_utf8_error (from_utf8 bytes)) λ t. ok tt
