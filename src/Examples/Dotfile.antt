-- ===== src/Examples/Dotfile.antt =====
-- A file system in memory, and edits of configuration files in it.
use rato.Prelude.{
  ℕ, ◌≡◌, ◌≢◌, refl, Bool, true, false, Option, none, some, List, [], ◌∷◌, ◌++◌, String, codes, map,
  arith, text_eq, if◌then◌else◌, Bool-cases, inl, inr, ◌==◌, All,
}
use rato.Prelude.Utf8.{from_utf8, from_utf8_lossy}
use rato.Prelude.Result.{ok, err}
use rato.Dotfile.Jsonc.{strip_jsonc_comments}
use rato.Dotfile.Jsonc.Comments.{
  Piece, text, literal, line_comment, block_comment, IsPiece, render, without_comments,
  strip_jsonc_comments-render,
}
use rato.Prelude.Paths.{FilePath, path_eq, path_eq_sound, path_eq_refl}
use rato.Dotfile.Files.{Fs}
use rato.Dotfile.Validate.{
  jsonc, Value, field, no_fields, object, string, Parsers, validate, validate_mcp_commands,
  missing_mcp_command,
}
use rato.Dotfile.Validate.Commands.{commands, first_missing, validate_mcp_commands-first_missing}
use rato.Dotfile.Apply.{tmp_path, apply_atomic, revert, atomic_write}
use rato.Dotfile.Apply.Atomic.{Applied, apply_atomic-Applied}
use rato.Dotfile.Apply.Revert.{undo, Undone, revert-apply_atomic}

pub path_eq_other : (p q : FilePath) → p ≢ q → path_eq p q ≡ false
path_eq_other p q n = elim (Bool-cases (path_eq p q)) [
  | inl e ↦ absurd (n (path_eq_sound p q e))
  | inr e ↦ e
]

abbrev pub MemoryDisk : Type 0
MemoryDisk = FilePath → Option (List ℕ)

abbrev pub put : FilePath → Option (List ℕ) → MemoryDisk → MemoryDisk
put p bytes d q = if path_eq q p then bytes else d q

abbrev pub append_to : Option (List ℕ) → List ℕ → Option (List ℕ)
append_to none bytes = none
append_to (some old) bytes = some (old ++ bytes)

pub ok-err : {A E : Type 0} (a : A) (e : E) → ok a ≢ err e
ok-err a e h = ground arith

-- Every call succeeds.
abbrev pub memory_fs : Fs
memory_fs = record {
  Disk = MemoryDisk;
  read = λ p d. d p;
  create_dir_all = λ p d. (ok tt, d);
  create = λ p d. (ok tt, put p (some []) d);
  write_all = λ p bytes d. (ok tt, put p (append_to (d p) bytes) d);
  sync_all = λ p d. (ok tt, d);
  rename = λ p to d. (ok tt, put to (d p) (put p none d));
  read-create_dir_all = λ p q d. refl;
  create-other = λ p q d n. rw (path_eq_other q p n);
  create-empty = λ p d e. rw (path_eq_refl p);
  write-other = λ p q bytes d n. rw (path_eq_other q p n);
  write-appends = λ p old bytes d h e. rw (path_eq_refl p, h);
  read-sync_all = λ p q d. refl;
  rename-other = λ p to q d n m. rw (path_eq_other q to m, path_eq_other q p n);
  rename-moves = λ p to d e. rw (path_eq_refl to);
  rename-fails = λ p to q m d e. absurd (ok-err tt m e);
}

abbrev config_pieces : List Piece
config_pieces =
    text (codes "{")
    ∷ block_comment (codes " // ")
    ∷ literal (map (λ c. (false, c)) (codes "command"))
    ∷ text (codes ": ")
    ∷ literal (map (λ c. (false, c)) (codes "a//b"))
    ∷ line_comment (codes " \"old\"")
    ∷ text (codes "}")
    ∷ []

strips :
    strip_jsonc_comments (codes "{/* // */\"command\": \"a//b\"// \"old\"\n}")
    ≡ codes "{\"command\": \"a//b\"\n}"
unfolding strip_jsonc_comments
strips = refl

config_pieces-IsPiece : All IsPiece config_pieces
config_pieces-IsPiece = ground arith

strip_jsonc_comments-render_example :
    strip_jsonc_comments (render config_pieces) ≡ without_comments config_pieces
strip_jsonc_comments-render_example =
    strip_jsonc_comments-render config_pieces config_pieces-IsPiece

abbrev config : Value
config = object (field "command" (string "a//b") no_fields)

-- It reads one document.
abbrev pub small_parsers : Parsers
small_parsers = record {
  json_bytes = λ bytes. err "not read";
  json_text = λ t. if text_eq t (without_comments config_pieces) then ok config else err "syntax";
  toml_text = λ t. ok tt;
  yaml_bytes = λ bytes. ok tt;
}

abbrev has_ls : String → Bool
has_ls c = c == "ls"

abbrev pub has_all : String → Bool
has_all c = true

refuses :
    validate small_parsers has_ls jsonc (render config_pieces) ≡ err (missing_mcp_command "a//b")
unfolding validate from_utf8 strip_jsonc_comments validate_mcp_commands text_eq
refuses = refl

abbrev config_path : FilePath
config_path = codes "mcp.json" ∷ codes "user" ∷ codes "/" ∷ []

abbrev empty_disk : MemoryDisk
empty_disk p = none

-- The revert of a new file leaves an empty one.
leaves_empty :
    memory_fs.read config_path
      (undo memory_fs (codes "7") (
        apply_atomic memory_fs small_parsers has_all
          (codes "7")
          config_path
          jsonc
          (render config_pieces)
          empty_disk)).1
    ≡ some []
unfolding apply_atomic revert validate from_utf8 strip_jsonc_comments validate_mcp_commands text_eq
    path_eq atomic_write tmp_path from_utf8_lossy
leaves_empty = refl

validate_mcp_commands-first_missing_example :
    validate_mcp_commands has_ls config ≡ first_missing has_ls (commands config)
validate_mcp_commands-first_missing_example = validate_mcp_commands-first_missing has_ls config

abbrev other_path : FilePath
other_path = codes "zshrc" ∷ codes "user" ∷ codes "/" ∷ []

other_path-config : other_path ≢ config_path
other_path-config e = ground arith

other_path-tmp : other_path ≢ tmp_path (codes "7") config_path
unfolding tmp_path
other_path-tmp e = ground arith

apply_atomic-Applied_example :
    Applied memory_fs small_parsers has_all config_path jsonc (render config_pieces) empty_disk (
      apply_atomic memory_fs small_parsers has_all
        (codes "7")
        config_path
        jsonc
        (render config_pieces)
        empty_disk)
    × (memory_fs.read other_path
          (apply_atomic memory_fs small_parsers has_all
            (codes "7")
            config_path
            jsonc
            (render config_pieces)
            empty_disk).1
        ≡ empty_disk other_path)
apply_atomic-Applied_example =
    apply_atomic-Applied memory_fs small_parsers has_all (codes "7") config_path jsonc
      (render config_pieces) other_path empty_disk other_path-config other_path-tmp

revert-apply_atomic_example :
    let applied =
      apply_atomic memory_fs small_parsers has_all
        (codes "7")
        config_path
        jsonc
        (render config_pieces)
        empty_disk in
    Undone memory_fs config_path none
      (render config_pieces)
      applied
      (undo memory_fs (codes "7") applied)
revert-apply_atomic_example =
    revert-apply_atomic memory_fs small_parsers has_all (codes "7") config_path jsonc
      (render config_pieces) empty_disk
