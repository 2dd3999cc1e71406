-- ===== src/Dotfile/Apply.antt =====
-- `apply_atomic`, `revert`, `atomic_write` and `simple_diff` of crates/rat-dotfile/src/lib.rs, over the
-- file system. `pid` is the number of the process, as it is printed.
pub mod Atomic
pub mod Revert
use rato.Prelude.{
  ℕ, Bool, Option, none, some, List, [], ◌∷◌, ◌++◌, ◌≡◌, refl, codes, text_eq, trim_end,
  if◌then◌else◌, String,
}
use rato.Prelude.Utf8.{from_utf8_lossy}
use rato.Prelude.Result.{Result, ok, err, map_err, Exec, pure, fail, lift, gets, ◌>>=◌, ◌>>◌}
use rato.Prelude.Paths.{FilePath, Text, file_name, parent}
use rato.Dotfile.Files.{Fs}
use rato.Dotfile.Validate.{ConfigKind, DotfileError, io, Parsers, validate}

pub record DotfileSnapshot : Type 0 where
  pub path : FilePath
  pub before : List ℕ
  pub after : List ℕ
  pub diff : Text

abbrev pub or_default : Option (List ℕ) → List ℕ
or_default none = []
or_default (some bytes) = bytes

unfoldable pub simple_diff : List ℕ → List ℕ → Text
unfolding text_eq from_utf8_lossy trim_end
simple_diff before after =
    if text_eq before after
    then []
    else (codes "--- before\n+++ after\n-"
        ++ (trim_end (from_utf8_lossy before)
            ++ (codes "\n+" ++ (trim_end (from_utf8_lossy after) ++ codes "\n"))))

-- `unwrap_or_else(|| Path::new("."))`
abbrev pub or_here : Option FilePath → FilePath
or_here none = codes "." ∷ []
or_here (some p) = p

abbrev pub or_dotfile : Option Text → Text
or_dotfile none = codes "dotfile"
or_dotfile (some n) = n

unfoldable pub tmp_path : Text → FilePath → FilePath
unfolding parent file_name
tmp_path pid path =
    (codes "." ++ (or_dotfile (file_name path) ++ (codes ".rato-tmp-" ++ pid)))
    ∷ or_here (parent path)

module _ (fs : Fs) where
  open fs use {Disk}

  -- `e?` on a result of `std::io`.
  abbrev pub io_step : (Disk → Result String (Unit {0}) × Disk) → Exec Disk DotfileError (Unit {0})
  io_step call d = let (r, d') = call d in (map_err io r, d')

  unfoldable pub atomic_write : Text → FilePath → List ℕ → Exec Disk DotfileError (Unit {0})
  unfolding tmp_path
  atomic_write pid path bytes = do
    io_step (fs.create_dir_all (or_here (parent path)))
    io_step (fs.create (tmp_path pid path))
    io_step (fs.write_all (tmp_path pid path) bytes)
    io_step (fs.sync_all (tmp_path pid path))
    io_step (fs.rename (tmp_path pid path) path)

  unfoldable pub apply_atomic :
      Parsers
      → (String → Bool)
      → Text
      → FilePath
      → ConfigKind
      → List ℕ
      → Exec Disk DotfileError DotfileSnapshot
  unfolding validate atomic_write
  apply_atomic P exists pid path kind after = do
    lift (validate P exists kind after)
    before ← gets (λ d. or_default (fs.read path d))
    atomic_write pid path after
    pure (record { path = path; diff = simple_diff before after; before = before; after = after })

  unfoldable pub revert : Text → DotfileSnapshot → Exec Disk DotfileError DotfileSnapshot
  unfolding atomic_write
  revert pid snapshot = do
    current ← gets (λ d. or_default (fs.read snapshot.path d))
    atomic_write pid snapshot.path snapshot.before
    pure (record {
      path = snapshot.path;
      diff = simple_diff current snapshot.before;
      before = current;
      after = snapshot.before;
    })
