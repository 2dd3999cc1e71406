-- ===== src/Dotfile/Files.antt =====
-- What crates/rat-dotfile/src/lib.rs uses of `std::fs`. `Fs` is the file system: its laws say what each
-- call does to the files under other paths, where no two paths name one file (no links, no "..").
use rato.Prelude.{ℕ, ◌≡◌, ◌≢◌, Option, some, List, [], ◌++◌, String}
use rato.Prelude.Paths.{FilePath}
use rato.Prelude.Result.{Result, ok, err}

pub record Fs : Type 1 where
  pub Disk : Type 0
  pub read : FilePath → Disk → Option (List ℕ)
  pub create_dir_all : FilePath → Disk → Result String (Unit {0}) × Disk
  -- `File::create`, `write_all` and `sync_all`
  pub create : FilePath → Disk → Result String (Unit {0}) × Disk
  pub write_all : FilePath → List ℕ → Disk → Result String (Unit {0}) × Disk
  pub sync_all : FilePath → Disk → Result String (Unit {0}) × Disk
  pub rename : FilePath → FilePath → Disk → Result String (Unit {0}) × Disk
  pub read-create_dir_all : (p q : FilePath) (d : Disk) → read q (create_dir_all p d).1 ≡ read q d
  pub create-other : (p q : FilePath) (d : Disk) → q ≢ p → read q (create p d).1 ≡ read q d
  pub create-empty :
      (p : FilePath) (d : Disk) → (create p d).0 ≡ ok tt → read p (create p d).1 ≡ some []
  pub write-other :
      (p q : FilePath) (bytes : List ℕ) (d : Disk)
      → q ≢ p
      → read q (write_all p bytes d).1 ≡ read q d
  pub write-appends :
      (p : FilePath) (old bytes : List ℕ) (d : Disk)
      → read p d ≡ some old
      → (write_all p bytes d).0 ≡ ok tt
      → read p (write_all p bytes d).1 ≡ some (old ++ bytes)
  pub read-sync_all : (p q : FilePath) (d : Disk) → read q (sync_all p d).1 ≡ read q d
  -- A rename replaces the file at the target, or fails and changes nothing.
  pub rename-other :
      (p to q : FilePath) (d : Disk) → q ≢ p → q ≢ to → read q (rename p to d).1 ≡ read q d
  pub rename-moves :
      (p to : FilePath) (d : Disk)
      → (rename p to d).0 ≡ ok tt
      → read to (rename p to d).1 ≡ read p d
  pub rename-fails :
      (p to q : FilePath) (e : String) (d : Disk)
      → (rename p to d).0 ≡ err e
      → read q (rename p to d).1 ≡ read q d
