-- ===== src/Workbench/Host.antt =====
-- What crates/rat-workbench calls of the machine, and crates/rat-workbench/src/tmux.rs over it: a command
-- is run with its arguments and gives its status and its output, or nothing if it cannot be started. Texts
-- are lists of code points, an output is its bytes.
use rato.Prelude.{
  ℕ, String, Bool, false, Option, none, some, List, [], ◌∷◌, ◌++◌, codes, if◌then◌else◌,
}
use rato.Prelude.Paths.{FilePath, Text, path_text}
use rato.Prelude.Utf8.{from_utf8}
use rato.Prelude.Result.{Result, ok, err, or_err, Exec, pure, ◌>>=◌, ◌>>◌}
use rato.Workbench.Git.{WorkbenchError, io, git_failed, tmux_failed, utf8}

pub record Host : Type 1 where
  pub Disk : Type 0
  -- `Command::new("git").current_dir(dir).args(args).output()`
  pub git : FilePath → List Text → Disk → Option (Bool × List ℕ) × Disk
  -- `tmux -L <socket>` with the arguments
  pub tmux : List Text → Disk → Option (Bool × List ℕ) × Disk
  pub exists : FilePath → Disk → Bool
  pub is_file : FilePath → Disk → Bool
  pub is_dir : FilePath → Disk → Bool
  pub read_to_string : FilePath → Disk → Option Text
  pub canonicalize : FilePath → Disk → Option FilePath
  pub data_dir : FilePath
  -- the hexadecimal SHA-256 of a text, `{:x}` of a number, and a number as it is printed
  pub sha256_hex : Text → Text
  pub lower_hex : ℕ → Text
  pub decimal : ℕ → Text
  -- `char::is_alphanumeric`
  pub is_alphanumeric : ℕ → Bool
  -- a text as the store keeps it
  pub string_of : Text → String

module _ (H : Host) where
  open H use {Disk}

  -- A step of the runner on the machine.
  abbrev pub OnHost : Type 0 → Type 0
  OnHost A = Exec Disk WorkbenchError A

  -- `output()?`, then the output as text, or the error of a status that is none of success.
  abbrev pub text_of : WorkbenchError → Option (Bool × List ℕ) → Result WorkbenchError Text
  text_of failed none = err io
  text_of failed (some (succeeded, bytes)) =
      if succeeded then or_err (from_utf8 bytes) utf8 else err failed

  unfoldable pub git_in : FilePath → List Text → OnHost Text
  unfolding from_utf8
  git_in dir args d = let (out, d') = H.git dir args d in (text_of git_failed out, d')

  unfoldable pub tmux_run : List Text → OnHost Text
  unfolding from_utf8
  tmux_run args d = let (out, d') = H.tmux args d in (text_of tmux_failed out, d')

  unfoldable pub ensure_server : OnHost (Unit {0})
  unfolding tmux_run
  ensure_server = do tmux_run (codes "start-server" ∷ []); pure tt

  abbrev pub session_exists : Option (Bool × List ℕ) → Result WorkbenchError Bool
  session_exists none = err io
  session_exists (some (succeeded, bytes)) = ok succeeded

  unfoldable pub ensure_session : Text → OnHost (Unit {0})
  unfolding tmux_run
  ensure_session name = do
    there ← (λ d.
        let (out, d') = H.tmux (codes "has-session" ∷ codes "-t" ∷ name ∷ []) d in
        (session_exists out, d'))
    if there
        then pure tt
        else (do tmux_run (codes "new-session" ∷ codes "-d" ∷ codes "-s" ∷ name ∷ []); pure tt)

  unfoldable pub new_window : Text → Text → FilePath → OnHost Text
  unfolding tmux_run path_text
  new_window session name cwd = do
    tmux_run (
        codes "new-window"
        ∷ codes "-d"
        ∷ codes "-t"
        ∷ session
        ∷ codes "-n"
        ∷ name
        ∷ codes "-c"
        ∷ path_text cwd
        ∷ [])
    pure (session ++ (codes ":" ++ name))

  -- The keys of a command, and Enter.
  unfoldable pub run_in_window : Text → Text → OnHost (Unit {0})
  unfolding tmux_run
  run_in_window target cmd = do
    tmux_run (codes "send-keys" ∷ codes "-l" ∷ codes "-t" ∷ target ∷ cmd ∷ [])
    tmux_run (codes "send-keys" ∷ codes "-t" ∷ target ∷ codes "Enter" ∷ [])
    pure tt

  unfoldable pub capture_tail : Text → ℕ → OnHost Text
  unfolding tmux_run
  capture_tail target lines = tmux_run (
      codes "capture-pane"
      ∷ codes "-p"
      ∷ codes "-t"
      ∷ target
      ∷ codes "-S"
      ∷ (codes "-" ++ H.decimal lines)
      ∷ [])

  abbrev pub is_success : Option (Bool × List ℕ) → Bool
  is_success none = false
  is_success (some (succeeded, bytes)) = succeeded

  unfoldable pub window_alive : Text → Disk → Bool × Disk
  window_alive target d =
      let (out, d') = H.tmux (codes "has-session" ∷ codes "-t" ∷ target ∷ []) d in
      (is_success out, d')

  unfoldable pub kill_window : Text → OnHost (Unit {0})
  unfolding tmux_run
  kill_window target = do tmux_run (codes "kill-window" ∷ codes "-t" ∷ target ∷ []); pure tt

  unfoldable pub kill_server : OnHost (Unit {0})
  kill_server d = (ok tt, (H.tmux (codes "kill-server" ∷ []) d).1)
