-- ===== src/Inject.antt =====
-- crates/rat-inject/src/lib.rs: the ceremony between an approved request and the keystrokes. The bytes
-- are code points. The two structs with private fields are reached by `approve` and `verify` alone.
pub mod Ceremony
pub mod Paste
use rato.Prelude.{
  ℕ, String, Bool, true, false, not, ◌&&◌, Option, none, some, List, [], ◌∷◌, ◌++◌, ◌==◌,
  if◌then◌else◌, ltb, codes,
}
use rato.Prelude.Result.{Result, ok, err, Exec, ◌>>=◌}

pub data InjectionTarget : Type 0 where
  tmux_pane x11_window wayland_remote : String → InjectionTarget

pub record InjectionRequest : Type 0 where
  pub approval_id : String
  pub target : InjectionTarget
  pub exact_bytes : List ℕ
  pub include_enter : Bool
  pub created_ms : ℕ
  pub expires_at_ms : ℕ
  pub expected_command : String

pub record TargetSnapshot : Type 0 where
  pub exists : Bool
  pub current_command : Option String
  pub focused : Option Bool

pub data ModeState : Type 0 where
  active away : ModeState

pub data PlannedAction : Type 0 where
  paste_bracketed : List ℕ → PlannedAction
  press_enter : PlannedAction

pub record ApprovedInjection : Type 0 where
  pub request : InjectionRequest
  pub approved_at_ms : ℕ

pub record VerifiedInjection : Type 0 where
  pub request : InjectionRequest
  pub actions : List PlannedAction

pub data InjectionError : Type 0 where
  expired away_mode missing_target command_changed focus_mismatch : InjectionError

unfoldable pub approve : InjectionRequest → ℕ → Result InjectionError ApprovedInjection
approve r now =
    if ltb r.expires_at_ms now
    then err expired
    else ok (record { request = r; approved_at_ms = now })

-- ESC [ 2 0 0 ~ and ESC [ 2 0 1 ~
abbrev pub paste_start : List ℕ
paste_start = 27 ∷ codes "[200~"

abbrev pub paste_end : List ℕ
paste_end = 27 ∷ codes "[201~"

unfoldable pub bracketed_paste : List ℕ → List ℕ
bracketed_paste bytes = paste_start ++ (bytes ++ paste_end)

unfoldable pub is_away : ModeState → Bool
is_away away = true
is_away active = false

-- `current_command.as_deref() == Some(expected)`
unfoldable pub same_command : Option String → String → Bool
same_command none expected = false
same_command (some c) expected = c == expected

-- `matches!(target, X11Window { .. }) && focused != Some(true)`
unfoldable pub out_of_focus : InjectionTarget → Option Bool → Bool
out_of_focus (x11_window w) (some true) = false
out_of_focus (x11_window w) f = true
out_of_focus (tmux_pane p) f = false
out_of_focus (wayland_remote s) f = false

unfoldable pub planned : InjectionRequest → List PlannedAction
planned r =
    paste_bracketed (bracketed_paste r.exact_bytes)
    ∷ (if r.include_enter then press_enter ∷ [] else [])

unfoldable pub verify :
    ApprovedInjection → ℕ → ModeState → TargetSnapshot → Result InjectionError VerifiedInjection
verify a now mode snapshot =
    if ltb a.request.expires_at_ms now
    then err expired
    else if is_away mode
    then err away_mode
    else if not snapshot.exists
    then err missing_target
    else if not (same_command snapshot.current_command a.request.expected_command)
    then err command_changed
    else if out_of_focus a.request.target snapshot.focused
    then err focus_mismatch
    else ok (record { request = a.request; actions = planned a.request })
