-- ===== src/Examples/Inject.antt =====
-- Runs of an injection on small inputs.
use rato.Prelude.{◌≡◌, refl, true, none, some, [], ◌++◌, arith, codes, ◌↔◌}
use rato.Prelude.Result.{ok}
use rato.Inject.{
  InjectionRequest, tmux_pane, ApprovedInjection, TargetSnapshot, VerifiedInjection, active,
  planned, verify, is_away, same_command, out_of_focus, bracketed_paste, paste_end,
}
use rato.Inject.Ceremony.{Allowed, Plan, verify-ok_iff}
use rato.Inject.Paste.{read_paste, read_paste-bracketed_paste}

abbrev small_request : InjectionRequest
small_request = record {
  approval_id = "a1";
  target = tmux_pane "%1";
  exact_bytes = codes "ls";
  include_enter = true;
  created_ms = 1;
  expires_at_ms = 100;
  expected_command = "bash";
}

abbrev small_approved : ApprovedInjection
small_approved = record { request = small_request; approved_at_ms = 2 }

abbrev small_snapshot : TargetSnapshot
small_snapshot = record { exists = true; current_command = some "bash"; focused = none }

abbrev small_verified : VerifiedInjection
small_verified = record { request = small_request; actions = planned small_request }

verify-ok_iff_example : (verify small_approved 50 active small_snapshot ≡ ok small_verified) ↔ (
    Allowed small_request 50 active small_snapshot
    × ((small_verified.request ≡ small_request) × Plan small_request small_verified.actions))
verify-ok_iff_example = verify-ok_iff small_approved 50 active small_snapshot small_verified

verify_passes : verify small_approved 50 active small_snapshot ≡ ok small_verified
unfolding verify is_away same_command out_of_focus
verify_passes = refl

read_paste-bracketed_paste_example :
    (read_paste (bracketed_paste (codes "ls")) ≡ some (codes "ls", []))
    × (read_paste (bracketed_paste (codes "ls" ++ (paste_end ++ codes "rm")))
        ≡ some (codes "ls", codes "rm" ++ paste_end))
read_paste-bracketed_paste_example =
    read_paste-bracketed_paste (codes "ls") (codes "rm")
      ((λ e. ground arith), ((λ e. ground arith), tt))
