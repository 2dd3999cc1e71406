-- ===== src/Examples/Store.antt =====
-- Runs of the store on small inputs.
use rato.Prelude.{
  ℕ, ◌+◌, String, Option, none, some, List, [], ◌∷◌, ◌≡◌, refl, arith, filter, length, ltb,
}
use rato.Examples.Fixtures.{small_call, Js, js_number, merge_approval}
use rato.Store.Sql.{list_sql}
use rato.Store.Approvals.{
  Approval, approval_id, Op, decides, expires, do_get_approval, do_pending_approvals,
  do_expire_approvals, run,
}
use rato.Store.Approvals.Decisions.{SameDecision, do_get_approval-run}
use rato.Store.Approvals.Expiry.{do_pending_approvals-do_expire_approvals}
use rato.Store.Pins.{Pin}
use rato.Store.Prune.{ApiCallRow, call_id, old_api_call, prune_loop}
use rato.Store.Prune.Batches.{Pruned, prune_loop-Pruned}

abbrev decided : Approval Js
decided = merge_approval "a1" 2 "denied"

abbrev two_approvals : List (Approval Js)
two_approvals = decided ∷ merge_approval "a2" 2 "pending" ∷ []

abbrev later : List (Op {V = Js} (list_sql approval_id))
later = decides "a1" "approved" 50 "cli" none ∷ expires 5000 ∷ []

do_get_approval-run_example :
    SameDecision
      (list_sql approval_id)
      decided
      (do_get_approval (list_sql approval_id) "a1" (run (list_sql approval_id) later two_approvals))
unfolding do_get_approval
do_get_approval-run_example =
    do_get_approval-run (list_sql approval_id) "a1" decided later two_approvals refl refl

do_pending_approvals-do_expire_approvals_example :
    (do_pending_approvals
        (list_sql approval_id)
        (do_expire_approvals (list_sql approval_id) 1000 two_approvals).1
      ≡ filter
          (λ a. ltb 1000 a.expires_at)
          (do_pending_approvals (list_sql approval_id) two_approvals))
    × (length (do_pending_approvals (list_sql approval_id) two_approvals)
        ≡ (do_expire_approvals (list_sql approval_id) 1000 two_approvals).0
          + length (
              do_pending_approvals
                (list_sql approval_id)
                (do_expire_approvals (list_sql approval_id) 1000 two_approvals).1))
do_pending_approvals-do_expire_approvals_example =
    do_pending_approvals-do_expire_approvals (list_sql approval_id) 1000 two_approvals

abbrev small_pin : String → Option ℕ → Pin Js
small_pin id at = record {
  id = id;
  kind = "auto";
  media = "audio";
  path = "/pins";
  created = 1;
  expires_at = at;
  reason = "r";
  meta = js_number 0;
}

abbrev two_pins : List (Pin Js)
two_pins = small_pin "p1" (some 10) ∷ small_pin "p2" none ∷ []

abbrev three_calls : List (ApiCallRow ℕ)
three_calls = small_call "c1" 1 ∷ small_call "c2" 90 ∷ small_call "c3" 2 ∷ []

prune_loop-Pruned_example :
    Pruned call_id
      (old_api_call 50)
      (list_sql call_id)
      0
      three_calls
      (prune_loop (list_sql call_id) (old_api_call 50) 3 1 0 three_calls)
prune_loop-Pruned_example =
    prune_loop-Pruned call_id (old_api_call 50) (list_sql call_id) 3 1 0 three_calls
      ((refl, (refl, tt)), ((refl, tt), (tt, tt))) (omega arith) (omega arith)
