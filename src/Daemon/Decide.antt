-- ===== src/Daemon/Decide.antt =====
-- crates/rat-daemon/src/server.rs, the handler of APPROVALS_DECIDE, over the store and the task runner.
-- A response carries the approval that it shows, or the error code. `now` is the handler's reading of
-- the clock, `merge_now` and `ended` are those of `execute_merge`.
pub mod Gate
use rato.Prelude.{
  ℕ, String, ◌≡◌, Bool, true, false, not, ◌&&◌, Option, none, some, List, [], ◌∷◌, reverse, ◌==◌,
  if◌then◌else◌, take, codes, text_eq,
}
use rato.Prelude.Result.{Result, ok, err, Exec, pure, continue}
use rato.Policy.{tier_of_risk, requires_slug}
use rato.Store.Approvals.{Approval, StoreError, do_get_approval, do_decide_approval}
use rato.Workbench.Git.{WorkbenchError, MergeOutcome}
use rato.Workbench.Merge.{Env, Value, World, execute_merge, deny}

pub record DecideParams : Type 0 where
  pub id : String
  pub verdict : String
  pub slug : Option String
  pub note : Option String

pub data ErrCode : Type 0 where
  invalid_request internal : ErrCode

-- `chars().rev().take(6).collect().chars().rev().collect()`
unfoldable pub expected_slug : String → List ℕ
expected_slug id = reverse (take 6 (reverse (codes id)))

-- The match on `params.slug` of the R3 gate: true if the handler goes on.
unfoldable pub slug_matches : String → Option String → Bool
unfolding expected_slug text_eq
slug_matches id none = false
slug_matches id (some s) = text_eq (codes s) (expected_slug id)

-- `if requires_slug(approval_tier) { … }`
unfoldable pub passes_gate : {V : Type 0} → Approval V → Option String → Bool
unfolding slug_matches tier_of_risk requires_slug
passes_gate a slug = if requires_slug (tier_of_risk a.risk) then slug_matches a.id slug else true

module _ (E : Env) where
  abbrev pub Handler : Type 0
  Handler = World E → Result ErrCode (Approval (Value E)) × World E

  -- The last step of an approval: the row is fetched again.
  refetch : String → Approval (Value E) → World E → Approval (Value E)
  refetch id decided w = elim (do_get_approval E.approvals id w.approvals) [
    | none ↦ decided
    | some a ↦ a
  ]

  after_merge :
      String
      → Approval (Value E)
      → Result WorkbenchError MergeOutcome × World E
      → Result ErrCode (Approval (Value E)) × World E
  unfolding refetch
  after_merge id decided (ok outcome, w) = (ok (refetch id decided w), w)
  after_merge id decided (err e, w) = (err internal, w)

  after_approve : String → ℕ → ℕ → Result StoreError (Approval (Value E)) → Handler
  unfolding after_merge refetch
  after_approve id merge_now ended (err e) w = (err internal, w)
  after_approve id merge_now ended (ok decided) w =
      if decided.kind == "merge_back"
      then after_merge id decided (execute_merge E decided merge_now ended w)
      else (ok (refetch id decided w), w)

  approve : DecideParams → ℕ → ℕ → ℕ → Handler
  unfolding after_approve
  approve params now merge_now ended w =
      let (r, t) =
        do_decide_approval E.approvals params.id "approved" now "cli" params.note w.approvals in
      after_approve params.id merge_now ended r (record w { approvals = t })

  deny_or_fail : DecideParams → ℕ → Handler
  deny_or_fail params now w =
      let (r, w') = deny E params.id now params.note w in
      elim r [ ok a ↦ (ok a, w') | err e ↦ (err internal, w') ]

  decide_found : DecideParams → ℕ → ℕ → ℕ → Option (Approval (Value E)) → Handler
  unfolding approve deny_or_fail passes_gate
  decide_found params now merge_now ended none w = (err invalid_request, w)
  decide_found params now merge_now ended (some a) w =
      if not (passes_gate a params.slug)
      then (err invalid_request, w)
      else if params.verdict == "approve"
      then approve params now merge_now ended w
      else deny_or_fail params now w

  unfoldable pub approvals_decide : DecideParams → ℕ → ℕ → ℕ → Handler
  unfolding decide_found
  approvals_decide params now merge_now ended w =
      if not (params.verdict == "approve") && not (params.verdict == "deny")
      then (err invalid_request, w)
      else decide_found params now merge_now ended
          (do_get_approval E.approvals params.id w.approvals) w
