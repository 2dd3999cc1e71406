-- ===== src/Policy.antt =====
-- crates/rat-policy/src/lib.rs: the fixed table of risk tiers, and the two maps between a tier and
-- the integer of `approvals.risk` (crates/rat-workbench/src/runner.rs and the approvals handler of
-- crates/rat-daemon/src/server.rs).
use rato.Prelude.{ℕ, zero, suc, ◌≡◌, ◌↔◌, refl, Bool, true, false, arith, leb}

pub data ActionKind : Type 0 where
  sensor_read transcript_parse : ActionKind
  worktree_create workbench_file_write pin dotfile_edit_managed mcp_known_edit : ActionKind
  command_outside_worktree terminal_inject merge_back live_repo_write : ActionKind
  project_local_install mcp_new_binary : ActionKind
  global_install shell_startup_edit config_outside_safe git_force_push : ActionKind
  sudo_anything : ActionKind

pub data Tier : Type 0 where
  r0 r1 r2 r3 : Tier

pub data RiskOutcome : Type 0 where
  tier : Tier → RiskOutcome
  refused : RiskOutcome

unfoldable pub risk_tier : ActionKind → RiskOutcome
risk_tier sensor_read = tier r0
risk_tier transcript_parse = tier r0
risk_tier worktree_create = tier r1
risk_tier workbench_file_write = tier r1
risk_tier pin = tier r1
risk_tier dotfile_edit_managed = tier r1
risk_tier mcp_known_edit = tier r1
risk_tier command_outside_worktree = tier r2
risk_tier terminal_inject = tier r2
risk_tier merge_back = tier r2
risk_tier live_repo_write = tier r2
risk_tier project_local_install = tier r2
risk_tier mcp_new_binary = tier r2
risk_tier global_install = tier r3
risk_tier shell_startup_edit = tier r3
risk_tier config_outside_safe = tier r3
risk_tier git_force_push = tier r3
risk_tier sudo_anything = refused

unfoldable pub requires_approval : Tier → Bool
requires_approval r2 = true
requires_approval r3 = true
requires_approval _ = false

unfoldable pub requires_slug : Tier → Bool
requires_slug r3 = true
requires_slug _ = false

unfoldable pub tier_to_i64 : Tier → ℕ
tier_to_i64 r0 = 0
tier_to_i64 r1 = 1
tier_to_i64 r2 = 2
tier_to_i64 r3 = 3

-- The match on `approval.risk` in the approvals handler.
unfoldable pub tier_of_risk : ℕ → Tier
tier_of_risk zero = r0
tier_of_risk (suc zero) = r1
tier_of_risk (suc (suc zero)) = r2
tier_of_risk (suc (suc (suc zero))) = r3
tier_of_risk (suc (suc (suc (suc n)))) = r2

-- A tier survives the trip through the stored integer; on that integer approval means at least 2 and
-- a typed slug at least 3.
pub tier_of_risk-tier_to_i64 :
    (t : Tier)
    → (tier_of_risk (tier_to_i64 t) ≡ t)
      × (requires_approval t ≡ leb 2 (tier_to_i64 t))
      × (requires_slug t ≡ leb 3 (tier_to_i64 t))
unfolding tier_of_risk tier_to_i64 requires_approval requires_slug
tier_of_risk-tier_to_i64 r0 = (refl, refl, refl)
tier_of_risk-tier_to_i64 r1 = (refl, refl, refl)
tier_of_risk-tier_to_i64 r2 = (refl, refl, refl)
tier_of_risk-tier_to_i64 r3 = (refl, refl, refl)

-- A stored risk asks for a typed slug exactly when it is 3: every larger integer is read as R2.
pub requires_slug-tier_of_risk : (n : ℕ) → (requires_slug (tier_of_risk n) ≡ true) ↔ (n ≡ 3)
unfolding tier_of_risk requires_slug
requires_slug-tier_of_risk zero = (λ h. ground arith, λ h. ground arith)
requires_slug-tier_of_risk (suc zero) = (λ h. ground arith, λ h. ground arith)
requires_slug-tier_of_risk (suc (suc zero)) = (λ h. ground arith, λ h. ground arith)
requires_slug-tier_of_risk (suc (suc (suc zero))) = (λ h. ground arith, λ h. ground arith)
requires_slug-tier_of_risk (suc (suc (suc (suc n)))) = (λ h. ground arith, λ h. ground arith)
