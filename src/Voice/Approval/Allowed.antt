-- ===== src/Voice/Approval/Allowed.antt =====
-- When a spoken decision goes through.
use rato.Prelude.{
  ℕ, ◌<◌, String, Option, none, some, List, ◌≡◌, ap, Bool, true, eq_iff, eq_refl, leb-false, arith,
  contains, if◌then◌else◌, ◌↔◌,
}
use rato.Voice.Approval.{
  ApprovalSnapshot, PopupState, allow, is_visible, to_lowercase, spoken_slug,
  voice_approval_decision,
}

is_visible-true :
    (approval : ApprovalSnapshot) (shown : Option String)
    → is_visible approval (record { visible_approval_id = shown }) ≡ true
    → shown ≡ some approval.id
unfolding is_visible
is_visible-true approval none e = ground arith
is_visible-true approval (some id) e = ap some ((eq_iff id approval.id).0 e)

is_visible_shown :
    (approval : ApprovalSnapshot) (popup : PopupState)
    → popup.visible_approval_id ≡ some approval.id
    → is_visible approval popup ≡ true
unfolding is_visible
is_visible_shown approval popup e = rw e (eq_refl approval.id)

module _ (digest : String → ℕ × ℕ) where
  -- A spoken decision goes through if and only if the approval is pending, its popup is the one that is
  -- shown, its risk is below 3, and the utterance has its slug in whatever case; the decision is then
  -- about that approval, and it is the one asked for.
  pub voice_approval_decision-allow :
      (approval : ApprovalSnapshot) (popup : PopupState) (utterance : List ℕ) (approve : Bool)
      (id status : String)
      → (voice_approval_decision digest approval popup utterance approve ≡ allow id status) ↔ (
          (approval.status ≡ "pending")
          × (popup.visible_approval_id ≡ some approval.id)
          × (approval.risk < 3)
          × (contains (to_lowercase utterance) (spoken_slug digest approval.id) ≡ true)
          × (id ≡ approval.id)
          × (status ≡ (if approve then "approved" else "denied")))
  unfolding voice_approval_decision is_visible
  voice_approval_decision-allow approval popup utterance approve id status = (
    λ e. (
      ground (arith, (eq_iff approval.status "pending").0),
      is_visible-true approval popup.visible_approval_id (ground arith),
      ground arith,
      ground arith,
      ground arith,
      ground arith,
    ),
    λ (pending, visible, low, heard, same, chosen). rw (
      pending,
      is_visible_shown approval popup visible,
      leb-false 3 approval.risk low,
      heard,
      same,
      chosen,
    ),
  )
