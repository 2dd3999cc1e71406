-- ===== src/Examples/Voice.antt =====
-- Runs of the voice parts on small inputs.
use rato.Prelude.{
  List, refl, ℕ, ◌≤◌, ◌<◌, String, ◌↔◌, ◌≡◌, true, some, [], ◌∷◌, ◌++◌, codes, contains, arith,
}
use rato.Voice.Approval.{
  ApprovalSnapshot, PopupState, allow, to_lowercase, spoken_slug, voice_approval_decision,
}
use rato.Voice.Approval.Allowed.{voice_approval_decision-allow}
use rato.Voice.Intent.{normalize, route, route_normalized, any_of, route_captures, approval_approve}
use rato.Voice.PreWake.{PreWakeRing, push_frame, snapshot, len_samples}
use rato.Voice.PreWake.Recent.{last, snapshot-push_frame}

abbrev small_digest : String → ℕ × ℕ
small_digest id = (16, 2)

abbrev small_approval : ApprovalSnapshot
small_approval = record { id = "a1"; risk = 2; status = "pending" }

abbrev approved : String
approved = "approved"

abbrev small_popup : PopupState
small_popup = record { visible_approval_id = some "a1" }

voice_approval_decision-allow_example :
    (voice_approval_decision small_digest small_approval small_popup
        (codes "Approve amber-comet")
        true
      ≡ allow small_approval.id approved)
    ↔ ((small_approval.status ≡ "pending")
        × (small_popup.visible_approval_id ≡ some "a1")
        × (small_approval.risk < 3)
        × (contains (to_lowercase (codes "Approve amber-comet")) (spoken_slug small_digest "a1")
            ≡ true)
        × (small_approval.id ≡ small_approval.id)
        × (approved ≡ approved))
voice_approval_decision-allow_example =
    voice_approval_decision-allow small_digest small_approval small_popup
      (codes "Approve amber-comet") true small_approval.id approved

abbrev small_ring : PreWakeRing ℕ
small_ring = record { max_samples = 3; samples = 1 ∷ 2 ∷ [] }

snapshot-push_frame_example :
    (snapshot (push_frame (3 ∷ 4 ∷ []) small_ring) ≡ last 3 (snapshot small_ring ++ 3 ∷ 4 ∷ []))
    × (len_samples (push_frame (3 ∷ 4 ∷ []) small_ring) ≤ 3)
snapshot-push_frame_example = snapshot-push_frame (3 ∷ 4 ∷ []) small_ring (omega arith)

abbrev leaving : List ℕ
leaving = codes "exit private mode"

-- The Kelvin sign is heard as a k.
kelvin : to_lowercase (codes "amber-" ++ 8490 ∷ codes "ITE") ≡ codes "amber-kite"
unfolding to_lowercase
kelvin = refl

approve_slug : route (codes "Please approve amber-comet") ≡ approval_approve (codes "amber-comet")
unfolding route route_normalized any_of route_captures normalize
approve_slug = refl
