-- ===== src/Voice/Approval.antt =====
-- crates/rat-voice/src/slug.rs and approval.rs. SHA-256 is a third-party crate: the first two bytes of
-- a digest are a parameter. Of `to_lowercase` the letters that become one up to U+00FF are modelled. The reasons of a refusal
-- are the cases of a type.
pub mod Allowed
use rato.Prelude.{
  ℕ, zero, suc, ◌+◌, ◌%◌, String, Option, none, some, List, [], ◌∷◌, ◌++◌, map, Bool, true, false,
  not, ◌&&◌, ◌||◌, eqb, ◌==◌, codes, contains, if◌then◌else◌, leb, length,
}

abbrev pub adjectives : List String
adjectives =
    "amber" ∷ "brisk" ∷ "calm" ∷ "daring" ∷ "ember" ∷ "fuzzy" ∷ "glossy" ∷ "honest" ∷ "iron"
    ∷ "jolly" ∷ "kind" ∷ "lunar" ∷ "mellow" ∷ "nimble" ∷ "opal" ∷ "plain" ∷ []

abbrev pub nouns : List String
nouns =
    "anchor" ∷ "bolt" ∷ "comet" ∷ "drift" ∷ "echo" ∷ "flare" ∷ "glade" ∷ "harbor" ∷ "island"
    ∷ "jacket" ∷ "kite" ∷ "lantern" ∷ "magnet" ∷ "notch" ∷ "orbit" ∷ "pixel" ∷ []

-- Indexing; the index is below the length at every call, and "" stands for the panic.
unfoldable pub at : List String → ℕ → String
at [] n = ""
at (w ∷ ws) zero = w
at (w ∷ ws) (suc n) = at ws n

-- The capital letters up to U+00FF.
unfoldable pub is_upper : ℕ → Bool
is_upper c = (leb 65 c && leb c 90) || (leb 192 c && leb c 222 && not (eqb c 215))

-- Above U+00FF, the lower case of five letters is or has a character up to U+00FF: the I with a dot,
-- the Kelvin and the Angstrom sign, the capital sharp s and the Y with a diaeresis. The other letters there
-- stay as they are: a text up to U+00FF stands in the result exactly where it would stand otherwise.
unfoldable pub lowered : ℕ → List ℕ
unfolding is_upper
lowered c =
    if is_upper c
    then (c + 32) ∷ []
    else if eqb c 304
    then 105 ∷ 775 ∷ []
    else if eqb c 8490
    then 107 ∷ []
    else if eqb c 8491
    then 229 ∷ []
    else if eqb c 7838
    then 223 ∷ []
    else if eqb c 376
    then 255 ∷ []
    else c ∷ []

unfoldable pub to_lowercase : List ℕ → List ℕ
unfolding lowered
to_lowercase [] = []
to_lowercase (c ∷ s) = lowered c ++ to_lowercase s

pub record ApprovalSnapshot : Type 0 where
  pub id : String
  pub risk : ℕ
  pub status : String

pub record PopupState : Type 0 where
  pub visible_approval_id : Option String

pub data Refusal : Type 0 where
  not_pending not_visible never_by_voice : Refusal
  missing_slug : List ℕ → Refusal

pub data VoiceApprovalDecision : Type 0 where
  allow : String → String → VoiceApprovalDecision
  refuse : Refusal → VoiceApprovalDecision

unfoldable pub is_visible : ApprovalSnapshot → PopupState → Bool
is_visible approval popup = elim popup.visible_approval_id [
  | none ↦ false
  | some id ↦ id == approval.id
]

module _ (digest : String → ℕ × ℕ) where
  unfoldable pub spoken_slug : String → List ℕ
  unfolding at
  spoken_slug id =
      let (first, second) = digest id in
      let a = first % length adjectives in
      let n = second % length nouns in codes (at adjectives a) ++ 45 ∷ codes (at nouns n)

  unfoldable pub voice_approval_decision :
      ApprovalSnapshot → PopupState → List ℕ → Bool → VoiceApprovalDecision
  voice_approval_decision approval popup utterance approve =
      if not (approval.status == "pending")
      then refuse not_pending
      else if not (is_visible approval popup)
      then refuse not_visible
      else if leb 3 approval.risk
      then refuse never_by_voice
      else if not (contains (to_lowercase utterance) (spoken_slug approval.id))
      then refuse (missing_slug (spoken_slug approval.id))
      else allow approval.id (if approve then "approved" else "denied")
