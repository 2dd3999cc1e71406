-- ===== src/Voice/PreWake.antt =====
-- crates/rat-voice/src/prewake.rs. A sample is a float that only passes through: any type. The two
-- sizes stay below 2 ^ 64 in their product, so that it does not saturate.
pub mod Recent
use rato.Prelude.{ℕ, ◌*◌, max, List, [], ◌∷◌, ◌++◌, if◌then◌else◌, ltb, length}

pub record PreWakeRing (S : Type 0) : Type 0 where
  pub max_samples : ℕ
  pub samples : List S

unfoldable pub new : {S : Type 0} → ℕ → ℕ → PreWakeRing S
new sample_rate_hz seconds = record { max_samples = max (sample_rate_hz * seconds) 1; samples = [] }

-- `while self.samples.len() > self.max_samples { self.samples.pop_front(); }`
unfoldable pub pop_front_to : {S : Type 0} → ℕ → List S → List S
pop_front_to max_samples [] = []
pop_front_to max_samples (x ∷ xs) =
    let rest = pop_front_to max_samples xs in
    if ltb max_samples (length (x ∷ xs)) then rest else x ∷ xs

unfoldable pub push_all : {S : Type 0} → ℕ → List S → List S → List S
unfolding pop_front_to
push_all max_samples [] samples = samples
push_all max_samples (s ∷ frame) samples =
    push_all max_samples frame (pop_front_to max_samples (samples ++ s ∷ []))

unfoldable pub push_frame : {S : Type 0} → List S → PreWakeRing S → PreWakeRing S
unfolding push_all
push_frame frame ring = record ring { samples = push_all ring.max_samples frame ring.samples }

unfoldable pub len_samples : {S : Type 0} → PreWakeRing S → ℕ
len_samples ring = length ring.samples

unfoldable pub snapshot : {S : Type 0} → PreWakeRing S → List S
snapshot ring = ring.samples

unfoldable pub clear : {S : Type 0} → PreWakeRing S → PreWakeRing S
clear ring = record ring { samples = [] }
