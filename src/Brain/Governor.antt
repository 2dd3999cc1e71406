-- ===== src/Brain/Governor.antt =====
-- crates/rat-brain/src/governor.rs. The buckets count in `f64`, which is an interface here: its
-- operations, and no law of rounding. Times are milliseconds since the epoch, so `now - one hour` is
-- compared by adding the hour to the other side. `admit` returns the governor and the verdict.
pub mod Window
pub mod Buckets
use rato.Prelude.{
  ℕ, ◌+◌, ◌-◌, String, Bool, true, false, Option, none, some, List, [], ◌∷◌, ◌++◌, ◌==◌,
  if◌then◌else◌, ltb, leb, length, filter,
}

pub record Float : Type 1 where
  pub F : Type 0
  pub of_nat : ℕ → F
  pub add : F → F → F
  pub sub : F → F → F
  pub div : F → F → F
  pub min : F → F → F
  pub ge : F → F → Bool

abbrev pub one_hour : ℕ
one_hour = 3600000

-- The three buckets, by the mode that draws on them.
pub data Mode : Type 0 where
  mentor_mode chaos_mode quiet_mode : Mode

unfoldable pub mode_of : String → Mode
mode_of mode =
    if mode == "mentor"
    then mentor_mode
    else if mode == "chaos"
    then chaos_mode
    else if mode == "quiet"
    then quiet_mode
    else mentor_mode

-- `retain(|&ts| ts > now_ms - 3_600_000)`
abbrev pub in_last_hour : ℕ → ℕ → Bool
in_last_hour now ts = ltb now (ts + one_hour)

module _ (A : Float) where
  pub record BucketState : Type 0 where
    pub tokens : A.F
    pub last_refill_ms : Option ℕ
    pub capacity : A.F
    pub refill_ms : A.F

  unfoldable pub new_bucket : ℕ → ℕ → BucketState
  new_bucket capacity refill_per_ms = record {
    tokens = A.of_nat capacity;
    last_refill_ms = none;
    capacity = A.of_nat capacity;
    refill_ms = A.of_nat refill_per_ms;
  }

  unfoldable pub refill : BucketState → ℕ → BucketState
  refill b now = elim b.last_refill_ms [
    | none ↦ record b { last_refill_ms = some now }
    | some last ↦ record b {
      tokens = A.min (A.add b.tokens (A.div (A.of_nat (now - last)) b.refill_ms)) b.capacity;
      last_refill_ms = some now;
    }
  ]

  unfoldable pub try_consume : BucketState → BucketState × Bool
  try_consume b =
      if A.ge b.tokens (A.of_nat 1)
      then (record b { tokens = A.sub b.tokens (A.of_nat 1) }, true)
      else (b, false)

  pub record Governor : Type 0 where
    pub mentor : BucketState
    pub chaos : BucketState
    pub quiet : BucketState
    pub global_window : List ℕ

  unfoldable pub new : Governor
  unfolding new_bucket
  new = record {
    mentor = new_bucket 2 1800000;
    chaos = new_bucket 2 600000;
    quiet = new_bucket 1 7200000;
    global_window = [];
  }

  unfoldable pub bucket : Mode → Governor → BucketState
  bucket mentor_mode g = g.mentor
  bucket chaos_mode g = g.chaos
  bucket quiet_mode g = g.quiet

  unfoldable pub set_bucket : Mode → BucketState → Governor → Governor
  set_bucket mentor_mode b g = record g { mentor = b }
  set_bucket chaos_mode b g = record g { chaos = b }
  set_bucket quiet_mode b g = record g { quiet = b }

  -- Behind the global cap.
  draw : Mode → ℕ → Governor → Governor × Bool
  unfolding set_bucket bucket refill try_consume
  draw m now g =
      let (b, granted) = try_consume (refill (bucket m g) now) in
      let g' = set_bucket m b g in
      if granted
      then (record g' { global_window = g.global_window ++ now ∷ [] }, true)
      else (g', false)

  unfoldable pub admit : String → ℕ → Governor → Governor × Bool
  unfolding mode_of draw
  admit mode now g =
      let g' = record g { global_window = filter (in_last_hour now) g.global_window } in
      if leb 8 (length g'.global_window) then (g', false) else draw (mode_of mode) now g'

  -- A sequence of calls, each a mode and a time, with the times of those that were admitted.
  unfoldable pub admit_all : List (String × ℕ) → Governor → Governor × List ℕ
  admit_all [] g = (g, [])
  admit_all ((mode, now) ∷ calls) g =
      let (g', admitted) = admit mode now g in
      let (g'', times) = admit_all calls g' in (g'', if admitted then now ∷ times else times)
