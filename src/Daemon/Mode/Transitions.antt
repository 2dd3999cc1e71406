-- ===== src/Daemon/Mode/Transitions.antt =====
-- The events of a sequence of measurements.
use rato.Prelude.{
  ℕ, ◌≡◌, ◌≢◌, refl, ap, sym, ◌∙◌, subst, String, Bool, true, false, Option, none, some, List, [],
  ◌∷◌, arith, ◌==◌, leb, Bool-cases, inl, inr,
}
use rato.Store.Sql.{Json}
use rato.Store.Events.{NewEvent}
use rato.Daemon.Mode.{
  ModeManager, update, state, idle_of, same, mode_changed, mode_name, away_threshold_ms,
  note_activity,
}

pub data Call : Type 0 where
  noted : ℕ → Call
  measured : Option ℕ → ℕ → Call

abbrev is_active : Option String → Bool
is_active none = false
is_active (some mode) = mode == "active"

active_only : false ≢ true
active_only e = ground arith

away-active : (a b : Bool) → same a b ≡ false → some (mode_name a) ≢ some (mode_name b)
unfolding same
away-active true true h e = ground arith
away-active true false h e = active_only (ap is_active e)
away-active false true h e = active_only (sym (ap is_active e))
away-active false false h e = ground arith

same_sound : (a b : Bool) → same a b ≡ true → a ≡ b
unfolding same
same_sound true true h = refl
same_sound true false h = ground arith
same_sound false true h = ground arith
same_sound false false h = refl

module _ (J : Json) where
  abbrev pub Logged : Type 0
  Logged = List (ℕ × NewEvent J.Value)

  abbrev pub prepend : ℕ → Option (NewEvent J.Value) → Logged → Logged
  prepend now none es = es
  prepend now (some ev) es = (now, ev) ∷ es

  -- A sequence of calls, with the events that they give and their times.
  unfoldable pub log : List Call → ModeManager → ModeManager × Logged
  unfolding update note_activity
  log [] m = (m, [])
  log (noted ts ∷ calls) m = log calls (note_activity ts m)
  log (measured probe now ∷ calls) m =
      let (m', ev) = update J probe now m in
      let (last, es) = log calls m' in (last, prepend now ev es)

  abbrev pub read_mode : NewEvent J.Value → Option String
  read_mode ev = elim (J.get ev.payload "mode") [ none ↦ none | some v ↦ J.as_str v ]

  -- The mode and its start as the events alone tell them.
  abbrev pub replay : Option String → ℕ → Logged → Option String × ℕ
  replay mode since [] = (mode, since)
  replay mode since ((now, ev) ∷ es) = replay (read_mode ev) now es

  abbrev pub Alternates : Option String → Logged → Type 0
  Alternates mode [] = Unit {0}
  Alternates mode ((now, ev) ∷ es) = (mode ≢ read_mode ev) × Alternates (read_mode ev) es

  read_mode-mode_changed :
      (away : Bool) (idle : ℕ) → read_mode (mode_changed J away idle) ≡ some (mode_name away)
  unfolding mode_changed
  read_mode-mode_changed away idle =
      ap (λ o. elim o [ none ↦ none | some v ↦ J.as_str v ])
        (J.get-object "mode" (J.string (mode_name away)) (("idle_ms", J.number idle) ∷ []))
      ∙ J.as_str-string (mode_name away)

  -- What one measurement does: an event exactly where the mode changes.
  abbrev Moves : ModeManager → ℕ → ModeManager × Option (NewEvent J.Value) → Type 0
  Moves m now (m', none) = (m.away ≡ m'.away) × (m.since_ms ≡ m'.since_ms)
  Moves m now (m', some ev) =
      (read_mode ev ≡ some (mode_name m'.away))
      × (now ≡ m'.since_ms)
      × (some (mode_name m.away) ≢ some (mode_name m'.away))

  update-Moves : (probe : Option ℕ) (now : ℕ) (m : ModeManager) → Moves m now (update J probe now m)
  unfolding update
  update-Moves probe now m =
      let away : Bool = leb away_threshold_ms (idle_of probe now m) in
      elim (Bool-cases (same m.away away)) [
        | inl e ↦ rw e (same_sound m.away away e, refl)
        | inr e ↦
            rw e
              (read_mode-mode_changed away (idle_of probe now m), refl, away-active m.away away e)
      ]

  abbrev Tells : ModeManager → ModeManager × Logged → Type 0
  Tells m (last, es) =
      (replay (some (mode_name m.away)) m.since_ms es ≡ (some (mode_name last.away), last.since_ms))
      × Alternates (some (mode_name m.away)) es

  Moves-Tells :
      (m m' : ModeManager) (now : ℕ) (ev : Option (NewEvent J.Value)) (last : ModeManager × Logged)
      → Moves m now (m', ev)
      → Tells m' last
      → Tells m (last.0, prepend now ev last.1)
  Moves-Tells m m' now none last h k = rw (h.0, h.1) k
  Moves-Tells m m' now (some ev) last h k = (
    ap (λ t. replay t now last.1) h.0
        ∙ (ap (λ n. replay (some (mode_name m'.away)) n last.1) h.1 ∙ k.0),
    ((λ e. h.2 (e ∙ h.0)), subst (λ t. Alternates t last.1) (sym h.0) k.1),
  )

  log-Tells : (calls : List Call) (m : ModeManager) → Tells m (log calls m)
  unfolding log
  log-Tells [] m = (refl, tt)
  log-Tells (noted ts ∷ calls) m = log-Tells calls (note_activity ts m)
  log-Tells (measured probe now ∷ calls) m =
      let (m', ev) = update J probe now m in
      Moves-Tells m m' now ev (log calls m') (update-Moves probe now m) (log-Tells calls m')

  -- Whatever is measured and whenever, the events alone tell the mode and since when it holds: replayed
  -- from the state before, they end in the state after, and each of them changes the mode.
  pub replay-log :
      (calls : List Call) (m : ModeManager)
      → let (last, es) = log calls m in
        (replay (some (state m).mode) (state m).since_ms es
          ≡ (some (state last).mode, (state last).since_ms))
        × Alternates (some (state m).mode) es
  unfolding state
  replay-log = log-Tells
