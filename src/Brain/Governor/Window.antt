-- ===== src/Brain/Governor/Window.antt =====
-- The global cap of the governor, over every sequence of calls.
use mathlib.Core.List.{append-nil, append_assoc}
use rato.Prelude.{
  ℕ, ◌≤◌, ◌<◌, ◌≡◌, refl, ap, ◌∙◌, sym, String, Bool, true, false, List, [], ◌∷◌, ◌++◌, arith,
  if◌then◌else◌, leb, length, filter, filter-append, length-filter-le, length-append, Bool-cases,
  inl, inr,
}
use rato.Brain.Governor.{
  Float, Mode, mentor_mode, chaos_mode, quiet_mode, BucketState, Governor, in_last_hour, mode_of,
  draw, admit, admit_all, new, set_bucket,
}

-- The calls come in order of time, the first not before `from`.
abbrev pub InOrder : ℕ → List (String × ℕ) → Type 0
InOrder from [] = Unit {0}
InOrder from ((mode, now) ∷ calls) = (from ≤ now) × InOrder now calls

abbrev pub last_time : ℕ → List (String × ℕ) → ℕ
last_time from [] = from
last_time from ((mode, now) ∷ calls) = last_time now calls

-- What has left the last hour stays out of it.
filter-in_last_hour_later :
    (t u : ℕ) (xs : List ℕ)
    → t ≤ u
    → filter (in_last_hour u) (filter (in_last_hour t) xs) ≡ filter (in_last_hour u) xs
filter-in_last_hour_later t u [] h = refl
filter-in_last_hour_later t u (x ∷ xs) h = ground (arith, filter-in_last_hour_later t u xs)

length-verdict :
    (now : ℕ) (kept : List ℕ) (b : Bool)
    → length kept ≤ 8
    → (b ≡ true → length kept < 8)
    → length (kept ++ (if b then now ∷ [] else [])) ≤ 8
length-verdict now kept true few below = omega (arith, length-append kept (now ∷ []), below refl)
length-verdict now kept false few below = omega (arith, length-append {0} kept [])

append-verdict :
    (now : ℕ) (log times : List ℕ) (b : Bool)
    → (log ++ (if b then now ∷ [] else [])) ++ times ≡ log ++ (if b then now ∷ times else times)
append-verdict now log times true = append_assoc log (now ∷ []) times
append-verdict now log times false = rw (append-nil log)

module _ (A : Float) where
  global_window-set_bucket :
      (m : Mode) (b : BucketState A) (g : Governor A)
      → (set_bucket A m b g).global_window ≡ g.global_window
  unfolding set_bucket
  global_window-set_bucket mentor_mode b g = refl
  global_window-set_bucket chaos_mode b g = refl
  global_window-set_bucket quiet_mode b g = refl

  -- One call: the window keeps what it had of the last hour and gains the call if it is admitted,
  -- which it is only below eight.
  abbrev Steps : ℕ → List ℕ → Governor A × Bool → Type 0
  Steps now kept (g, admitted) =
      (g.global_window ≡ kept ++ (if admitted then now ∷ [] else []))
      × (admitted ≡ true → length kept < 8)

  draw-Steps :
      (m : Mode) (now : ℕ) (g : Governor A)
      → length g.global_window < 8
      → Steps now g.global_window (draw A m now g)
  unfolding draw
  draw-Steps mentor_mode now g h = ground (arith, append-nil g.global_window)
  draw-Steps chaos_mode now g h = ground (arith, append-nil g.global_window)
  draw-Steps quiet_mode now g h = ground (arith, append-nil g.global_window)

  admit-Steps :
      (mode : String) (now : ℕ) (g : Governor A)
      → Steps now (filter (in_last_hour now) g.global_window) (admit A mode now g)
  unfolding admit
  admit-Steps mode now g =
      elim (Bool-cases (leb 8 (length (filter (in_last_hour now) g.global_window)))) [
        | inl full ↦ rw full (sym (append-nil _), λ e. cc)
        | inr room ↦ rw room (draw-Steps (mode_of mode) now _ (ground arith))
      ]

  -- The window holds at most eight times, and from `from` on it shows the last hour of the log.
  abbrev Tracks : ℕ → Governor A → List ℕ → Type 0
  Tracks from g log =
      (length g.global_window ≤ 8)
      × ((u : ℕ) → from ≤ u → filter (in_last_hour u) g.global_window ≡ filter (in_last_hour u) log)

  admit-Tracks :
      (mode : String) (from now : ℕ) (g : Governor A) (log : List ℕ)
      → Tracks from g log
      → from ≤ now
      → Tracks now (admit A mode now g).0 (log ++ (if (admit A mode now g).1 then now ∷ [] else []))
  admit-Tracks mode from now g log (few, shows) h =
      let kept = filter (in_last_hour now) g.global_window in
      let new = if (admit A mode now g).1 then now ∷ [] else [] in
      let (grown, below) = admit-Steps mode now g in
      (
        rw grown (
            length-verdict now kept (admit A mode now g).1
              (omega (arith, length-filter-le (in_last_hour now) g.global_window)) below),
        λ u later.
            ap (filter (in_last_hour u)) grown
            ∙ filter-append (in_last_hour u) kept new
            ∙ ap (λ x. x ++ filter (in_last_hour u) new)
                (filter-in_last_hour_later now u g.global_window later ∙ shows u (omega arith))
            ∙ sym (filter-append (in_last_hour u) log new),
      )

  admit_all-Tracks :
      (from : ℕ) (calls : List (String × ℕ)) (g : Governor A) (log : List ℕ)
      → Tracks from g log
      → InOrder from calls
      → Tracks (last_time from calls) (admit_all A calls g).0 (log ++ (admit_all A calls g).1)
  unfolding admit_all
  admit_all-Tracks from [] g log t o = rw (append-nil log) t
  admit_all-Tracks from ((mode, at) ∷ calls) g log t o =
      let rest =
        admit_all-Tracks at calls (admit A mode at g).0 _ (admit-Tracks mode from at g log t o.0)
          o.1 in
      rw (append-verdict at log (admit_all A calls (admit A mode at g).0).1 (admit A mode at g).1)
        at rest

  -- Whatever the modes, of a sequence of calls in order of time at most eight are admitted in the hour
  -- that ends at any later time.
  pub admit_all-cap :
      (from now : ℕ) (calls : List (String × ℕ))
      → InOrder from calls
      → last_time from calls ≤ now
      → length (filter (in_last_hour now) (admit_all A calls (new A)).1) ≤ 8
  unfolding new
  admit_all-cap from now calls o h =
      let (few, shows) = admit_all-Tracks from calls (new A) [] (omega arith, λ u _. refl) o in
      rw (← shows now h) (
        omega
          (arith, length-filter-le (in_last_hour now) (admit_all A calls (new A)).0.global_window))
