-- ===== src/Brain/Critic/Hourly.antt =====
-- The critic's ticks under the governor's cap.
use rato.Prelude.{
  ℕ, ◌≤◌, ◌≡◌, refl, sym, subst, String, Bool, true, false, Option, none, some, List, [], ◌∷◌,
  arith, if◌then◌else◌, filter, length, Bool-cases, ◌⊎◌, inl, inr, is_empty,
}
use rato.Prelude.Result.{Result, ok, err}
use rato.Store.Prune.{Observation}
use rato.Store.Pushbacks.{Pushback, NewPushback}
use rato.Brain.Governor.{Governor, admit, admit_all, in_last_hour, new}
use rato.Brain.Governor.Window.{InOrder, last_time, admit_all-cap}
use rato.Brain.Detect.{Signal}
use rato.Brain.Critic.{
  Env, Call, Critic, ChatResponse, EvidenceItem, PushbackVerdict, record_call, is_dupe, queue, show,
  build_pb, valid_evidence, admit_and_show, judge, judged, read_verdict, answered, slow_tick,
}

count_both :
    (now u : ℕ) (times log : List ℕ)
    → length (filter (in_last_hour u) times) ≤ length (filter (in_last_hour u) log)
    → length (filter (in_last_hour u) (now ∷ times)) ≤ length (filter (in_last_hour u) (now ∷ log))
count_both now u times log h = elim (Bool-cases (in_last_hour u now)) [
  | inl e ↦ rw e (omega (arith, h))
  | inr e ↦ rw e h
]

count_more :
    (now u : ℕ) (times log : List ℕ)
    → length (filter (in_last_hour u) times) ≤ length (filter (in_last_hour u) log)
    → length (filter (in_last_hour u) times) ≤ length (filter (in_last_hour u) (now ∷ log))
count_more now u times log h = elim (Bool-cases (in_last_hour u now)) [
  | inl e ↦ rw e (omega (arith, h))
  | inr e ↦ rw e h
]

module _ (E : Env) where
  open E use {json, floats}
  open json use {Value}

  -- A tick that reaches the governor makes one call of it, and shows nothing that it does not admit.
  abbrev Spent : ℕ → Critic E → Option (Pushback Value floats.F) → Governor floats → Type 0
  Spent now w o g =
      ((o ≡ none) × (g ≡ w.governor))
      ⊎ ((g ≡ (admit floats w.mode now w.governor).0)
          × ((o ≡ none) ⊎ ((admit floats w.mode now w.governor).1 ≡ true)))

  queue_governor :
      (c : Call) (pb : NewPushback Value floats.F) (w : Critic E)
      → ((queue E c pb w).0 ≡ none) × ((queue E c pb w).1.governor ≡ w.governor)
  unfolding queue
  queue_governor c pb w = (refl, refl)

  show_governor :
      (c : Call) (pb : NewPushback Value floats.F) (w : Critic E)
      → (show E c pb w).1.governor ≡ w.governor
  unfolding show
  show_governor c pb w = refl

  admit_and_show-Spent :
      (c : Call) (now : ℕ) (s : Signal) (verdict : PushbackVerdict floats.F)
      (valid : List EvidenceItem) (w : Critic E)
      → let out = admit_and_show E c now s verdict valid w in Spent now w out.0 out.1.governor
  unfolding admit_and_show
  admit_and_show-Spent c now s verdict valid w =
      let w' : Critic E = record w { governor = (admit floats w.mode now w.governor).0 } in
      elim (Bool-cases (admit floats w.mode now w.governor).1) [
        | inr e ↦
            let q = queue_governor c (build_pb E w.mode s verdict valid "queued") w' in
            rw e (inr (q.1, inl (q.0)))
        | inl e ↦ elim (Bool-cases (is_dupe E now valid w.pushbacks)) [
          | inl d ↦ rw (e, d) (inr (refl, inl refl))
          | inr d ↦
              let q = show_governor c (build_pb E w.mode s verdict valid "shown") w' in
              rw (e, d) (inr (q, inr refl))
        ]
      ]

  judge-Spent :
      (c : Call) (now : ℕ) (s : Signal) (digest : List (Observation Value))
      (verdict : PushbackVerdict floats.F) (w : Critic E)
      → let out = judge E c now s digest verdict w in Spent now w out.0 out.1.governor
  unfolding judge
  judge-Spent c now s digest verdict w =
      let valid : List EvidenceItem = valid_evidence E digest verdict in
      elim (Bool-cases (is_empty valid)) [
        | inl e ↦ rw e (inl (refl, refl))
        | inr e ↦ elim (Bool-cases (E.is_below_bar verdict.confidence)) [
          | inl low ↦
              let q = queue_governor c (build_pb E w.mode s verdict valid "queued") w in
              rw (e, low) (inl (q.0, q.1))
          | inr sure ↦ rw (e, sure) (admit_and_show-Spent c now s verdict valid w)
        ]
      ]

  judged-Spent :
      (c : Call) (now : ℕ) (s : Signal) (digest : List (Observation Value)) (w : Critic E)
      (o : Option (PushbackVerdict floats.F))
      → let out = judged E c now s digest w o in Spent now w out.0 out.1.governor
  unfolding judged
  judged-Spent c now s digest w none = inl (refl, refl)
  judged-Spent c now s digest w (some verdict) = judge-Spent c now s digest verdict w

  answered-Spent :
      (c : Call) (now : ℕ) (s : Signal) (digest : List (Observation Value))
      (memory_ids : List String) (answer : Result String (ChatResponse Value)) (w : Critic E)
      → let out = answered E c now s digest memory_ids answer w in Spent now w out.0 out.1.governor
  unfolding answered record_call
  answered-Spent c now s digest memory_ids (err e) w = inl (refl, refl)
  answered-Spent c now s digest memory_ids (ok resp) w =
      judged-Spent c now s digest _ (read_verdict E resp.json)

  slow_tick-Spent :
      (c : Call) (now : ℕ) (signals : List Signal) (w : Critic E)
      → let out = slow_tick E c now signals w in Spent now w out.0 out.1.governor
  unfolding slow_tick
  slow_tick-Spent c now [] w = inl (refl, refl)
  slow_tick-Spent c now (s ∷ ss) w = answered-Spent c now s _ _ _ w

  abbrev shown_at : ℕ → Option (Pushback Value floats.F) → List ℕ → List ℕ
  shown_at now none times = times
  shown_at now (some p) times = now ∷ times

  -- A sequence of ticks, with the times of those that showed a pushback.
  unfoldable pub ticks : List (Call × ℕ × List Signal) → Critic E → Critic E × List ℕ
  ticks [] w = (w, [])
  ticks ((c, now, signals) ∷ rest) w =
      let (o, w') = slow_tick E c now signals w in
      let (last, times) = ticks rest w' in (last, shown_at now o times)

  abbrev pub TicksInOrder : ℕ → List (Call × ℕ × List Signal) → Type 0
  TicksInOrder from [] = Unit {0}
  TicksInOrder from ((c, now, signals) ∷ rest) = (from ≤ now) × TicksInOrder now rest

  abbrev pub last_tick : ℕ → List (Call × ℕ × List Signal) → ℕ
  last_tick from [] = from
  last_tick from ((c, now, signals) ∷ rest) = last_tick now rest

  -- Calls of the governor that admit at least what the ticks show.
  abbrev Covered : ℕ → ℕ → Governor floats → List ℕ → Type 0
  Covered from upto g times =
      (calls : List (String × ℕ)) × InOrder from calls
      × (last_time from calls ≤ upto)
      × ((u : ℕ)
          → length (filter (in_last_hour u) times)
            ≤ length (filter (in_last_hour u) (admit_all floats calls g).1))

  InOrder-le :
      (from now : ℕ) (calls : List (String × ℕ))
      → from ≤ now
      → InOrder now calls
      → InOrder from calls
  InOrder-le from now [] h o = tt
  InOrder-le from now ((mode, at) ∷ calls) h o = (omega arith, o.1)

  last_time-le :
      (from now upto : ℕ) (calls : List (String × ℕ))
      → from ≤ now
      → last_time now calls ≤ upto
      → last_time from calls ≤ upto
  last_time-le from now upto [] h k = omega arith
  last_time-le from now upto ((mode, at) ∷ calls) h k = k

  length-shown_at :
      (now u : ℕ) (o : Option (Pushback Value floats.F)) (b : Bool) (times log : List ℕ)
      → (o ≡ none) ⊎ (b ≡ true)
      → length (filter (in_last_hour u) times) ≤ length (filter (in_last_hour u) log)
      → length (filter (in_last_hour u) (shown_at now o times))
        ≤ length (filter (in_last_hour u) (if b then now ∷ log else log))
  length-shown_at now u none true times log h k = count_more now u times log k
  length-shown_at now u none false times log h k = k
  length-shown_at now u (some p) true times log h k = count_both now u times log k
  length-shown_at now u (some p) false times log (inl e) k = ground arith
  length-shown_at now u (some p) false times log (inr e) k = ground arith

  tick-Covered :
      (from now upto : ℕ) (w : Critic E) (o : Option (Pushback Value floats.F))
      (g : Governor floats) (times : List ℕ)
      → from ≤ now
      → Spent now w o g
      → Covered now upto g times
      → Covered from upto w.governor (shown_at now o times)
  unfolding admit_all
  tick-Covered from now upto w o g times h (inl (e, k)) (calls, o1, o2, o3) = (
    calls,
    InOrder-le from now calls h o1,
    last_time-le from now upto calls h o2,
    λ u.
        subst
          (λ y.
            length (filter (in_last_hour u) (shown_at now y times))
            ≤ length (filter (in_last_hour u) (admit_all floats calls w.governor).1))
          (sym e)
          (subst
            (λ x.
              length (filter (in_last_hour u) times)
              ≤ length (filter (in_last_hour u) (admit_all floats calls x).1))
            k (o3 u)),
  )
  tick-Covered from now upto w o g times h (inr (e, k)) (calls, o1, o2, o3) = (
    (w.mode, now) ∷ calls,
    (h, o1),
    o2,
    λ u.
        subst
          (λ x.
            length (filter (in_last_hour u) (shown_at now o times))
            ≤ length (
                filter (in_last_hour u) (
                  if (admit floats w.mode now w.governor).1
                  then now ∷ (admit_all floats calls x).1
                  else (admit_all floats calls x).1)))
          e
          (length-shown_at now u o (admit floats w.mode now w.governor).1 times
            (admit_all floats calls g).1 k (o3 u)),
  )

  ticks-Covered :
      (from : ℕ) (ts : List (Call × ℕ × List Signal)) (w : Critic E)
      → TicksInOrder from ts
      → Covered from (last_tick from ts) w.governor (ticks ts w).1
  unfolding ticks admit_all
  ticks-Covered from [] w h = ([], tt, omega arith, λ u. omega arith)
  ticks-Covered from ((c, now, signals) ∷ rest) w h =
      let (o, w') = slow_tick E c now signals w in
      tick-Covered from now (last_tick now rest) w o w'.governor (ticks rest w').1 h.0
        (slow_tick-Spent c now signals w) (ticks-Covered now rest w' h.1)

  -- Whatever the model answers, of slow ticks in order of time under a new governor at most eight show
  -- a pushback in the hour that ends at any later time.
  pub ticks-cap :
      (from now : ℕ) (ts : List (Call × ℕ × List Signal)) (w : Critic E)
      → TicksInOrder from ts
      → last_tick from ts ≤ now
      → w.governor ≡ new floats
      → length (filter (in_last_hour now) (ticks ts w).1) ≤ 8
  ticks-cap from now ts w h k fresh =
      let (calls, o1, o2, o3) = ticks-Covered from ts w h in
      let few = admit_all-cap floats from now calls o1 (omega (arith, o2, k)) in
      let covered =
        subst
          (λ g.
            length (filter (in_last_hour now) (ticks ts w).1)
            ≤ length (filter (in_last_hour now) (admit_all floats calls g).1))
          fresh (o3 now) in
      omega (arith, few, covered)
