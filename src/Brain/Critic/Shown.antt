-- ===== src/Brain/Critic/Shown.antt =====
-- What a slow tick may write to the table of pushbacks, and what it shows.
use rato.Prelude.{
  ℕ, ◌+◌, ◌≡◌, refl, sym, ap, subst, ◌∙◌, String, Bool, true, false, ◌&&◌, Option, none, some, List,
  [], ◌∷◌, ◌++◌, map, arith, ◌==◌, leb, any, is_empty, All, All-filter_holds, Bool-cases,
  Option-cases, ◌⊎◌, inl, inr,
}
use rato.Prelude.Result.{Result, ok, err}
use rato.Store.Sql.{rows-insert_some}
use rato.Store.Approvals.{StoreError, sqlite}
use rato.Store.Prune.{Observation, is_in}
use rato.Store.Observations.{do_recent_observations}
use rato.Store.Pushbacks.{NewPushback, Pushback, new_pushback, do_insert_pushback}
use rato.Brain.Governor.{Governor, admit}
use rato.Brain.Detect.{Signal}
use rato.Brain.Critic.{
  Env, Call, Critic, ChatResponse, EvidenceItem, PushbackVerdict, evidence_value, record_call,
  build_pb, is_dupe, inserted, queue, show, valid_evidence, admit_and_show, judge, read_verdict,
  judged, answered, digest_of, slow_tick, since, ids_of,
}

module _ (E : Env) where
  open E use {json, floats, observations, pushbacks}
  open json use {Value}

  -- Among the newest 500 observations, one with this id of the last five minutes.
  abbrev pub IsRecent : ℕ → Critic E → String → Type 0
  IsRecent now w id =
      any (λ (o : Observation Value). o.id == id && leb now (o.ts + 300000))
        (do_recent_observations observations 500 none w.observations)
      ≡ true

  -- What is shown.
  abbrev pub IsBacked : ℕ → Critic E → NewPushback Value floats.F → List EvidenceItem → Type 0
  IsBacked now w pb valid =
      (pb.status ≡ "shown")
      × (pb.evidence ≡ json.array (map (evidence_value E) valid))
      × (is_empty valid ≡ false)
      × All (λ (e : EvidenceItem). IsRecent now w e.observation_id) valid
      × (E.is_below_bar pb.confidence ≡ false)
      × ((admit floats w.mode now w.governor).1 ≡ true)
      × (is_dupe E now valid w.pushbacks ≡ false)

  -- The answer of a tick and the table after it.
  abbrev pub Ticked : ℕ → Critic E → Option (Pushback Value floats.F) → pushbacks.Table → Type 0
  Ticked now w none t =
      (t ≡ w.pushbacks)
      ⊎ ((p : Pushback Value floats.F) × (pushbacks.rows t ≡ pushbacks.rows w.pushbacks ++ p ∷ [])
          × (p.content.status ≡ "queued"))
  Ticked now w (some p) t =
      (pushbacks.rows t ≡ pushbacks.rows w.pushbacks ++ p ∷ [])
      × ((valid : List EvidenceItem) × IsBacked now w p.content valid)

  inserted_cases :
      (c : Call) (pb : NewPushback Value floats.F) (w : Critic E)
      → let p = new_pushback c.pushback_id c.pushback_now pb in
        (inserted E c pb w ≡ (err sqlite, w.pushbacks))
        ⊎ ((t : pushbacks.Table) × (inserted E c pb w ≡ (ok p, t))
            × (pushbacks.rows t ≡ pushbacks.rows w.pushbacks ++ p ∷ []))
  unfolding do_insert_pushback
  inserted_cases c pb w =
      let p : Pushback Value floats.F = new_pushback c.pushback_id c.pushback_now pb in
      elim (Option-cases (pushbacks.insert p w.pushbacks)) [
        | inl e ↦ inl (
            ap
              (λ (o : Option pushbacks.Table). elim o [
                | none ↦ (err sqlite, w.pushbacks)
                | some t' ↦ (ok p, t')
              ])
              e)
        | inr (t, e) ↦ inr (
          t,
          ap
              (λ (o : Option pushbacks.Table). elim o [
                | none ↦ (err sqlite, w.pushbacks)
                | some t' ↦ (ok p, t')
              ])
              e,
          rows-insert_some pushbacks p w.pushbacks t e,
        )
      ]

  is_in-since :
      (now : ℕ) (id : String) (os : List (Observation Value))
      → is_in id (ids_of E (since E 300000 now os))
        ≡ any (λ (o : Observation Value). o.id == id && leb now (o.ts + 300000)) os
  unfolding is_in
  is_in-since now id [] = refl
  is_in-since now id (o ∷ os) = ground (arith, is_in-since now id os)

  All-is_in :
      (now : ℕ) (w : Critic E) (es : List EvidenceItem)
      → All (λ (e : EvidenceItem). is_in e.observation_id (ids_of E (digest_of E now w)) ≡ true) es
      → All (λ (e : EvidenceItem). IsRecent now w e.observation_id) es
  unfolding digest_of
  All-is_in now w [] h = tt
  All-is_in now w (e ∷ es) h = (
    sym (
          is_in-since now e.observation_id
            (do_recent_observations observations 500 none w.observations))
        ∙ h.0,
    All-is_in now w es h.1,
  )

  valid-IsRecent :
      (now : ℕ) (w : Critic E) (verdict : PushbackVerdict floats.F)
      → All
          (λ (e : EvidenceItem). IsRecent now w e.observation_id)
          (valid_evidence E (digest_of E now w) verdict)
  unfolding valid_evidence
  valid-IsRecent now w verdict = All-is_in now w _ (
      All-filter_holds (λ (e : EvidenceItem). is_in e.observation_id (ids_of E (digest_of E now w)))
        verdict.evidence)

  queue-Ticked :
      (c : Call) (now : ℕ) (pb : NewPushback Value floats.F) (w : Critic E) (g : Governor floats)
      → pb.status ≡ "queued"
      → let out = queue E c pb (record w { governor = g }) in Ticked now w out.0 out.1.pushbacks
  unfolding queue
  queue-Ticked c now pb w g status = elim (inserted_cases c pb w) [
    | inl e ↦ inl (ap (λ x. x.1) e)
    | inr (t, e, grown) ↦ inr (
      new_pushback c.pushback_id c.pushback_now pb,
      ap (λ x. pushbacks.rows x.1) e ∙ grown,
      unfold new_pushback in status,
    )
  ]

  show-Ticked :
      (c : Call) (now : ℕ) (pb : NewPushback Value floats.F) (valid : List EvidenceItem)
      (w : Critic E) (g : Governor floats)
      → IsBacked now w pb valid
      → let out = show E c pb (record w { governor = g }) in Ticked now w out.0 out.1.pushbacks
  unfolding show
  show-Ticked c now pb valid w g backed = elim (inserted_cases c pb w) [
    | inl e ↦
        subst
          (λ (x : Result StoreError (Pushback Value floats.F) × pushbacks.Table).
            Ticked now w (elim x.0 [ ok p ↦ some p | err m ↦ none ]) x.1)
          (sym e) (inl refl)
    | inr (t, e, grown) ↦
        subst
          (λ (x : Result StoreError (Pushback Value floats.F) × pushbacks.Table).
            Ticked now w (elim x.0 [ ok p ↦ some p | err m ↦ none ]) x.1)
          (sym e) (grown, (valid, unfold new_pushback in backed))
  ]

  admit_and_show-Ticked :
      (c : Call) (now : ℕ) (s : Signal) (verdict : PushbackVerdict floats.F)
      (valid : List EvidenceItem) (w : Critic E)
      → is_empty valid ≡ false
      → All (λ (e : EvidenceItem). IsRecent now w e.observation_id) valid
      → E.is_below_bar verdict.confidence ≡ false
      → Ticked now w
          (admit_and_show E c now s verdict valid w).0
          (admit_and_show E c now s verdict valid w).1.pushbacks
  unfolding admit_and_show
  admit_and_show-Ticked c now s verdict valid w full recent sure =
      let admitted : Bool = (admit floats w.mode now w.governor).1 in
      let g : Governor floats = (admit floats w.mode now w.governor).0 in
      elim (Bool-cases admitted) [
        | inr e ↦ rw e (
            queue-Ticked c now (build_pb E w.mode s verdict valid "queued") w g
              (unfold build_pb in refl))
        | inl e ↦ elim (Bool-cases (is_dupe E now valid w.pushbacks)) [
          | inl d ↦ rw (e, d) (inl refl)
          | inr d ↦
              rw (e, d)
                (show-Ticked c now (build_pb E w.mode s verdict valid "shown") valid w g
                  (unfold build_pb in (refl, refl, full, recent, sure, e, d)))
        ]
      ]

  judge-Ticked :
      (c : Call) (now : ℕ) (s : Signal) (verdict : PushbackVerdict floats.F) (w : Critic E)
      → Ticked now w
          (judge E c now s (digest_of E now w) verdict w).0
          (judge E c now s (digest_of E now w) verdict w).1.pushbacks
  unfolding judge
  judge-Ticked c now s verdict w =
      let valid : List EvidenceItem = valid_evidence E (digest_of E now w) verdict in
      elim (Bool-cases (is_empty valid)) [
        | inl e ↦ rw e (inl refl)
        | inr e ↦ elim (Bool-cases (E.is_below_bar verdict.confidence)) [
          | inl low ↦
              rw (e, low)
                (queue-Ticked c now (build_pb E w.mode s verdict valid "queued") w w.governor
                  (unfold build_pb in refl))
          | inr sure ↦
              rw (e, sure)
                (admit_and_show-Ticked c now s verdict valid w e (valid-IsRecent now w verdict)
                  sure)
        ]
      ]

  judged-Ticked :
      (c : Call) (now : ℕ) (s : Signal) (w : Critic E) (o : Option (PushbackVerdict floats.F))
      → let out = judged E c now s (digest_of E now w) w o in Ticked now w out.0 out.1.pushbacks
  unfolding judged
  judged-Ticked c now s w none = inl refl
  judged-Ticked c now s w (some verdict) = judge-Ticked c now s verdict w

  answered-Ticked :
      (c : Call) (now : ℕ) (s : Signal) (memory_ids : List String)
      (answer : Result String (ChatResponse Value)) (w : Critic E)
      → let out = answered E c now s (digest_of E now w) memory_ids answer w in
        Ticked now w out.0 out.1.pushbacks
  unfolding answered record_call
  answered-Ticked c now s memory_ids (err e) w = inl refl
  answered-Ticked c now s memory_ids (ok resp) w =
      unfold digest_of in
      judged-Ticked c now s
        (record_call E c resp.model (some resp.tokens_in) (some resp.tokens_out) none memory_ids
          (ids_of E (digest_of E now w)) w)
        (read_verdict E resp.json)

  -- A slow tick shows a pushback only with evidence, all of it from observations of the last five
  -- minutes, with a confidence that is not below the bar, where the governor admits it and no pushback
  -- of the last day has the same evidence; it then adds exactly this row. Otherwise it leaves the table
  -- or adds one queued row.
  pub slow_tick-Ticked :
      (c : Call) (now : ℕ) (signals : List Signal) (w : Critic E)
      → let out = slow_tick E c now signals w in Ticked now w out.0 out.1.pushbacks
  unfolding slow_tick
  slow_tick-Ticked c now [] w = inl refl
  slow_tick-Ticked c now (s ∷ ss) w = answered-Ticked c now s _ _ w
