-- ===== src/Daemon/Decide/Gate.antt =====
-- Who can make the daemon touch the operator's repository.
use rato.Prelude.{
  ◌≢◌, ℕ, ◌<◌, ◌≡◌, refl, ◌∙◌, true, not, ◌&&◌, Option, none, some, arith, ◌==◌, eq_iff, ◌⊎◌, inl,
  inr, Bool-cases,
}
use rato.Prelude.Result.{Result, ok, err}
use rato.Policy.{tier_of_risk, requires_slug, requires_slug-tier_of_risk}
use rato.Store.Approvals.{Approval, StoreError, is_pending, do_get_approval, do_decide_approval}
use rato.Store.Approvals.Decisions.{do_decide_approval-ok}
use rato.Workbench.Merge.{Env, Value, World, MergeReady, execute_merge, deny}
use rato.Workbench.Merge.Guards.{execute_merge-guarded}
use rato.Daemon.Decide.{
  DecideParams, approvals_decide, decide_found, approve, after_approve, after_merge, deny_or_fail,
  passes_gate, slug_matches,
}

module _ (E : Env) (params : DecideParams) (now merge_now ended : ℕ) (w : World E) where
  -- What the handler has seen when the live repositories differ after it.
  pub record Opened : Type 0 where
    pub verdict : params.verdict ≡ "approve"
    pub approval : Approval (Value E)
    pub stored : do_get_approval E.approvals params.id w.approvals ≡ some approval
    pub pending : is_pending approval ≡ true
    pub kind : approval.kind ≡ "merge_back"
    pub in_time : merge_now < approval.expires_at
    pub slug : (approval.risk ≢ 3) ⊎ (slug_matches approval.id params.slug ≡ true)

  abbrev pub Same : World E → Type 0
  Same w' = E.git.live w'.disk ≡ E.git.live w.disk

  after_merge-disk :
      (decided : Approval (Value E)) (v : World E)
      → (after_merge E params.id decided (execute_merge E decided merge_now ended v)).1
        ≡ (execute_merge E decided merge_now ended v).1
  unfolding after_merge
  after_merge-disk decided v = go (execute_merge E decided merge_now ended v)
    where
      go : (x : Result _ _ × World E) → (after_merge E params.id decided x).1 ≡ x.1
      go (ok m, v') = refl
      go (err e, v') = refl

  after_approve-guarded :
      (r : Result StoreError (Approval (Value E))) (v : World E)
      → E.git.live v.disk ≡ E.git.live w.disk
      → Same (after_approve E params.id merge_now ended r v).1
        ⊎ ((a : Approval (Value E)) × (r ≡ ok a)
            × (a.kind ≡ "merge_back")
            × MergeReady E a merge_now v)
  unfolding after_approve
  after_approve-guarded (err e) v h = inl h
  after_approve-guarded (ok a) v h = elim (Bool-cases (a.kind == "merge_back")) [
    | inr other ↦ rw other (inl h)
    | inl merge ↦
        rw (merge, after_merge-disk a v)
          (elim (execute_merge-guarded E a merge_now ended v) [
            | inl same ↦ inl (same.0 ∙ h)
            | inr ready ↦ inr (a, refl, (eq_iff a.kind "merge_back").0 merge, ready)
          ])
  ]

  slug_of_gate :
      (a : Approval (Value E))
      → passes_gate a params.slug ≡ true
      → (a.risk ≢ 3) ⊎ (slug_matches a.id params.slug ≡ true)
  unfolding passes_gate
  slug_of_gate a p = elim (Bool-cases (requires_slug (tier_of_risk a.risk))) [
    | inl asked ↦ inr (rw asked at p)
    | inr free ↦ inl (λ e. ground (arith, free, (requires_slug-tier_of_risk a.risk).1 e))
  ]

  approve-guarded :
      (a : Approval (Value E))
      → do_get_approval E.approvals params.id w.approvals ≡ some a
      → passes_gate a params.slug ≡ true
      → params.verdict ≡ "approve"
      → Same (approve E params now merge_now ended w).1 ⊎ Opened
  unfolding approve
  approve-guarded a e p v =
      let decision =
        do_decide_approval E.approvals params.id "approved" now "cli" params.note w.approvals in
      elim (after_approve-guarded decision.0 (record w { approvals = decision.1 }) refl) [
        | inl same ↦ inl same
        | inr (b, done, kind, ready) ↦
            let (waits, same) =
              do_decide_approval-ok E.approvals params.id "approved" "cli" now params.note
                w.approvals a b e done in
            inr (record {
              verdict = v;
              approval = a;
              stored = e;
              pending = waits;
              kind = ground (arith, kind, same);
              in_time = ground (arith, ready.in_time, same);
              slug = slug_of_gate a p;
            })
      ]

  deny-Same : Same (deny_or_fail E params now w).1
  unfolding deny_or_fail deny
  deny-Same = ground arith

  decide_found-guarded :
      (o : Option (Approval (Value E)))
      → do_get_approval E.approvals params.id w.approvals ≡ o
      → Same (decide_found E params now merge_now ended o w).1 ⊎ Opened
  unfolding decide_found
  decide_found-guarded none e = inl refl
  decide_found-guarded (some a) e = elim (Bool-cases (passes_gate a params.slug)) [
    | inr shut ↦ rw shut (inl refl)
    | inl passed ↦ elim (Bool-cases (params.verdict == "approve")) [
      | inl v ↦ rw (passed, v) (approve-guarded a e passed ((eq_iff params.verdict "approve").0 v))
      | inr v ↦ rw (passed, v) (inl (deny-Same))
    ]
  ]

  -- The handler of `approvals/decide` leaves the operator's repositories as they are, unless the call
  -- approves a pending `merge_back` approval that has not expired, and, where the stored risk is 3,
  -- brings the slug of that approval.
  pub approvals_decide-guarded : Same (approvals_decide E params now merge_now ended w).1 ⊎ Opened
  unfolding approvals_decide
  approvals_decide-guarded =
      elim (Bool-cases (not (params.verdict == "approve") && not (params.verdict == "deny"))) [
        | inl bad ↦ rw bad (inl refl)
        | inr good ↦
            rw good (decide_found-guarded (do_get_approval E.approvals params.id w.approvals) refl)
      ]
