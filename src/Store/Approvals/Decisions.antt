-- ===== src/Store/Approvals/Decisions.antt =====
-- A decision on an approval is made once.
use rato.Prelude.{
  ℕ, String, ◌≡◌, refl, true, false, Option, none, some, List, [], ◌∷◌, arith, ◌==◌, eq_iff,
  eq_refl, if◌then◌else◌, Option-cases, Bool-cases, inl, inr, ◌⊎◌,
}
use rato.Prelude.Result.{Result, ok, err}
use rato.Store.Sql.{get_row, get_row-update, get_row-update_id, get_row-insert, get_row-insert_self}
use rato.Store.Approvals.{
  Approval, Approvals, StoreError, not_found, invalid_state, is_due, is_pending, decide_found,
  new_row, do_get_approval, do_decide_approval, decide_row, Op, inserts, decides, executes, expires,
  step, run,
}

module _ {V : Type 0} (db : Approvals V) where
  -- What a decision does: `r` is its result and `t'` the table that it leaves, for the row under `id`.
  abbrev pub Decides :
      String
      → (Approval V → Approval V)
      → db.Table
      → Option (Approval V)
      → Result StoreError (Approval V) × db.Table
      → Type 0
  Decides id f t none (r, t') = (r ≡ err not_found) × (t' ≡ t)
  Decides id f t (some a) (r, t') =
      ((is_pending a ≡ true)
        × (r ≡ ok (f a))
        × ((k : String)
            → do_get_approval db k t' ≡ (if k == id then some (f a) else do_get_approval db k t)))
      ⊎ ((is_pending a ≡ false) × (r ≡ err (invalid_state id a.status)) × (t' ≡ t))

  decide_found-Decides :
      (id status via : String) (at : ℕ) (memo : Option String) (t : db.Table)
      (o : Option (Approval V))
      → get_row db id t ≡ o
      → Decides id
          (decide_row db status at via memo)
          t
          o
          (decide_found db id status at via memo t o)
  unfolding decide_found do_get_approval
  decide_found-Decides id status via at memo t none e = (refl, refl)
  decide_found-Decides id status via at memo t (some a) e = elim (Bool-cases (is_pending a)) [
    | inl waits ↦ rw waits (
        inl (
          refl,
          ground (
            arith,
            get_row-update_id db id id (decide_row db status at via memo) t (λ b. refl),
            e,
            eq_refl id,
          ),
          λ k. ground (
            arith,
            get_row-update_id db id k (decide_row db status at via memo) t (λ b. refl),
            e,
            eq_iff k id,
          ),
        ))
    | inr over ↦ rw over (inr (refl, refl, refl))
  ]

  pub do_decide_approval-Decides :
      (id status via : String) (at : ℕ) (memo : Option String) (t : db.Table)
      → Decides id
          (decide_row db status at via memo)
          t
          (do_get_approval db id t)
          (do_decide_approval db id status at via memo t)
  unfolding do_decide_approval do_get_approval
  do_decide_approval-Decides id status via at memo t =
      decide_found-Decides id status via at memo t (get_row db id t) refl

  -- The row is there and has the same decision; only its execution may be new.
  abbrev pub SameDecision : Approval V → Option (Approval V) → Type 0
  SameDecision a none = ⊥
  SameDecision a (some b) =
      (b.status ≡ a.status)
      × (b.decided_at ≡ a.decided_at)
      × (b.decided_via ≡ a.decided_via)
      × (b.decision_note ≡ a.decision_note)
      × (b.payload ≡ a.payload)
      × (b.kind ≡ a.kind)
      × (b.risk ≡ a.risk)

  SameDecision-insert :
      (id : String) (a : Approval V) (new : Approval V) (t : db.Table) (o : Option db.Table)
      → db.insert new t ≡ o
      → get_row db id t ≡ some a
      → SameDecision a (get_row db id (elim o [ none ↦ t | some t' ↦ t' ]))
  SameDecision-insert id a new t none i e = rw e (refl, refl, refl, refl, refl, refl, refl)
  SameDecision-insert id a new t (some t') i e = ground (
    arith,
    get_row-insert db new t t' id i,
    get_row-insert_self db new t t' i,
    e,
    eq_iff new.id id,
  )

  decide_found-SameDecision :
      (id : String) (a : Approval V) (new status via : String) (at : ℕ) (memo : Option String)
      (t : db.Table) (o : Option (Approval V))
      → get_row db new t ≡ o
      → get_row db id t ≡ some a
      → is_pending a ≡ false
      → SameDecision a (get_row db id (decide_found db new status at via memo t o).1)
  unfolding decide_found
  decide_found-SameDecision id a new status via at memo t none f e h =
      rw e (refl, refl, refl, refl, refl, refl, refl)
  decide_found-SameDecision id a new status via at memo t (some c) f e h = ground (
    arith,
    get_row-update_id db new id (decide_row db status at via memo) t (λ b. refl),
    eq_iff id new,
  )

  step-SameDecision :
      (id : String) (a : Approval V) (o : Op db) (t : db.Table)
      → get_row db id t ≡ some a
      → is_pending a ≡ false
      → SameDecision a (get_row db id (step db o t))
  unfolding step
  step-SameDecision id a (inserts new now na) t e h = ground (
    arith,
    SameDecision-insert id a (new_row new now na) t (db.insert (new_row new now na) t) refl e,
  )
  step-SameDecision id a (decides new status at via memo) t e h =
      decide_found-SameDecision id a new status via at memo t (get_row db new t) refl e h
  step-SameDecision id a (executes new v) t e h =
      ground
        (arith, get_row-update_id db new id (λ b. record b { execution = some v }) t (λ b. refl), e)
  step-SameDecision id a (expires now) t e h = ground (
    arith,
    get_row-update db (is_due now) (λ b. record b { status = "expired" }) (λ b. ground arith) id t,
    e,
  )

  SameDecision-trans :
      (a b : Approval V) (o : Option (Approval V))
      → SameDecision a (some b)
      → SameDecision b o
      → SameDecision a o
  SameDecision-trans a b none h k = k
  SameDecision-trans a b (some c) h k = ground arith

  run-SameDecision :
      (id : String) (a : Approval V) (os : List (Op db)) (t : db.Table)
      → SameDecision a (get_row db id t)
      → is_pending a ≡ false
      → SameDecision a (get_row db id (run db os t))
  unfolding run
  run-SameDecision id a [] t s h = s
  run-SameDecision id a (o ∷ os) t s h =
      run-SameDecision id a os (step db o t)
        (elim (Option-cases (get_row db id t)) [
          | inl e ↦ absurd (rw e at s)
          | inr (b, e) ↦
              let same : SameDecision a (some b) = rw e at s in
              SameDecision-trans a b _ same (step-SameDecision id b o t e (ground (arith, same.0)))
        ])
        h

  -- Once an approval is not pending, no sequence of store messages (inserts, decisions, executions,
  -- sweeps) removes it or changes its status, its decision, or what was approved.
  pub do_get_approval-run :
      (id : String) (a : Approval V) (os : List (Op db)) (t : db.Table)
      → do_get_approval db id t ≡ some a
      → is_pending a ≡ false
      → SameDecision a (do_get_approval db id (run db os t))
  unfolding do_get_approval
  do_get_approval-run id a os t e h =
      run-SameDecision id a os t (rw e (refl, refl, refl, refl, refl, refl, refl)) h

  -- A decision that succeeds found its row pending, and returns it with the decision written in.
  pub do_decide_approval-ok :
      (id status via : String) (at : ℕ) (memo : Option String) (t : db.Table) (a b : Approval V)
      → do_get_approval db id t ≡ some a
      → (do_decide_approval db id status at via memo t).0 ≡ ok b
      → (is_pending a ≡ true) × (b ≡ decide_row db status at via memo a)
  do_decide_approval-ok id status via at memo t a b e r =
      let d : Decides id (decide_row db status at via memo) t (some a)
          (do_decide_approval db id status at via memo t) =
        rw e at (do_decide_approval-Decides id status via at memo t) in
      elim d [
        | inl (waits, done, _) ↦ (waits, ground (arith, r, done))
        | inr (_, refused, _) ↦ absurd (ground (arith, r, refused))
      ]
