-- ===== src/Store/Approvals/Expiry.antt =====
-- The sweep of overdue approvals.
use rato.Prelude.{
  ap, sym, ◌∙◌, ℕ, ◌+◌, ◌≡◌, refl, false, List, [], ◌∷◌, map, arith, Bool-cases, inl, inr,
  if◌then◌else◌, ltb, leb, length, filter,
}
use rato.Store.Approvals.Order.{length-oldest_first, filter-oldest_first}
use rato.Store.Approvals.{
  oldest_first, Approval, Approvals, is_due, is_pending, do_expire_approvals, do_pending_approvals,
}

module _ {V : Type 0} where
  abbrev expired_row : Approval V → Approval V
  expired_row a = record a { status = "expired" }

  abbrev sweep : ℕ → List (Approval V) → List (Approval V)
  sweep now = map (λ a. if is_due now a then expired_row a else a)

  expired-not-pending : (a : Approval V) → is_pending (expired_row a) ≡ false
  expired-not-pending a = refl

  pending-sweep :
      (now : ℕ) (xs : List (Approval V))
      → (filter is_pending (sweep now xs)
          ≡ filter (λ a. ltb now a.expires_at) (filter is_pending xs))
        × (length (filter is_pending xs)
            ≡ length (filter (is_due now) xs) + length (filter is_pending (sweep now xs)))
  pending-sweep now [] = (refl, omega arith)
  pending-sweep now (a ∷ xs) = elim (Bool-cases (is_pending a)) [
    | inl waits ↦ elim (Bool-cases (leb a.expires_at now)) [
      | inl late ↦ rw (waits, late) (ground (arith, pending-sweep now xs))
      | inr early ↦ rw (waits, early) (rw waits (ground (arith, pending-sweep now xs)))
    ]
    | inr over ↦ rw over (rw over (pending-sweep now xs))
  ]

module _ {V : Type 0} (db : Approvals V) where
  -- After a sweep at `now` the pending approvals are those from before that expire later than `now`,
  -- in the same order, and the count that it returns is the number of those that left.
  pub do_pending_approvals-do_expire_approvals :
      (now : ℕ) (t : db.Table)
      → let (n, t') = do_expire_approvals db now t in
        (do_pending_approvals db t'
          ≡ filter (λ a. ltb now a.expires_at) (do_pending_approvals db t))
        × (length (do_pending_approvals db t) ≡ n + length (do_pending_approvals db t'))
  unfolding do_pending_approvals do_expire_approvals
  do_pending_approvals-do_expire_approvals now t =
      let before = filter is_pending (db.rows t) in
      let (left, counted) = pending-sweep now (db.rows t) in
      rw (db.rows-update (is_due now) expired_row t) (
        ap oldest_first left ∙ sym (filter-oldest_first (λ a. ltb now a.expires_at) before),
        omega (
          arith,
          counted,
          length-oldest_first before,
          length-oldest_first (filter is_pending (sweep now (db.rows t))),
        ),
      )
