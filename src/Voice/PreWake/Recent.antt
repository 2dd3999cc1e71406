-- ===== src/Voice/PreWake/Recent.antt =====
-- The ring holds the most recent samples.
use rato.Prelude.{
  ℕ, zero, suc, ◌+◌, ◌-◌, ◌≤◌, ◌≡◌, refl, sym, ap, ◌∙◌, List, [], ◌∷◌, ◌++◌, arith, ltb, length,
  drop, length-append, length-drop, Bool-cases, inl, inr, ltb→lt,
}
use mathlib.Core.List.{append_assoc, append-nil}
use rato.Voice.PreWake.{PreWakeRing, pop_front_to, push_all, push_frame, snapshot, len_samples}

module _ {S : Type 0} where
  -- The last `n` of a list.
  abbrev pub last : ℕ → List S → List S
  last n xs = drop (length xs - n) xs

  drop_same : (j k : ℕ) (xs : List S) → j ≡ k → drop j xs ≡ drop k xs
  drop_same j k xs e = ap (λ n. drop n xs) e

  last_all : (n : ℕ) (xs : List S) → length xs ≤ n → last n xs ≡ xs
  last_all n xs h = drop_same (length xs - n) 0 xs (omega (arith, h))

  length-last-le : (n : ℕ) (xs : List S) → length (last n xs) ≤ n
  length-last-le n xs = omega (arith, length-drop (length xs - n) xs)

  pop_front_to-lem : (n : ℕ) (xs : List S) → pop_front_to n xs ≡ last n xs
  unfolding pop_front_to
  pop_front_to-lem n [] = sym (last_all n [] (omega arith))
  pop_front_to-lem n (x ∷ xs) = elim (Bool-cases (ltb n (length (x ∷ xs)))) [
    | inl over ↦ rw over (
        pop_front_to-lem n xs
        ∙ drop_same (suc (length xs - n)) (suc (length xs) - n) (x ∷ xs)
            (omega (arith, ltb→lt n (suc (length xs)) over)))
    | inr fits ↦ rw fits (sym (last_all n (x ∷ xs) (ground arith)))
  ]

  drop-append : (k : ℕ) (xs ys : List S) → k ≤ length xs → drop k xs ++ ys ≡ drop k (xs ++ ys)
  drop-append zero xs ys h = refl
  drop-append (suc k) [] ys h = absurd (omega arith)
  drop-append (suc k) (x ∷ xs) ys h = drop-append k xs ys (omega arith)

  drop-nil : (n : ℕ) → drop {A = S} n [] ≡ []
  drop-nil zero = refl
  drop-nil (suc n) = refl

  drop-drop : (j k : ℕ) (xs : List S) → drop j (drop k xs) ≡ drop (k + j) xs
  drop-drop j zero xs = drop_same j (0 + j) xs (omega arith)
  drop-drop j (suc k) [] = drop-nil j ∙ sym (drop-nil (suc k + j))
  drop-drop j (suc k) (x ∷ xs) =
      drop-drop j k xs ∙ drop_same (suc (k + j)) (suc k + j) (x ∷ xs) (omega arith)

  last-append : (n : ℕ) (xs ys : List S) → last n (last n xs ++ ys) ≡ last n (xs ++ ys)
  last-append n xs ys =
      let k = length xs - n in
      ap (last n) (drop-append k xs ys (omega arith))
      ∙ drop-drop (length (drop k (xs ++ ys)) - n) k (xs ++ ys)
      ∙ drop_same (k + (length (drop k (xs ++ ys)) - n)) (length (xs ++ ys) - n) (xs ++ ys)
          (omega (arith, length-drop k (xs ++ ys), length-append xs ys))

  push_all-lem :
      (n : ℕ) (frame samples : List S)
      → length samples ≤ n
      → push_all n frame samples ≡ last n (samples ++ frame)
  unfolding push_all
  push_all-lem n [] samples h = sym (ap (last n) (append-nil samples) ∙ last_all n samples h)
  push_all-lem n (s ∷ frame) samples h =
      ap (push_all n frame) (pop_front_to-lem n (samples ++ s ∷ []))
      ∙ push_all-lem n frame (last n (samples ++ s ∷ [])) (length-last-le n (samples ++ s ∷ []))
      ∙ last-append n (samples ++ s ∷ []) frame
      ∙ ap (last n) (append_assoc samples (s ∷ []) frame)

  -- A ring that is within its size stays so when a frame is pushed, and it then holds the last samples
  -- of what it held and the frame, as many as its size allows, in their order.
  pub snapshot-push_frame :
      (frame : List S) (ring : PreWakeRing S)
      → length ring.samples ≤ ring.max_samples
      → (snapshot (push_frame frame ring) ≡ last ring.max_samples (snapshot ring ++ frame))
        × (len_samples (push_frame frame ring) ≤ ring.max_samples)
  unfolding snapshot push_frame len_samples
  snapshot-push_frame frame ring h =
      let pushed = push_all-lem ring.max_samples frame ring.samples h in
      (
        pushed,
        omega (arith, ap length pushed, length-last-le ring.max_samples (ring.samples ++ frame)),
      )
