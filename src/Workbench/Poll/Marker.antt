-- ===== src/Workbench/Poll/Marker.antt =====
-- What the tail of a window says of the end of its run.
use rato.Prelude.{
  ℕ, ◌+◌, ◌-◌, ◌*◌, ◌≡◌, refl, sym, ap, ◌∙◌, subst, String, Option, none, some, List, [], ◌∷◌, ◌++◌,
  Bool, true, false, ◌&&◌, eqb, eqb→eq, is_empty, starts_with, length, drop, if◌then◌else◌, arith,
  All, Bool-cases, inl, inr, ◌⊎◌,
}
use rato.Workbench.Poll.{
  all_ascii, digits, exit_marker, exit_here, exit_digits, number, exit_code, tail_status,
}

-- Nothing but the digit 0.
abbrev pub all_zeros : List ℕ → Bool
all_zeros [] = true
all_zeros (c ∷ s) = eqb c 48 && all_zeros s

all_zeros-ascii : (ds : List ℕ) → all_zeros ds ≡ true → all_ascii ds ≡ true
unfolding all_ascii
all_zeros-ascii [] h = refl
all_zeros-ascii (c ∷ s) h = ground (arith, all_zeros-ascii s, eqb→eq c 48)

number-zero :
    (acc : ℕ) (ds : List ℕ)
    → all_ascii ds ≡ true
    → eqb (number acc ds) 0 ≡ (eqb acc 0 && all_zeros ds)
unfolding number all_ascii
number-zero acc [] h = ground arith
number-zero acc (c ∷ s) h =
    let low : eqb (acc * 10 + (c - 48)) 0 ≡ (eqb acc 0 && eqb c 48) = ground (arith, h) in
    ground (arith, number-zero (acc * 10 + (c - 48)) s, low, h)

exit_code-zero : (ds : List ℕ) → eqb (exit_code ds) 0 ≡ all_zeros ds
unfolding exit_code
exit_code-zero ds = elim (Bool-cases (all_ascii ds)) [
  | inl e ↦ (let z = number-zero 0 ds e in ground (arith, z, e))
  | inr e ↦ ground (arith, all_zeros-ascii ds)
]

starts_with-split : (s m : List ℕ) → starts_with s m ≡ true → s ≡ m ++ drop (length m) s
unfolding starts_with
starts_with-split s [] h = refl
starts_with-split [] (y ∷ m) h = ground (arith, h)
starts_with-split (x ∷ s) (y ∷ m) h =
    let same : x ≡ y = ground (arith, h, eqb→eq x y) in
    let rest : starts_with s m ≡ true = ground (arith, h) in
    ap (λ z. z ∷ s) same ∙ ap (λ z. y ∷ z) (starts_with-split s m rest)

starts_with-append : (m r : List ℕ) → starts_with (m ++ r) m ≡ true
unfolding starts_with
starts_with-append [] [] = refl
starts_with-append [] (c ∷ r) = refl
starts_with-append (x ∷ m) r = ground (arith, starts_with-append m r)

drop-append_front : (m r : List ℕ) → drop (length m) (m ++ r) ≡ r
drop-append_front [] r = refl
drop-append_front (x ∷ m) r = drop-append_front m r

module _ (is_digit : ℕ → Bool) where
  -- No marker with a digit behind it stands here.
  abbrev pub NoneHere : List ℕ → Type 0
  NoneHere s = (d : ℕ) (r : List ℕ) → s ≡ exit_marker ++ d ∷ r → is_digit d ≡ false

  abbrev pub Unmarked : List ℕ → Type 0
  Unmarked [] = Unit {0}
  Unmarked (c ∷ s) = NoneHere (c ∷ s) × Unmarked s

  abbrev pub NoneBefore : List ℕ → List ℕ → Type 0
  NoneBefore [] rest = Unit {0}
  NoneBefore (c ∷ front) rest = NoneHere (c ∷ (front ++ rest)) × NoneBefore front rest

  abbrev pub NoDigit : List ℕ → Type 0
  NoDigit [] = Unit {0}
  NoDigit (c ∷ s) = is_digit c ≡ false

  -- The first marker with a digit behind it, and the digits there.
  pub record Marked (output ds : List ℕ) : Type 0 where
    pub front : List ℕ
    pub after : List ℕ
    pub split : output ≡ front ++ (exit_marker ++ (ds ++ after))
    pub first : NoneBefore front (exit_marker ++ (ds ++ after))
    pub some_digit : is_empty ds ≡ false
    pub all_digits : All (λ c. is_digit c ≡ true) ds
    pub no_more : NoDigit after

  -- What the tail of a window tells, and what it makes of the run: with no tail the run failed; with no
  -- marker it goes on; with one it is done exactly if the digits are all 0, and otherwise failed.
  abbrev pub TailTells : Option (List ℕ) → Option String → Type 0
  TailTells none status = status ≡ some "failed"
  TailTells (some output) status =
      (Unmarked output × (status ≡ none))
      ⊎ (ds : List ℕ) × Marked output ds
        × (status ≡ (if all_zeros ds then some "done" else some "failed"))

  record Run (s : List ℕ) : Type 0 where
    after : List ℕ
    split : s ≡ digits is_digit s ++ after
    all_digits : All (λ c. is_digit c ≡ true) (digits is_digit s)
    no_more : NoDigit after

  digits-Run : (s : List ℕ) → Run s
  unfolding digits
  digits-Run [] = record { after = []; split = refl; all_digits = tt; no_more = tt }
  digits-Run (c ∷ s) = elim (Bool-cases (is_digit c)) [
    | inl e ↦
        (let r = digits-Run s in
          record {
            after = r.after;
            split = rw e (ap (λ z. c ∷ z) r.split);
            all_digits = rw e (e, r.all_digits);
            no_more = r.no_more;
          })
    | inr e ↦ record { after = c ∷ s; split = rw e refl; all_digits = rw e tt; no_more = e }
  ]

  exit_here-marker : (r : List ℕ) → exit_here is_digit (exit_marker ++ r) ≡ digits is_digit r
  unfolding exit_here
  exit_here-marker r = rw (starts_with-append exit_marker r, drop-append_front exit_marker r) refl

  exit_here-NoneHere : (s : List ℕ) → is_empty (exit_here is_digit s) ≡ true → NoneHere s
  unfolding digits
  exit_here-NoneHere s h d r e = elim (Bool-cases (is_digit d)) [
    | inl yes_digit ↦
        let here : is_empty (digits is_digit (d ∷ r)) ≡ true =
          ap is_empty (sym (ap (exit_here is_digit) e ∙ exit_here-marker (d ∷ r))) ∙ h in
        ground (arith, here, yes_digit)
    | inr no_digit ↦ no_digit
  ]

  exit_here-Marked :
      (s : List ℕ) → is_empty (exit_here is_digit s) ≡ false → Marked s (exit_here is_digit s)
  unfolding exit_here
  exit_here-Marked s h = elim (Bool-cases (starts_with s exit_marker)) [
    | inl e ↦
        (let r = digits-Run (drop (length exit_marker) s) in
          record {
            front = [];
            after = r.after;
            split = rw e (starts_with-split s exit_marker e ∙ ap (λ z. exit_marker ++ z) r.split);
            first = tt;
            some_digit = h;
            all_digits = rw e r.all_digits;
            no_more = r.no_more;
          })
    | inr e ↦ ground (arith, h, e)
  ]

  further-Marked : (c : ℕ) (s ds : List ℕ) → NoneHere (c ∷ s) → Marked s ds → Marked (c ∷ s) ds
  further-Marked c s ds n m = record {
    front = c ∷ m.front;
    after = m.after;
    split = ap (λ z. c ∷ z) m.split;
    first = (subst (λ z. NoneHere (c ∷ z)) m.split n, m.first);
    some_digit = m.some_digit;
    all_digits = m.all_digits;
    no_more = m.no_more;
  }

  exit_digits-found :
      (output : List ℕ)
      → (Unmarked output × (exit_digits is_digit output ≡ none))
        ⊎ (ds : List ℕ) × Marked output ds × (exit_digits is_digit output ≡ some ds)
  unfolding exit_digits
  exit_digits-found [] = inl (tt, refl)
  exit_digits-found (c ∷ s) = elim (Bool-cases (is_empty (exit_here is_digit (c ∷ s)))) [
    | inl e ↦
        (let n = exit_here-NoneHere (c ∷ s) e in
          elim (exit_digits-found s) [
            | inl (u, f) ↦ inl ((n, u), rw e f)
            | inr (ds, m, f) ↦ inr (ds, further-Marked c s ds n m, rw e f)
          ])
    | inr e ↦ inr (exit_here is_digit (c ∷ s), exit_here-Marked (c ∷ s) e, rw e refl)
  ]

  abbrev found_status : Option (List ℕ) → Option String
  found_status o = elim o [
    | none ↦ none
    | some ds ↦ if eqb (exit_code ds) 0 then some "done" else some "failed"
  ]

  -- What the code makes of a tail is what the tail tells.
  pub tail_status-TailTells : (tail : Option (List ℕ)) → TailTells tail (tail_status is_digit tail)
  unfolding tail_status
  tail_status-TailTells none = refl
  tail_status-TailTells (some output) = elim (exit_digits-found output) [
    | inl (u, f) ↦ inl (u, ap found_status f)
    | inr (ds, m, f) ↦ inr (
      ds,
      m,
      ap found_status f ∙ ap (λ b. if b then some "done" else some "failed") (exit_code-zero ds),
    )
  ]
