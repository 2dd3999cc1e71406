-- ===== src/Terminal/Parents.antt =====
-- The walk up the parents ends where no process is above itself.
use rato.Prelude.{
  ℕ, zero, suc, ◌≤◌, ◌<◌, ◌≡◌, refl, Bool, true, Option, none, some, List, [], ◌∷◌, arith, eqb→eq,
  eqb, length, All, Bool-cases, inl, inr, ap, sym, ◌∙◌, subst,
}
use rato.Prelude.Paths.{Text}
use rato.Terminal.{
  ProcEntry, later_or, last_with, name_or_up, by_pid, find_up, at_entry, find_emulator,
  executable_name, is_terminal_emulator,
}

-- A rank that falls from a process to its parent.
abbrev pub Below : (ℕ → ℕ) → ℕ → Option ℕ → Type 0
Below rank r none = Unit {0}
Below rank r (some q) = rank q < r

abbrev pub Ranked : (ℕ → ℕ) → ℕ → List ProcEntry → Type 0
Ranked rank most = All (λ (p : ProcEntry). Below rank (rank p.pid) p.ppid × (rank p.pid ≤ most))

pub some_inner : {A : Type 0} (x y : A) → some x ≡ some y → x ≡ y
some_inner x y e = ground arith

later_or-All :
    {A : Type 0} (P : A → Type 0) (q : A → Bool) (y x : A) (o : Option A)
    → P y
    → (o ≡ some x → P x × (q x ≡ true))
    → later_or o (q y) y ≡ some x
    → P x × (q x ≡ true)
later_or-All P q y x (some z) h later e = later e
later_or-All P q y x none h later e = elim (Bool-cases (q y)) [
  | inl t ↦ subst (λ z. P z × (q z ≡ true)) (some_inner y x (sym (rw t) ∙ e)) (h, t)
  | inr f ↦ ground (arith, f, e)
]

last_with-All :
    {A : Type 0} (P : A → Type 0) (q : A → Bool) (xs : List A) (x : A)
    → All P xs
    → last_with q xs ≡ some x
    → P x × (q x ≡ true)
unfolding last_with
last_with-All P q [] x h e = ground arith
last_with-All P q (y ∷ ys) x h e =
    later_or-All P q y x (last_with q ys) h.0 (λ k. last_with-All P q ys x h.1 k) e

name_or_up-ends :
    (e : ProcEntry) (o : Option Text) (up : Option ℕ → Option (Option Text)) (r : Option Text)
    → up e.ppid ≡ some r
    → (a : Option Text) × (name_or_up e o up ≡ some a)
unfolding name_or_up
name_or_up-ends e none up r h = (r, h)
name_or_up-ends e (some name) up r h = elim (Bool-cases (is_terminal_emulator name)) [
  | inl t ↦ (some name, rw t)
  | inr f ↦ (r, rw f h)
]

at_entry-ends :
    (rank : ℕ → ℕ) (n : ℕ) (o : Option ProcEntry) (up : Option ℕ → Option (Option Text))
    → ((parent : Option ℕ) → Below rank n parent → (r : Option Text) × (up parent ≡ some r))
    → ((e : ProcEntry) → o ≡ some e → Below rank n e.ppid)
    → (a : Option Text) × (at_entry o up ≡ some a)
unfolding at_entry
at_entry-ends rank n none up h k = (none, refl)
at_entry-ends rank n (some e) up h k =
    let (r, found) = h e.ppid (k e refl) in name_or_up-ends e (executable_name e) up r found

Below-le : (rank : ℕ → ℕ) (m n : ℕ) (o : Option ℕ) → m ≤ n → Below rank m o → Below rank n o
Below-le rank m n none h b = tt
Below-le rank m n (some q) h b = omega (arith, h, b)

find_up-ends :
    (rank : ℕ → ℕ) (most n : ℕ) (ps : List ProcEntry) (parent : Option ℕ)
    → Ranked rank most ps
    → Below rank n parent
    → (a : Option Text) × (find_up (suc n) ps parent ≡ some a)
unfolding find_up by_pid
find_up-ends rank most n ps none h b = (none, refl)
find_up-ends rank most zero ps (some pid) h b = absurd (omega (arith, b))
find_up-ends rank most (suc n) ps (some pid) h b =
    at_entry-ends rank n (by_pid ps pid) (find_up (suc n) ps)
      (λ parent below. find_up-ends rank most n ps parent h below)
      (λ e found.
        let (ranked, same) = last_with-All _ (λ p. eqb p.pid pid) ps e h found in
        Below-le rank (rank e.pid) n e.ppid (omega (arith, ap rank (eqb→eq e.pid pid same), b))
          ranked.0)

-- The search for the terminal's window ends where processes can be ranked so that each stands above its
-- parent, with ranks up to their number, which is so when none is its own ancestor.
pub find_emulator-ends :
    (rank : ℕ → ℕ) (ps : List ProcEntry) (p : ProcEntry)
    → Ranked rank (length ps) ps
    → Below rank (rank p.pid) p.ppid
    → rank p.pid ≤ length ps
    → (a : Option Text) × (find_emulator ps p ≡ some a)
unfolding find_emulator
find_emulator-ends rank ps p h b k =
    find_up-ends rank (length ps) (suc (length ps)) ps p.ppid h
      (Below-le rank (rank p.pid) (suc (length ps)) p.ppid (omega (arith, k)) b)
