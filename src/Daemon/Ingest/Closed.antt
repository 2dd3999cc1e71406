-- ===== src/Daemon/Ingest/Closed.antt =====
-- The closes of a tick, written to the store.
use rato.Prelude.{
  ◌≡◌, refl, sym, subst, ◌∙◌, String, Bool, true, false, not, none, some, [], ◌∷◌, arith, ◌==◌,
  eq_iff, eq_refl, if◌then◌else◌, Bool-cases, inl, inr, filter, any, map, All, All-filter,
}
use rato.Daemon.Sessionizer.{OpenSession, OpenMap, get}
use rato.Daemon.Sessionizer.Closing.{Distinct, Absent, close_of}
use rato.Daemon.Ingest.{Env, World, apply}
use rato.Daemon.Ingest.Mirror.{View, Mirrors, put}
use rato.Daemon.Ingest.Applied.{Applied, close_Applied}

abbrev pub without : OpenMap → View → View
without [] view = view
without ((p, s) ∷ es) view = without es (put p none view)

abbrev has : String → OpenMap → Bool
has q es = any (λ (e : String × OpenSession). e.0 == q) es

without-has :
    (es : OpenMap) (view : View) (q : String)
    → without es view q ≡ (if has q es then none else view q)
without-has [] view q = refl
without-has ((p, s) ∷ es) view q =
    without-has es (put p none view) q ∙ ground (arith, eq_iff p q, eq_iff q p)

get-Absent : (q : String) (m : OpenMap) → Absent q m → get q m ≡ none
unfolding get
get-Absent q [] h = refl
get-Absent q ((p, s) ∷ m) h = rw h.0 (get-Absent q m h.1)

has-Absent : (q : String) (m : OpenMap) → Absent q m → has q m ≡ false
has-Absent q [] h = refl
has-Absent q ((p, s) ∷ m) h = rw h.0 (has-Absent q m h.1)

get-cons_other :
    (p q : String) (s : OpenSession) (m : OpenMap) → (p == q) ≡ false → get q ((p, s) ∷ m) ≡ get q m
unfolding get
get-cons_other p q s m h = rw h

get-cons_same :
    (p q : String) (s : OpenSession) (m : OpenMap) → (p == q) ≡ true → get q ((p, s) ∷ m) ≡ some s
unfolding get
get-cons_same p q s m h = rw h

Absent-filter :
    (k : String × OpenSession → Bool) (q : String) (m : OpenMap)
    → Absent q m
    → Absent q (filter k m)
Absent-filter k q m h = All-filter (λ (e : String × OpenSession). (e.0 == q) ≡ false) k m h

Absent-at : (p q : String) (m : OpenMap) → (p == q) ≡ true → Absent p m → Absent q m
Absent-at p q m e a = subst (λ r. Absent r m) ((eq_iff p q).0 e) a

pub get-kept :
    (k : String × OpenSession → Bool) (q : String) (m : OpenMap)
    → Distinct m
    → without (filter k m) (λ r. get r m) q ≡ get q (filter (λ e. not (k e)) m)
get-kept k q m h = without-has (filter k m) (λ r. get r m) q ∙ go m h
  where
    go :
        (m : OpenMap)
        → Distinct m
        → (if has q (filter k m) then none else get q m) ≡ get q (filter (λ e. not (k e)) m)
    go [] h = refl
    go ((p, s) ∷ m) h = elim (Bool-cases (k (p, s))) [
      | inl stale ↦ elim (Bool-cases (p == q)) [
        | inl e ↦
            rw (stale, e)
              (sym (get-Absent q _ (Absent-filter (λ x. not (k x)) q m (Absent-at p q m e h.0))))
        | inr e ↦ rw (stale, e, get-cons_other p q s m e) (go m h.1)
      ]
      | inr live ↦ elim (Bool-cases (p == q)) [
        | inl e ↦
            rw (live, has-Absent q (filter k m) (Absent-filter k q m (Absent-at p q m e h.0)))
              (get-cons_same p q s m e ∙ sym (get-cons_same p q s (filter (λ x. not (k x)) m) e))
        | inr e ↦
            rw (live, get-cons_other p q s m e, get-cons_other p q s (filter (λ e. not (k e)) m) e)
              (go m h.1)
      ]
    ]

pub get-each :
    (k : String × OpenSession → Bool) (m : OpenMap)
    → Distinct m
    → All (λ (e : String × OpenSession). get e.0 m ≡ some e.1) (filter k m)
get-each k m h = All-filter _ k m (go m h)
  where
    still :
        (p : String) (s : OpenSession) (m n : OpenMap)
        → Absent p n
        → All (λ (e : String × OpenSession). get e.0 m ≡ some e.1) n
        → All (λ (e : String × OpenSession). get e.0 ((p, s) ∷ m) ≡ some e.1) n
    still p s m [] a h = tt
    still p s m ((q, u) ∷ n) a h = (
      get-cons_other p q s m (ground (arith, eq_iff p q, eq_iff q p, a.0)) ∙ h.0,
      still p s m n a.1 h.1,
    )

    go : (m : OpenMap) → Distinct m → All (λ (e : String × OpenSession). get e.0 m ≡ some e.1) m
    go [] h = tt
    go ((p, s) ∷ m) h = (get-cons_same p p s m (eq_refl p), still p s m m h.0 (go m h.1))

put-other :
    (p : String) (view : View) (es : OpenMap)
    → Absent p es
    → All (λ (e : String × OpenSession). view e.0 ≡ some e.1) es
    → All (λ (e : String × OpenSession). put p none view e.0 ≡ some e.1) es
put-other p view [] a h = tt
put-other p view ((q, s) ∷ es) a h = (rw a.0 (h.0), put-other p view es a.1 h.1)

module _ (E : Env) where
  open E use {sessions}

  -- The closes of sessions that the view has, each of its own project.
  pub closes_Applied :
      (es : OpenMap) (w : World E) (view : View)
      → Distinct es
      → All (λ (e : String × OpenSession). view e.0 ≡ some e.1) es
      → Mirrors sessions view w.sessions
      → Applied E (map close_of es) w (without es view)
  closes_Applied [] w view d h m = (w.sessions, unfold apply in refl, m)
  closes_Applied ((p, s) ∷ es) w view d h m =
      close_Applied E w view (without es (put p none view)) p s s.last_activity (map close_of es) m
        h.0 (λ m'. closes_Applied es _ (put p none view) d.1 (put-other p view es d.0 h.1) m')
