-- ===== src/Daemon/Sessionizer/Closing.antt =====
-- The map keeps one session for each project, and a tick closes those that are silent too long.
use rato.Prelude.{
  ℕ, String, ◌≡◌, refl, Bool, false, not, Option, none, some, List, [], ◌∷◌, ◌++◌, map, arith, ◌==◌,
  eq_iff, eq_refl, leb, ◌+◌, filter, All, All-append, All-filter, Bool-cases, inl, inr,
}
use rato.Daemon.Sessionizer.{
  SessionUpdate, closes, OpenSession, OpenMap, Sessionizer, WorkSession, get, remove, insert, set,
  is_stale, close_one, close_all, tick, on_activity, activity_at, preload, adopt,
}

-- No entry for the project.
abbrev pub Absent : String → OpenMap → Type 0
Absent p = All (λ (e : String × OpenSession). (e.0 == p) ≡ false)

abbrev pub Distinct : OpenMap → Type 0
Distinct [] = Unit {0}
Distinct ((p, s) ∷ m) = Absent p m × Distinct m

abbrev pub close_of : String × OpenSession → SessionUpdate
close_of (p, s) = closes s.id s.last_activity

remove-Absent : (p : String) (m : OpenMap) → Absent p m → remove p m ≡ m
unfolding remove
remove-Absent p [] h = refl
remove-Absent p ((q, s) ∷ m) h = ground (arith, remove-Absent p m h.1, h.0)

Absent-remove_self : (p : String) (m : OpenMap) → Absent p (remove p m)
unfolding remove
Absent-remove_self p [] = tt
Absent-remove_self p ((q, s) ∷ m) = ground (arith, Absent-remove_self p m)

Absent-remove : (p q : String) (m : OpenMap) → Absent p m → Absent p (remove q m)
unfolding remove
Absent-remove p q [] h = tt
Absent-remove p q ((r, s) ∷ m) h = ground (arith, Absent-remove p q m h.1)

Absent-set : (p q : String) (s : OpenSession) (m : OpenMap) → Absent p m → Absent p (set q s m)
unfolding set
Absent-set p q s [] h = tt
Absent-set p q s ((r, u) ∷ m) h = (h.0, Absent-set p q s m h.1)

Distinct-remove : (p : String) (m : OpenMap) → Distinct m → Distinct (remove p m)
unfolding remove
Distinct-remove p [] h = tt
Distinct-remove p ((q, s) ∷ m) h = ground (arith, Absent-remove q p m h.0, Distinct-remove p m h.1)

Distinct-set : (p : String) (s : OpenSession) (m : OpenMap) → Distinct m → Distinct (set p s m)
unfolding set
Distinct-set p s [] h = tt
Distinct-set p s ((q, u) ∷ m) h = (Absent-set q p s m h.0, Distinct-set p s m h.1)

Absent-sym : (p q : String) → (p == q) ≡ false → (q == p) ≡ false
Absent-sym p q h = ground (arith, eq_iff p q, eq_iff q p)

Distinct-append_one :
    (p : String) (s : OpenSession) (m : OpenMap)
    → Distinct m
    → Absent p m
    → Distinct (m ++ (p, s) ∷ [])
Distinct-append_one p s [] h a = (tt, tt)
Distinct-append_one p s ((q, u) ∷ m) h a = (
  All-append (λ (e : String × OpenSession). (e.0 == q) ≡ false) m ((p, s) ∷ []) h.0
      (Absent-sym q p a.0, tt),
  Distinct-append_one p s m h.1 a.1,
)

pub Distinct-insert :
    (p : String) (s : OpenSession) (m : OpenMap) → Distinct m → Distinct (insert p s m)
unfolding insert
Distinct-insert p s m h =
    Distinct-append_one p s (remove p m) (Distinct-remove p m h) (Absent-remove_self p m)

pub Distinct-filter :
    (k : String × OpenSession → Bool) (m : OpenMap) → Distinct m → Distinct (filter k m)
Distinct-filter k [] h = tt
Distinct-filter k ((p, s) ∷ m) h = ground (
  arith,
  All-filter (λ (e : String × OpenSession). (e.0 == p) ≡ false) k m h.0,
  Distinct-filter k m h.1,
)

close_one-keep :
    (e : String × OpenSession) (o : Option OpenSession) (r : OpenMap × List SessionUpdate)
    → close_one o (e ∷ r.0, r.1) ≡ (e ∷ (close_one o r).0, (close_one o r).1)
unfolding close_one
close_one-keep e none r = refl
close_one-keep e (some s) r = refl

get-other :
    (p q : String) (s : OpenSession) (m : OpenMap)
    → (q == p) ≡ false
    → (get p ((q, s) ∷ m) ≡ get p m) × (remove p ((q, s) ∷ m) ≡ (q, s) ∷ remove p m)
unfolding get remove
get-other p q s m h = (rw h, rw h)

get_self :
    (q : String) (s : OpenSession) (m : OpenMap)
    → Absent q m
    → (get q ((q, s) ∷ m) ≡ some s) × (remove q ((q, s) ∷ m) ≡ m)
unfolding get remove
get_self q s m h = (rw (eq_refl q), rw (eq_refl q) (remove-Absent q m h))

close_all-cons :
    (p : String) (ps : List String) (m : OpenMap)
    → close_all (p ∷ ps) m ≡ close_one (get p m) (close_all ps (remove p m))
unfolding close_all
close_all-cons p ps m = refl

-- An entry that no project of the list names stays in front.
close_all-keep :
    (ps : List String) (q : String) (s : OpenSession) (m : OpenMap)
    → All (λ p. (q == p) ≡ false) ps
    → close_all ps ((q, s) ∷ m) ≡ ((q, s) ∷ (close_all ps m).0, (close_all ps m).1)
close_all-keep [] q s m h = unfold close_all in refl
close_all-keep (p ∷ ps) q s m h =
    rw
      (
        close_all-cons p ps ((q, s) ∷ m),
        close_all-cons p ps m,
        (get-other p q s m h.0).0,
        (get-other p q s m h.0).1,
        close_all-keep ps q s (remove p m) h.1,
      )
      (close_one-keep (q, s) (get p m) (close_all ps (remove p m)))

abbrev names : OpenMap → List String
names = map (λ (e : String × OpenSession). e.0)

names-differ :
    (k : String × OpenSession → Bool) (q : String) (m : OpenMap)
    → Absent q m
    → All (λ p. (q == p) ≡ false) (names (filter k m))
names-differ k q [] h = tt
names-differ k q ((p, s) ∷ m) h = ground (arith, names-differ k q m h.1, Absent-sym p q h.0)

close_all-stale :
    (k : String × OpenSession → Bool) (m : OpenMap)
    → Distinct m
    → close_all (names (filter k m)) m ≡ (filter (λ e. not (k e)) m, map close_of (filter k m))
close_all-stale k [] h = unfold close_all in refl
close_all-stale k ((q, s) ∷ m) h = elim (Bool-cases (k (q, s))) [
  | inl stale ↦ rw stale (
      rw
        (
          close_all-cons q (names (filter k m)) ((q, s) ∷ m),
          (get_self q s m h.0).0,
          (get_self q s m h.0).1,
          close_all-stale k m h.1,
        )
        (unfold close_one in refl))
  | inr live ↦ rw live (
      rw (
        close_all-keep (names (filter k m)) q s m (names-differ k q m h.0),
        close_all-stale k m h.1,
      ))
]

-- A tick closes exactly the sessions whose silence is longer than the gap, each at its last activity,
-- and keeps the others as they are.
pub tick-stale :
    (now : ℕ) (z : Sessionizer)
    → Distinct z.opened
    → tick now z ≡ (
      record z { opened = filter (λ e. not (is_stale z.gap_ms now e)) z.opened },
      map close_of (filter (is_stale z.gap_ms now) z.opened),
    )
unfolding tick
tick-stale now z h = rw (close_all-stale (is_stale z.gap_ms now) z.opened h)

pub tick-Distinct : (now : ℕ) (z : Sessionizer) → Distinct z.opened → Distinct (tick now z).0.opened
tick-Distinct now z h =
    rw (tick-stale now z h) (Distinct-filter (λ e. not (is_stale z.gap_ms now e)) z.opened h)

pub preload-Distinct :
    (wss : List WorkSession) (z : Sessionizer) → Distinct z.opened → Distinct (preload wss z).opened
unfolding preload
preload-Distinct [] z h = h
preload-Distinct (ws ∷ wss) z h =
    preload-Distinct wss _ (Distinct-insert ws.project_id (adopt ws) z.opened h)

-- An event keeps the projects of the open sessions distinct, where they are so before it.
pub on_activity-Distinct :
    (id project : String) (ts : ℕ) (is_command : Bool) (z : Sessionizer)
    → Distinct z.opened
    → Distinct (on_activity id project ts is_command z).0.opened
unfolding on_activity
on_activity-Distinct id project ts is_command z h = go (get project z.opened)
  where
    go : (o : Option OpenSession) → Distinct (activity_at id project ts is_command z o).0.opened
    go none = Distinct-insert project _ z.opened h
    go (some s) = elim (Bool-cases (leb ts (s.last_activity + z.gap_ms))) [
      | inl near ↦ rw near (Distinct-set project _ z.opened h)
      | inr far ↦ rw far (Distinct-insert project _ z.opened h)
    ]
