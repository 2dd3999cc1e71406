-- ===== src/Store/Actor/Loop/Schedule.antt =====
-- Whatever the clients and the thread do in whatever order, the store is that of the commands served one
-- after the other in the order of their sending.
use mathlib.Core.List.{append_assoc, append-nil, map-append}
use rato.Prelude.{
  ℕ, suc, ◌+◌, ◌≡◌, refl, sym, ap, subst, ◌∙◌, true, false, List, [], ◌∷◌, ◌++◌, map, arith, length,
  length-append, ◌⊎◌, inl, inr,
}
use rato.Store.Actor.{Env, Db, Cmd}
use rato.Store.Actor.Serve.{handle}
use rato.Store.Actor.Loop.{
  Answer, Actor, opened, lost, serve_first, Happening, sends, serves, ends, happen, happen_all,
}

module _ (E : Env) where
  -- One command after the other, the first of them the n-th.
  unfoldable pub replies : ℕ → List (Cmd E) → Db E → List (Answer E)
  replies n [] db = []
  replies n (c ∷ cs) db =
      let (r, db') = handle E c (E.moment n) db in
      record { command = c; result = r } ∷ replies (suc n) cs db'

  unfoldable pub final : ℕ → List (Cmd E) → Db E → Db E
  final n [] db = db
  final n (c ∷ cs) db = final (suc n) cs (handle E c (E.moment n) db).1

  unfoldable pub sent : List (Happening E) → List (Cmd E)
  sent [] = []
  sent (sends c ∷ hs) = c ∷ sent hs
  sent (serves ∷ hs) = sent hs
  sent (ends ∷ hs) = sent hs

  -- The thread runs: the queue is what it has still to do of all that was sent.
  abbrev pub IsRunning : Db E → List (Cmd E) → Actor E → Type 0
  IsRunning db all a =
      (done : List (Cmd E)) × (all ≡ done ++ a.queue)
      × (a.db ≡ final 0 done db)
      × (a.served ≡ length done)
      × (a.answers ≡ replies 0 done db)
      × (a.gone ≡ false)

  -- The thread has ended: all that it did not do was refused.
  abbrev pub IsEnded : Db E → List (Cmd E) → Actor E → Type 0
  IsEnded db all a =
      (done : List (Cmd E)) × (rest : List (Cmd E)) × (all ≡ done ++ rest)
      × (a.db ≡ final 0 done db)
      × (a.queue ≡ [])
      × (a.answers ≡ replies 0 done db ++ map (lost E) rest)
      × (a.gone ≡ true)

  abbrev pub IsSerial : Db E → List (Cmd E) → Actor E → Type 0
  IsSerial db all a = IsRunning db all a ⊎ IsEnded db all a

  final-snoc :
      (n m : ℕ) (cs : List (Cmd E)) (c : Cmd E) (db : Db E)
      → m ≡ n + length cs
      → final n (cs ++ c ∷ []) db ≡ (handle E c (E.moment m) (final n cs db)).1
  unfolding final
  final-snoc n m [] c db h = let e : m ≡ n = omega (arith, h) in rw e
  final-snoc n m (x ∷ cs) c db h = final-snoc (suc n) m cs c _ (omega (arith, h))

  replies-snoc :
      (n m : ℕ) (cs : List (Cmd E)) (c : Cmd E) (db : Db E)
      → m ≡ n + length cs
      → replies n (cs ++ c ∷ []) db
        ≡ replies n cs db
          ++ record { command = c; result = (handle E c (E.moment m) (final n cs db)).0 } ∷ []
  unfolding replies final
  replies-snoc n m [] c db h = let e : m ≡ n = omega (arith, h) in rw e
  replies-snoc n m (x ∷ cs) c db h =
      ap (λ l. record { command = x; result = (handle E x (E.moment n) db).0 } ∷ l)
        (replies-snoc (suc n) m cs c _ (omega (arith, h)))

  sends-IsSerial :
      (db : Db E) (all : List (Cmd E)) (a : Actor E) (c : Cmd E)
      → IsSerial db all a
      → IsSerial db (all ++ c ∷ []) (happen E (sends c) a)
  unfolding happen
  sends-IsSerial db all a c (inl (done, split, at, n, told, runs)) =
      rw runs (inl (done, rw split (append_assoc done a.queue (c ∷ [])), at, n, told, refl))
  sends-IsSerial db all a c (inr (done, rest, split, at, q, told, over)) = rw over (
      inr (
        done,
        rest ++ c ∷ [],
        rw split (append_assoc done rest (c ∷ [])),
        at,
        q,
        rw (told, map-append (lost E) rest (c ∷ []))
            (append_assoc (replies 0 done db) (map (lost E) rest) (lost E c ∷ [])),
        refl,
      ))

  -- The turn of a thread whose queue is known.
  serve_first-IsSerial :
      (db : Db E) (all : List (Cmd E)) (a : Actor E) (q : List (Cmd E))
      → a.queue ≡ q
      → IsSerial db all a
      → IsSerial db all (serve_first E q a)
  serve_first-IsSerial db all a [] e h = h
  serve_first-IsSerial db all a (c ∷ cs) e (inl (done, split, at, n, told, runs)) = inl (
    done ++ c ∷ [],
    split ∙ ap (λ q. done ++ q) e ∙ sym (append_assoc done (c ∷ []) cs),
    ap (λ d. (handle E c (E.moment a.served) d).1) at
        ∙ sym (final-snoc 0 a.served done c db (omega (arith, n))),
    omega (arith, n, length-append done (c ∷ [])),
    rw (told, at) (sym (replies-snoc 0 a.served done c db (omega (arith, n)))),
    runs,
  )
  serve_first-IsSerial db all a (c ∷ cs) e (inr (done, rest, split, at, q, told, over)) =
      absurd (cc (e, q))

  ends-IsSerial :
      (db : Db E) (all : List (Cmd E)) (a : Actor E)
      → IsSerial db all a
      → IsSerial db all (happen E ends a)
  unfolding happen
  ends-IsSerial db all a (inl (done, split, at, n, told, runs)) =
      inr (done, a.queue, split, at, refl, ap (λ l. l ++ map (lost E) a.queue) told, refl)
  ends-IsSerial db all a (inr (done, rest, split, at, q, told, over)) =
      inr (done, rest, split, at, refl, rw q (append-nil a.answers ∙ told), refl)

  from-IsSerial :
      (db : Db E) (all : List (Cmd E)) (hs : List (Happening E)) (a : Actor E)
      → IsSerial db all a
      → IsSerial db (all ++ sent hs) (happen_all E hs a)
  unfolding happen_all sent
  from-IsSerial db all [] a h = subst (λ l. IsSerial db l a) (sym (append-nil all)) h
  from-IsSerial db all (sends c ∷ hs) a h =
      subst (λ l. IsSerial db l (happen_all E (sends c ∷ hs) a))
        (append_assoc all (c ∷ []) (sent hs))
        (from-IsSerial db (all ++ c ∷ []) hs (happen E (sends c) a) (sends-IsSerial db all a c h))
  from-IsSerial db all (serves ∷ hs) a h =
      from-IsSerial db all hs (happen E serves a)
        (unfold happen in serve_first-IsSerial db all a a.queue refl h)
  from-IsSerial db all (ends ∷ hs) a h =
      from-IsSerial db all hs (happen E ends a) (ends-IsSerial db all a h)

  -- After any sequence of sends, turns of the thread and its end, the commands served are the first ones
  -- of those sent, and the store and their answers are those of serving them one after the other in that
  -- order; the others wait in that order while the thread runs, and are answered by ActorGone once it
  -- has ended.
  pub happen_all-IsSerial :
      (db : Db E) (hs : List (Happening E)) → IsSerial db (sent hs) (happen_all E hs (opened E db))
  unfolding final replies
  happen_all-IsSerial db hs =
      from-IsSerial db [] hs (opened E db) (inl ([], refl, refl, refl, refl, refl))
