-- ===== src/Store/Actor/Loop/Answered.antt =====
-- Every command is answered, once, in the order of sending.
use mathlib.Core.List.{append_assoc, append-nil, map-append}
use rato.Prelude.{
  ℕ, suc, ◌≤◌, ◌≡◌, refl, sym, ap, ◌∙◌, false, List, [], ◌∷◌, ◌++◌, map, arith, length, inl, inr,
  Bool-cases, subst, if◌then◌else◌,
}
use rato.Store.Actor.{Env, Db, Cmd}
use rato.Store.Actor.Loop.{
  Answer, Actor, opened, lost, serve_first, Happening, sends, serves, ends, happen, happen_all,
}
use rato.Store.Actor.Loop.Schedule.{replies, sent, IsSerial, happen_all-IsSerial}

module _ (E : Env) where
  -- The commands that were answered, the first one first.
  abbrev pub answered : Actor E → List (Cmd E)
  answered a = map (λ (x : Answer E). x.command) a.answers

  unfoldable pub turns : List (Happening E) → ℕ
  turns [] = 0
  turns (serves ∷ hs) = suc (turns hs)
  turns (sends c ∷ hs) = turns hs
  turns (ends ∷ hs) = turns hs

  abbrev Follows : List (Cmd E) → List (Cmd E) → Type 0
  Follows front all = (more : List (Cmd E)) × (all ≡ front ++ more)

  Follows-trans : (x y z : List (Cmd E)) → Follows x y → Follows y z → Follows x z
  Follows-trans x y z (m, p) (n, q) = (m ++ n, q ∙ ap (λ l. l ++ n) p ∙ append_assoc x m n)

  commands-lost : (q : List (Cmd E)) → map (λ (x : Answer E). x.command) (map (lost E) q) ≡ q
  commands-lost [] = refl
  commands-lost (c ∷ q) = ap (λ l. c ∷ l) (commands-lost q)

  -- No answer is taken back.
  answered-serve_first :
      (q : List (Cmd E)) (a : Actor E) → Follows (answered a) (answered (serve_first E q a))
  answered-serve_first [] a = ([], sym (append-nil _))
  answered-serve_first (c ∷ cs) a = (c ∷ [], map-append _ a.answers _)

  answered-happen : (h : Happening E) (a : Actor E) → Follows (answered a) (answered (happen E h a))
  unfolding happen
  answered-happen (sends c) a = elim (Bool-cases a.gone) [
    | inl over ↦ rw over (c ∷ [], map-append _ a.answers _)
    | inr runs ↦ rw runs ([], sym (append-nil _))
  ]
  answered-happen serves a = answered-serve_first a.queue a
  answered-happen ends a = (_, map-append _ a.answers (map (lost E) a.queue))

  answered-happen_all :
      (hs : List (Happening E)) (a : Actor E) → Follows (answered a) (answered (happen_all E hs a))
  unfolding happen_all
  answered-happen_all [] a = ([], sym (append-nil _))
  answered-happen_all (h ∷ hs) a =
      Follows-trans _ _ _ (answered-happen h a) (answered-happen_all hs (happen E h a))

  happen-sends :
      (x : Cmd E) (a : Actor E)
      → a.gone ≡ false
      → happen E (sends x) a ≡ record a { queue = a.queue ++ x ∷ [] }
  unfolding happen
  happen-sends x a runs =
      ap
        (λ b.
          if b
          then record a { answers = a.answers ++ lost E x ∷ [] }
          else record a { queue = a.queue ++ x ∷ [] })
        runs

  happen-serves :
      (a : Actor E) (q : List (Cmd E)) → a.queue ≡ q → happen E serves a ≡ serve_first E q a
  unfolding happen
  happen-serves a q e = ap (λ q. serve_first E q a) e

  answered-ends :
      (a : Actor E) (q : List (Cmd E)) → a.queue ≡ q → answered (happen E ends a) ≡ answered a ++ q
  unfolding happen
  answered-ends a q e =
      map-append _ a.answers (map (lost E) a.queue)
      ∙ ap (λ l. answered a ++ l) (commands-lost a.queue ∙ e)

  -- A running thread answers what stands in front of its queue in as many turns.
  progress :
      (hs : List (Happening E)) (a : Actor E) (front back : List (Cmd E))
      → a.gone ≡ false
      → a.queue ≡ front ++ back
      → length front ≤ turns hs
      → Follows (answered a ++ front) (answered (happen_all E hs a))
  unfolding happen_all turns
  progress hs a [] back runs e h = rw (append-nil (answered a)) (answered-happen_all hs a)
  progress [] a (c ∷ front) back runs e h = absurd (omega (arith, h))
  progress (sends x ∷ hs) a (c ∷ front) back runs e h =
      subst (λ b. Follows (answered a ++ c ∷ front) (answered (happen_all E hs b)))
        (sym (happen-sends x a runs))
        (progress hs (record a { queue = a.queue ++ x ∷ [] }) (c ∷ front) (back ++ x ∷ []) runs
          (ap (λ q. q ++ x ∷ []) e ∙ append_assoc (c ∷ front) back (x ∷ [])) h)
  progress (serves ∷ hs) a (c ∷ front) back runs e h =
      let b = serve_first E (c ∷ (front ++ back)) a in
      let (more, law) = progress hs b front back runs refl (omega (arith, h)) in
      subst (λ b. Follows (answered a ++ c ∷ front) (answered (happen_all E hs b)))
        (sym (happen-serves a (c ∷ (front ++ back)) e))
        (
          more,
          law
              ∙ ap (λ l. (l ++ front) ++ more) (map-append _ a.answers _)
              ∙ ap (λ l. l ++ more) (append_assoc (answered a) (c ∷ []) front),
        )
  progress (ends ∷ hs) a (c ∷ front) back runs e h =
      Follows-trans _ _ _
        (
          back,
          answered-ends a (c ∷ (front ++ back)) e
              ∙ sym (append_assoc (answered a) (c ∷ front) back),
        )
        (answered-happen_all hs (happen E ends a))

  commands-replies :
      (n : ℕ) (cs : List (Cmd E)) (db : Db E)
      → map (λ (x : Answer E). x.command) (replies E n cs db) ≡ cs
  unfolding replies
  commands-replies n [] db = refl
  commands-replies n (c ∷ cs) db = ap (λ l. c ∷ l) (commands-replies (suc n) cs _)

  served_in_time :
      (db : Db E) (all : List (Cmd E)) (a : Actor E) (later : List (Happening E))
      → IsSerial E db all a
      → length a.queue ≤ turns later
      → Follows all (answered (happen_all E later a))
  served_in_time db all a later (inl (done, split, at, n, told, runs)) h =
      let commands : answered a ≡ done =
        ap (map (λ (x : Answer E). x.command)) told ∙ commands-replies 0 done db in
      subst (λ l. Follows l (answered (happen_all E later a)))
        (ap (λ l. l ++ a.queue) commands ∙ sym split)
        (progress later a a.queue [] runs (sym (append-nil a.queue)) h)
  served_in_time db all a later (inr (done, rest, split, at, q, told, over)) h =
      let commands : answered a ≡ all =
        ap (map (λ (x : Answer E). x.command)) told
        ∙ map-append _ (replies E 0 done db) (map (lost E) rest)
        ∙ ap (λ l. l ++ map (λ (x : Answer E). x.command) (map (lost E) rest))
            (commands-replies 0 done db)
        ∙ ap (λ l. done ++ l) (commands-lost rest)
        ∙ sym split in
      subst (λ l. Follows l (answered (happen_all E later a))) commands
        (answered-happen_all later a)

  -- After as many turns of the thread as commands were queued, every command sent before is answered,
  -- once and in the order of sending, whatever is sent meanwhile and also if the thread ends.
  pub happen_all-answered :
      (db : Db E) (hs later : List (Happening E))
      → length (happen_all E hs (opened E db)).queue ≤ turns later
      → (more : List (Cmd E)) × (answered (happen_all E later (happen_all E hs (opened E db)))
          ≡ sent E hs ++ more)
  happen_all-answered db hs later h =
      served_in_time db (sent E hs) _ later (happen_all-IsSerial E db hs) h
