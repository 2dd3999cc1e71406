-- ===== src/Store/Actor/Idle.antt =====
-- A store whose queue is empty, as one client finds it: what the code that only reads gets from it.
use rato.Prelude.{◌≡◌, ap, ◌∙◌, Bool, true, false, List, [], ◌∷◌, ◌++◌, if◌then◌else◌}
use rato.Prelude.Result.{Result, ok, err, Exec, continue, ◌>>=◌}
use rato.Store.Approvals.{StoreError, actor_gone}
use rato.Store.Actor.{Env, Db, Cmd, Reply}
use rato.Store.Actor.Serve.{handle}
use rato.Store.Actor.Loop.{Actor, ask, lost, serve_first, serve_all}
use rato.Store.Actor.Reads.{is_read, handle-is_read}

-- P holds of a result that there is.
abbrev pub OkIs : {E A : Type 0} → (A → Type 0) → Result E A → Type 0
OkIs P (ok a) = P a
OkIs P (err e) = Unit

module _ (E : Env) where
  abbrev asked :
      (c : Cmd E) → List (Cmd E) → Bool → Actor E → Result StoreError (Reply E c) × Actor E
  asked c q gone a =
      let waiting = serve_all E q a in
      if gone
      then (err actor_gone, record a { answers = a.answers ++ lost E c ∷ [] })
      else ((handle E c (E.moment waiting.served) waiting.db).0, serve_first E (c ∷ []) waiting)

  -- Nothing waits, the thread runs, and this is the database.
  abbrev pub IsIdle : Db E → Actor E → Type 0
  IsIdle db a = (a.queue ≡ []) × (a.gone ≡ false) × (a.db ≡ db)

  ask-idle :
      (c : Cmd E) (a : Actor E)
      → a.queue ≡ []
      → a.gone ≡ false
      → ask E c a ≡ ((handle E c (E.moment a.served) a.db).0, serve_first E (c ∷ []) a)
  unfolding ask serve_all
  ask-idle c a e f = ap (λ q. asked c q a.gone a) e ∙ ap (λ g. asked c [] g a) f

  pub ask-is_read :
      (c : Cmd E) (db : Db E) (a : Actor E)
      → is_read E c ≡ true
      → IsIdle db a
      → ((ask E c a).0 ≡ (handle E c (E.moment a.served) db).0) × IsIdle db (ask E c a).1
  ask-is_read c db a r (e, f, d) =
      let law = ask-idle c a e f in
      (
        ap (λ x. x.0) law ∙ ap (λ (s : Db E). (handle E c (E.moment a.served) s).0) d,
        (
          ap (λ x. x.1.queue) law,
          ap (λ x. x.1.gone) law ∙ f,
          ap (λ x. x.1.db) law ∙ handle-is_read E c (E.moment a.served) a.db r ∙ d,
        ),
      )

  -- A piece of code that only reads, and whose result satisfies P.
  abbrev pub Gives : {F A : Type 0} → Db E → (A → Type 0) → Exec (Actor E) F A → Type 0
  Gives db P m = (a : Actor E) → IsIdle db a → IsIdle db (m a).1 × OkIs P (m a).0

  pub bind-Gives :
      {F A B : Type 0} (db : Db E) (P : A → Type 0) (Q : B → Type 0) (m : Exec (Actor E) F A)
      (f : A → Exec (Actor E) F B)
      → Gives db P m
      → ((x : A) → P x → Gives db Q (f x))
      → Gives db Q (m >>= f)
  bind-Gives {F} {A} db P Q m f first rest a i = go (m a).0 (m a).1 (first a i).1 (first a i).0
    where
      go :
          (r : Result F A) (a' : Actor E)
          → OkIs P r
          → IsIdle db a'
          → IsIdle db (continue r f a').1 × OkIs Q (continue r f a').0
      go (ok x) a' p j = rest x p a' j
      go (err e) a' p j = (j, tt)
