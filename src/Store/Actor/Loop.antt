-- ===== src/Store/Actor/Loop.antt =====
-- crates/rat-store/src/store.rs, `actor_loop` around its arms and the channels: commands are queued in
-- the order of their sending, the thread serves the first of them, and the answers stand in the order in
-- which they were given. Once the thread has ended, every command that is queued or sent is answered by
-- ActorGone, since its channel is dropped.
pub mod Schedule
pub mod Answered
use rato.Prelude.{
  ℕ, suc, zero, ◌+◌, Bool, true, false, List, [], ◌∷◌, ◌++◌, map, length, if◌then◌else◌,
}
use rato.Prelude.Result.{Result, ok, err}
use rato.Store.Approvals.{StoreError, actor_gone}
use rato.Store.Actor.{Env, Db, Cmd, Reply}
use rato.Store.Actor.Serve.{handle}

module _ (E : Env) where
  pub record Answer : Type 0 where
    pub command : Cmd E
    pub result : Result StoreError (Reply E command)

  pub record Actor : Type 0 where
    pub db : Db E
    -- how many commands were served
    pub served : ℕ
    pub queue : List (Cmd E)
    pub answers : List Answer
    -- the thread has ended
    pub gone : Bool

  -- `Store::open`, behind `open_db`.
  abbrev pub opened : Db E → Actor
  opened db = record { db = db; served = 0; queue = []; answers = []; gone = false }

  abbrev pub lost : Cmd E → Answer
  lost c = record { command = c; result = err actor_gone }

  -- One turn of the loop: `recv` waits while nothing is queued.
  abbrev pub serve_first : List (Cmd E) → Actor → Actor
  serve_first [] a = a
  serve_first (c ∷ cs) a =
      let (r, db) = handle E c (E.moment a.served) a.db in
      record a {
        db = db;
        served = suc a.served;
        queue = cs;
        answers = a.answers ++ record { command = c; result = r } ∷ [];
      }

  -- What can happen: a client sends, the thread takes its turn, the thread ends.
  pub data Happening : Type 0 where
    sends : Cmd E → Happening
    serves ends : Happening

  unfoldable pub happen : Happening → Actor → Actor
  happen (sends c) a =
      if a.gone
      then record a { answers = a.answers ++ lost c ∷ [] }
      else record a { queue = a.queue ++ c ∷ [] }
  happen serves a = serve_first a.queue a
  happen ends a = record a { queue = []; answers = a.answers ++ map lost a.queue; gone = true }

  unfoldable pub happen_all : List Happening → Actor → Actor
  happen_all [] a = a
  happen_all (h ∷ hs) a = happen_all hs (happen h a)

  -- The commands served one after the other, from the n-th on.
  unfoldable pub serve_all : List (Cmd E) → Actor → Actor
  serve_all [] a = a
  serve_all (c ∷ cs) a = serve_all cs (serve_first (c ∷ cs) a)

  -- A method of `Store`, called while no other client sends: what is queued before goes first.
  unfoldable pub ask : (c : Cmd E) → Actor → Result StoreError (Reply E c) × Actor
  unfolding serve_all handle
  ask c a =
      let waiting = serve_all a.queue a in
      if a.gone
      then (err actor_gone, record a { answers = a.answers ++ lost c ∷ [] })
      else ((handle E c (E.moment waiting.served) waiting.db).0, serve_first (c ∷ []) waiting)
