-- ===== src/Examples/Search.antt =====
-- A search over one observation of a project, by words alone.
use rato.Prelude.{ℕ, ◌+◌, ◌*◌, ◌/◌, ◌≤◌, refl, false, none, some, [], ◌∷◌, ltb, length, All}
use rato.Store.Prune.{Observation}
use rato.Store.Actor.{Db}
use rato.Store.Actor.Loop.{opened}
use rato.Store.Actor.Idle.{IsIdle, OkIs}
use rato.Memory.Retrieve.{Reals, SearchParams, search}
use rato.Memory.Retrieve.Hits.{IsFound}
use rato.Memory.Retrieve.Found.{search-Gives}
use rato.Examples.Fixtures.{Js, js_number}
use rato.Examples.Actor.{actor_env, empty_db}

abbrev Bytes : Type 0
Bytes = ℕ × ℕ × ℕ × ℕ

-- Rough numbers: a score is a natural number.
abbrev rough : Reals ℕ Bytes
rough = record {
  of_nat = λ n. n;
  add = λ a b. a + b;
  mul = λ a b. a * b;
  div = λ a b. a / b;
  neg = λ a. 0;
  exp = λ a. 1;
  quarter = 0;
  gt = λ a b. ltb b a;
  zero32 = (0, 0, 0, 0);
  add32 = λ a b. a;
  mul32 = λ a b. a;
  div32 = λ a b. a;
  sqrt32 = λ a. a;
  eq32 = λ a b. false;
  gt32 = λ a b. false;
}

abbrev noted : Observation Js
noted = record {
  id = "o1";
  event_id = none;
  ts = 5;
  kind = "note";
  project_id = some "p1";
  content = [];
  meta = js_number 0;
}

abbrev noted_db : Db actor_env
noted_db = record empty_db { observations = noted ∷ [] }

abbrev about_p1 : SearchParams
about_p1 = record { query = "note"; project_id = some "p1"; n = 3 }

search-Gives_example :
    IsIdle actor_env noted_db (search actor_env rough 9 none about_p1 (opened actor_env noted_db)).1
    × OkIs
        (λ hits. (length hits ≤ 3) × All (IsFound actor_env rough noted_db (some "p1")) hits)
        (search actor_env rough 9 none about_p1 (opened actor_env noted_db)).0
search-Gives_example =
    search-Gives actor_env rough noted_db 9 none about_p1 (opened actor_env noted_db)
      (refl, refl, refl)
