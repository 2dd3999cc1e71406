-- ===== src/Brain/Critic.antt =====
-- crates/rat-brain/src/critic.rs, and `dedupe_key` of governor.rs. The language model is a parameter
-- from the message that it gets to its answer, the search of memories one from the query, and serde's
-- reading of a verdict one from its JSON value. Ids and times of new rows are arguments. A SELECT
-- does not fail here. `debug` is the printing of a list of strings with `{:?}`.
pub mod Shown
pub mod Hourly
use rato.Prelude.{
  ℕ, ◌+◌, ◌-◌, String, Bool, true, false, not, ◌&&◌, ◌||◌, Option, none, some, List, [], ◌∷◌, ◌++◌,
  map, ◌==◌, codes, text_eq, starts_with, if◌then◌else◌, leb, length, take, filter, find, any,
  is_empty,
}
use rato.Prelude.Paths.{Text}
use rato.Prelude.Result.{Result, ok, err}
use rato.Store.Sql.{Sql, Json}
use rato.Store.Approvals.{StoreError}
use rato.Store.Order.{order_by, text_leb}
use rato.Store.Prune.{Observation, observation_id, is_in}
use rato.Store.Observations.{do_recent_observations}
use rato.Store.Prune.{ApiCallRow, call_id}
use rato.Store.Pushbacks.{
  NewPushback, Pushback, pushback_id, Disclosure, disclosure_id, do_insert_pushback,
  do_pushbacks_since, do_insert_api_call, do_insert_disclosure,
}
use rato.Brain.Governor.{Float, Governor, admit}
use rato.Brain.Detect.{Signal, stuck, burst, Int64, stuck_loop, error_burst}

pub record EvidenceItem : Type 0 where
  pub observation_id : String
  pub quote : String

pub record ProposedAction : Type 0 where
  pub kind : String
  pub detail : String

pub record PushbackVerdict (F : Type 0) : Type 0 where
  pub severity : String
  pub title : String
  pub message_en : String
  pub message_pt : String
  pub evidence : List EvidenceItem
  pub proposed_actions : List ProposedAction
  pub confidence : F

pub record ChatResponse (V : Type 0) : Type 0 where
  pub json : V
  pub tokens_in : ℕ
  pub tokens_out : ℕ
  pub model : String

pub record Env : Type 1 where
  pub json : Json
  pub as_i64 : json.Value → Option Int64
  pub is_null : json.Value → Bool
  pub floats : Float
  -- `confidence < 0.6`
  pub is_below_bar : floats.F → Bool
  pub verdict_of : json.Value → Option (PushbackVerdict floats.F)
  pub model_for : String
  pub complete : Text → Result String (ChatResponse json.Value)
  pub search : Text → Option String → List String
  pub debug : List String → Text
  pub decimal : ℕ → Text
  pub observations : Sql (Observation json.Value) observation_id
  pub pushbacks : Sql (Pushback json.Value floats.F) pushback_id
  pub api_calls : Sql (ApiCallRow floats.F) call_id
  pub disclosures : Sql Disclosure disclosure_id

-- The ids and times that the rows of one tick get.
pub record Call : Type 0 where
  pub call_id : String
  pub call_now : ℕ
  pub disclosure_id : String
  pub disclosure_now : ℕ
  pub pushback_id : String
  pub pushback_now : ℕ

-- The ids in order, joined with "|".
abbrev join_bars : List String → Text
join_bars [] = []
join_bars (w ∷ []) = codes w
join_bars (w ∷ v ∷ ws) = codes w ++ (124 ∷ join_bars (v ∷ ws))

unfoldable pub dedupe_key : List String → Text
unfolding order_by text_leb
dedupe_key ids = join_bars (order_by (λ a b. text_leb (codes a) (codes b)) ids)

abbrev pub join_lines : List Text → Text
join_lines [] = []
join_lines (t ∷ []) = t
join_lines (t ∷ u ∷ ts) = t ++ (10 ∷ join_lines (u ∷ ts))

abbrev pub concat : List Text → Text
concat [] = []
concat (t ∷ ts) = t ++ concat ts

abbrev pub ids_in : Signal → List String
ids_in (stuck cmd count ids) = ids
ids_in (burst ids) = ids

abbrev pub trigger_of : Signal → String
trigger_of (stuck cmd count ids) = "stuck_loop"
trigger_of (burst ids) = "error_burst"

abbrev pub query_of : Signal → Text
query_of (stuck cmd count ids) = cmd
query_of (burst ids) = codes "error burst multiple failures"

abbrev pub evidence_ids : List EvidenceItem → List String
evidence_ids = map (λ (e : EvidenceItem). e.observation_id)

module _ (E : Env) where
  open E use {json, floats, observations, pushbacks, api_calls, disclosures}
  open json use {Value}

  pub record Critic : Type 0 where
    pub observations : observations.Table
    pub pushbacks : pushbacks.Table
    pub api_calls : api_calls.Table
    pub disclosures : disclosures.Table
    pub governor : Governor floats
    pub mode : String

  -- The observations of the time up to `now`.
  abbrev pub since : ℕ → ℕ → List (Observation Value) → List (Observation Value)
  since span now = filter (λ o. leb now (o.ts + span))

  abbrev optional : Option Signal → List Signal → List Signal
  optional none ss = ss
  optional (some s) ss = s ∷ ss

  unfoldable pub fast_tick : ℕ → Critic → List Signal
  fast_tick now w =
      let recent = since 600000 now (do_recent_observations observations 200 none w.observations) in
      optional (stuck_loop json E.as_i64 recent) (optional (error_burst json E.as_i64 recent) [])

  unfoldable pub digest_of : ℕ → Critic → List (Observation Value)
  digest_of now w = since 300000 now (do_recent_observations observations 500 none w.observations)

  abbrev pub ids_of : List (Observation Value) → List String
  ids_of = map (λ (o : Observation Value). o.id)

  abbrev pub observation_line : Observation Value → Text
  observation_line o = concat (
      codes "id="
      ∷ codes o.id
      ∷ codes " kind="
      ∷ codes o.kind
      ∷ codes " content="
      ∷ take 200 o.content
      ∷ codes "\n"
      ∷ [])

  abbrev pub git_line : Observation Value → Text
  git_line o = codes o.id ++ (codes ": " ++ take 100 o.content)

  abbrev pub signal_line : Signal → Text
  signal_line (stuck cmd count ids) = concat (
      codes "StuckLoop: command '"
      ∷ cmd
      ∷ codes "' failed "
      ∷ E.decimal count
      ∷ codes " times, obs_ids: "
      ∷ E.debug ids
      ∷ [])
  signal_line (burst ids) = codes "ErrorBurst: 10+ errors in 5 min, obs_ids: " ++ E.debug ids

  unfoldable pub git_summary : List (Observation Value) → Text
  git_summary digest =
      let git = map git_line (filter (λ o. starts_with (codes o.kind) (codes "git")) digest) in
      if is_empty git then codes "No recent git activity." else join_lines git

  unfoldable pub user_msg : List Signal → List String → List (Observation Value) → Text
  unfolding git_summary
  user_msg signals memory_ids digest = concat (
      codes "Signals detected:\n"
      ∷ join_lines (map signal_line signals)
      ∷ codes "\n\nGit activity:\n"
      ∷ git_summary digest
      ∷ codes "\n\nMemory context:\n"
      ∷ E.debug memory_ids
      ∷ codes "\n\n---BEGIN UNTRUSTED OBSERVATION---\n"
      ∷ concat (map observation_line digest)
      ∷ codes "\n---END UNTRUSTED OBSERVATION---"
      ∷ [])

  unfoldable pub project_of : Signal → List (Observation Value) → Option String
  project_of s digest = elim (find (λ (o : Observation Value). is_in o.id (ids_in s)) digest) [
    | none ↦ none
    | some o ↦ o.project_id
  ]

  abbrev Tick : Type 0
  Tick = Option (Pushback Value floats.F) × Critic

  abbrev id_or_none : Result StoreError String → Option String
  id_or_none (ok id) = some id
  id_or_none (err e) = none

  -- Both inserts go on after a failure.
  unfoldable pub record_call :
      Call
      → String
      → Option ℕ
      → Option ℕ
      → Option String
      → List String
      → List String
      → Critic
      → Critic
  unfolding do_insert_api_call do_insert_disclosure
  record_call c model tokens_in tokens_out error memory_ids digest_ids w =
      let (r, calls) =
        do_insert_api_call api_calls
          (record {
            id = c.call_id;
            ts = c.call_now;
            model = model;
            purpose = "critic";
            tokens_in = tokens_in;
            tokens_out = tokens_out;
            cost_usd = none;
            succeeded = elim error [ none ↦ true | some e ↦ false ];
            error = error;
          })
          w.api_calls in
      let told =
        do_insert_disclosure disclosures
          (record {
            id = c.disclosure_id;
            ts = c.disclosure_now;
            -- a call that failed is disclosed without its id
            api_call_id = elim error [ none ↦ id_or_none r | some e ↦ none ];
            model = model;
            purpose = "critic";
            memory_ids = memory_ids;
            observation_ids = digest_ids;
          })
          w.disclosures in
      record w { api_calls = calls; disclosures = told.1 }

  abbrev pub evidence_value : EvidenceItem → Value
  evidence_value e =
      json.object
        (("observation_id", json.string e.observation_id) ∷ ("quote", json.string e.quote) ∷ [])

  abbrev pub action_value : ProposedAction → Value
  action_value a =
      json.object (("kind", json.string a.kind) ∷ ("detail", json.string a.detail) ∷ [])

  unfoldable pub build_pb :
      String
      → Signal
      → PushbackVerdict floats.F
      → List EvidenceItem
      → String
      → NewPushback Value floats.F
  build_pb mode s verdict valid status = record {
    mode = mode;
    trigger = trigger_of s;
    severity = verdict.severity;
    title = verdict.title;
    message_en = verdict.message_en;
    message_pt = verdict.message_pt;
    evidence = json.array (map evidence_value valid);
    proposals = json.array (map action_value verdict.proposed_actions);
    confidence = verdict.confidence;
    status = status;
  }

  abbrev str_field : String → Value → Option String
  str_field k v = elim (json.get v k) [ none ↦ none | some x ↦ json.as_str x ]

  -- `filter_map` over the evidence of a row.
  unfoldable pub cited_ids : List Value → List String
  cited_ids [] = []
  cited_ids (v ∷ vs) =
      let rest = cited_ids vs in
      elim (str_field "observation_id" v) [ none ↦ rest | some id ↦ id ∷ rest ]

  unfoldable pub has_key : Text → Pushback Value floats.F → Bool
  unfolding text_eq dedupe_key cited_ids
  has_key key pb = elim (json.as_array pb.content.evidence) [
    | none ↦ false
    | some vs ↦ text_eq (dedupe_key (cited_ids vs)) key
  ]

  unfoldable pub is_dupe : ℕ → List EvidenceItem → pushbacks.Table → Bool
  unfolding do_pushbacks_since dedupe_key has_key
  is_dupe now valid t =
      any (has_key (dedupe_key (evidence_ids valid)))
        (do_pushbacks_since pushbacks (now - 86400000) t)

  abbrev pub inserted :
      Call
      → NewPushback Value floats.F
      → Critic
      → Result StoreError (Pushback Value floats.F) × pushbacks.Table
  inserted c pb w = do_insert_pushback pushbacks c.pushback_id c.pushback_now pb w.pushbacks

  -- `let _ = self.store.insert_pushback(…)`
  unfoldable pub queue : Call → NewPushback Value floats.F → Critic → Tick
  queue c pb w = (none, record w { pushbacks = (inserted c pb w).1 })

  unfoldable pub show : Call → NewPushback Value floats.F → Critic → Tick
  show c pb w =
      let (r, t) = inserted c pb w in
      (elim r [ ok p ↦ some p | err e ↦ none ], record w { pushbacks = t })

  unfoldable pub valid_evidence :
      List (Observation Value) → PushbackVerdict floats.F → List EvidenceItem
  unfolding is_in
  valid_evidence digest verdict =
      filter (λ (e : EvidenceItem). is_in e.observation_id (ids_of digest)) verdict.evidence

  -- From the governor on.
  unfoldable pub admit_and_show :
      Call → ℕ → Signal → PushbackVerdict floats.F → List EvidenceItem → Critic → Tick
  admit_and_show c now s verdict valid w =
      let (g, admitted) = admit floats w.mode now w.governor in
      let w' = record w { governor = g } in
      if not admitted
      then queue c (build_pb w.mode s verdict valid "queued") w'
      else if is_dupe now valid w.pushbacks
      then (none, w')
      else show c (build_pb w.mode s verdict valid "shown") w'

  unfoldable pub judge :
      Call → ℕ → Signal → List (Observation Value) → PushbackVerdict floats.F → Critic → Tick
  judge c now s digest verdict w =
      let valid = valid_evidence digest verdict in
      if is_empty valid
      then (none, w)
      else if E.is_below_bar verdict.confidence
      then queue c (build_pb w.mode s verdict valid "queued") w
      else admit_and_show c now s verdict valid w

  -- The verdict in the answer: a missing field reads as null.
  unfoldable pub read_verdict : Value → Option (PushbackVerdict floats.F)
  read_verdict answer = elim (json.get answer "pushback") [
    | none ↦ none
    | some v ↦ if E.is_null v then none else E.verdict_of v
  ]

  judged :
      Call
      → ℕ
      → Signal
      → List (Observation Value)
      → Critic
      → Option (PushbackVerdict floats.F)
      → Tick
  judged c now s digest w none = (none, w)
  judged c now s digest w (some verdict) = judge c now s digest verdict w

  answered :
      Call
      → ℕ
      → Signal
      → List (Observation Value)
      → List String
      → Result String (ChatResponse Value)
      → Critic
      → Tick
  unfolding judged
  answered c now s digest memory_ids (err e) w =
      (none, record_call c E.model_for none none (some e) memory_ids (ids_of digest) w)
  answered c now s digest memory_ids (ok resp) w =
      let w' =
        record_call c resp.model (some resp.tokens_in) (some resp.tokens_out) none memory_ids
          (ids_of digest) w in
      judged c now s digest w' (read_verdict resp.json)

  unfoldable pub slow_tick : Call → ℕ → List Signal → Critic → Tick
  unfolding answered
  slow_tick c now [] w = (none, w)
  slow_tick c now (s ∷ ss) w =
      let digest = digest_of now w in
      let memory_ids = E.search (query_of s) (project_of s digest) in
      answered c now s digest memory_ids (E.complete (user_msg (s ∷ ss) memory_ids digest)) w
