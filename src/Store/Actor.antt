-- ===== src/Store/Actor.antt =====
-- crates/rat-store/src/store.rs, the actor: the commands that its channel carries, what each of them
-- answers, and the database that its thread owns. The oneshot channel of a command is the place of its
-- answer in the order of answers. An id and a time are taken for each command that is served, whether
-- it needs them or not: `moment n` are those of the n-th.
pub mod Serve
pub mod Loop
pub mod Client
pub mod Reads
pub mod Idle
use rato.Prelude.{ℕ, String, Bool, Option, none, some, List, [], ◌∷◌}
use rato.Prelude.Paths.{Text}
use rato.Prelude.Result.{Result, ok, err}
use rato.Store.Sql.{Sql, Json}
use rato.Store.Approvals.{StoreError, Approval, NewApproval, approval_id}
use rato.Store.Runs.{AgentRun, NewAgentRun, run_id}
use rato.Store.Pins.{Pin, NewPin, pin_id, RetentionStatus}
use rato.Store.Prune.{Observation, observation_id, ApiCallRow, call_id, VecRow, vec_id}
use rato.Store.Events.{Event, NewEvent, event_id, Project, project_key}
use rato.Store.Observations.{NewObservation}
use rato.Store.Sessions.{SessionRow, session_key}
use rato.Store.Pushbacks.{Pushback, NewPushback, pushback_id, Disclosure, disclosure_id}
use rato.Store.Blobs.{Blob, blob_id}
use rato.Store.DotfileEdits.{DotfileEdit, NewDotfileEdit, edit_id}
use rato.Store.Terminals.{
  Terminal, NewTerminal, terminal_id, VoiceUtterance, NewVoiceUtterance, utterance_id,
}
use rato.Store.Memories.{MemoryRow, NewMemory, MemoryFilter, memory_id}
use rato.Store.Embeddings.{Float32}
use rato.Daemon.Sessionizer.{WorkSession}

pub record Moment : Type 0 where
  pub id : String
  pub now : ℕ

pub record Env : Type 1 where
  pub json : Json
  pub Float : Type 0
  pub float32 : Float32
  pub is_null : json.Value → Bool
  pub sha256_hex : List ℕ → Text
  pub events : Sql (Event json.Value) event_id
  pub projects : Sql Project project_key
  pub observations : Sql (Observation json.Value) observation_id
  pub sessions : Sql SessionRow session_key
  pub memories : Sql (MemoryRow json.Value Float) memory_id
  pub vec_observations : Sql (VecRow (List ℕ)) vec_id
  pub vec_memories : Sql (VecRow (List ℕ)) vec_id
  pub pushbacks : Sql (Pushback json.Value Float) pushback_id
  pub api_calls : Sql (ApiCallRow Float) call_id
  pub disclosures : Sql Disclosure disclosure_id
  pub approvals : Sql (Approval json.Value) approval_id
  pub runs : Sql (AgentRun json.Value) run_id
  pub blobs : Sql Blob blob_id
  pub pins : Sql (Pin json.Value) pin_id
  pub utterances : Sql VoiceUtterance utterance_id
  pub terminals : Sql (Terminal json.Value) terminal_id
  pub dotfile_edits : Sql (DotfileEdit json.Value) edit_id
  -- FTS5 over the two tables
  pub match_observations :
      String → List (Observation json.Value) → Option (List (Observation json.Value))
  pub match_memories :
      String → List (MemoryRow json.Value Float) → Option (List (MemoryRow json.Value Float))
  pub moment : ℕ → Moment

module _ (E : Env) where
  pub record Db : Type 0 where
    pub events : E.events.Table
    pub projects : E.projects.Table
    pub observations : E.observations.Table
    pub sessions : E.sessions.Table
    pub memories : E.memories.Table
    pub vec_observations : E.vec_observations.Table
    pub vec_memories : E.vec_memories.Table
    pub pushbacks : E.pushbacks.Table
    pub api_calls : E.api_calls.Table
    pub disclosures : E.disclosures.Table
    pub approvals : E.approvals.Table
    pub runs : E.runs.Table
    pub blobs : E.blobs.Table
    pub pins : E.pins.Table
    pub utterances : E.utterances.Table
    pub terminals : E.terminals.Table
    pub dotfile_edits : E.dotfile_edits.Table
    pub retention : Option RetentionStatus

  pub data Cmd : Type 0 where
    append : (NewEvent E.json.Value) → Cmd
    recent : ℕ → Cmd
    count : Cmd
    upsert_project : Text → Text → Cmd
    list_projects : Cmd
    add_observation : (NewObservation E.json.Value) → Cmd
    recent_observations : ℕ → (Option String) → Cmd
    session_open : WorkSession → Cmd
    session_touch : String → ℕ → ℕ → Cmd
    session_close : String → ℕ → Cmd
    recent_sessions : ℕ → Cmd
    open_sessions : Cmd
    add_memory : (NewMemory E.json.Value E.Float) → Cmd
    update_memory_confidence : String → E.Float → Cmd
    archive_memory : String → Cmd
    list_memories : MemoryFilter → Cmd
    fts_observations : String → ℕ → Cmd
    fts_memories : String → ℕ → Cmd
    unembedded_observations : (List String) → ℕ → Cmd
    set_observation_embedding : String → (List E.float32.F) → Cmd
    set_memory_embedding : String → (List E.float32.F) → Cmd
    all_observation_embeddings : ℕ → Cmd
    all_memory_embeddings : ℕ → Cmd
    observations_by_ids : (List String) → Cmd
    insert_pushback : (NewPushback E.json.Value E.Float) → Cmd
    recent_pushbacks : ℕ → Cmd
    get_pushback : String → Cmd
    pushback_feedback : String → String → ℕ → ℕ → Cmd
    pushbacks_since : ℕ → Cmd
    insert_api_call :
        String → String → (Option ℕ) → (Option ℕ) → (Option E.Float) → Bool → (Option String) → Cmd
    insert_disclosure : (Option String) → String → String → (List String) → (List String) → Cmd
    recent_disclosures : ℕ → Cmd
    closed_sessions_without_summary : ℕ → Cmd
    set_session_summary : String → Text → Cmd
    observations_between : String → ℕ → ℕ → ℕ → Cmd
    delete_observations_older_than : ℕ → (List String) → ℕ → Cmd
    delete_api_calls_older_than : ℕ → ℕ → Cmd
    insert_approval : (NewApproval E.json.Value) → Cmd
    pending_approvals : Cmd
    get_approval : String → Cmd
    decide_approval : String → String → ℕ → String → (Option String) → Cmd
    set_approval_execution : String → E.json.Value → Cmd
    expire_approvals : ℕ → Cmd
    insert_agent_run : (NewAgentRun E.json.Value) → Cmd
    update_agent_run_status :
        String → String → (Option ℕ) → (Option Text) → (Option E.json.Value) → Cmd
    recent_agent_runs : ℕ → Cmd
    get_agent_run : String → Cmd
    insert_blob : (List ℕ) → ℕ → Cmd
    get_blob : String → Cmd
    get_project_by_id : String → Cmd
    insert_pin : (Option String) → (NewPin E.json.Value) → Cmd
    list_pins : Cmd
    get_pin : String → Cmd
    expire_pins : ℕ → Cmd
    delete_pin : String → Cmd
    get_retention_status : Cmd
    set_retention_status : RetentionStatus → Cmd
    insert_voice_utterance : NewVoiceUtterance → Cmd
    recent_voice_utterances : ℕ → Cmd
    upsert_terminal : (NewTerminal E.json.Value) → Cmd
    list_terminals : Cmd
    get_terminal : String → Cmd
    insert_dotfile_edit : (NewDotfileEdit E.json.Value) → Cmd
    recent_dotfile_edits : ℕ → Cmd
    get_dotfile_edit : String → Cmd
    mark_dotfile_edit_reverted : String → String → Cmd

  -- What the sender of a command is answered, in a `Result`.
  abbrev pub Reply : Cmd → Type 0
  Reply (append _) = Event E.json.Value
  Reply (recent _) = List (Event E.json.Value)
  Reply count = ℕ
  Reply (upsert_project _ _) = Project
  Reply list_projects = List Project
  Reply (add_observation _) = Observation E.json.Value
  Reply (recent_observations _ _) = List (Observation E.json.Value)
  Reply (session_open _) = Unit {0}
  Reply (session_touch _ _ _) = Unit {0}
  Reply (session_close _ _) = Unit {0}
  Reply (recent_sessions _) = List WorkSession
  Reply open_sessions = List WorkSession
  Reply (add_memory _) = MemoryRow E.json.Value E.Float
  Reply (update_memory_confidence _ _) = Unit {0}
  Reply (archive_memory _) = Unit {0}
  Reply (list_memories _) = List (MemoryRow E.json.Value E.Float)
  Reply (fts_observations _ _) = List String
  Reply (fts_memories _ _) = List String
  Reply (unembedded_observations _ _) = List (Observation E.json.Value)
  Reply (set_observation_embedding _ _) = Unit {0}
  Reply (set_memory_embedding _ _) = Unit {0}
  Reply (all_observation_embeddings _) = List (String × List E.float32.F)
  Reply (all_memory_embeddings _) = List (String × List E.float32.F)
  Reply (observations_by_ids _) = List (Observation E.json.Value)
  Reply (insert_pushback _) = Pushback E.json.Value E.Float
  Reply (recent_pushbacks _) = List (Pushback E.json.Value E.Float)
  Reply (get_pushback _) = Option (Pushback E.json.Value E.Float)
  Reply (pushback_feedback _ _ _ _) = Unit {0}
  Reply (pushbacks_since _) = List (Pushback E.json.Value E.Float)
  Reply (insert_api_call _ _ _ _ _ _ _) = String
  Reply (insert_disclosure _ _ _ _ _) = String
  Reply (recent_disclosures _) = List Disclosure
  Reply (closed_sessions_without_summary _) = List WorkSession
  Reply (set_session_summary _ _) = Unit {0}
  Reply (observations_between _ _ _ _) = List (Observation E.json.Value)
  Reply (delete_observations_older_than _ _ _) = ℕ
  Reply (delete_api_calls_older_than _ _) = ℕ
  Reply (insert_approval _) = Approval E.json.Value
  Reply pending_approvals = List (Approval E.json.Value)
  Reply (get_approval _) = Option (Approval E.json.Value)
  Reply (decide_approval _ _ _ _ _) = Approval E.json.Value
  Reply (set_approval_execution _ _) = Unit {0}
  Reply (expire_approvals _) = ℕ
  Reply (insert_agent_run _) = AgentRun E.json.Value
  Reply (update_agent_run_status _ _ _ _ _) = Unit {0}
  Reply (recent_agent_runs _) = List (AgentRun E.json.Value)
  Reply (get_agent_run _) = Option (AgentRun E.json.Value)
  Reply (insert_blob _ _) = Blob
  Reply (get_blob _) = Option Blob
  Reply (get_project_by_id _) = Option Project
  Reply (insert_pin _ _) = Pin E.json.Value
  Reply list_pins = List (Pin E.json.Value)
  Reply (get_pin _) = Option (Pin E.json.Value)
  Reply (expire_pins _) = List (Pin E.json.Value)
  Reply (delete_pin _) = Unit {0}
  Reply get_retention_status = Option RetentionStatus
  Reply (set_retention_status _) = Unit {0}
  Reply (insert_voice_utterance _) = VoiceUtterance
  Reply (recent_voice_utterances _) = List VoiceUtterance
  Reply (upsert_terminal _) = Terminal E.json.Value
  Reply list_terminals = List (Terminal E.json.Value)
  Reply (get_terminal _) = Option (Terminal E.json.Value)
  Reply (insert_dotfile_edit _) = DotfileEdit E.json.Value
  Reply (recent_dotfile_edits _) = List (DotfileEdit E.json.Value)
  Reply (get_dotfile_edit _) = Option (DotfileEdit E.json.Value)
  Reply (mark_dotfile_edit_reverted _ _) = DotfileEdit E.json.Value
