-- ===== src/Daemon/Server.antt =====
-- crates/rat-daemon/src/server.rs: the connection, the dispatch on the method and the arms of all methods.
-- An arm runs over the context and fails with an error of the protocol, which is the early return. The
-- store is the actor of Store/Actor. `Services` is what the arms call of the rest of the daemon: the
-- ingestion, the task runner, the pins, the search, and the handler of approvals.decide, which are
-- modelled in Daemon, Workbench, Memory and Daemon/Decide over their own parts of this context, or not
-- modelled. The clock is read at most once in an arm: `now`. A latency is no less than 0 here.
pub mod Wire
pub mod Dto
pub mod Arms
pub mod Workbench
pub mod Listings
pub mod Edits
pub mod Connection
use rato.Prelude.{ℕ, String, Bool, Option, none, some, List, ◌++◌, codes, if◌then◌else◌}
use rato.Prelude.Paths.{Text}
use rato.Prelude.Result.{Result, ok, err, map_err, Exec, pure, fail, lift}
use rato.Store.Approvals.{Approval, StoreError}
use rato.Store.Runs.{AgentRun}
use rato.Store.Pins.{Pin}
use rato.Store.Events.{Event, NewEvent, Project}
use rato.Store.Prune.{Observation}
use rato.Store.Actor.{Env as StoreEnv}
use rato.Store.Actor.Loop.{Actor}
use rato.Dotfile.Files.{Fs}
use rato.Dotfile.Validate.{DotfileError, Parsers}
use rato.Workbench.Command.{ExecutionBackend}
use rato.Daemon.Sessionizer.{WorkSession}
use rato.Daemon.Mode.{ModeManager, ModeState}
use rato.Daemon.Sensors.{SensorGate, SensorHealthDto}
use rato.Daemon.Decide.{DecideParams}
use rato.Daemon.Server.Wire.{
  ErrCode, invalid_request, internal, Request, RpcError, HelloParams, RecentParams, ObsRecentParams,
  MemorySearchParams, MemoryListParams, CountParams, PushbackFeedbackParams, WorkbenchStartParams,
  WorkbenchTailParams, PinRecentParams, SetRoleParams, DotfileApplyParams, IdParams,
}
use rato.Daemon.Server.Dto.{
  PushbackDto, MemoryDto, DisclosureDto, AgentRunDto, ApprovalDto, VoiceUtteranceDto, TerminalDto,
  DotfileEditDto, PinDto, RetentionStatusDto,
}

pub data Adapter : Type 0 where
  fake_agent claude_code codex : Adapter

pub data Media : Type 0 where
  screen audio clipboard : Media

pub record HitDto (F : Type 0) : Type 0 where
  pub id : String
  pub kind : String
  pub score : F

pub record RingMediaStatusDto : Type 0 where
  pub media : String
  pub segment_count : ℕ
  pub newest_ms : Option ℕ
  pub oldest_ms : Option ℕ
  pub ttl_secs : ℕ

pub record VoiceBackendStatusDto : Type 0 where
  pub name : String
  pub state : String
  pub reason : Option String

pub record VoiceStatusDto : Type 0 where
  pub enabled : Bool
  pub backends : List VoiceBackendStatusDto
  pub prewake_ring_secs : ℕ

pub record StatusResult : Type 0 where
  pub version : String
  pub proto_version : ℕ
  pub uptime_ms : ℕ
  pub event_count : ℕ
  pub db_path : Text
  pub sensors : List SensorHealthDto

pub record LlmStatus : Type 0 where
  pub provider : String
  pub openai_key : Bool
  pub anthropic_key : Bool
  pub openrouter_key : Bool
  pub embedding_enabled : Bool
  pub critic_enabled : Bool
  pub last_error : Option Text

-- `serde_json::from_str`, `from_value` and `to_value` at the types of the protocol.
pub record Codec (V F : Type 0) : Type 0 where
  pub request : Text → Result Text (Request V)
  pub is_null : V → Bool
  pub null : V
  pub hello : V → Result Text HelloParams
  pub event : V → Result Text (NewEvent V)
  pub recent : V → Result Text RecentParams
  pub obs_recent : V → Result Text ObsRecentParams
  pub memory_search : V → Result Text MemorySearchParams
  pub memory_list : V → Result Text MemoryListParams
  pub count : V → Result Text CountParams
  pub feedback : V → Result Text PushbackFeedbackParams
  pub start : V → Result Text WorkbenchStartParams
  pub tail : V → Result Text WorkbenchTailParams
  pub decide : V → Result Text DecideParams
  pub pin_recent : V → Result Text PinRecentParams
  pub set_role : V → Result Text SetRoleParams
  pub dotfile_apply : V → Result Text (DotfileApplyParams V)
  -- a parameter that is one id, under the name of its field
  pub id_under : String → V → Result Text IdParams
  pub of_hello : ℕ → String → V
  pub of_status : StatusResult → V
  pub of_event : Event V → V
  pub of_events : List (Event V) → V
  pub of_observations : List (Observation V) → V
  pub of_projects : List Project → V
  pub of_sessions : List WorkSession → V
  pub of_mode : ModeState → V
  pub of_hits : List (HitDto F) → V
  pub of_memories : List (MemoryDto V F) → V
  pub of_disclosures : List DisclosureDto → V
  pub of_pushbacks : List (PushbackDto V F) → V
  pub of_pushback : PushbackDto V F → V
  pub of_llm_status : LlmStatus → V
  pub of_run : AgentRunDto V → V
  pub of_runs : List (AgentRunDto V) → V
  pub of_lines : Text → V
  pub of_approvals : List (ApprovalDto V) → V
  pub of_approval : ApprovalDto V → V
  pub of_pins : List (PinDto V) → V
  pub of_pin : PinDto V → V
  pub of_ring_status : List RingMediaStatusDto → V
  pub of_retention : RetentionStatusDto → V
  pub of_voice_status : VoiceStatusDto → V
  pub of_utterances : List VoiceUtteranceDto → V
  pub of_terminals : List (TerminalDto V) → V
  pub of_terminal : TerminalDto V → V
  pub of_edits : List (DotfileEditDto V) → V
  pub of_edit : DotfileEditDto V → V

pub record Env : Type 1 where
  pub store : StoreEnv
  pub fs : Fs
  -- the state of the services
  pub Rest : Type 0
  pub codec : Codec store.json.Value store.Float
  -- `to_string` of the errors
  pub show_store : StoreError → Text
  pub show_dotfile : DotfileError → Text
  -- a number, as it is printed
  pub decimal : ℕ → Text
  pub parsers : Parsers
  pub command_exists : String → Bool
  -- the number of the process, as it is printed
  pub pid : Text
  pub version : String
  pub db_path : Text
  -- the two bytes of SHA-256 that a spoken slug is made from
  pub digest : String → ℕ × ℕ

module _ (E : Env) where
  abbrev pub Value : Type 0
  Value = E.store.json.Value

  pub record Ctx : Type 0 where
    pub store : Actor E.store
    pub disk : E.fs.Disk
    pub mode : ModeManager
    pub sensors : SensorGate
    pub llm : LlmStatus
    pub uptime_ms : ℕ
    pub rest : E.Rest

  -- The code of an arm, up to its response.
  abbrev pub Arm : Type 0 → Type 0
  Arm A = Exec Ctx RpcError A

  -- A call whose error is only shown.
  abbrev pub Service : Type 0 → Type 0
  Service A = Exec Ctx Text A

  pub record PinService : Type 0 where
    pub list : Service (List (Pin Value))
    pub pin_recent : Media → ℕ → Service (Pin Value)
    pub unpin : String → Service (Unit {0})
    pub ring_status : Service (List RingMediaStatusDto)

  pub record Services : Type 0 where
    pub ingest : NewEvent Value → Service (Option (Event Value))
    pub search : String → Option String → ℕ → Service (List (HitDto E.store.Float))
    pub start : Text → String → String → Adapter → ExecutionBackend → Service (AgentRun Value)
    pub poll : String → Service (Unit {0})
    pub capture_tail : String → ℕ → Service Text
    pub merge_back : String → Service (Approval Value)
    pub decide : DecideParams → ℕ → Arm (Approval Value)
    pub pins : Option PinService
    -- whether a service panics on a line that comes after the greeting, at the clock's time, and what it
    -- has written by then: the task of the connection ends there
    pub panics : ℕ → Text → Ctx → Bool
    pub after_panic : ℕ → Text → Ctx → Ctx

  abbrev pub refuse : {A : Type 0} → ErrCode → Text → Arm A
  refuse code message = fail (record { code = code; message = message })

  -- `match … { Ok(a) => …, Err(e) => return Response::err(…, code, e.to_string()) }`
  abbrev pub or_refuse : {A : Type 0} → ErrCode → Service A → Arm A
  or_refuse code m c =
      let (r, c') = m c in (map_err (λ e. record { code = code; message = e }) r, c')

  -- A method of the store, whose failure is INTERNAL.
  abbrev pub stored : {A : Type 0} → (Actor E.store → Result StoreError A × Actor E.store) → Arm A
  stored m c =
      let (r, a) = m c.store in
      (
        map_err (λ e. record { code = internal; message = E.show_store e }) r,
        record c { store = a },
      )

  -- `serde_json::from_value(req.params)`, with the words in front of its error.
  abbrev pub decoded : {P : Type 0} → Text → Result Text P → Arm P
  decoded words r = lift (map_err (λ e. record { code = invalid_request; message = words ++ e }) r)

  abbrev pub params_of : {P : Type 0} → (Value → Result Text P) → Value → Arm P
  params_of decode v = decoded (codes "bad params: ") (decode v)

  -- Where null stands for the defaults.
  abbrev pub params_or : {P : Type 0} → P → (Value → Result Text P) → Value → Arm P
  params_or default decode v = if E.codec.is_null v then pure default else params_of decode v

  abbrev pub found : {A : Type 0} → Option A → Text → Arm A
  found none message = refuse invalid_request message
  found (some a) message = pure a
