-- ===== src/Daemon/Server/Dto.antt =====
-- The rows as the daemon sends them: the DTOs of crates/rat-proto/src/lib.rs and the conversions of
-- crates/rat-daemon/src/server.rs. The field `type` of a memory is `kind`, `spoken_slug` is `slug`.
use rato.Prelude.{ℕ, String, Bool, Option, List}
use rato.Prelude.Paths.{Text}
use rato.Store.Approvals.{Approval}
use rato.Store.Runs.{AgentRun}
use rato.Store.Pins.{Pin, RetentionStatus}
use rato.Store.Pushbacks.{Pushback, Disclosure}
use rato.Store.DotfileEdits.{DotfileEdit}
use rato.Store.Terminals.{Terminal, VoiceUtterance}
use rato.Store.Memories.{MemoryRow}
use rato.Voice.Approval.{spoken_slug}

pub record PushbackDto (V F : Type 0) : Type 0 where
  pub id : String
  pub ts : ℕ
  pub mode : String
  pub trigger : String
  pub severity : String
  pub title : String
  pub message_en : String
  pub message_pt : String
  pub evidence : V
  pub proposals : V
  pub confidence : F
  pub status : String
  pub decided_at : Option ℕ
  pub latency_ms : Option ℕ

unfoldable pub pushback_to_dto : {V F : Type 0} → Pushback V F → PushbackDto V F
pushback_to_dto r = record {
  id = r.id;
  ts = r.ts;
  mode = r.content.mode;
  trigger = r.content.trigger;
  severity = r.content.severity;
  title = r.content.title;
  message_en = r.content.message_en;
  message_pt = r.content.message_pt;
  evidence = r.content.evidence;
  proposals = r.content.proposals;
  confidence = r.content.confidence;
  status = r.content.status;
  decided_at = r.decided_at;
  latency_ms = r.latency_ms;
}

pub record MemoryDto (V F : Type 0) : Type 0 where
  pub id : String
  pub kind : String
  pub project_id : Option String
  pub title : Text
  pub body : Text
  pub confidence : F
  pub created : ℕ
  pub updated : ℕ
  pub source_event_ids : V
  pub archived : Bool

unfoldable pub memory_to_dto : {V F : Type 0} → MemoryRow V F → MemoryDto V F
memory_to_dto r = record {
  id = r.id;
  kind = r.memory.kind;
  project_id = r.memory.project_id;
  title = r.memory.title;
  body = r.memory.body;
  confidence = r.memory.confidence;
  created = r.created;
  updated = r.updated;
  source_event_ids = r.memory.source_event_ids;
  archived = r.archived;
}

pub record DisclosureDto : Type 0 where
  pub id : String
  pub ts : ℕ
  pub api_call_id : Option String
  pub model : String
  pub purpose : String
  pub memory_ids : List String
  pub observation_ids : List String

unfoldable pub disclosure_to_dto : Disclosure → DisclosureDto
disclosure_to_dto r = record {
  id = r.id;
  ts = r.ts;
  api_call_id = r.api_call_id;
  model = r.model;
  purpose = r.purpose;
  memory_ids = r.memory_ids;
  observation_ids = r.observation_ids;
}

pub record AgentRunDto (V : Type 0) : Type 0 where
  pub id : String
  pub adapter : String
  pub task_title : String
  pub project_id : String
  pub worktree_path : String
  pub branch : String
  pub tmux_target : Option String
  pub mode : String
  pub status : String
  pub tokens : V
  pub cost_usd : V
  pub started : ℕ
  pub ended : Option ℕ
  pub result_summary : Option Text
  pub diffstat : Option V

unfoldable pub agent_run_to_dto : {V : Type 0} → AgentRun V → AgentRunDto V
agent_run_to_dto r = record {
  id = r.id;
  adapter = r.adapter;
  task_title = r.task_title;
  project_id = r.project_id;
  worktree_path = r.worktree_path;
  branch = r.branch;
  tmux_target = r.tmux_target;
  mode = r.mode;
  status = r.status;
  tokens = r.tokens;
  cost_usd = r.cost_usd;
  started = r.started;
  ended = r.ended;
  result_summary = r.result_summary;
  diffstat = r.diffstat;
}

pub record ApprovalDto (V : Type 0) : Type 0 where
  pub id : String
  pub created : ℕ
  pub kind : String
  pub risk : ℕ
  pub title : String
  pub reason : String
  pub cwd : Option String
  pub target : Option String
  pub agent_identity : String
  pub payload : V
  pub expected_impact : V
  pub expires_at : ℕ
  pub status : String
  pub decided_at : Option ℕ
  pub decided_via : Option String
  pub decision_note : Option String
  pub execution : Option V
  pub slug : Text

unfoldable pub approval_to_dto : {V : Type 0} → (String → ℕ × ℕ) → Approval V → ApprovalDto V
unfolding spoken_slug
approval_to_dto digest r = record {
  id = r.id;
  created = r.created;
  kind = r.kind;
  risk = r.risk;
  title = r.title;
  reason = r.reason;
  cwd = r.cwd;
  target = r.target;
  agent_identity = r.agent_identity;
  payload = r.payload;
  expected_impact = r.expected_impact;
  expires_at = r.expires_at;
  status = r.status;
  decided_at = r.decided_at;
  decided_via = r.decided_via;
  decision_note = r.decision_note;
  execution = r.execution;
  slug = spoken_slug digest r.id;
}

pub record VoiceUtteranceDto : Type 0 where
  pub id : String
  pub ts : ℕ
  pub lang : String
  pub text : String
  pub intent : Option String
  pub wake_word : String
  pub handled : Bool

unfoldable pub voice_utterance_to_dto : VoiceUtterance → VoiceUtteranceDto
voice_utterance_to_dto r = record {
  id = r.id;
  ts = r.ts;
  lang = r.said.lang;
  text = r.said.text;
  intent = r.said.intent;
  wake_word = r.said.wake_word;
  handled = r.said.handled;
}

pub record TerminalDto (V : Type 0) : Type 0 where
  pub id : String
  pub tty : String
  pub pid : ℕ
  pub emulator : String
  pub tmux_target : Option String
  pub role : String
  pub project_id : Option String
  pub cmd_hash : String
  pub first_seen : ℕ
  pub last_seen : ℕ
  pub meta : V

unfoldable pub terminal_to_dto : {V : Type 0} → Terminal V → TerminalDto V
terminal_to_dto r = record {
  id = r.id;
  tty = r.seen.tty;
  pid = r.seen.pid;
  emulator = r.seen.emulator;
  tmux_target = r.seen.tmux_target;
  role = r.seen.role;
  project_id = r.seen.project_id;
  cmd_hash = r.seen.cmd_hash;
  first_seen = r.first_seen;
  last_seen = r.last_seen;
  meta = r.seen.meta;
}

pub record DotfileEditDto (V : Type 0) : Type 0 where
  pub id : String
  pub path : Text
  pub kind : String
  pub before_blob : String
  pub after_blob : String
  pub diff : Text
  pub reason : Text
  pub source : String
  pub risk : ℕ
  pub created : ℕ
  pub applied : Bool
  pub reverted_by : Option String
  pub meta : V

unfoldable pub dotfile_edit_to_dto : {V : Type 0} → DotfileEdit V → DotfileEditDto V
dotfile_edit_to_dto r = record {
  id = r.id;
  path = r.edit.path;
  kind = r.edit.kind;
  before_blob = r.edit.before_blob;
  after_blob = r.edit.after_blob;
  diff = r.edit.diff;
  reason = r.edit.reason;
  source = r.edit.source;
  risk = r.edit.risk;
  created = r.created;
  applied = r.edit.applied;
  reverted_by = r.reverted_by;
  meta = r.edit.meta;
}

pub record PinDto (V : Type 0) : Type 0 where
  pub id : String
  pub kind : String
  pub media : String
  pub path : String
  pub created : ℕ
  pub expires_at : Option ℕ
  pub reason : String
  pub meta : V

unfoldable pub pin_to_dto : {V : Type 0} → Pin V → PinDto V
pin_to_dto r = record {
  id = r.id;
  kind = r.kind;
  media = r.media;
  path = r.path;
  created = r.created;
  expires_at = r.expires_at;
  reason = r.reason;
  meta = r.meta;
}

pub record RetentionStatusDto : Type 0 where
  pub last_run_ms : ℕ
  pub observations_deleted : ℕ
  pub pins_expired : ℕ
  pub api_calls_deleted : ℕ

unfoldable pub retention_to_dto : RetentionStatus → RetentionStatusDto
retention_to_dto r = record {
  last_run_ms = r.last_run_ms;
  observations_deleted = r.observations_deleted;
  pins_expired = r.pins_expired;
  api_calls_deleted = r.api_calls_deleted;
}
