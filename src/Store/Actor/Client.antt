-- ===== src/Store/Actor/Client.antt =====
-- crates/rat-store/src/store.rs, the methods of `Store`: each sends its command and awaits the answer.
use rato.Prelude.{ℕ, String, Bool, Option, none, some, List}
use rato.Prelude.Result.{Result}
use rato.Prelude.Paths.{Text}
use rato.Store.Approvals.{StoreError, Approval, NewApproval}
use rato.Store.Runs.{AgentRun, NewAgentRun}
use rato.Store.Pins.{Pin, NewPin, RetentionStatus}
use rato.Store.Prune.{Observation}
use rato.Store.Events.{Event, NewEvent, Project}
use rato.Store.Observations.{NewObservation}
use rato.Store.Pushbacks.{Pushback, NewPushback, Disclosure}
use rato.Store.Blobs.{Blob}
use rato.Store.DotfileEdits.{DotfileEdit, NewDotfileEdit}
use rato.Store.Terminals.{Terminal, NewTerminal, VoiceUtterance, NewVoiceUtterance}
use rato.Store.Memories.{MemoryRow, NewMemory, MemoryFilter, memory_id}
use rato.Daemon.Sessionizer.{WorkSession}
use rato.Store.Actor.{Env, Cmd}
use rato.Store.Actor.Loop.{Actor, ask}

module _ (E : Env) where
  -- What a method gives: its result and the actor afterwards.
  abbrev pub Call : Type 0 → Type 0
  Call A = Actor E → Result StoreError A × Actor E

  unfoldable pub append : (NewEvent E.json.Value) → Call (Event E.json.Value)
  unfolding ask
  append ev = ask E (Cmd.append ev)

  unfoldable pub recent : ℕ → Call (List (Event E.json.Value))
  unfolding ask
  recent limit = ask E (Cmd.recent limit)

  unfoldable pub count : Call ℕ
  unfolding ask
  count = ask E Cmd.count

  unfoldable pub upsert_project : Text → Text → Call Project
  unfolding ask
  upsert_project root_path name = ask E (Cmd.upsert_project root_path name)

  unfoldable pub list_projects : Call (List Project)
  unfolding ask
  list_projects = ask E Cmd.list_projects

  unfoldable pub add_observation : (NewObservation E.json.Value) → Call (Observation E.json.Value)
  unfolding ask
  add_observation obs = ask E (Cmd.add_observation obs)

  unfoldable pub recent_observations : ℕ → (Option String) → Call (List (Observation E.json.Value))
  unfolding ask
  recent_observations limit kind = ask E (Cmd.recent_observations limit kind)

  unfoldable pub session_open : WorkSession → Call (Unit {0})
  unfolding ask
  session_open ws = ask E (Cmd.session_open ws)

  unfoldable pub session_touch : String → ℕ → ℕ → Call (Unit {0})
  unfolding ask
  session_touch id last_activity commands = ask E (Cmd.session_touch id last_activity commands)

  unfoldable pub session_close : String → ℕ → Call (Unit {0})
  unfolding ask
  session_close id ended = ask E (Cmd.session_close id ended)

  unfoldable pub recent_sessions : ℕ → Call (List WorkSession)
  unfolding ask
  recent_sessions limit = ask E (Cmd.recent_sessions limit)

  unfoldable pub open_sessions : Call (List WorkSession)
  unfolding ask
  open_sessions = ask E Cmd.open_sessions

  unfoldable pub add_memory :
      (NewMemory E.json.Value E.Float) → Call (MemoryRow E.json.Value E.Float)
  unfolding ask
  add_memory mem = ask E (Cmd.add_memory mem)

  unfoldable pub update_memory_confidence : String → E.Float → Call (Unit {0})
  unfolding ask
  update_memory_confidence id confidence = ask E (Cmd.update_memory_confidence id confidence)

  unfoldable pub archive_memory : String → Call (Unit {0})
  unfolding ask
  archive_memory id = ask E (Cmd.archive_memory id)

  unfoldable pub list_memories : MemoryFilter → Call (List (MemoryRow E.json.Value E.Float))
  unfolding ask
  list_memories filter = ask E (Cmd.list_memories filter)

  unfoldable pub fts_observations : String → ℕ → Call (List String)
  unfolding ask
  fts_observations query limit = ask E (Cmd.fts_observations query limit)

  unfoldable pub fts_memories : String → ℕ → Call (List String)
  unfolding ask
  fts_memories query limit = ask E (Cmd.fts_memories query limit)

  unfoldable pub unembedded_observations :
      (List String) → ℕ → Call (List (Observation E.json.Value))
  unfolding ask
  unembedded_observations kinds limit = ask E (Cmd.unembedded_observations kinds limit)

  unfoldable pub set_observation_embedding : String → (List E.float32.F) → Call (Unit {0})
  unfolding ask
  set_observation_embedding obs_id embedding =
      ask E (Cmd.set_observation_embedding obs_id embedding)

  unfoldable pub set_memory_embedding : String → (List E.float32.F) → Call (Unit {0})
  unfolding ask
  set_memory_embedding memory_id embedding = ask E (Cmd.set_memory_embedding memory_id embedding)

  unfoldable pub all_observation_embeddings : ℕ → Call (List (String × List E.float32.F))
  unfolding ask
  all_observation_embeddings limit = ask E (Cmd.all_observation_embeddings limit)

  unfoldable pub all_memory_embeddings : ℕ → Call (List (String × List E.float32.F))
  unfolding ask
  all_memory_embeddings limit = ask E (Cmd.all_memory_embeddings limit)

  unfoldable pub observations_by_ids : (List String) → Call (List (Observation E.json.Value))
  unfolding ask
  observations_by_ids ids = ask E (Cmd.observations_by_ids ids)

  unfoldable pub insert_pushback :
      (NewPushback E.json.Value E.Float) → Call (Pushback E.json.Value E.Float)
  unfolding ask
  insert_pushback pb = ask E (Cmd.insert_pushback pb)

  unfoldable pub recent_pushbacks : ℕ → Call (List (Pushback E.json.Value E.Float))
  unfolding ask
  recent_pushbacks limit = ask E (Cmd.recent_pushbacks limit)

  unfoldable pub get_pushback : String → Call (Option (Pushback E.json.Value E.Float))
  unfolding ask
  get_pushback id = ask E (Cmd.get_pushback id)

  unfoldable pub pushback_feedback : String → String → ℕ → ℕ → Call (Unit {0})
  unfolding ask
  pushback_feedback id status decided_at latency_ms =
      ask E (Cmd.pushback_feedback id status decided_at latency_ms)

  unfoldable pub pushbacks_since : ℕ → Call (List (Pushback E.json.Value E.Float))
  unfolding ask
  pushbacks_since ts = ask E (Cmd.pushbacks_since ts)

  unfoldable pub insert_api_call :
      String
      → String
      → (Option ℕ)
      → (Option ℕ)
      → (Option E.Float)
      → Bool
      → (Option String)
      → Call String
  unfolding ask
  insert_api_call model purpose tokens_in tokens_out cost_usd succeeded error =
      ask E (Cmd.insert_api_call model purpose tokens_in tokens_out cost_usd succeeded error)

  unfoldable pub insert_disclosure :
      (Option String) → String → String → (List String) → (List String) → Call String
  unfolding ask
  insert_disclosure api_call_id model purpose memory_ids observation_ids =
      ask E (Cmd.insert_disclosure api_call_id model purpose memory_ids observation_ids)

  unfoldable pub recent_disclosures : ℕ → Call (List Disclosure)
  unfolding ask
  recent_disclosures limit = ask E (Cmd.recent_disclosures limit)

  unfoldable pub closed_sessions_without_summary : ℕ → Call (List WorkSession)
  unfolding ask
  closed_sessions_without_summary limit = ask E (Cmd.closed_sessions_without_summary limit)

  unfoldable pub set_session_summary : String → Text → Call (Unit {0})
  unfolding ask
  set_session_summary id summary = ask E (Cmd.set_session_summary id summary)

  unfoldable pub observations_between : String → ℕ → ℕ → ℕ → Call (List (Observation E.json.Value))
  unfolding ask
  observations_between project_id from_ms to_ms limit =
      ask E (Cmd.observations_between project_id from_ms to_ms limit)

  unfoldable pub delete_observations_older_than : ℕ → (List String) → ℕ → Call ℕ
  unfolding ask
  delete_observations_older_than cutoff_ms protected_ids max_rows =
      ask E (Cmd.delete_observations_older_than cutoff_ms protected_ids max_rows)

  unfoldable pub delete_api_calls_older_than : ℕ → ℕ → Call ℕ
  unfolding ask
  delete_api_calls_older_than cutoff_ms max_rows =
      ask E (Cmd.delete_api_calls_older_than cutoff_ms max_rows)

  unfoldable pub insert_approval : (NewApproval E.json.Value) → Call (Approval E.json.Value)
  unfolding ask
  insert_approval new_approval = ask E (Cmd.insert_approval new_approval)

  unfoldable pub pending_approvals : Call (List (Approval E.json.Value))
  unfolding ask
  pending_approvals = ask E Cmd.pending_approvals

  unfoldable pub get_approval : String → Call (Option (Approval E.json.Value))
  unfolding ask
  get_approval id = ask E (Cmd.get_approval id)

  unfoldable pub decide_approval :
      String → String → ℕ → String → (Option String) → Call (Approval E.json.Value)
  unfolding ask
  decide_approval id status decided_at decided_via note =
      ask E (Cmd.decide_approval id status decided_at decided_via note)

  unfoldable pub set_approval_execution : String → E.json.Value → Call (Unit {0})
  unfolding ask
  set_approval_execution id execution = ask E (Cmd.set_approval_execution id execution)

  unfoldable pub expire_approvals : ℕ → Call ℕ
  unfolding ask
  expire_approvals now_ms = ask E (Cmd.expire_approvals now_ms)

  unfoldable pub insert_agent_run : (NewAgentRun E.json.Value) → Call (AgentRun E.json.Value)
  unfolding ask
  insert_agent_run new_run = ask E (Cmd.insert_agent_run new_run)

  unfoldable pub update_agent_run_status :
      String → String → (Option ℕ) → (Option Text) → (Option E.json.Value) → Call (Unit {0})
  unfolding ask
  update_agent_run_status id status ended result_summary diffstat =
      ask E (Cmd.update_agent_run_status id status ended result_summary diffstat)

  unfoldable pub recent_agent_runs : ℕ → Call (List (AgentRun E.json.Value))
  unfolding ask
  recent_agent_runs n = ask E (Cmd.recent_agent_runs n)

  unfoldable pub get_agent_run : String → Call (Option (AgentRun E.json.Value))
  unfolding ask
  get_agent_run id = ask E (Cmd.get_agent_run id)

  unfoldable pub insert_blob : (List ℕ) → ℕ → Call Blob
  unfolding ask
  insert_blob bytes created = ask E (Cmd.insert_blob bytes created)

  unfoldable pub get_blob : String → Call (Option Blob)
  unfolding ask
  get_blob id = ask E (Cmd.get_blob id)

  unfoldable pub get_project_by_id : String → Call (Option Project)
  unfolding ask
  get_project_by_id id = ask E (Cmd.get_project_by_id id)

  unfoldable pub list_pins : Call (List (Pin E.json.Value))
  unfolding ask
  list_pins = ask E Cmd.list_pins

  unfoldable pub get_pin : String → Call (Option (Pin E.json.Value))
  unfolding ask
  get_pin id = ask E (Cmd.get_pin id)

  unfoldable pub expire_pins : ℕ → Call (List (Pin E.json.Value))
  unfolding ask
  expire_pins now_ms = ask E (Cmd.expire_pins now_ms)

  unfoldable pub delete_pin : String → Call (Unit {0})
  unfolding ask
  delete_pin id = ask E (Cmd.delete_pin id)

  unfoldable pub get_retention_status : Call (Option RetentionStatus)
  unfolding ask
  get_retention_status = ask E Cmd.get_retention_status

  unfoldable pub set_retention_status : RetentionStatus → Call (Unit {0})
  unfolding ask
  set_retention_status status = ask E (Cmd.set_retention_status status)

  unfoldable pub insert_voice_utterance : NewVoiceUtterance → Call VoiceUtterance
  unfolding ask
  insert_voice_utterance new_utterance = ask E (Cmd.insert_voice_utterance new_utterance)

  unfoldable pub recent_voice_utterances : ℕ → Call (List VoiceUtterance)
  unfolding ask
  recent_voice_utterances limit = ask E (Cmd.recent_voice_utterances limit)

  unfoldable pub upsert_terminal : (NewTerminal E.json.Value) → Call (Terminal E.json.Value)
  unfolding ask
  upsert_terminal terminal = ask E (Cmd.upsert_terminal terminal)

  unfoldable pub list_terminals : Call (List (Terminal E.json.Value))
  unfolding ask
  list_terminals = ask E Cmd.list_terminals

  unfoldable pub get_terminal : String → Call (Option (Terminal E.json.Value))
  unfolding ask
  get_terminal id = ask E (Cmd.get_terminal id)

  unfoldable pub insert_dotfile_edit :
      (NewDotfileEdit E.json.Value) → Call (DotfileEdit E.json.Value)
  unfolding ask
  insert_dotfile_edit edit = ask E (Cmd.insert_dotfile_edit edit)

  unfoldable pub recent_dotfile_edits : ℕ → Call (List (DotfileEdit E.json.Value))
  unfolding ask
  recent_dotfile_edits limit = ask E (Cmd.recent_dotfile_edits limit)

  unfoldable pub get_dotfile_edit : String → Call (Option (DotfileEdit E.json.Value))
  unfolding ask
  get_dotfile_edit id = ask E (Cmd.get_dotfile_edit id)

  unfoldable pub mark_dotfile_edit_reverted : String → String → Call (DotfileEdit E.json.Value)
  unfolding ask
  mark_dotfile_edit_reverted id reverted_by = ask E (Cmd.mark_dotfile_edit_reverted id reverted_by)

  unfoldable pub insert_pin : NewPin E.json.Value → Call (Pin E.json.Value)
  unfolding ask
  insert_pin new_pin = ask E (Cmd.insert_pin none new_pin)

  unfoldable pub insert_pin_with_id : String → NewPin E.json.Value → Call (Pin E.json.Value)
  unfolding ask
  insert_pin_with_id id new_pin = ask E (Cmd.insert_pin (some id) new_pin)
