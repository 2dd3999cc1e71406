-- ===== src/Store/Actor/Serve.antt =====
-- crates/rat-store/src/store.rs, `actor_loop`: the arm of each command. A call that cannot fail is
-- answered by `ok`.
use rato.Prelude.{String, Option, none, some}
use rato.Prelude.Result.{Result, ok}
use rato.Store.Approvals.{StoreError}
use rato.Store.Embeddings.{
  all_embeddings, do_fts, do_observations_by_ids, do_unembedded_observations, encode_embedding,
  set_embedding,
}
use rato.Store.Memories.{
  do_add_memory, do_archive_memory, do_list_memories, do_update_memory_confidence,
}
use rato.Store.Observations.{do_add_observation, do_observations_between, do_recent_observations}
use rato.Store.Events.{
  do_append, do_count, do_get_project_by_id, do_list_projects, do_recent, do_upsert_project,
}
use rato.Store.Sessions.{
  do_closed_sessions_without_summary, do_session_close, do_session_open, do_session_touch,
  do_sessions, do_set_session_summary,
}
use rato.Store.Approvals.{
  do_decide_approval, do_expire_approvals, do_get_approval, do_insert_approval,
  do_pending_approvals, do_set_approval_execution,
}
use rato.Store.Prune.{do_delete_api_calls_older_than, do_delete_observations_older_than}
use rato.Store.Pins.{
  do_delete_pin, do_expire_pins, do_get_pin, do_get_retention_status, do_insert_pin, do_list_pins,
  do_set_retention_status,
}
use rato.Store.Runs.{
  do_get_agent_run, do_insert_agent_run, do_recent_agent_runs, do_update_agent_run_status,
}
use rato.Store.Blobs.{do_get_blob, do_insert_blob}
use rato.Store.DotfileEdits.{
  do_get_dotfile_edit, do_insert_dotfile_edit, do_mark_dotfile_edit_reverted,
  do_recent_dotfile_edits,
}
use rato.Store.Pushbacks.{
  do_get_pushback, do_insert_api_call, do_insert_disclosure, do_insert_pushback,
  do_pushback_feedback, do_pushbacks_since, do_recent_disclosures, do_recent_pushbacks,
}
use rato.Store.Terminals.{
  do_get_terminal, do_insert_voice_utterance, do_list_terminals, do_recent_voice_utterances,
  do_upsert_terminal,
}
use rato.Store.Actor.{Env, Moment, Db, Cmd, Reply}

abbrev pub or_else : Option String → String → String
or_else none k = k
or_else (some j) k = j

module _ (E : Env) where
  unfoldable pub handle : (c : Cmd E) → Moment → Db E → Result StoreError (Reply E c) × Db E
  unfolding all_embeddings do_add_memory do_add_observation do_append do_archive_memory
      do_closed_sessions_without_summary do_count do_decide_approval do_delete_api_calls_older_than
      do_delete_observations_older_than do_delete_pin do_expire_approvals do_expire_pins do_fts
      do_get_agent_run do_get_approval do_get_blob do_get_dotfile_edit do_get_pin
      do_get_project_by_id do_get_pushback do_get_retention_status do_get_terminal
      do_insert_agent_run do_insert_api_call do_insert_approval do_insert_blob do_insert_disclosure
      do_insert_dotfile_edit do_insert_pin do_insert_pushback do_insert_voice_utterance
      do_list_memories do_list_pins do_list_projects do_list_terminals do_mark_dotfile_edit_reverted
      do_observations_between do_observations_by_ids do_pending_approvals do_pushback_feedback
      do_pushbacks_since do_recent do_recent_agent_runs do_recent_disclosures
      do_recent_dotfile_edits do_recent_observations do_recent_pushbacks do_recent_voice_utterances
      do_session_close do_session_open do_session_touch do_sessions do_set_approval_execution
      do_set_retention_status do_set_session_summary do_unembedded_observations
      do_update_agent_run_status do_update_memory_confidence do_upsert_project do_upsert_terminal
      encode_embedding set_embedding
  handle (Cmd.append ev) m s =
      let (r, t) = do_append E.events m.id m.now ev s.events in (r, record s { events = t })
  handle (Cmd.recent limit) m s = (ok (do_recent E.events limit s.events), s)
  handle Cmd.count m s = (ok (do_count E.events s.events), s)
  handle (Cmd.upsert_project root_path name) m s =
      let (r, t) = do_upsert_project E.projects m.id m.now root_path name s.projects in
      (r, record s { projects = t })
  handle Cmd.list_projects m s = (ok (do_list_projects E.projects s.projects), s)
  handle (Cmd.add_observation obs) m s =
      let (r, t) = do_add_observation E.observations m.id m.now obs s.observations in
      (r, record s { observations = t })
  handle (Cmd.recent_observations limit kind) m s =
      (ok (do_recent_observations E.observations limit kind s.observations), s)
  handle (Cmd.session_open ws) m s =
      let (r, t) = do_session_open E.sessions ws s.sessions in (r, record s { sessions = t })
  handle (Cmd.session_touch id last_activity commands) m s =
      let (r, t) = do_session_touch E.sessions id last_activity commands s.sessions in
      (r, record s { sessions = t })
  handle (Cmd.session_close id ended) m s =
      let (r, t) = do_session_close E.sessions id ended s.sessions in (r, record s { sessions = t })
  handle (Cmd.recent_sessions limit) m s = (ok (do_sessions E.sessions (some limit) s.sessions), s)
  handle Cmd.open_sessions m s = (ok (do_sessions E.sessions none s.sessions), s)
  handle (Cmd.add_memory mem) m s =
      let (r, t) = do_add_memory E.json E.memories E.is_null m.id m.now mem s.memories in
      (r, record s { memories = t })
  handle (Cmd.update_memory_confidence id confidence) m s =
      let (r, t) = do_update_memory_confidence E.json E.memories id confidence m.now s.memories in
      (r, record s { memories = t })
  handle (Cmd.archive_memory id) m s =
      let (r, t) = do_archive_memory E.json E.memories id m.now s.memories in
      (r, record s { memories = t })
  handle (Cmd.list_memories filter) m s =
      (ok (do_list_memories E.json E.memories filter s.memories), s)
  handle (Cmd.fts_observations query limit) m s =
      (do_fts E.observations E.match_observations query limit s.observations, s)
  handle (Cmd.fts_memories query limit) m s =
      (do_fts E.memories E.match_memories query limit s.memories, s)
  handle (Cmd.unembedded_observations kinds limit) m s = (
    ok (
        do_unembedded_observations E.observations E.vec_observations kinds limit s.observations
          s.vec_observations),
    s,
  )
  handle (Cmd.set_observation_embedding obs_id embedding) m s = (
    ok tt,
    record s {
      vec_observations =
          set_embedding E.float32 E.vec_observations obs_id (encode_embedding E.float32 embedding)
            s.vec_observations;
    },
  )
  handle (Cmd.set_memory_embedding memory_id embedding) m s = (
    ok tt,
    record s {
      vec_memories =
          set_embedding E.float32 E.vec_memories memory_id (encode_embedding E.float32 embedding)
            s.vec_memories;
    },
  )
  handle (Cmd.all_observation_embeddings limit) m s =
      (ok (all_embeddings E.float32 E.vec_observations limit s.vec_observations), s)
  handle (Cmd.all_memory_embeddings limit) m s =
      (ok (all_embeddings E.float32 E.vec_memories limit s.vec_memories), s)
  handle (Cmd.observations_by_ids ids) m s =
      (ok (do_observations_by_ids E.observations ids s.observations), s)
  handle (Cmd.insert_pushback pb) m s =
      let (r, t) = do_insert_pushback E.pushbacks m.id m.now pb s.pushbacks in
      (r, record s { pushbacks = t })
  handle (Cmd.recent_pushbacks limit) m s =
      (ok (do_recent_pushbacks E.pushbacks limit s.pushbacks), s)
  handle (Cmd.get_pushback id) m s = (ok (do_get_pushback E.pushbacks id s.pushbacks), s)
  handle (Cmd.pushback_feedback id status decided_at latency_ms) m s =
      let (r, t) = do_pushback_feedback E.pushbacks id status decided_at latency_ms s.pushbacks in
      (r, record s { pushbacks = t })
  handle (Cmd.pushbacks_since ts) m s = (ok (do_pushbacks_since E.pushbacks ts s.pushbacks), s)
  handle (Cmd.insert_api_call model purpose tokens_in tokens_out cost_usd succeeded error) m s =
      let (r, t) =
        do_insert_api_call E.api_calls
          (record {
            id = m.id;
            ts = m.now;
            model = model;
            purpose = purpose;
            tokens_in = tokens_in;
            tokens_out = tokens_out;
            cost_usd = cost_usd;
            succeeded = succeeded;
            error = error;
          })
          s.api_calls in
      (r, record s { api_calls = t })
  handle (Cmd.insert_disclosure api_call_id model purpose memory_ids observation_ids) m s =
      let (r, t) =
        do_insert_disclosure E.disclosures
          (record {
            id = m.id;
            ts = m.now;
            api_call_id = api_call_id;
            model = model;
            purpose = purpose;
            memory_ids = memory_ids;
            observation_ids = observation_ids;
          })
          s.disclosures in
      (r, record s { disclosures = t })
  handle (Cmd.recent_disclosures limit) m s =
      (ok (do_recent_disclosures E.disclosures limit s.disclosures), s)
  handle (Cmd.closed_sessions_without_summary limit) m s =
      (ok (do_closed_sessions_without_summary E.sessions limit s.sessions), s)
  handle (Cmd.set_session_summary id summary) m s =
      let (r, t) = do_set_session_summary E.sessions id summary s.sessions in
      (r, record s { sessions = t })
  handle (Cmd.observations_between project_id from_ms to_ms limit) m s =
      (ok (do_observations_between E.observations project_id from_ms to_ms limit s.observations), s)
  handle (Cmd.delete_observations_older_than cutoff_ms protected_ids max_rows) m s =
      let (r, (t, v)) =
        do_delete_observations_older_than E.observations E.vec_observations cutoff_ms protected_ids
          max_rows (s.observations, s.vec_observations) in
      (r, record s { observations = t; vec_observations = v })
  handle (Cmd.delete_api_calls_older_than cutoff_ms max_rows) m s =
      let (r, t) = do_delete_api_calls_older_than E.api_calls cutoff_ms max_rows s.api_calls in
      (ok r, record s { api_calls = t })
  handle (Cmd.insert_approval new_approval) m s =
      let (r, t) = do_insert_approval E.approvals m.id m.now new_approval s.approvals in
      (r, record s { approvals = t })
  handle Cmd.pending_approvals m s = (ok (do_pending_approvals E.approvals s.approvals), s)
  handle (Cmd.get_approval id) m s = (ok (do_get_approval E.approvals id s.approvals), s)
  handle (Cmd.decide_approval id status decided_at decided_via note) m s =
      let (r, t) =
        do_decide_approval E.approvals id status decided_at decided_via note s.approvals in
      (r, record s { approvals = t })
  handle (Cmd.set_approval_execution id execution) m s = (
    ok tt,
    record s { approvals = do_set_approval_execution E.approvals id execution s.approvals },
  )
  handle (Cmd.expire_approvals now_ms) m s =
      let (r, t) = do_expire_approvals E.approvals now_ms s.approvals in
      (ok r, record s { approvals = t })
  handle (Cmd.insert_agent_run new_run) m s =
      let (r, t) = do_insert_agent_run E.runs m.id new_run s.runs in (r, record s { runs = t })
  handle (Cmd.update_agent_run_status id status ended result_summary diffstat) m s = (
    ok tt,
    record s {
      runs = do_update_agent_run_status E.runs id status ended result_summary diffstat s.runs;
    },
  )
  handle (Cmd.recent_agent_runs n) m s = (ok (do_recent_agent_runs E.runs n s.runs), s)
  handle (Cmd.get_agent_run id) m s = (ok (do_get_agent_run E.runs id s.runs), s)
  handle (Cmd.insert_blob bytes created) m s =
      let (r, t) = do_insert_blob E.sha256_hex E.blobs m.id bytes created s.blobs in
      (r, record s { blobs = t })
  handle (Cmd.get_blob id) m s = (ok (do_get_blob E.sha256_hex E.blobs id s.blobs), s)
  handle (Cmd.get_project_by_id id) m s = (ok (do_get_project_by_id E.projects id s.projects), s)
  handle (Cmd.insert_pin id new_pin) m s =
      let (r, t) = do_insert_pin E.pins (or_else id m.id) m.now new_pin s.pins in
      (r, record s { pins = t })
  handle Cmd.list_pins m s = (ok (do_list_pins E.pins s.pins), s)
  handle (Cmd.get_pin id) m s = (ok (do_get_pin E.pins id s.pins), s)
  handle (Cmd.expire_pins now_ms) m s =
      let (r, t) = do_expire_pins E.pins now_ms s.pins in (ok r, record s { pins = t })
  handle (Cmd.delete_pin id) m s = (ok tt, record s { pins = do_delete_pin E.pins id s.pins })
  handle Cmd.get_retention_status m s = (ok (do_get_retention_status s.retention), s)
  handle (Cmd.set_retention_status status) m s =
      (ok tt, record s { retention = do_set_retention_status status s.retention })
  handle (Cmd.insert_voice_utterance new_utterance) m s =
      let (r, t) = do_insert_voice_utterance E.utterances m.id m.now new_utterance s.utterances in
      (r, record s { utterances = t })
  handle (Cmd.recent_voice_utterances limit) m s =
      (ok (do_recent_voice_utterances E.utterances limit s.utterances), s)
  handle (Cmd.upsert_terminal terminal) m s =
      let (r, t) = do_upsert_terminal E.terminals m.id m.now terminal s.terminals in
      (r, record s { terminals = t })
  handle Cmd.list_terminals m s = (ok (do_list_terminals E.terminals s.terminals), s)
  handle (Cmd.get_terminal id) m s = (ok (do_get_terminal E.terminals id s.terminals), s)
  handle (Cmd.insert_dotfile_edit edit) m s =
      let (r, t) = do_insert_dotfile_edit E.dotfile_edits m.id m.now edit s.dotfile_edits in
      (r, record s { dotfile_edits = t })
  handle (Cmd.recent_dotfile_edits limit) m s =
      (ok (do_recent_dotfile_edits E.dotfile_edits limit s.dotfile_edits), s)
  handle (Cmd.get_dotfile_edit id) m s =
      (ok (do_get_dotfile_edit E.dotfile_edits id s.dotfile_edits), s)
  handle (Cmd.mark_dotfile_edit_reverted id reverted_by) m s =
      let (r, t) = do_mark_dotfile_edit_reverted E.dotfile_edits id reverted_by s.dotfile_edits in
      (r, record s { dotfile_edits = t })
