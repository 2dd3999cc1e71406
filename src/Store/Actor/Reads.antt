-- ===== src/Store/Actor/Reads.antt =====
-- The commands that only read.
use rato.Prelude.{◌≡◌, refl, Bool, true, false}
use rato.Store.Actor.{Env, Moment, Db, Cmd}
use rato.Store.Actor.Serve.{handle}

module _ (E : Env) where
  -- All but the statements INSERT, UPDATE and DELETE.
  unfoldable pub is_read : Cmd E → Bool
  is_read (Cmd.recent _) = true
  is_read Cmd.count = true
  is_read Cmd.list_projects = true
  is_read (Cmd.recent_observations _ _) = true
  is_read (Cmd.recent_sessions _) = true
  is_read Cmd.open_sessions = true
  is_read (Cmd.list_memories _) = true
  is_read (Cmd.fts_observations _ _) = true
  is_read (Cmd.fts_memories _ _) = true
  is_read (Cmd.unembedded_observations _ _) = true
  is_read (Cmd.all_observation_embeddings _) = true
  is_read (Cmd.all_memory_embeddings _) = true
  is_read (Cmd.observations_by_ids _) = true
  is_read (Cmd.recent_pushbacks _) = true
  is_read (Cmd.get_pushback _) = true
  is_read (Cmd.pushbacks_since _) = true
  is_read (Cmd.recent_disclosures _) = true
  is_read (Cmd.closed_sessions_without_summary _) = true
  is_read (Cmd.observations_between _ _ _ _) = true
  is_read Cmd.pending_approvals = true
  is_read (Cmd.get_approval _) = true
  is_read (Cmd.recent_agent_runs _) = true
  is_read (Cmd.get_agent_run _) = true
  is_read (Cmd.get_blob _) = true
  is_read (Cmd.get_project_by_id _) = true
  is_read Cmd.list_pins = true
  is_read (Cmd.get_pin _) = true
  is_read Cmd.get_retention_status = true
  is_read (Cmd.recent_voice_utterances _) = true
  is_read Cmd.list_terminals = true
  is_read (Cmd.get_terminal _) = true
  is_read (Cmd.recent_dotfile_edits _) = true
  is_read (Cmd.get_dotfile_edit _) = true
  is_read _ = false

  -- A command that only reads leaves the database as it is.
  pub handle-is_read :
      (c : Cmd E) (m : Moment) (s : Db E) → is_read c ≡ true → (handle E c m s).1 ≡ s
  unfolding handle is_read
  handle-is_read (Cmd.recent limit) m s h = refl
  handle-is_read Cmd.count m s h = refl
  handle-is_read Cmd.list_projects m s h = refl
  handle-is_read (Cmd.recent_observations limit kind) m s h = refl
  handle-is_read (Cmd.recent_sessions limit) m s h = refl
  handle-is_read Cmd.open_sessions m s h = refl
  handle-is_read (Cmd.list_memories filter) m s h = refl
  handle-is_read (Cmd.fts_observations query limit) m s h = refl
  handle-is_read (Cmd.fts_memories query limit) m s h = refl
  handle-is_read (Cmd.unembedded_observations kinds limit) m s h = refl
  handle-is_read (Cmd.all_observation_embeddings limit) m s h = refl
  handle-is_read (Cmd.all_memory_embeddings limit) m s h = refl
  handle-is_read (Cmd.observations_by_ids ids) m s h = refl
  handle-is_read (Cmd.recent_pushbacks limit) m s h = refl
  handle-is_read (Cmd.get_pushback id) m s h = refl
  handle-is_read (Cmd.pushbacks_since ts) m s h = refl
  handle-is_read (Cmd.recent_disclosures limit) m s h = refl
  handle-is_read (Cmd.closed_sessions_without_summary limit) m s h = refl
  handle-is_read (Cmd.observations_between project_id from_ms to_ms limit) m s h = refl
  handle-is_read Cmd.pending_approvals m s h = refl
  handle-is_read (Cmd.get_approval id) m s h = refl
  handle-is_read (Cmd.recent_agent_runs n) m s h = refl
  handle-is_read (Cmd.get_agent_run id) m s h = refl
  handle-is_read (Cmd.get_blob id) m s h = refl
  handle-is_read (Cmd.get_project_by_id id) m s h = refl
  handle-is_read Cmd.list_pins m s h = refl
  handle-is_read (Cmd.get_pin id) m s h = refl
  handle-is_read Cmd.get_retention_status m s h = refl
  handle-is_read (Cmd.recent_voice_utterances limit) m s h = refl
  handle-is_read Cmd.list_terminals m s h = refl
  handle-is_read (Cmd.get_terminal id) m s h = refl
  handle-is_read (Cmd.recent_dotfile_edits limit) m s h = refl
  handle-is_read (Cmd.get_dotfile_edit id) m s h = refl
  handle-is_read _ m s h = absurd (cc h)
