-- ===== src/Daemon/Server/Arms.antt =====
-- crates/rat-daemon/src/server.rs: the arms of `dispatch` but those of the dotfiles, one function each.
use rato.Prelude.{
  ℕ, ◌-◌, String, Bool, false, Option, none, some, ◌++◌, ◌==◌, ◌||◌, map, take, min, codes, trim,
  is_empty, if◌then◌else◌,
}
use rato.Prelude.Paths.{Text}
use rato.Prelude.Result.{Result, ok, err, pure, gets, ◌>>=◌, ◌>>◌}
use rato.Store.Pushbacks.{Pushback}
use rato.Store.Events.{Event}
use rato.Store.Actor.Client as Store
use rato.Daemon.Mode.{state, note_activity}
use rato.Daemon.Sensors.{snapshot}
use rato.Daemon.Server.{
  Env, Value, Arm, Services, Media, screen, audio, clipboard, VoiceBackendStatusDto, or_refuse,
  refuse, stored, decoded, params_of, params_or, found,
}
use rato.Daemon.Server.Wire.{
  RpcError, invalid_request, internal, proto_version, default_recent, default_obs_recent,
}
use rato.Daemon.Server.Dto.{pushback_to_dto, memory_to_dto, disclosure_to_dto}

abbrev pub or_number : Option ℕ → ℕ → ℕ
or_number none n = n
or_number (some k) n = k

-- The match on `params.verdict`.
unfoldable pub status_of_verdict : String → Option String
status_of_verdict v =
    if v == "useful"
    then some "accepted"
    else if v == "dismiss"
    then some "dismissed"
    else if v == "snooze"
    then some "snoozed"
    else none

unfoldable pub is_role : String → Bool
is_role r = r == "operator" || (r == "workbench" || (r == "foreign" || r == "ignored"))

unfoldable pub media_from_str : String → Result Text Media
media_from_str s =
    if s == "screen"
    then ok screen
    else if s == "audio"
    then ok audio
    else if s == "clipboard"
    then ok clipboard
    else err (codes "media must be screen|audio|clipboard, got " ++ codes s)

-- An image of blanks is none.
abbrev pub docker_image : Option Text → Option Text
docker_image none = none
docker_image (some image) = if is_empty (trim image) then none else some (trim image)

unfoldable pub unavailable_backend : String → String → VoiceBackendStatusDto
unavailable_backend name reason = record {
  name = name;
  state = "unavailable";
  reason = some reason;
}

module _ (E : Env) where
  open E use {codec}

  unfoldable pub status : Arm E (Value E)
  unfolding snapshot
  status = do
    event_count ← stored E (Store.count E.store)
    gets λ c. codec.of_status (record {
      version = E.version;
      proto_version = proto_version;
      uptime_ms = c.uptime_ms;
      event_count = event_count;
      db_path = E.db_path;
      sensors = snapshot c.sensors;
    })

  -- What `ingest` answered; an event that it took counts as activity.
  abbrev pub after_ingest : Option (Event (Value E)) → Arm E (Value E)
  after_ingest none c = (ok codec.null, c)
  after_ingest (some ev) c =
      (ok (codec.of_event ev), record c { mode = note_activity ev.ts c.mode })

  unfoldable pub events_append : Services E → Value E → Arm E (Value E)
  unfolding note_activity
  events_append S params = do
    ev ← decoded E (codes "bad event: ") (codec.event params)
    if ev.kind == "" || ev.source == ""
        then refuse E invalid_request (codes "kind and source are required")
        else (or_refuse E internal (S.ingest ev) >>= after_ingest)

  unfoldable pub events_recent : Value E → Arm E (Value E)
  events_recent params = do
    p ← params_or E default_recent codec.recent params
    rows ← stored E (Store.recent E.store (min p.limit 1000))
    pure (codec.of_events rows)

  unfoldable pub observations_recent : Value E → Arm E (Value E)
  observations_recent params = do
    p ← params_or E default_obs_recent codec.obs_recent params
    rows ← stored E (Store.recent_observations E.store (min p.limit 1000) p.kind)
    pure (codec.of_observations rows)

  unfoldable pub projects_list : Arm E (Value E)
  projects_list = do rows ← stored E (Store.list_projects E.store); pure (codec.of_projects rows)

  unfoldable pub sessions_recent : Value E → Arm E (Value E)
  sessions_recent params = do
    p ← params_or E default_recent codec.recent params
    rows ← stored E (Store.recent_sessions E.store (min p.limit 1000))
    pure (codec.of_sessions rows)

  unfoldable pub mode_get : Arm E (Value E)
  unfolding state
  mode_get = gets λ c. codec.of_mode (state c.mode)

  unfoldable pub memory_search : Services E → Value E → Arm E (Value E)
  memory_search S params = do
    p ← params_of E codec.memory_search params
    hits ← or_refuse E internal (S.search p.query p.project_id (or_number p.n 8))
    pure (codec.of_hits hits)

  unfoldable pub memory_list : Value E → Arm E (Value E)
  unfolding memory_to_dto
  memory_list params = do
    p ←
        params_or E
          (record { kind = none; project_id = none; include_archived = false; limit = none })
          codec.memory_list params
    rows ← stored E (
        Store.list_memories E.store (record {
          kind = p.kind;
          project_id = p.project_id;
          include_archived = p.include_archived;
        }))
    pure (codec.of_memories (map memory_to_dto (take (min (or_number p.limit 50) 1000) rows)))

  unfoldable pub disclosures_recent : Value E → Arm E (Value E)
  unfolding disclosure_to_dto
  disclosures_recent params = do
    p ← params_or E default_recent codec.recent params
    rows ← stored E (Store.recent_disclosures E.store (min p.limit 1000))
    pure (codec.of_disclosures (map disclosure_to_dto rows))

  unfoldable pub pushbacks_recent : Value E → Arm E (Value E)
  unfolding pushback_to_dto
  pushbacks_recent params = do
    p ← params_or E (record { n = none }) codec.count params
    rows ← stored E (Store.recent_pushbacks E.store (or_number p.n 10))
    pure (codec.of_pushbacks (map pushback_to_dto rows))

  -- The row after the decision, or any failure to fetch it.
  abbrev pub refetched :
      Result RpcError (Option (Pushback (Value E) E.store.Float)) → Result RpcError (Value E)
  refetched (ok (some pb)) = ok (codec.of_pushback (pushback_to_dto pb))
  refetched _ = err (record { code = internal; message = codes "failed to re-fetch" })

  unfoldable pub pushbacks_feedback : ℕ → Value E → Arm E (Value E)
  unfolding pushback_to_dto status_of_verdict
  pushbacks_feedback now params = do
    p ← params_of E codec.feedback params
    status ← found E (status_of_verdict p.verdict) (codes "verdict must be useful|dismiss|snooze")
    row ← stored E (Store.get_pushback E.store p.id)
    pb ← found E row (codes "pushback not found")
    stored E (Store.pushback_feedback E.store p.id status now (now - pb.ts))
    λ c. let (r, c') = stored E (Store.get_pushback E.store p.id) c in (refetched r, c')

  unfoldable pub llm_status : Arm E (Value E)
  llm_status = gets λ c. codec.of_llm_status c.llm
