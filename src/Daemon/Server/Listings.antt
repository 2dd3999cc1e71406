-- ===== src/Daemon/Server/Listings.antt =====
-- crates/rat-daemon/src/server.rs: the arms of the pins, of retention, of the voice and of the terminals.
use rato.Prelude.{false, Option, none, some, [], ◌∷◌, ◌++◌, map, min, codes, if◌then◌else◌}
use rato.Prelude.Result.{pure, lift, ◌>>=◌, ◌>>◌}
use rato.Store.Pins.{RetentionStatus}
use rato.Store.Actor.Client as Store
use rato.Daemon.Server.{
  Env, Value, Arm, Services, PinService, VoiceStatusDto, or_refuse, refuse, stored, params_of,
  params_or, found,
}
use rato.Daemon.Server.Arms.{media_from_str, is_role, unavailable_backend}
use rato.Daemon.Server.Wire.{invalid_request, internal, default_recent, default_pin_recent}
use rato.Daemon.Server.Dto.{voice_utterance_to_dto, terminal_to_dto, pin_to_dto, retention_to_dto}

abbrev pub voice_status_dto : VoiceStatusDto
voice_status_dto = record {
  enabled = false;
  prewake_ring_secs = 8;
  backends =
      unavailable_backend "mic" "mic feature not built"
      ∷ unavailable_backend "wake" "wake feature not built"
      ∷ unavailable_backend "vad" "wake feature not built"
      ∷ unavailable_backend "stt" "stt feature not built"
      ∷ unavailable_backend "tts" "tts feature not built"
      ∷ [];
}

module _ (E : Env) where
  open E use {codec}

  -- `let Some(service) = &ctx.pins else { … }`
  abbrev pub pin_service : Services E → Arm E (PinService E)
  pin_service S = elim S.pins [
    | none ↦ refuse E internal (codes "pin service unavailable")
    | some service ↦ pure service
  ]

  unfoldable pub pins_list : Services E → Arm E (Value E)
  unfolding pin_to_dto
  pins_list S = do
    service ← pin_service S
    rows ← or_refuse E internal service.list
    pure (codec.of_pins (map pin_to_dto rows))

  unfoldable pub pins_pin_recent : Services E → Value E → Arm E (Value E)
  unfolding pin_to_dto media_from_str
  pins_pin_recent S params = do
    service ← pin_service S
    p ← params_or E default_pin_recent codec.pin_recent params
    media ← or_refuse E invalid_request (lift (media_from_str p.media))
    pin ← or_refuse E invalid_request (service.pin_recent media p.minutes)
    pure (codec.of_pin (pin_to_dto pin))

  unfoldable pub pins_unpin : Services E → Value E → Arm E (Value E)
  pins_unpin S params = do
    service ← pin_service S
    p ← params_of E (codec.id_under "id") params
    or_refuse E invalid_request (service.unpin p.id)
    pure codec.null

  unfoldable pub ring_status : Services E → Arm E (Value E)
  ring_status S = do
    service ← pin_service S
    rows ← or_refuse E internal service.ring_status
    pure (codec.of_ring_status rows)

  abbrev pub retention_value : Option RetentionStatus → Value E
  retention_value none = codec.null
  retention_value (some status) = codec.of_retention (retention_to_dto status)

  unfoldable pub retention_status : Arm E (Value E)
  unfolding retention_to_dto
  retention_status = do
    row ← stored E (Store.get_retention_status E.store)
    pure (retention_value row)

  unfoldable pub voice_status : Arm E (Value E)
  unfolding unavailable_backend
  voice_status = pure (codec.of_voice_status voice_status_dto)

  unfoldable pub voice_utterances : Value E → Arm E (Value E)
  unfolding voice_utterance_to_dto
  voice_utterances params = do
    p ← params_or E default_recent codec.recent params
    rows ← stored E (Store.recent_voice_utterances E.store (min p.limit 1000))
    pure (codec.of_utterances (map voice_utterance_to_dto rows))

  unfoldable pub terminals_list : Arm E (Value E)
  unfolding terminal_to_dto
  terminals_list = do
    rows ← stored E (Store.list_terminals E.store)
    pure (codec.of_terminals (map terminal_to_dto rows))

  -- The row under its new role; it is found again by its terminal and its hash.
  unfoldable pub terminals_set_role : Value E → Arm E (Value E)
  unfolding terminal_to_dto is_role
  terminals_set_role params = do
    p ← params_of E codec.set_role params
    if is_role p.role
        then pure tt
        else refuse E invalid_request (codes "role must be operator|workbench|foreign|ignored")
    row ← stored E (Store.get_terminal E.store p.id)
    terminal ← found E row (codes "terminal " ++ (codes p.id ++ codes " not found"))
    updated ← stored E (Store.upsert_terminal E.store (record (terminal.seen) { role = p.role }))
    pure (codec.of_terminal (terminal_to_dto updated))
