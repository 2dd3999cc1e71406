-- ===== src/Daemon/Server/Connection.antt =====
-- crates/rat-daemon/src/server.rs: `dispatch` and `handle_conn`, with `Response` of
-- crates/rat-proto/src/lib.rs. A connection is the list of its lines, each with the time at which it is
-- read; a failure of the socket, which ends it, is not modelled.
pub mod Greeting
use rato.Prelude.{
  ◌&&◌, ℕ, String, Bool, true, false, Option, none, some, List, [], ◌∷◌, ◌++◌, ◌==◌, not, codes,
  eqb, trim, is_empty, if◌then◌else◌,
}
use rato.Prelude.Paths.{Text}
use rato.Prelude.Result.{Result, ok, err}
use rato.Daemon.Server.{Env, Value, Ctx, Arm, Services, refuse}
use rato.Daemon.Server.Wire.{
  ErrCode, invalid_request, method_not_found, hello_required, proto_mismatch, Request, Response,
  RpcError, HelloParams, proto_version,
}
use rato.Daemon.Server.Arms
use rato.Daemon.Server.Workbench
use rato.Daemon.Server.Listings
use rato.Daemon.Server.Edits

-- `Response::ok` and `Response::err`
unfoldable pub response_ok : {V : Type 0} → ℕ → V → Response V
response_ok id result = record { id = id; result = some result; error = none }

unfoldable pub response_err : {V : Type 0} → ℕ → RpcError → Response V
response_err id e = record { id = id; result = none; error = some e }

module _ (E : Env) (S : Services E) where
  -- The arms behind the greeting.
  unfoldable pub arm : String → ℕ → Value E → Arm E (Value E)
  arm method now params =
      if method == "status"
      then Arms.status E
      else if method == "events.append"
      then Arms.events_append E S params
      else if method == "events.recent"
      then Arms.events_recent E params
      else if method == "observations.recent"
      then Arms.observations_recent E params
      else if method == "projects.list"
      then Arms.projects_list E
      else if method == "sessions.recent"
      then Arms.sessions_recent E params
      else if method == "mode.get"
      then Arms.mode_get E
      else if method == "memory.search"
      then Arms.memory_search E S params
      else if method == "memory.list"
      then Arms.memory_list E params
      else if method == "disclosures.recent"
      then Arms.disclosures_recent E params
      else if method == "pushbacks.recent"
      then Arms.pushbacks_recent E params
      else if method == "pushbacks.feedback"
      then Arms.pushbacks_feedback E now params
      else if method == "llm.status"
      then Arms.llm_status E
      else if method == "workbench.start"
      then Workbench.workbench_start E S params
      else if method == "workbench.runs"
      then Workbench.workbench_runs E S params
      else if method == "workbench.tail"
      then Workbench.workbench_tail E S params
      else if method == "approvals.pending"
      then Workbench.approvals_pending E
      else if method == "approvals.decide"
      then Workbench.approvals_decide E S now params
      else if method == "workbench.merge_back"
      then Workbench.workbench_merge_back E S params
      else if method == "pins.list"
      then Listings.pins_list E S
      else if method == "pins.pin_recent"
      then Listings.pins_pin_recent E S params
      else if method == "pins.unpin"
      then Listings.pins_unpin E S params
      else if method == "ring.status"
      then Listings.ring_status E S
      else if method == "retention.status"
      then Listings.retention_status E
      else if method == "voice.status"
      then Listings.voice_status E
      else if method == "voice.utterances"
      then Listings.voice_utterances E params
      else if method == "terminals.list"
      then Listings.terminals_list E
      else if method == "terminals.set_role"
      then Listings.terminals_set_role E params
      else if method == "dotfile_edits.list"
      then Edits.dotfile_edits_list E params
      else if method == "dotfile_edits.apply"
      then Edits.dotfile_edits_apply E now params
      else if method == "dotfile_edits.revert"
      then Edits.dotfile_edits_revert E now params
      else refuse E method_not_found (codes "unknown method: " ++ codes method)

  unfoldable pub respond : ℕ → Result RpcError (Value E) → Response (Value E)
  unfolding response_ok response_err
  respond id (ok v) = response_ok id v
  respond id (err e) = response_err id e

  -- The arm of the greeting; the flag is whether it succeeded.
  unfoldable pub hello : ℕ → Result Text HelloParams → Response (Value E) × Bool
  unfolding response_ok response_err
  hello id (err e) = (
    response_err id (record { code = invalid_request; message = codes "bad hello params: " ++ e }),
    false,
  )
  hello id (ok p) =
      if eqb p.version proto_version
      then (response_ok id (E.codec.of_hello proto_version E.version), true)
      else (
        response_err id (record {
          code = proto_mismatch;
          message =
              codes "daemon speaks proto v"
              ++ (E.decimal proto_version ++ (codes ", client sent v" ++ E.decimal p.version));
        }),
        false,
      )

  -- A flag that is set stays set.
  unfoldable pub dispatch_request :
      ℕ → Request (Value E) → Bool → Ctx E → Response (Value E) × Bool × Ctx E
  unfolding arm hello respond response_err
  dispatch_request now req hello_done c =
      if req.method == "hello"
      then (let (r, greeted) = hello req.id (E.codec.hello req.params) in
          (r, (if greeted then true else hello_done), c))
      else if not hello_done
      then (
        response_err req.id (record { code = hello_required; message = codes "hello required" }),
        hello_done,
        c,
      )
      else (let (r, c') = arm req.method now req.params c in (respond req.id r, hello_done, c'))

  unfoldable pub dispatch_parsed :
      ℕ → Result Text (Request (Value E)) → Bool → Ctx E → Response (Value E) × Bool × Ctx E
  unfolding dispatch_request response_err
  dispatch_parsed now (err e) hello_done c = (
    response_err 0 (record { code = invalid_request; message = codes "invalid request: " ++ e }),
    hello_done,
    c,
  )
  dispatch_parsed now (ok req) hello_done c = dispatch_request now req hello_done c

  unfoldable pub dispatch : ℕ → Text → Bool → Ctx E → Response (Value E) × Bool × Ctx E
  unfolding dispatch_parsed
  dispatch now line hello_done c = dispatch_parsed now (E.codec.request line) hello_done c

  -- The responses that a connection writes, and the context that it leaves. A panic of a service ends the
  -- task, and no line from there on is answered.
  unfoldable pub handle_lines : List (ℕ × Text) → Bool → Ctx E → List (Response (Value E)) × Ctx E
  unfolding dispatch
  handle_lines [] hello_done c = ([], c)
  handle_lines ((now, line) ∷ lines) hello_done c =
      let (r, hello_done', c') = dispatch now line hello_done c in
      let (rs, c'') = handle_lines lines hello_done' c' in
      let skipped = handle_lines lines hello_done c in
      if is_empty (trim line)
      then skipped
      else if hello_done && S.panics now line c
      then ([], S.after_panic now line c)
      else (r ∷ rs, c'')

  unfoldable pub handle_conn : List (ℕ × Text) → Ctx E → List (Response (Value E)) × Ctx E
  unfolding handle_lines
  handle_conn lines c = handle_lines lines false c
