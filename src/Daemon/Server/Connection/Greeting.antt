-- ===== src/Daemon/Server/Connection/Greeting.antt =====
-- What a connection gets before its greeting, and that each line is answered.
use rato.Prelude.{
  false, ℕ, ◌≡◌, refl, Bool, none, some, List, [], ◌∷◌, ◌==◌, not, eqb, trim, is_empty,
  if◌then◌else◌, All, Bool-cases, inl, inr,
}
use rato.Prelude.Paths.{Text}
use rato.Prelude.Result.{Result, ok, err}
use rato.Daemon.Server.{Env, Value, Ctx, Services}
use rato.Daemon.Server.Wire.{Request, Response, RpcError, proto_version, HelloParams}
use rato.Daemon.Server.Connection.{
  response_err, hello, dispatch_request, dispatch_parsed, dispatch, handle_lines, handle_conn,
}

module _ (E : Env) (S : Services E) where
  is_version : Result Text HelloParams → Bool
  is_version (ok p) = eqb p.version proto_version
  is_version (err e) = false

  is_greeting_of : Result Text (Request (Value E)) → Bool
  is_greeting_of (err e) = false
  is_greeting_of (ok req) =
      if req.method == "hello" then is_version (E.codec.hello req.params) else false

  -- A line that says hello in the daemon's version of the protocol.
  unfoldable pub is_greeting : Text → Bool
  unfolding is_greeting_of is_version
  is_greeting line = is_greeting_of (E.codec.request line)

  id_of : Result Text (Request (Value E)) → ℕ
  id_of (err e) = 0
  id_of (ok req) = req.id

  abbrev pub is_line : ℕ × Text → Bool
  is_line l = not (is_empty (trim l.1))

  -- The id that a line is answered under: its own, or 0 if it is no request.
  unfoldable pub id_of_line : ℕ × Text → ℕ
  unfolding id_of
  id_of_line l = id_of (E.codec.request l.1)

  -- A refusal: a response with an error and no result.
  abbrev pub IsRefusal : Response (Value E) → Type 0
  IsRefusal r = (r.result ≡ none) × ((e : RpcError) × (r.error ≡ some e))

  -- What a line gets that does not greet: a refusal, and nothing else happens.
  abbrev IsRejected : Ctx E → Response (Value E) × Bool × Ctx E → Type 0
  IsRejected c (r, hello_done, c') = IsRefusal r × (hello_done ≡ false) × (c' ≡ c)

  hello-rejected :
      (id : ℕ) (p : Result Text HelloParams)
      → is_version p ≡ false
      → IsRefusal (hello E S id p).0 × ((hello E S id p).1 ≡ false)
  unfolding hello is_version response_err
  hello-rejected id (err e) h = ((refl, (_, refl)), refl)
  hello-rejected id (ok p) h = rw h ((refl, (_, refl)), refl)

  request-IsRejected :
      (now : ℕ) (req : Request (Value E)) (c : Ctx E)
      → is_greeting_of (ok req) ≡ false
      → IsRejected c (dispatch_request E S now req false c)
  unfolding dispatch_request is_greeting_of response_err
  request-IsRejected now req c h = elim (Bool-cases (req.method == "hello")) [
    | inl e ↦
        (let v : is_version (E.codec.hello req.params) ≡ false = (rw e at h) in
          let (refused, still) = hello-rejected req.id (E.codec.hello req.params) v in
          rw (e, still) (refused, refl, refl))
    | inr e ↦ rw e ((refl, (_, refl)), refl, refl)
  ]

  parsed-IsRejected :
      (now : ℕ) (p : Result Text (Request (Value E))) (c : Ctx E)
      → is_greeting_of p ≡ false
      → IsRejected c (dispatch_parsed E S now p false c)
  unfolding dispatch_parsed response_err
  parsed-IsRejected now (err e) c h = ((refl, (_, refl)), refl, refl)
  parsed-IsRejected now (ok req) c h = request-IsRejected now req c h

  dispatch-IsRejected :
      (now : ℕ) (line : Text) (c : Ctx E)
      → is_greeting line ≡ false
      → IsRejected c (dispatch E S now line false c)
  unfolding dispatch is_greeting
  dispatch-IsRejected now line c h = parsed-IsRejected now (E.codec.request line) c h

  -- As long as no line of a connection greets, every answer is a refusal, and the context stays as it is.
  pub handle_conn-ungreeted :
      (lines : List (ℕ × Text)) (c : Ctx E)
      → All (λ l. is_greeting l.1 ≡ false) lines
      → All IsRefusal (handle_conn E S lines c).0 × ((handle_conn E S lines c).1 ≡ c)
  unfolding handle_conn handle_lines
  handle_conn-ungreeted [] c h = (tt, refl)
  handle_conn-ungreeted ((now, line) ∷ lines) c h =
      let (first, still, same) = dispatch-IsRejected now line c h.0 in
      let (rest, kept) = handle_conn-ungreeted lines c h.1 in
      elim (Bool-cases (is_empty (trim line))) [
        | inl blank ↦ rw blank (rest, kept)
        | inr full ↦ rw (full, still, same) ((first, rest), kept)
      ]

  -- No service panics.
  abbrev pub Calm : Type 0
  Calm = (now : ℕ) (line : Text) (c : Ctx E) → S.panics now line c ≡ false
