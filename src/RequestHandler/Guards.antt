-- ===== src/RequestHandler/Guards.antt =====
-- When a typed handler runs, and what happens to the request when it does not.
use go_httpserver.Base.{
  ◌≡◌, inl, inr, refl, arith, Bool, Option, none, some, [], ⊤, is_some, Bool-cases, if◌then◌else◌,
}
use go_httpserver.Base.Int.{ℤ, pos, ◌≤ℤ◌}
use go_httpserver.Effect.{Panic, Error, Outcome, returned, panicked, continue, ◌>>◌}
use go_httpserver.State.{Request, State, M, nil, direct}
use go_httpserver.Context.{delegate, new_response, writer_header}
use go_httpserver.StreamWriter
use go_httpserver.Api.Handles.{HasWriter}
use go_httpserver.Tags.{RequestTags}
use go_httpserver.Bind.{parse}
use go_httpserver.Bind.Library.{BindLibrary, Result, Race}
use go_httpserver.Bind.Statuses.{IsProper, parse-IsProper}
use go_httpserver.RequestHandler.{
  with_struct, respond, trace, handle_parsed, handle_defaulted, request_handler,
}

-- What binding makes of a request: the struct that the handler is given, the status of the error
-- response, or a panic of a library.
pub data Verdict (V : Type 0) : Type 0 where
  accepted : V → Verdict V
  rejected : ℤ → Verdict V
  broken : Panic → Verdict V

module _ {V : Type 0} (lib : BindLibrary V) where
  abbrev validated : V → Verdict V
  validated v = if is_some (lib.validate_struct v) then rejected (pos 400) else accepted v

  abbrev bound : Outcome Result → V → Verdict V
  bound (returned r) v = if is_some r.error then rejected r.status else validated v
  bound (panicked e) v = broken e

  abbrev defaulted : Outcome (Option Error) → V → (V → Outcome Result × V) → Verdict V
  defaulted (returned none) v bind = bound (bind v).0 (bind v).1
  defaulted (returned (some _)) v bind = rejected (pos 500)
  defaulted (panicked e) v bind = broken e

  -- Defaults first, then binding, then validation; the first of them that fails decides.
  abbrev pub verdict : RequestTags → Request → Race V → V → Verdict V
  verdict tags request race zero =
      defaulted (lib.apply_defaults zero).0 (lib.apply_defaults zero).1
        (parse lib tags request race)

-- A response with a status and nothing else, before which nothing was sent.
abbrev pub IsEmptyResponse : ℤ → State → Outcome ⊤ × State → Type 0
IsEmptyResponse code s (r, s') =
    (r ≡ returned tt)
    × (s'.context.status ≡ code)
    × (s'.context.body ≡ nil)
    × (s'.header ≡ [])
    × (s'.calls ≡ s.calls)
    × (s'.context.marshaller ≡ direct)
    × (s'.context.writer ≡ s.context.writer)
    × (s'.stream ≡ s.stream)

respond-IsEmptyResponse :
    (code : ℤ) (s : State)
    → HasWriter s
    → pos 200 ≤ℤ code
    → code ≤ℤ pos 599
    → IsEmptyResponse code s (respond code s)
unfolding new_response writer_header StreamWriter.header
respond-IsEmptyResponse code s w lo hi = ground arith

module _ {V : Type 0} (lib : BindLibrary V) (tags : RequestTags) (zero : V) (race : Race V)
    (traces : Bool) (next : V → M ⊤) (s : State) where
  -- What the theorem below says of each verdict.
  abbrev pub Follows : Outcome ⊤ × State → Verdict V → Type 0
  Follows out (accepted v) = out ≡ (next v >> trace lib tags zero race traces) s
  Follows out (rejected code) = (pos 400 ≤ℤ code) × (code ≤ℤ pos 500) × IsEmptyResponse code s out
  Follows out (broken e) = out ≡ (panicked e, s)

  rejects :
      (code : ℤ)
      → HasWriter s
      → pos 400 ≤ℤ code
      → code ≤ℤ pos 500
      → Follows (respond code s) (rejected code)
  rejects code w lo hi = (lo, hi, respond-IsEmptyResponse code s w (omega arith) (omega arith))

  validated-Follows :
      (v : V)
      → HasWriter s
      → Follows
          ((if is_some (lib.validate_struct v)
              then respond (pos 400)
              else next v >> trace lib tags zero race traces)
            s)
          (validated lib v)
  validated-Follows v w = elim (Bool-cases (is_some (lib.validate_struct v))) [
    | inl invalid ↦ rw invalid (rejects (pos 400) w (omega arith) (omega arith))
    | inr valid ↦ rw valid
  ]

  handle_parsed-Follows :
      (o : Outcome Result) (v : V)
      → HasWriter s
      → IsProper o
      → Follows
          (continue (with_struct o v) (handle_parsed lib tags zero race traces next) s)
          (bound lib o v)
  unfolding handle_parsed
  handle_parsed-Follows (panicked e) v w proper = refl
  handle_parsed-Follows (returned r) v w (inl (fine, _)) = rw fine (validated-Follows v w)
  handle_parsed-Follows (returned r) v w (inr (failed, lo, hi)) =
      rw failed (rejects r.status w lo hi)

  handle_defaulted-Follows :
      (o : Outcome (Option Error)) (v : V) (request : Request)
      → HasWriter s
      → Follows
          (continue (with_struct o v) (handle_defaulted lib tags zero race traces next request) s)
          (defaulted lib o v (parse lib tags request race))
  unfolding handle_defaulted
  handle_defaulted-Follows (panicked e) v request w = refl
  handle_defaulted-Follows (returned (some err)) v request w =
      rejects (pos 500) w (omega arith) (omega arith)
  handle_defaulted-Follows (returned none) v request w =
      let (o, v') = parse lib tags request race v in
      handle_parsed-Follows o v' w (parse-IsProper lib tags request race v)

  pub asks_then_binds :
      (request : Request)
      → s.context.request ≡ some request
      → request_handler lib tags zero race traces next s
        ≡ continue
            (with_struct (lib.apply_defaults zero).0 (lib.apply_defaults zero).1)
            (handle_defaulted lib tags zero race traces next request)
            s
  unfolding request_handler delegate
  asks_then_binds request asked = rw asked

  -- On a Context with its request and a writer that answers: the typed handler runs exactly when
  -- the defaults, the binding and the validation all succeed, in that order, and is given the struct that
  -- they make; otherwise it does not run, and there is an empty response with no headers, unsent, with the
  -- status of the first that failed (500 for the defaults, from 400 to 500 for binding, 400 for
  -- validation), or, where a library panicked, that panic, and nothing was changed.
  pub request_handler-Follows :
      (request : Request)
      → s.context.request ≡ some request
      → HasWriter s
      → Follows
          (request_handler lib tags zero race traces next s)
          (verdict lib tags request race zero)
  request_handler-Follows request asked w =
      let (o, v) = lib.apply_defaults zero in
      rw (asks_then_binds request asked) (handle_defaulted-Follows o v request w)
