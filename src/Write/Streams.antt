-- ===== src/Write/Streams.antt =====
-- What writeResponse does for a body of StreamBody.
use go_httpserver.Base.{◌≡◌, refl, arith, ap, Option, none, some, List, [], ◌∷◌, ◌++◌, ⊤}
use go_httpserver.Base.Int.{ℤ, pos, ◌≤ℤ◌}
use go_httpserver.Effect.{Error, abort_handler, nil_dereference, Outcome, returned, panicked}
use go_httpserver.State.{Stream, Call, header_sent, direct, stream, State, Platform}
use go_httpserver.StreamWriter
use go_httpserver.StreamWriter.Stable.{run-Keeps}
use go_httpserver.StreamWriter.Effects.{IsStable-IsConfined}
use go_httpserver.Context.{on_context, bump, writer_header, new_response}
use go_httpserver.Api.Handles.{HasWriter}
use go_httpserver.Write.Answers.{write_header_lem}
use go_httpserver.Write.{
  write_header, take_stream_writer, release, write_stream, write_body, write_response,
}

-- The calls are `base`, with others after them.
abbrev pub Extends : List Call → List Call → Type 0
Extends base cs = (later : List Call) × (cs ≡ later ++ base)

Extends-cons :
    (base : List Call) (a : Call) (cs : List Call) → Extends base cs → Extends base (a ∷ cs)
Extends-cons base a cs (later, e) = (a ∷ later, ap (λ x. a ∷ x) e)

-- What becomes of the body's error or panic.
abbrev pub aborted : Outcome (Option Error) → Outcome ⊤
aborted (returned none) = returned tt
aborted (returned (some _)) = panicked abort_handler
aborted (panicked e) = panicked e

module _ (p : Platform) where
  pub run-Extends :
      (b : Stream) (s : State)
      → ((StreamWriter.run p b s).1.context ≡ s.context)
        × Extends s.calls (StreamWriter.run p b s).1.calls
  run-Extends b s =
      run-Keeps (IsStable-IsConfined p (Extends s.calls) (Extends-cons s.calls) s.context) b s
        (refl, ([], refl))

  -- The state in which the body of a StreamBody starts.
  abbrev pub streaming : State → State
  streaming s =
      on_context release
        (take_stream_writer (write_header p s.context.status (on_context bump s)).1)

  streaming_lem :
      (s : State)
      → HasWriter s
      → p.write_header s.calls s.context.status ≡ none
      → ((streaming s).calls ≡ header_sent s.context.status s.header ∷ s.calls)
        × ((streaming s).context ≡ release (bump s.context))
  streaming_lem s w willing =
      ground (arith, write_header_lem p s.context.status (on_context bump s) w willing)

  write_stream_lem :
      (s : State) (b : Stream)
      → HasWriter s
      → s.context.marshaller ≡ direct
      → s.context.body ≡ stream b
      → p.write_header s.calls s.context.status ≡ none
      → let ran = StreamWriter.run p b (streaming s) in write_response p s ≡ (aborted ran.0, ran.1)
  unfolding write_response write_body write_stream
  write_stream_lem s b w m e willing =
      ground (arith, write_header_lem p s.context.status (on_context bump s) w willing)

  -- A streamed response sends its header first and then what the body does, which runs with a Context
  -- that has no request and no writer, and cannot get at it. An error of the body aborts the connection.
  pub write_response-streams :
      (s : State) (b : Stream)
      → HasWriter s
      → s.context.marshaller ≡ direct
      → s.context.body ≡ stream b
      → p.write_header s.calls s.context.status ≡ none
      → let (r, s') = write_response p s in
        Extends (header_sent s.context.status s.header ∷ s.calls) s'.calls
        × (s'.context ≡ release (bump s.context))
        × (r ≡ aborted (StreamWriter.run p b (streaming s)).0)
        × (s' ≡ (StreamWriter.run p b (streaming s)).1)
        × (write_response p s' ≡ (returned tt, s'))
        × ((code : ℤ)
            → pos 200 ≤ℤ code
            → code ≤ℤ pos 599
            → (new_response code s').0 ≡ panicked nil_dereference)
  unfolding write_response new_response writer_header
  write_response-streams s b w m e willing =
      let written = write_stream_lem s b w m e willing in
      let (kept, grown) = run-Extends b (streaming s) in
      (
        (grown.0, ground (arith, written, grown.1, streaming_lem s w willing)),
        ground (arith, written, kept, streaming_lem s w willing),
        ground (arith, written),
        ground (arith, written),
        ground (arith, written, kept, streaming_lem s w willing),
        λ code lo hi. ground (arith, written, kept, streaming_lem s w willing),
      )
