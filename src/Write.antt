-- ===== src/Write.antt =====
-- response.go: writeResponse, which commits the response or the takeover that the Context holds.
pub mod Answers
pub mod Streams
pub mod Takeovers
pub mod Accounting
pub mod Settles
use go_httpserver.Base.{ℕ, Option, none, some, List, ⊤, if◌then◌else◌, ◌⊎◌, inl, inr}
use go_httpserver.Base.Int.{ℤ, pos, is_zero_ℤ}
use go_httpserver.Effect.{
  nil_dereference, abort_handler, Error, returned, panicked, pure, panic, gets, modify, ◌>>=◌, ◌>>◌,
}
use go_httpserver.State.{
  Stream, Takeover, Body, nil, bytes, string, stream, takeover, other, Marshaller, direct, json,
  underlying, stream_writer, hijack_asked, exchanged, closed, Context, State, M, Platform,
  record_call, clear_header,
}
use go_httpserver.Context.{on_context, bump, writer_header}
use go_httpserver.StreamWriter
use go_httpserver.StreamWriter.{underlying_write_header, underlying_write}

-- The calls of the methods of `c.writer`, which is nil, the StreamWriter or the underlying writer.
abbrev on_writer : {A : Type 0} → M A → M A → M A
on_writer on_underlying on_stream s = elim s.context.writer [
  | none ↦ (panicked nil_dereference, s)
  | some underlying ↦ on_underlying s
  | some stream_writer ↦ on_stream s
]

-- What a deferred call does, also after a panic.
abbrev deferred : {A : Type 0} → (State → State) → M A → M A
deferred f m s = ((m s).0, f (m s).1)

-- `c.request, c.writer = nil, nil`.
abbrev pub release : Context → Context
release c = record c { request = none; writer = none }

-- The part of every branch that a write error takes: the status is on the wire already.
abbrev abort_on_error : Option Error → M ⊤
abort_on_error none = pure tt
abort_on_error (some err) = panic abort_handler

-- Where `c.writer` is no StreamWriter, one is made round it.
abbrev take_stream_writer : State → State
take_stream_writer s = elim s.context.writer [
  | some underlying ↦ record s { stream = StreamWriter.fresh }
  | _ ↦ s
]

module _ (p : Platform) where
  unfoldable pub write_header : ℤ → M ⊤
  write_header code = on_writer (underlying_write_header p code) (StreamWriter.write_header p code)

  unfoldable pub write : List ℕ → M (ℕ × Option Error)
  write body = on_writer (underlying_write p body) (StreamWriter.write p body)

  -- http.NewResponseController(c.writer).Hijack(), which finds the method of a StreamWriter.
  unfoldable pub controller_hijack : M (Option Error)
  controller_hijack =
      on_writer (λ s. (returned (p.controller_hijack s.calls), record_call hijack_asked s))
        (StreamWriter.hijack p)

  -- A body of Hijack, run on the connection.
  unfoldable pub run_takeover : Takeover → M (Option Error)
  run_takeover (Takeover.done err) s = (returned err, s)
  run_takeover (Takeover.panic e) s = (panicked e, s)
  run_takeover (Takeover.exchange out k) s =
      run_takeover (k (p.connection s.calls out)) (record_call (exchanged out) s)

  -- The answer to what cannot be written: an empty 500 response.
  unfoldable pub write_failure : M ⊤
  write_failure = do writer_header; modify clear_header; write_header (pos 500)

  unfoldable pub write_data : List ℕ → M ⊤
  write_data data_ = do
    status ← gets (λ s. s.context.status)
    write_header status
    answer ← write data_
    abort_on_error answer.1

  unfoldable pub write_marshalled : List ℕ ⊎ Error → M ⊤
  write_marshalled (inr err) = write_failure
  write_marshalled (inl data_) = do
    writer_header
    modify (λ s. record s {
      header = p.header_set "Content-Type" "application/json; charset=utf-8" s.header;
    })
    write_data data_

  unfoldable pub write_json : Body → M ⊤
  write_json body = do data_ ← (λ s. (p.json_marshal body, s)); write_marshalled data_

  unfoldable pub write_nothing : M ⊤
  write_nothing s =
      if is_zero_ℤ s.context.status then write_failure s else write_header s.context.status s

  unfoldable pub write_stream : Stream → M ⊤
  write_stream body = do
    status ← gets (λ s. s.context.status)
    write_header status
    modify take_stream_writer
    modify (on_context release)
    err ← StreamWriter.run p body
    abort_on_error err

  unfoldable pub run_taken_over : Takeover → Option Error → M ⊤
  run_taken_over body (some err) = write_failure
  run_taken_over body none = do
    modify (on_context λ c. record (release c) { body = nil })
    deferred (record_call closed) (run_takeover body)
    pure tt

  unfoldable pub write_takeover : Takeover → M ⊤
  write_takeover body = do err ← controller_hijack; run_taken_over body err

  unfoldable pub write_body : Marshaller → Body → M ⊤
  write_body json body = write_json body
  write_body direct nil = write_nothing
  write_body direct (bytes data_) = write_data data_
  write_body direct (string data_) = write_data data_
  write_body direct (stream body) = write_stream body
  write_body direct (takeover body) = write_takeover body
  write_body direct (other _) = write_failure

  unfoldable pub write_response : M ⊤
  write_response s = elim s.context.writer [
    | none ↦ (returned tt, s)
    | some _ ↦ write_body s.context.marshaller s.context.body (on_context bump s)
  ]
