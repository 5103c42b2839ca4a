-- ===== src/StreamWriter.antt =====
-- stream_writer.go: the accounting writer that the server puts round every connection.
pub mod Stable
pub mod Accounting
pub mod Attached
pub mod Effects
use go_httpserver.Base.{
  ℕ, ◌+◌, ◌%◌, ◌^◌, Bool, true, false, ◌&&◌, Option, none, some, List, ⊤, if◌then◌else◌,
}
use go_httpserver.Base.Int.{ℤ, pos, leb_ℤ, is_zero_ℤ}
use go_httpserver.Effect.{
  Panic, nil_dereference, Error, not_supported, Outcome, returned, panicked, pure, panic, modify,
  ◌>>=◌, ◌>>◌,
}
use go_httpserver.State.{
  Header, Stream, StreamWriter, Call, State, M, Platform, header_sent, body_sent, flushed,
  hijack_asked, read_deadline_asked, write_deadline_asked, full_duplex_asked, record_call,
}

abbrev answer_panic : Option Panic → Outcome ⊤
answer_panic none = returned tt
answer_panic (some e) = panicked e

-- The calls of the underlying writer, as the code makes them on a value that is not nil.
module _ (p : Platform) where
  abbrev pub underlying_write_header : ℤ → M ⊤
  underlying_write_header code s =
      (answer_panic (p.write_header s.calls code), record_call (header_sent code s.header) s)

  abbrev pub underlying_write : List ℕ → M (ℕ × Option Error)
  underlying_write data_ s = (p.write s.calls data_, record_call (body_sent data_) s)

-- `new(StreamWriter)` around a connection.
abbrev pub fresh : StreamWriter
fresh = record { attached = true; status = pos 0; bytes_written = 0 }

abbrev set_status : ℤ → State → State
set_status code s = record s { stream = record s.stream { status = code } }

abbrev add_bytes : ℕ → State → State
add_bytes n s = record s {
  stream = record s.stream { bytes_written = (s.stream.bytes_written + n) % 2 ^ 64 };
}

abbrev detach : State → State
detach s = record s { stream = record s.stream { attached = false } }

-- A method call on the field `writer` faults where it is nil.
abbrev on_writer : {A : Type 0} → M A → M A
on_writer m s = if s.stream.attached then m s else (panicked nil_dereference, s)

-- A type assertion of the field `writer` to an interface fails where it is nil.
abbrev assert_writer : {A : Type 0} → Option A → State → Option A
assert_writer method s = if s.stream.attached then method else none

unfoldable pub header : M Header
header = on_writer (λ s. (returned s.header, s))

-- Any use of the map that `Header` returns.
unfoldable pub change_header : (Header → Header) → M ⊤
unfolding header
change_header f = do header; modify (λ s. record s { header = f s.header })

module _ (p : Platform) where
  unfoldable pub write_header : ℤ → M ⊤
  write_header code = do
    modify (λ s. if leb_ℤ (pos 200) code && is_zero_ℤ s.stream.status then set_status code s else s)
    on_writer (underlying_write_header p code)

  unfoldable pub write : List ℕ → M (ℕ × Option Error)
  write body = do
    modify (λ s. if is_zero_ℤ s.stream.status then set_status (pos 200) s else s)
    answer ← on_writer (underlying_write p body)
    modify (add_bytes answer.0)
    pure answer

  unfoldable pub flush : M ⊤
  flush s = elim (assert_writer p.flusher s) [
    | none ↦ (returned tt, s)
    | some method ↦ (answer_panic (method s.calls), record_call flushed s)
  ]

  -- The connection and its buffered reader are not values of the model: `none` is success.
  unfoldable pub hijack : M (Option Error)
  hijack s = elim (assert_writer p.hijacker s) [
    | none ↦ (returned (some not_supported), s)
    | some method ↦ elim (method s.calls) [
      | some err ↦ (returned (some err), record_call hijack_asked s)
      | none ↦ (returned none, detach (record_call hijack_asked s))
    ]
  ]

  unfoldable pub set_read_deadline : ℕ → M (Option Error)
  set_read_deadline deadline s = elim (assert_writer p.read_deadline_setter s) [
    | none ↦ (returned (some not_supported), s)
    | some method ↦
        (returned (method s.calls deadline), record_call (read_deadline_asked deadline) s)
  ]

  unfoldable pub set_write_deadline : ℕ → M (Option Error)
  set_write_deadline deadline s = elim (assert_writer p.write_deadline_setter s) [
    | none ↦ (returned (some not_supported), s)
    | some method ↦
        (returned (method s.calls deadline), record_call (write_deadline_asked deadline) s)
  ]

  unfoldable pub enable_full_duplex : M (Option Error)
  enable_full_duplex s = elim (assert_writer p.full_duplex_enabler s) [
    | none ↦ (returned (some not_supported), s)
    | some method ↦ (returned (method s.calls), record_call full_duplex_asked s)
  ]

  -- A body of StreamBody, run on the StreamWriter of the request.
  unfoldable pub run : Stream → M (Option Error)
  run (Stream.done err) = pure err
  run (Stream.panic e) = panic e
  run (Stream.change_header f k) = do change_header f; run k
  run (Stream.write_header code k) = do write_header code; run k
  run (Stream.write body k) = do answer ← write body; run (k answer.0 answer.1)
  run (Stream.flush k) = do flush; run k
  run (Stream.hijack k) = do err ← hijack; run (k err)
  run (Stream.set_read_deadline t k) = do err ← set_read_deadline t; run (k err)
  run (Stream.set_write_deadline t k) = do err ← set_write_deadline t; run (k err)
  run (Stream.enable_full_duplex k) = do err ← enable_full_duplex; run (k err)
