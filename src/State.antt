-- ===== src/State.antt =====
-- The state of one request: the Context of context.go, the StreamWriter of stream_writer.go, and
-- what the http.ResponseWriter below them has been called with. The handlers' code that runs while
-- a response is written (bodies of StreamBody and Hijack) is a tree of the operations that it makes.
use go_httpserver.Base.{ℕ, String, Bool, Option, List, ◌∷◌, ◌⊎◌}
use go_httpserver.Base.Int.{ℤ}
use go_httpserver.PathValues.{HttpRequest}
use go_httpserver.Effect.{Panic, Error, Outcome, Action}

-- http.Header: a map from names to values.
abbrev pub Header : Type 0
Header = List (String × List String)

-- A `func(*StreamWriter) error`, by the operations that it makes on its StreamWriter, each with what
-- it does with the answer. `change_header` is any use of the map that `Header` returns.
pub data Stream : Type 0 where
  done : Option Error → Stream
  panic : Panic → Stream
  change_header : (Header → Header) → Stream → Stream
  write_header : ℤ → Stream → Stream
  write : List ℕ → (ℕ → Option Error → Stream) → Stream
  flush : Stream → Stream
  hijack : (Option Error → Stream) → Stream
  set_read_deadline : ℕ → (Option Error → Stream) → Stream
  set_write_deadline : ℕ → (Option Error → Stream) → Stream
  enable_full_duplex : (Option Error → Stream) → Stream

-- A `func(net.Conn, *bufio.ReadWriter) error`, by its exchanges with the connection.
pub data Takeover : Type 0 where
  done : Option Error → Takeover
  panic : Panic → Takeover
  exchange : List ℕ → (List ℕ → Takeover) → Takeover

-- An io.Reader by what it will give: its bytes, and then an error or the end.
pub record Reader : Type 0 where
  pub content : List ℕ
  pub fails : Option Error

-- The dynamic types of `Context.body` that `writeResponse` tells apart; `other` is any other value.
pub data Body : Type 0 where
  nil : Body
  bytes : List ℕ → Body
  string : List ℕ → Body
  stream : Stream → Body
  takeover : Takeover → Body
  other : ℕ → Body

-- marshallerIsDirect and marshallerIsJson.
pub data Marshaller : Type 0 where
  direct json : Marshaller

-- The http.ResponseWriter that a Context holds, when it is not nil: the one that net/http gave, or
-- the StreamWriter of the request.
pub data Writer : Type 0 where
  underlying stream_writer : Writer

-- What the package reads of an *http.Request after net/http has parsed it.
pub record Request : Type 0 where
  pub method : String
  pub content_length : ℤ
  pub header : Header
  pub pattern : String
  -- The same request through the mirror of request_path_unsafe.go.
  pub mirror : HttpRequest
  pub body : Reader

-- Context.
pub record Context : Type 0 where
  pub request : Option Request
  pub writer : Option Writer
  pub status : ℤ
  pub body : Body
  pub marshaller : Marshaller
  pub ticket : ℕ

-- StreamWriter. Its field `writer` is only ever nil or the underlying writer: `attached` says which.
-- `bytes_written` is the 64-bit pattern of the `int`.
pub record StreamWriter : Type 0 where
  pub attached : Bool
  pub status : ℤ
  pub bytes_written : ℕ

-- A call of the underlying writer, or of a connection that was taken over. A header is recorded as
-- the map stood when it was sent.
pub data Call : Type 0 where
  header_sent : ℤ → Header → Call
  body_sent : List ℕ → Call
  flushed : Call
  hijack_asked : Call
  read_deadline_asked : ℕ → Call
  write_deadline_asked : ℕ → Call
  full_duplex_asked : Call
  exchanged : List ℕ → Call
  closed : Call

-- `calls` has the latest call first.
pub record State : Type 0 where
  pub header : Header
  pub calls : List Call
  pub stream : StreamWriter
  pub context : Context

abbrev pub M : Type 0 → Type 0
M = Action State

-- The code outside the repository that a response goes through: how the underlying writer answers,
-- after the calls that were made before, and the library functions. A method of an optional
-- interface (http.Flusher, http.Hijacker, …) is `none` where the writer does not have it.
pub record Platform : Type 0 where
  pub write_header : List Call → ℤ → Option Panic
  pub write : List Call → List ℕ → Outcome (ℕ × Option Error)
  pub flusher : Option (List Call → Option Panic)
  pub hijacker : Option (List Call → Option Error)
  pub read_deadline_setter : Option (List Call → ℕ → Option Error)
  pub write_deadline_setter : Option (List Call → ℕ → Option Error)
  pub full_duplex_enabler : Option (List Call → Option Error)
  -- http.NewResponseController(writer).Hijack() on the underlying writer.
  pub controller_hijack : List Call → Option Error
  -- What a connection that was taken over answers.
  pub connection : List Call → List ℕ → List ℕ
  -- json.Marshal, (http.Header).Set, (http.Header).Add and (*http.Cookie).String.
  pub json_marshal : Body → Outcome (List ℕ ⊎ Error)
  pub header_set : String → String → Header → Header
  pub header_add : String → String → Header → Header
  pub cookie_string : ℕ → String
  -- Whether exception.Recover hands a panic to its callback; otherwise the panic goes on.
  pub recovers : Panic → Bool

-- Calls the underlying writer: the call is recorded, and the writer answers.
abbrev pub record_call : Call → State → State
record_call c s = record s { calls = c ∷ s.calls }

abbrev pub clear_header : State → State
clear_header s = record s { header = List.[] }
