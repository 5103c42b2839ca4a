-- ===== src/Context.antt =====
-- context.go: the per-request Context and the response or takeover that it holds.
use go_httpserver.Base.{
  ℕ, ◌+◌, ◌%◌, ◌^◌, Bool, true, false, not, ◌&&◌, ◌||◌, Option, none, some, ⊤, if◌then◌else◌,
}
use go_httpserver.Base.Int.{ℤ, pos, ltb_ℤ, is_zero_ℤ}
use go_httpserver.Effect.{bug, nil_dereference, returned, panicked, panic, gets, modify, ◌>>◌}
use go_httpserver.State.{
  Header, Takeover, Body, nil, takeover, direct, Writer, underlying, stream_writer, Request,
  Context, State, M, clear_header,
}
use go_httpserver.StreamWriter

-- Response: a handle. `ctx` says that its Context is not nil; a handle is of the request at hand.
pub record Response : Type 0 where
  pub ctx : Bool
  pub ticket : ℕ

-- `Response{}`.
abbrev pub zero_response : Response
zero_response = record { ctx = false; ticket = 0 }

abbrev pub on_context : (Context → Context) → State → State
on_context f s = record s { context = f s.context }

-- `c.ticket++`, on a `uint` of 64 bits.
abbrev pub bump : Context → Context
bump c = record c { ticket = (c.ticket + 1) % 2 ^ 64 }

-- `body == nil`.
abbrev pub is_nil : Body → Bool
is_nil nil = true
is_nil _ = false

-- `&Context{request: request, writer: writer}`.
abbrev pub new_context : Request → Writer → Context
new_context request writer = record {
  request = some request;
  writer = some writer;
  status = pos 0;
  body = nil;
  marshaller = direct;
  ticket = 0;
}

-- `c.writer.Header()`.
unfoldable pub writer_header : M Header
unfolding StreamWriter.header
writer_header s = elim s.context.writer [
  | none ↦ (panicked nil_dereference, s)
  | some underlying ↦ (returned s.header, s)
  | some stream_writer ↦ StreamWriter.header s
]

-- Deadline, Done, Err and Value ask the context of the request; `ask` is the method called on it.
unfoldable pub delegate : {A : Type 0} → (Request → A) → M A
delegate ask s = elim s.context.request [
  | none ↦ (panicked nil_dereference, s)
  | some request ↦ (returned (ask request), s)
]

unfoldable pub response : M (Response × Bool)
response s =
    if is_zero_ℤ s.context.status
    then (returned (zero_response, false), s)
    else (returned (record { ctx = true; ticket = s.context.ticket }, true), s)

unfoldable pub new_response : ℤ → M Response
unfolding writer_header
new_response status =
    if ltb_ℤ status (pos 200) || ltb_ℤ (pos 599) status
    then panic (bug "BUG: invalid status")
    else do
      modify (on_context λ c. record c { status = status; body = nil; marshaller = direct })
      writer_header
      modify clear_header
      modify (on_context bump)
      gets (λ s. record { ctx = true; ticket = s.context.ticket })

-- A nil function is `none`.
unfoldable pub hijack : Option Takeover → M ⊤
hijack none = panic (bug "BUG: nil hijack body")
hijack (some body) = do
  modify (on_context λ c. record c { status = pos 0; body = takeover body; marshaller = direct })
  modify (on_context bump)

abbrev pub is_hijacked : Context → Bool
is_hijacked c = is_zero_ℤ c.status && not (is_nil c.body)

unfoldable pub hijacked : M Bool
hijacked = gets (λ s. is_hijacked s.context)
