-- ===== src/Server.antt =====
-- server.go: the net/http boundary of the server.
pub mod Recovery
pub mod Panics
pub mod Answered
pub mod Served
pub mod Rejects
pub mod Lifecycle
use go_httpserver.Base.{
  ℕ, Bool, true, false, not, ◌&&◌, Option, none, some, List, [], ◌∷◌, ⊤, if◌then◌else◌,
}
use go_httpserver.Base.Int.{ℤ, pos, is_zero_ℤ}
use go_httpserver.Effect.{abort_handler, Outcome, returned, panicked, modify, ◌>>◌}
use go_httpserver.State.{stream_writer, Request, State, M, Platform, clear_header}
use go_httpserver.StreamWriter
use go_httpserver.Router.{HandlerFunc}

-- What ServeHTTP logs when it ends.
pub data AccessLog : Type 0 where
  connection_hijacked : AccessLog
  responded : ℤ → ℕ → AccessLog

unfoldable pub access_log : State → AccessLog
access_log s =
    if not s.stream.attached
    then connection_hijacked
    else responded s.stream.status s.stream.bytes_written

module _ (p : Platform) where
  -- The callback of the deferred exception.Recover.
  unfoldable pub recovered : M ⊤
  unfolding StreamWriter.header StreamWriter.write_header
  recovered s =
      if s.stream.attached && is_zero_ℤ s.stream.status
      then (do StreamWriter.header; modify clear_header; StreamWriter.write_header p (pos 500)) s
      else (panicked abort_handler, s)

  -- A deferred exception.Recover: a panic ends in the callback.
  unfoldable pub recover_from : {A : Type 0} → Outcome A → M ⊤ → M ⊤
  recover_from (returned _) callback s = (returned tt, s)
  recover_from (panicked e) callback s = if p.recovers e then callback s else (panicked e, s)

  unfoldable pub recovering : {A : Type 0} → M A → M ⊤ → M ⊤
  unfolding recover_from
  recovering m callback s = recover_from (m s).0 callback (m s).1

  -- ServeHTTP on a connection; `mux` is the ServeMux's own ServeHTTP, which the route runs under.
  unfoldable pub serve_http : HandlerFunc → Request → State → Outcome ⊤ × AccessLog × State
  unfolding recovered recovering access_log
  serve_http mux request s =
      let start = record s { stream = StreamWriter.fresh } in
      let (r, s') = recovering (mux stream_writer request) recovered start in (r, access_log s', s')
