-- ===== src/Server/Recovery.antt =====
-- What ServeHTTP does about a panic, whatever the handlers behind it do.
use go_httpserver.Base.{◌≡◌, arith, true, none, [], ◌∷◌}
use go_httpserver.Base.Int.{pos}
use go_httpserver.Effect.{Panic, returned, panicked}
use go_httpserver.State.{header_sent, stream_writer, Request, State, Platform}
use go_httpserver.StreamWriter
use go_httpserver.Router.{HandlerFunc}
use go_httpserver.Server.{responded, recovered, recovering, access_log, serve_http}

-- The request as ServeHTTP hands it on.
abbrev pub entered : State → State
entered s = record s { stream = StreamWriter.fresh }

module _ (p : Platform) (mux : HandlerFunc) (request : Request) (s : State) where
  -- A panic before a final status was recorded is answered by an empty 500, however the headers were
  -- set, and ServeHTTP returns.
  pub serve_http-uncommitted :
      (e : Panic)
      → let (r, s') = mux stream_writer request (entered s) in
        r ≡ panicked e
        → p.recovers e ≡ true
        → s'.stream.attached ≡ true
        → s'.stream.status ≡ pos 0
        → p.write_header s'.calls (pos 500) ≡ none
        → let (r', log, s'') = serve_http p mux request s in
          (r' ≡ returned tt)
          × (s''.calls ≡ header_sent (pos 500) [] ∷ s'.calls)
          × (log ≡ responded (pos 500) s'.stream.bytes_written)
  unfolding serve_http recovering recovered access_log StreamWriter.header StreamWriter.write_header
  serve_http-uncommitted e panics handed attached open_ willing = ground arith
