-- ===== src/Server/Lifecycle.antt =====
-- server.go: the configuration, the http.Server that NewServer makes of it, and its lifecycle.
pub mod Durations
pub mod Ends
use go_httpserver.Base.{
  ℕ, suc, ◌+◌, ◌-◌, ◌*◌, ◌%◌, ◌^◌, Bool, true, false, ltb, Option, none, some, String, List, [],
  ◌∷◌, if◌then◌else◌,
}
use go_httpserver.Base.Int.{ℤ, pos, negsuc}
use go_httpserver.Router.{Router, ServeMux}

-- ServerConfig. The times are in seconds.
pub record ServerConfig : Type 0 where
  pub port : ℕ
  pub read_header_timeout : ℤ
  pub idle_timeout : ℤ
  pub max_header_bytes : ℤ
  pub shutdown_on_error : Bool

-- How serving and shutting down end.
pub data ServeError : Type 0 where
  server_closed : ServeError
  serve_failure : ℕ → ServeError

-- What the lifecycle functions log.
pub data LifecycleEvent : Type 0 where
  start_serving : String → LifecycleEvent
  server_closed_with_error shutting_down shutdown_failed shutdown_complete : LifecycleEvent

-- The fields of http.Server that are set, with the configuration; its handler is the server itself, and the
-- ServeMux, which it shares with the Router, is passed on its own. A
-- time.Duration is an int64 of nanoseconds; a context is named by a number.
pub record HttpServer : Type 0 where
  pub config : ServerConfig
  pub addr : String
  pub read_header_timeout : ℤ
  pub idle_timeout : ℤ
  pub max_header_bytes : ℤ
  pub base_context : ℕ

-- The int64 with a bit pattern, and the bit pattern of an integer.
abbrev pub int64 : ℕ → ℤ
int64 n = if ltb n (2 ^ 63) then pos n else negsuc (2 ^ 64 - 1 - n)

abbrev pub pattern_of : ℤ → ℕ
pattern_of (pos n) = n % 2 ^ 64
pattern_of (negsuc n) = 2 ^ 64 - 1 - n % 2 ^ 64

-- `time.Duration(n) * time.Second`
unfoldable pub seconds : ℤ → ℤ
seconds n = int64 (pattern_of n * 10 ^ 9 % 2 ^ 64)

-- The function that NewServer registers: given the global context, the server whose methods are the runner and
-- the cleaner. `print_port` is fmt.Sprintf with ":%d".
module _ (print_port : ℕ → String) where
  unfoldable pub starter : ServerConfig → ℕ → HttpServer
  unfolding seconds
  starter config global = record {
    config = config;
    addr = print_port config.port;
    read_header_timeout = seconds config.read_header_timeout;
    idle_timeout = seconds config.idle_timeout;
    max_header_bytes = config.max_header_bytes;
    base_context = global;
  }

  -- The router, its new ServeMux, and what is registered with the lifecycle controller.
  unfoldable pub new_server :
      ServerConfig → List (ℕ → HttpServer) → Router × ServeMux × List (ℕ → HttpServer)
  unfolding starter
  new_server config registered =
      (record { logger = none; middlewares = [] }, [], starter config ∷ registered)

-- `!errors.Is(err, http.ErrServerClosed)` of an error that is not nil.
abbrev is_unexpected : Option ServeError → Bool
is_unexpected none = false
is_unexpected (some server_closed) = false
is_unexpected (some (serve_failure _)) = true

-- Given how ListenAndServe ends: what is logged, and whether `shutdown` is called.
unfoldable pub runner : HttpServer → Option ServeError → List LifecycleEvent × Bool
runner server ended =
    if is_unexpected ended
    then (
      start_serving server.addr ∷ server_closed_with_error ∷ [],
      server.config.shutdown_on_error,
    )
    else (start_serving server.addr ∷ [], false)

-- Given how Shutdown ends.
unfoldable pub cleaner : Option ServeError → List LifecycleEvent
cleaner none = shutting_down ∷ shutdown_complete ∷ []
cleaner (some _) = shutting_down ∷ shutdown_failed ∷ shutdown_complete ∷ []
