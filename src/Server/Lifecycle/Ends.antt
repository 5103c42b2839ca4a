-- ===== src/Server/Lifecycle/Ends.antt =====
-- How serving ends for the application.
use go_httpserver.Base.{ℕ, ◌≡◌, ◌↔◌, arith, true, Option, none, some, String, [], ◌∷◌}
use go_httpserver.Server.Lifecycle.{
  ServerConfig, ServeError, server_closed, serve_failure, start_serving, server_closed_with_error,
  starter, runner,
}

-- The server closed with an error other than http.ErrServerClosed.
abbrev pub HasFailed : Option ServeError → Type 0
HasFailed none = ⊥
HasFailed (some server_closed) = ⊥
HasFailed (some (serve_failure _)) = Unit

module _ (print_port : ℕ → String) (config : ServerConfig) (global : ℕ) where
  -- The runner of the registered server logs the address that it serves, cancels the application exactly
  -- when serving failed and the configuration asks for it, and logs that failure whether or not it does.
  pub runner_shutdown :
      (ended : Option ServeError)
      → let (events, cancelled) = runner (starter print_port config global) ended in
        ((cancelled ≡ true) ↔ HasFailed ended × (config.shutdown_on_error ≡ true))
        × ((events ≡ start_serving (print_port config.port) ∷ server_closed_with_error ∷ [])
            ↔ HasFailed ended)
  unfolding runner starter
  runner_shutdown none = grind arith
  runner_shutdown (some server_closed) = grind arith
  runner_shutdown (some (serve_failure e)) = grind arith
