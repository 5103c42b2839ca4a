-- ===== src/Examples/Servers.antt =====
-- Servers and their lifecycle.
use go_httpserver.Base.{ℕ, arith, true, String}
use go_httpserver.Base.Int.{pos}
use go_httpserver.Server.Lifecycle.{ServerConfig, starter}
use go_httpserver.Server.Lifecycle.Durations.{Lasts, starter_timeouts}

abbrev print_port : ℕ → String
print_port port = ":8080"

-- The default configuration.
abbrev config : ServerConfig
config = record {
  port = 8080;
  read_header_timeout = pos 5;
  idle_timeout = pos 60;
  max_header_bytes = pos 4096;
  shutdown_on_error = true;
}

starter_timeouts_example :
    let server = starter print_port config 1 in
    Lasts server.read_header_timeout (pos 5) × Lasts server.idle_timeout (pos 60)
starter_timeouts_example =
    starter_timeouts print_port config 1
      (record { read_header = (omega arith, omega arith); idle = (omega arith, omega arith) })
