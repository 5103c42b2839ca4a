-- ===== src/Server/Lifecycle/Durations.antt =====
-- The timeouts of the http.Server.
use go_httpserver.Base.{ℕ, ◌*◌, ◌^◌, ◌≤◌, ◌<◌, ◌≡◌, arith, String}
use go_httpserver.Base.Int.{ℤ, pos, negsuc, ◌≤ℤ◌}
use go_httpserver.Server.Lifecycle.{ServerConfig, seconds, starter}

-- What the `validate` tags of the times ask.
pub record IsValidated (config : ServerConfig) : Type 0 where
  pub read_header : (pos 1 ≤ℤ config.read_header_timeout) × (config.read_header_timeout ≤ℤ pos 60)
  pub idle : (pos 1 ≤ℤ config.idle_timeout) × (config.idle_timeout ≤ℤ pos 3600)

-- 292 years are less than 2 ^ 63 nanoseconds.
seconds_exact : (n : ℕ) → n ≤ 9223372036 → seconds (pos n) ≡ pos (n * 10 ^ 9)
unfolding seconds
seconds_exact n h = ground arith

-- The duration is the number of seconds in nanoseconds, and is not 0, which would be no timeout.
abbrev pub Lasts : ℤ → ℤ → Type 0
Lasts duration (pos n) = (duration ≡ pos (n * 10 ^ 9)) × (0 < n * 10 ^ 9) × (n * 10 ^ 9 < 2 ^ 63)
Lasts duration (negsuc n) = ⊥

seconds-Lasts : (n : ℤ) → pos 1 ≤ℤ n → n ≤ℤ pos 3600 → Lasts (seconds n) n
seconds-Lasts (pos n) lo hi = (seconds_exact n (omega arith), omega arith, omega arith)
seconds-Lasts (negsuc n) lo hi = absurd (omega arith)

-- Of a configuration that was validated, the server's timeouts are the seconds of the configuration
-- in nanoseconds: they fit int64, so nothing wraps, and none is 0, which http.Server takes for no timeout.
pub starter_timeouts :
    (print_port : ℕ → String) (config : ServerConfig) (global : ℕ)
    → IsValidated config
    → let server = starter print_port config global in
      Lasts server.read_header_timeout config.read_header_timeout
      × Lasts server.idle_timeout config.idle_timeout
unfolding starter
starter_timeouts print_port config global v = (
  seconds-Lasts config.read_header_timeout v.read_header.0 (omega (arith, v.read_header.1)),
  seconds-Lasts config.idle_timeout v.idle.0 v.idle.1,
)
