-- ===== src/Examples.antt =====
-- The theorems at concrete inputs, and runs of the model on them.
mod Responses
mod Servers
mod Requests
mod Promises
mod Definitions
mod Bodies
mod Races
mod Sharing
mod Goroutines
use go_httpserver.Base.{ℕ, length, Option, none, some, List, [], ◌∷◌, ◌⊎◌, inl, inr, true}
use go_httpserver.Base.Int.{ℤ, pos}
use go_httpserver.Effect.{returned, Error}
use go_httpserver.State.{Platform, State, Request, nil, direct, stream_writer}
use go_httpserver.StreamWriter
use go_httpserver.Context.{new_context}

-- A connection on which everything works.
abbrev pub obliging : Platform
obliging = record {
  write_header = λ cs code. none;
  write = λ cs data_. returned (length data_, none);
  flusher = some (λ cs. none);
  hijacker = some (λ cs. none);
  read_deadline_setter = some (λ cs t. none);
  write_deadline_setter = some (λ cs t. none);
  full_duplex_enabler = some (λ cs. none);
  controller_hijack = λ cs. none;
  connection = λ cs out. [];
  json_marshal = λ body. returned (inl (b'{' ∷ b'}' ∷ []));
  header_set = λ name value h. (name, value ∷ []) ∷ h;
  header_add = λ name value h. (name, value ∷ []) ∷ h;
  cookie_string = λ c. "a=b";
  recovers = λ e. true;
}

abbrev pub get : Request
get = record {
  method = "GET";
  content_length = pos 0;
  header = [];
  pattern = "GET /";
  mirror = record { pat = none; matches = [] };
  body = record { content = []; fails = none };
}

-- A connection before ServeHTTP, and a request at the start of its chain.
abbrev pub idle : State
idle = record {
  header = [];
  calls = [];
  stream = StreamWriter.fresh;
  context = record {
    request = none;
    writer = none;
    status = pos 0;
    body = nil;
    marshaller = direct;
    ticket = 0;
  };
}

abbrev pub started : State
started = record idle { context = new_context get stream_writer }
