-- ===== src/Bind/Timed.antt =====
-- request_body.go: bindFullTextBodyWithTimeout as its goroutine, its channel, its timer and its select, which run
-- in any order.
pub mod Finishes
pub mod Traced
pub mod Steps
pub mod Refines
use go_httpserver.Base.{
  Bool, true, false, not, ◌&&◌, Option, none, some, ℕ, String, List, is_some, if◌then◌else◌, ◌≡◌,
}
use go_httpserver.Effect.{Panic, Error, Outcome, returned, panicked}
use go_httpserver.Bind.Library.{Result, fail}

-- What a Read of the body gives: bytes, its end, or an error.
pub data Answer : Type 0 where
  bytes_read : List ℕ → Answer
  at_end : Answer
  broken : Error → Answer

-- What the goroutine does next, and where it is after that: a place `J` in charsetReader and the binder. It may go on for
-- ever. A write may depend on the struct, and so does what follows.
pub data Work (J V : Type 0) : Type 0 where
  finish : Outcome Result → Work J V
  read : (Answer → J) → Work J V
  write : (V → V) → (V → J) → Work J V

-- `sending`: at the send to the channel, of the result or, in the deferred Recover, of a panic. A panic that Recover
-- does not hand to its callback ends the process.
pub data Worker (J : Type 0) : Type 0 where
  running : J → Worker J
  sending : Outcome Result → Worker J
  exited : Worker J
  crashed : Panic → Worker J

-- The caller waits in the select, or has returned or panicked.
pub data Caller : Type 0 where
  selecting : Caller
  replied : Outcome Result → Caller

-- `done` is the buffer of the channel, which has room for one; `expired` says that the timer has fired, and
-- `disconnected` that the context of the request is done.
pub record Machine (J V : Type 0) : Type 0 where
  pub parsed : V
  pub worker : Worker J
  pub done : Option (Outcome Result)
  pub expired : Bool
  pub disconnected : Bool
  pub body_closed : Bool
  pub caller : Caller

-- The cases of the select.
pub data Case : Type 0 where
  result_ready client_done timer_fired : Case

-- Who is next: the goroutine, on its own or with what a Read answers; the select, in one of its cases; the timer; the
-- client.
pub data Event : Type 0 where
  works : Event
  reads : Answer → Event
  selects : Case → Event
  expires disconnects : Event

-- The state at the select, with the goroutine and the timer started.
abbrev pub launched : {J V : Type 0} → J → V → Machine J V
launched start v = record {
  parsed = v;
  worker = running start;
  done = none;
  expired = false;
  disconnected = false;
  body_closed = false;
  caller = selecting;
}

-- The deferred Recover of the goroutine, which sends what it recovers.
abbrev pub after_work : {J : Type 0} → (Panic → Bool) → Outcome Result → Worker J
after_work recovers (returned r) = sending (returned r)
after_work recovers (panicked e) = if recovers e then sending (panicked e) else crashed e

abbrev is_broken : Answer → Bool
is_broken (broken _) = true
is_broken _ = false

-- `does`: the code of the goroutine.
module _ {J V : Type 0} (does : J → Work J V) (recovers : Panic → Bool) where
  unfoldable pub work_on : Work J V → Machine J V → Option (Machine J V)
  work_on (finish o) m = some (record m { worker = after_work recovers o })
  work_on (write f k) m = some (record m { parsed = f m.parsed; worker = running (k m.parsed) })
  work_on (read k) m = none

  -- `none`: it cannot go on by itself.
  unfoldable pub work_step : Worker J → Machine J V → Option (Machine J V)
  unfolding work_on
  work_step (running j) m = work_on (does j) m
  work_step (sending o) m =
      if is_some m.done then none else some (record m { done = some o; worker = exited })
  work_step exited m = none
  work_step (crashed e) m = none

  -- A Read of a body that was closed gives an error.
  unfoldable pub read_on : Answer → Work J V → Machine J V → Option (Machine J V)
  read_on answer (read k) m =
      if m.body_closed && not (is_broken answer)
      then none
      else some (record m { worker = running (k answer) })
  read_on answer _ m = none

  unfoldable pub read_step : Answer → Worker J → Machine J V → Option (Machine J V)
  unfolding read_on
  read_step answer (running j) m = read_on answer (does j) m
  read_step answer _ m = none

  abbrev pub give_up : String → Machine J V → Machine J V
  give_up message m = record m {
    caller = replied (returned (fail 408 message));
    body_closed = true;
  }

  -- The select, where a case is ready.
  unfoldable pub select_step : Caller → Case → Machine J V → Option (Machine J V)
  select_step (replied _) _ m = none
  select_step selecting result_ready m = elim m.done [
    | some o ↦ some (record m { caller = replied o; done = none })
    | none ↦ none
  ]
  select_step selecting client_done m =
      if m.disconnected then some (give_up "HttpServer: Client disconnected" m) else none
  select_step selecting timer_fired m =
      if m.expired then some (give_up "HttpServer: Bind body timed out" m) else none

  -- A timer that was stopped does not fire.
  unfoldable pub expire_step : Caller → Machine J V → Option (Machine J V)
  expire_step (replied _) m = none
  expire_step selecting m = if m.expired then none else some (record m { expired = true })

  unfoldable pub step : Event → Machine J V → Option (Machine J V)
  unfolding work_step read_step select_step expire_step
  step works m = work_step m.worker m
  step (reads answer) m = read_step answer m.worker m
  step (selects c) m = select_step m.caller c m
  step expires m = expire_step m.caller m
  step disconnects m = if m.disconnected then none else some (record m { disconnected = true })
