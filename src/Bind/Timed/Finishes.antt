-- ===== src/Bind/Timed/Finishes.antt =====
-- That where a schedule ends, the caller has its reply and no goroutine is left.
use go_httpserver.Base.{
  ◌≡◌, ◌⊎◌, inl, inr, refl, arith, Bool, true, false, none, some, is_some, Option-cases, ◌∙◌,
}
use go_httpserver.Effect.{Panic, failure, Outcome, returned, panicked}
use go_httpserver.Bind.Library.{Result, fail}
use go_httpserver.Schedule.{Reach, Reach-keeps}
use go_httpserver.Bind.Timed.{
  Answer, broken, Work, finish, read, write, Worker, running, sending, exited, crashed, Caller,
  selecting, replied, Machine, Case, result_ready, client_done, timer_fired, Event, works, reads,
  selects, expires, disconnects, launched, work_on, work_step, read_on, read_step, select_step,
  expire_step, step, after_work,
}

-- What happens in time by itself: the goroutine and the select go on when they can, a timer fires, and a Read of a
-- body that was closed is answered. A client may stay, and a Read of an open body may take for ever.
abbrev pub is_forced : {J V : Type 0} → Event → Machine J V → Bool
is_forced (reads _) m = m.body_closed
is_forced disconnects m = false
is_forced _ m = true

-- The goroutine has sent only when it exited, and what it sent is in the channel until the select takes it; while it
-- runs on after the reply, the body is closed.
abbrev Stands : {J V : Type 0} → Worker J → Machine J V → Type 0
Stands exited m = (m.caller ≡ selecting → is_some m.done ≡ true)
Stands (crashed e) m = ⊥
Stands _ m = (m.done ≡ none) × ((m.caller ≡ selecting) ⊎ (m.body_closed ≡ true))

module _ {J V : Type 0} (does : J → Work J V) (recovers : Panic → Bool)
    (hands_on : (e : Panic) → recovers e ≡ true) where
  abbrev pub IsBlocked : Machine J V → Type 0
  IsBlocked m = (e : Event) → is_forced e m ≡ true → step does recovers e m ≡ none

  at_same : {w w' : Worker J} → w' ≡ w → (t : Machine J V) → Stands w t → Stands w' t
  at_same same t h = rw same h

  at_some : (u t : Machine J V) → some u ≡ some t → Stands u.worker u → Stands t.worker t
  at_some u t is h = let same : u ≡ t = cc in rw (← same) h

  work_on-Stands :
      (w : Work J V) (j : J) (m t : Machine J V)
      → Stands (running j) m
      → work_on does recovers w m ≡ some t
      → Stands t.worker t
  unfolding work_on
  work_on-Stands (finish (returned r)) j m t h is = at_some _ t is h
  work_on-Stands (finish (panicked e)) j m t h is =
      at_some (record m { worker = after_work recovers (panicked e) }) t is (rw (hands_on e) h)
  work_on-Stands (write f k) j m t h is = at_some _ t is h
  work_on-Stands (read k) j m t h is = cc

  work_step-Stands :
      (w : Worker J) (m t : Machine J V)
      → Stands w m
      → work_step does recovers w m ≡ some t
      → Stands t.worker t
  unfolding work_step
  work_step-Stands (running j) m t h is = work_on-Stands (does j) j m t h is
  work_step-Stands (sending o) m t h is =
      at_some (record m { done = some o; worker = exited }) t (ground (arith, h.0)) (λ e. refl)
  work_step-Stands exited m t h is = cc
  work_step-Stands (crashed e) m t h is = cc

  read_on-Stands :
      (answer : Answer) (w : Work J V) (j : J) (m t : Machine J V)
      → Stands (running j) m
      → read_on does recovers answer w m ≡ some t
      → Stands t.worker t
  unfolding read_on
  read_on-Stands answer (read k) j m t h is =
      at_some (record m { worker = running (k answer) }) t (ground arith) h
  read_on-Stands answer (finish o) j m t h is = cc
  read_on-Stands answer (write f k) j m t h is = cc

  read_step-Stands :
      (answer : Answer) (w : Worker J) (m t : Machine J V)
      → Stands w m
      → read_step does recovers answer w m ≡ some t
      → Stands t.worker t
  unfolding read_step
  read_step-Stands answer (running j) m t h is = read_on-Stands answer (does j) j m t h is
  read_step-Stands answer (sending o) m t h is = cc
  read_step-Stands answer exited m t h is = cc
  read_step-Stands answer (crashed e) m t h is = cc

  -- A reply by which the goroutine is given up, and one by its result.
  give_up-Stands :
      (w : Worker J) (m t : Machine J V)
      → Stands w m
      → t.worker ≡ w
      → t.done ≡ m.done
      → t.body_closed ≡ true
      → (r : Outcome Result) → t.caller ≡ replied r
      → Stands w t
  give_up-Stands exited m t h same kept closed r gone = λ e. cc
  give_up-Stands (crashed e) m t h same kept closed r gone = h
  give_up-Stands (running j) m t h same kept closed r gone = (kept ∙ h.0, inr closed)
  give_up-Stands (sending o) m t h same kept closed r gone = (kept ∙ h.0, inr closed)

  result-Stands :
      (w : Worker J) (m t : Machine J V) (o r : Outcome Result)
      → Stands w m
      → m.done ≡ some o
      → t.caller ≡ replied r
      → Stands w t
  result-Stands exited m t o r h sent gone = λ e. cc
  result-Stands (crashed e) m t o r h sent gone = h
  result-Stands (running j) m t o r h sent gone = cc (h.0, sent)
  result-Stands (sending p) m t o r h sent gone = cc (h.0, sent)

  kept-Stands :
      (w : Worker J) (m t : Machine J V)
      → Stands w m
      → t.done ≡ m.done
      → t.caller ≡ m.caller
      → t.body_closed ≡ m.body_closed
      → Stands w t
  kept-Stands exited m t h done caller closed = rw (done, caller) h
  kept-Stands (crashed e) m t h done caller closed = h
  kept-Stands (running j) m t h done caller closed = rw (done, caller, closed) h
  kept-Stands (sending o) m t h done caller closed = rw (done, caller, closed) h

  select_step-Stands :
      (c : Case) (m t : Machine J V)
      → Stands m.worker m
      → select_step does recovers m.caller c m ≡ some t
      → (t.worker ≡ m.worker) × Stands m.worker t
  unfolding select_step
  select_step-Stands result_ready m t h is = elim (Option-cases m.done) [
    | inl empty ↦ absurd (ground (arith, empty))
    | inr (o, sent) ↦
        (ground (arith, sent), result-Stands m.worker m t o o h sent (ground (arith, sent)))
  ]
  select_step-Stands client_done m t h is = (
    ground arith,
    give_up-Stands m.worker m t h (ground arith) (ground arith) (ground arith)
        (returned (fail 408 "HttpServer: Client disconnected")) (ground arith),
  )
  select_step-Stands timer_fired m t h is = (
    ground arith,
    give_up-Stands m.worker m t h (ground arith) (ground arith) (ground arith)
        (returned (fail 408 "HttpServer: Bind body timed out")) (ground arith),
  )

  expire_step-Stands :
      (m t : Machine J V)
      → Stands m.worker m
      → expire_step does recovers m.caller m ≡ some t
      → (t.worker ≡ m.worker) × Stands m.worker t
  unfolding expire_step
  expire_step-Stands m t h is =
      (ground arith, kept-Stands m.worker m t h (ground arith) (ground arith) (ground arith))

  step-Stands :
      (e : Event) (m t : Machine J V)
      → Stands m.worker m
      → step does recovers e m ≡ some t
      → Stands t.worker t
  unfolding step
  step-Stands works m t h is = work_step-Stands m.worker m t h is
  step-Stands (reads answer) m t h is = read_step-Stands answer m.worker m t h is
  step-Stands (selects c) m t h is =
      let (same, stands) = select_step-Stands c m t h is in at_same same t stands
  step-Stands expires m t h is =
      let (same, stands) = expire_step-Stands m t h is in at_same same t stands
  step-Stands disconnects m t h is =
      let same : t.worker ≡ m.worker = ground arith in
      at_same same t (kept-Stands m.worker m t h (ground arith) (ground arith) (ground arith))

  -- What a blocked machine shows.
  not_over :
      (w : Work J V) (j : J) (m : Machine J V)
      → does j ≡ w
      → m.worker ≡ running j
      → Stands (running j) m
      → ¬ IsBlocked m
  unfolding step work_step work_on read_step read_on select_step expire_step
  not_over (finish o) j m next at h blocked = ground (arith, blocked works)
  not_over (write f k) j m next at h blocked = ground (arith, blocked works)
  not_over (read k) j m next at (_, inr closed) blocked =
      ground (arith, blocked (reads (broken (failure 0))))
  not_over (read k) j m next at (_, inl waiting) blocked =
      ground (arith, blocked expires, blocked (selects timer_fired))

  blocked-finished :
      (w : Worker J) (c : Caller) (m : Machine J V)
      → m.worker ≡ w
      → m.caller ≡ c
      → Stands w m
      → IsBlocked m
      → (m.worker ≡ exited) × (r : Outcome Result) × (m.caller ≡ replied r)
  unfolding step work_step read_step select_step expire_step
  blocked-finished (running j) c m at is h blocked =
      absurd (not_over (does j) j m refl at h blocked)
  blocked-finished (sending o) c m at is h blocked = absurd (ground (arith, blocked works))
  blocked-finished (crashed e) c m at is h blocked = absurd h
  blocked-finished exited (replied r) m at is h blocked = (at, r, is)
  blocked-finished exited selecting m at is h blocked =
      absurd (ground (arith, h is, blocked (selects result_ready)))

  -- Recover hands every panic to its callback. In a state in which nothing is left to happen by itself, after any
  -- schedule, the caller has returned or panicked, and the goroutine has exited: it hangs neither in a Read nor at
  -- the send to the channel, and does not end the process.
  pub launched_finishes :
      (start : J) (v : V) {m : Machine J V}
      → Reach (step does recovers) (launched start v) m
      → IsBlocked m
      → (m.worker ≡ exited) × (r : Outcome Result) × (m.caller ≡ replied r)
  launched_finishes start v {m} reached blocked =
      blocked-finished m.worker m.caller m refl refl
        (Reach-keeps (step does recovers) (λ t. Stands t.worker t) step-Stands (refl, inl refl)
          reached)
        blocked
