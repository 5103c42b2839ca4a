-- ===== src/Bind/Timed/Traced.antt =====
-- How the goroutine, the channel and the reply of the caller came to be what they are, after any schedule.
use mathlib.Core.List.{append_assoc, append-nil}
use go_httpserver.Base.{
  ◌≡◌, ◌⊎◌, inl, inr, refl, arith, Bool, none, some, List, [], ◌∷◌, ◌++◌, Bool-cases, Option, ℕ,
  zero, suc, true, false,
}
use go_httpserver.Effect.{Panic, Outcome, returned, panicked}
use go_httpserver.Bind.Library.{Result, fail}
use go_httpserver.Schedule.{Reach, here, next}
use go_httpserver.Bind.Timed.{
  Answer, Work, finish, read, write, Worker, running, sending, exited, crashed, Caller, selecting,
  replied, Machine, Event, reads, work_on, work_step, read_on, read_step, after_work,
}

-- With what comes next done, and then what `Rest` says of the places after it: the answers to the Reads are these, and
-- it ends with an outcome and a struct.
abbrev pub CompletesBy :
    {J V : Type 0}
    → (J → List Answer → V → Outcome Result → V → Type 0)
    → Work J V
    → List Answer
    → V
    → Outcome Result
    → V
    → Type 0
CompletesBy Rest (finish o) [] v r w = (o ≡ r) × (v ≡ w)
CompletesBy Rest (finish o) (_ ∷ _) v r w = ⊥
CompletesBy Rest (read k) [] v r w = ⊥
CompletesBy Rest (read k) (a ∷ given) v r w = Rest (k a) given v r w
CompletesBy Rest (write f k) given v r w = Rest (k v) given (f v) r w

module _ {J V : Type 0} (does : J → Work J V) where
  abbrev pub CompletesIn : ℕ → J → List Answer → V → Outcome Result → V → Type 0
  CompletesIn zero j given v r w = ⊥
  CompletesIn (suc n) j given v r w = CompletesBy (CompletesIn n) (does j) given v r w

  -- From a place, on a struct `v` and with these answers to its Reads, the goroutine ends in some number of steps, with
  -- an outcome and a struct.
  abbrev pub Completes : J → List Answer → V → Outcome Result → V → Type 0
  Completes j given v r w = (n : ℕ) × CompletesIn n j given v r w

-- The answers to the Reads along a schedule.
abbrev pub and_answer : List Answer → Event → List Answer
and_answer given (reads answer) = given ++ answer ∷ []
and_answer given _ = given

abbrev pub answers :
    {J V : Type 0} {step : Event → Machine J V → Option (Machine J V)} {m t : Machine J V}
    → Reach step m t
    → List Answer
answers here = []
answers (next reached e is) = and_answer (answers reached) e

-- The reply of a binding that is given up, and why.
abbrev pub IsGivenUp : {J V : Type 0} → Machine J V → Outcome Result → Type 0
IsGivenUp m r =
    (m.body_closed ≡ true)
    × ((m.disconnected ≡ true) × (r ≡ returned (fail 408 "HttpServer: Client disconnected"))
        ⊎ (m.expired ≡ true) × (r ≡ returned (fail 408 "HttpServer: Bind body timed out")))

-- While the caller waits, the body is open.
abbrev pub Replies : {J V : Type 0} → (Outcome Result → Type 0) → Machine J V → Caller → Type 0
Replies P m selecting = m.body_closed ≡ false
Replies P m (replied r) = P r

module _ {J V : Type 0} (does : J → Work J V) (recovers : Panic → Bool) (start : J) (v : V) where
  abbrev pub HasResult : Machine J V → Outcome Result → Outcome Result → Type 0
  HasResult m o r = IsGivenUp m r ⊎ (r ≡ o) × (m.body_closed ≡ false)

  abbrev pub HasSent : Machine J V → Outcome Result → Type 0
  HasSent m o = ((m.done ≡ none) ⊎ (m.done ≡ some o)) × Replies (HasResult m o) m m.caller

  abbrev pub HasNotSent : Machine J V → Type 0
  HasNotSent m = (m.done ≡ none) × Replies (IsGivenUp m) m m.caller

  -- How the goroutine came to where it is, with the answers given so far.
  abbrev pub Traced : List Answer → Worker J → Machine J V → Type 0
  Traced given (running j) m =
      ((bs : List Answer) (r : Outcome Result) (w : V)
        → Completes does j bs m.parsed r w
        → Completes does start (given ++ bs) v r w)
      × HasNotSent m
  Traced given (sending o) m = Completes does start given v o m.parsed × HasNotSent m
  Traced given exited m =
      (o : Outcome Result) × Completes does start given v o m.parsed × HasSent m o
  Traced given (crashed e) m = HasNotSent m

  widen :
      (o : Outcome Result) (m : Machine J V) (c : Caller)
      → Replies (IsGivenUp m) m c
      → Replies (HasResult m o) m c
  widen o m selecting h = h
  widen o m (replied r) h = inl h

  pub at_same :
      (given : List Answer) {w w' : Worker J}
      → w' ≡ w
      → (t : Machine J V) → Traced given w t
      → Traced given w' t
  at_same given same t h = rw same h

  at_some :
      (given : List Answer) (u t : Machine J V)
      → some u ≡ some t
      → Traced given u.worker u
      → Traced given t.worker t
  at_some given u t is h = let same : u ≡ t = cc in rw (← same) h

  ended-Traced :
      (given : List Answer) (o : Outcome Result) (j : J) (m : Machine J V)
      → does j ≡ finish o
      → Traced given (running j) m
      → Traced given (after_work recovers o) (record m { worker = after_work recovers o })
  ended-Traced given o j m next_is (h, kept) =
      let done : Completes does start given v o m.parsed =
        rw (← append-nil given) (h [] o m.parsed (1, rw next_is (refl, refl))) in
      placed o done
    where
      placed :
          (o : Outcome Result)
          → Completes does start given v o m.parsed
          → Traced given (after_work recovers o) (record m { worker = after_work recovers o })
      placed (returned r) done = (done, kept)
      placed (panicked e) done = elim (Bool-cases (recovers e)) [
        | inl handed ↦ rw handed (done, kept)
        | inr lost ↦ rw lost kept
      ]

  work_on-Traced :
      (given : List Answer) (w : Work J V) (j : J) (m t : Machine J V)
      → does j ≡ w
      → Traced given (running j) m
      → work_on does recovers w m ≡ some t
      → Traced given t.worker t
  unfolding work_on
  work_on-Traced given (finish o) j m t next_is h is =
      at_some given _ t is (ended-Traced given o j m next_is h)
  work_on-Traced given (write f k) j m t next_is (h, kept) is =
      at_some given (record m { parsed = f m.parsed; worker = running (k m.parsed) }) t is
        (λ bs r w ended. h bs r w (suc ended.0, rw next_is ended.1), kept)
  work_on-Traced given (read k) j m t next_is h is = cc

  pub work_step-Traced :
      (given : List Answer) (w : Worker J) (m t : Machine J V)
      → Traced given w m
      → work_step does recovers w m ≡ some t
      → Traced given t.worker t
  unfolding work_step
  work_step-Traced given (running j) m t h is = work_on-Traced given (does j) j m t refl h is
  work_step-Traced given (sending o) m t (ended, kept) is =
      at_some given (record m { done = some o; worker = exited }) t (ground (arith, kept.0))
        (o, ended, (inr refl, widen o m m.caller kept.1))
  work_step-Traced given exited m t h is = cc
  work_step-Traced given (crashed e) m t h is = cc

  read_on-Traced :
      (given : List Answer) (answer : Answer) (w : Work J V) (j : J) (m t : Machine J V)
      → does j ≡ w
      → Traced given (running j) m
      → read_on does recovers answer w m ≡ some t
      → Traced (given ++ answer ∷ []) t.worker t
  unfolding read_on
  read_on-Traced given answer (read k) j m t next_is (h, kept) is =
      at_some (given ++ answer ∷ []) (record m { worker = running (k answer) }) t (ground arith)
        (
          λ bs r w ended.
              rw (append_assoc given (answer ∷ []) bs)
                (h (answer ∷ bs) r w (suc ended.0, rw next_is ended.1)),
          kept,
        )
  read_on-Traced given answer (finish o) j m t next_is h is = cc
  read_on-Traced given answer (write f k) j m t next_is h is = cc

  pub read_step-Traced :
      (given : List Answer) (answer : Answer) (w : Worker J) (m t : Machine J V)
      → Traced given w m
      → read_step does recovers answer w m ≡ some t
      → Traced (given ++ answer ∷ []) t.worker t
  unfolding read_step
  read_step-Traced given answer (running j) m t h is =
      read_on-Traced given answer (does j) j m t refl h is
  read_step-Traced given answer (sending o) m t h is = cc
  read_step-Traced given answer exited m t h is = cc
  read_step-Traced given answer (crashed e) m t h is = cc
