-- ===== src/Bind/Timed/Steps.antt =====
-- How the reply of the caller came to be what it is, after any schedule.
use go_httpserver.Base.{
  ◌≡◌, ◌∙◌, inl, inr, refl, arith, Bool, none, some, List, Option-cases, true, false,
}
use go_httpserver.Effect.{Panic, Outcome, returned}
use go_httpserver.Bind.Library.{Result, fail}
use go_httpserver.Schedule.{Reach, here, next}
use go_httpserver.Bind.Timed.{
  Answer, Work, Worker, running, sending, exited, crashed, Caller, selecting, replied, Machine,
  Case, result_ready, client_done, timer_fired, Event, works, reads, selects, expires, disconnects,
  launched, select_step, expire_step, step,
}
use go_httpserver.Bind.Timed.Traced.{
  answers, and_answer, IsGivenUp, Replies, HasResult, Traced, at_same, work_step-Traced,
  read_step-Traced,
}

module _ {J V : Type 0} (does : J → Work J V) (recovers : Panic → Bool) (start : J) (v : V)
    (given : List Answer) where
  abbrev At : Worker J → Machine J V → Type 0
  At w m = Traced does recovers start v given w m

  open_of :
      (P : Outcome Result → Type 0) (m : Machine J V) (c : Caller)
      → c ≡ selecting
      → Replies P m c
      → m.body_closed ≡ false
  open_of P m selecting is h = h
  open_of P m (replied r) is h = cc

  waits-open :
      (w : Worker J) (m : Machine J V) → m.caller ≡ selecting → At w m → m.body_closed ≡ false
  waits-open (running j) m is (h, kept) = open_of _ m m.caller is kept.1
  waits-open (sending o) m is (h, kept) = open_of _ m m.caller is kept.1
  waits-open exited m is (o, ended, kept) = open_of _ m m.caller is kept.1
  waits-open (crashed e) m is kept = open_of _ m m.caller is kept.1

  given_up-Traced :
      (w : Worker J) (m t : Machine J V) (r : Outcome Result)
      → At w m
      → t.parsed ≡ m.parsed
      → t.done ≡ m.done
      → t.caller ≡ replied r
      → IsGivenUp t r
      → At w t
  given_up-Traced (running j) m t r (h, (empty, _)) parsed done caller up =
      rw (parsed, done, caller) (h, (empty, up))
  given_up-Traced (sending o) m t r (h, (empty, _)) parsed done caller up =
      rw (parsed, done, caller) (h, (empty, up))
  given_up-Traced exited m t r (o, h, (sent, _)) parsed done caller up =
      rw (parsed, done, caller) (o, h, (sent, inl up))
  given_up-Traced (crashed e) m t r (empty, _) parsed done caller up = rw (done, caller) (empty, up)

  result-Traced :
      (w : Worker J) (m t : Machine J V) (r : Outcome Result)
      → At w m
      → m.done ≡ some r
      → t.parsed ≡ m.parsed
      → t.done ≡ none
      → t.caller ≡ replied r
      → t.body_closed ≡ false
      → At w t
  result-Traced (running j) m t r (h, (empty, _)) sent parsed done caller closed = cc (empty, sent)
  result-Traced (sending o) m t r (h, (empty, _)) sent parsed done caller closed = cc (empty, sent)
  result-Traced (crashed e) m t r (empty, _) sent parsed done caller closed = cc (empty, sent)
  result-Traced exited m t r (o, h, (buffer, _)) sent parsed done caller closed =
      let same : r ≡ o = ground (arith, buffer, sent) in
      rw (parsed, done, caller) (o, h, (inl refl, inr (same, closed)))

  -- The timer may have fired, and the client may have gone.
  record Likes (m t : Machine J V) : Type 0 where
    same_struct : t.parsed ≡ m.parsed
    same_buffer : t.done ≡ m.done
    same_caller : t.caller ≡ m.caller
    same_body : t.body_closed ≡ m.body_closed
    fired : m.expired ≡ true → t.expired ≡ true
    gone : m.disconnected ≡ true → t.disconnected ≡ true

  still_up : (m t : Machine J V) (r : Outcome Result) → Likes m t → IsGivenUp m r → IsGivenUp t r
  still_up m t r l (closed, inl (left, is)) = (l.same_body ∙ closed, inl (l.gone left, is))
  still_up m t r l (closed, inr (late, is)) = (l.same_body ∙ closed, inr (l.fired late, is))

  kept_reply :
      (P Q : Outcome Result → Type 0) (m t : Machine J V) (c : Caller)
      → Likes m t
      → ((r : Outcome Result) → P r → Q r)
      → Replies P m c
      → Replies Q t c
  kept_reply P Q m t selecting l f h = l.same_body ∙ h
  kept_reply P Q m t (replied r) l f h = f r h

  kept_result :
      (m t : Machine J V) (o r : Outcome Result)
      → Likes m t
      → HasResult does recovers start v m o r
      → HasResult does recovers start v t o r
  kept_result m t o r l (inl up) = inl (still_up m t r l up)
  kept_result m t o r l (inr (same, open_)) = inr (same, l.same_body ∙ open_)

  kept-Traced : (w : Worker J) (m t : Machine J V) → Likes m t → At w m → At w t
  kept-Traced (running j) m t l (h, (empty, reply)) =
      rw (l.same_struct, l.same_buffer, l.same_caller)
        (
          h,
          (
            empty,
            kept_reply (IsGivenUp m) (IsGivenUp t) m t m.caller l (λ r. still_up m t r l) reply,
          ),
        )
  kept-Traced (sending o) m t l (h, (empty, reply)) =
      rw (l.same_struct, l.same_buffer, l.same_caller)
        (
          h,
          (
            empty,
            kept_reply (IsGivenUp m) (IsGivenUp t) m t m.caller l (λ r. still_up m t r l) reply,
          ),
        )
  kept-Traced exited m t l (o, h, (sent, reply)) =
      rw (l.same_struct, l.same_buffer, l.same_caller)
        (o, h, (sent, kept_reply _ _ m t m.caller l (λ r. kept_result m t o r l) reply))
  kept-Traced (crashed e) m t l (empty, reply) =
      rw (l.same_buffer, l.same_caller)
        (empty, kept_reply (IsGivenUp m) (IsGivenUp t) m t m.caller l (λ r. still_up m t r l) reply)

  selects_waiting :
      (caller : Caller) (c : Case) (m t : Machine J V)
      → select_step does recovers caller c m ≡ some t
      → caller ≡ selecting
  unfolding select_step
  selects_waiting selecting c m t is = refl
  selects_waiting (replied r) c m t is = cc

  select_step-Traced :
      (c : Case) (m t : Machine J V)
      → At m.worker m
      → select_step does recovers m.caller c m ≡ some t
      → (t.worker ≡ m.worker) × At m.worker t
  unfolding select_step
  select_step-Traced result_ready m t h is =
      let open_ : m.body_closed ≡ false =
        waits-open m.worker m (selects_waiting m.caller result_ready m t is) h in
      elim (Option-cases m.done) [
        | inl empty ↦ absurd (ground (arith, empty))
        | inr (o, sent) ↦ (
          ground (arith, sent),
          result-Traced m.worker m t o h sent (ground (arith, sent)) (ground (arith, sent))
              (ground (arith, sent)) (ground (arith, sent, open_)),
        )
      ]
  select_step-Traced client_done m t h is = (
    ground arith,
    given_up-Traced m.worker m t (returned (fail 408 "HttpServer: Client disconnected")) h
        (ground arith) (ground arith) (ground arith) (ground arith, inl (ground arith, refl)),
  )
  select_step-Traced timer_fired m t h is = (
    ground arith,
    given_up-Traced m.worker m t (returned (fail 408 "HttpServer: Bind body timed out")) h
        (ground arith) (ground arith) (ground arith) (ground arith, inr (ground arith, refl)),
  )

  expire_step-Likes :
      (m t : Machine J V)
      → expire_step does recovers m.caller m ≡ some t
      → (t.worker ≡ m.worker) × Likes m t
  unfolding expire_step
  expire_step-Likes m t is = (
    ground arith,
    record {
      same_struct = ground arith;
      same_buffer = ground arith;
      same_caller = ground arith;
      same_body = ground arith;
      fired = λ e. ground arith;
      gone = λ e. ground arith;
    },
  )

  step-Traced :
      (e : Event) (m t : Machine J V)
      → At m.worker m
      → step does recovers e m ≡ some t
      → Traced does recovers start v (and_answer given e) t.worker t
  unfolding step
  step-Traced works m t h is = work_step-Traced does recovers start v given m.worker m t h is
  step-Traced (reads answer) m t h is =
      read_step-Traced does recovers start v given answer m.worker m t h is
  step-Traced (selects c) m t h is =
      let (same, kept) = select_step-Traced c m t h is in
      at_same does recovers start v given same t kept
  step-Traced expires m t h is =
      let (same, l) = expire_step-Likes m t is in
      at_same does recovers start v given same t (kept-Traced m.worker m t l h)
  step-Traced disconnects m t h is =
      let l : Likes m t = record {
        same_struct = ground arith;
        same_buffer = ground arith;
        same_caller = ground arith;
        same_body = ground arith;
        fired = λ e. ground arith;
        gone = λ e. ground arith;
      } in
      let same : t.worker ≡ m.worker = ground arith in
      at_same does recovers start v given same t (kept-Traced m.worker m t l h)

module _ {J V : Type 0} (does : J → Work J V) (recovers : Panic → Bool) (start : J) (v : V) where
  pub Reach-Traced :
      {t : Machine J V} (reached : Reach (step does recovers) (launched start v) t)
      → Traced does recovers start v (answers reached) t.worker t
  Reach-Traced here = (λ bs r w ended. ended, (refl, refl))
  Reach-Traced (next {t} {u} reached e is) =
      step-Traced does recovers start v (answers reached) e t u (Reach-Traced reached) is
