-- ===== src/Bind/Timed/Refines.antt =====
-- That every schedule comes to one of the ends of a Race, which is how the binders are given the timeout.
use go_httpserver.Base.{
  ◌≡◌, ◌⊎◌, inl, inr, arith, ap, sym, ◌∙◌, none, some, List, [], ◌∷◌, ◌++◌, ◌^◌, Bool, true, false,
}
use go_httpserver.Base.Int.{pos, ◌≤ℤ◌}
use go_httpserver.Effect.{Panic, Action, Outcome}
use go_httpserver.State.{Reader, Request}
use go_httpserver.Bind.Library.{
  BindLibrary, Params, Race, binder_done, client_gone, timed_out, Result,
}
use go_httpserver.Bind.Body.{bind_full_text_body, bind_reader, charset_reader, race_binder}
use go_httpserver.Schedule.{Reach}
use go_httpserver.Bind.Timed.{
  Answer, bytes_read, at_end, broken, Work, Worker, running, sending, exited, crashed, Caller,
  replied, Machine, launched, step,
}
use go_httpserver.Bind.Timed.Traced.{Completes, answers, IsGivenUp, Replies, HasResult, Traced}
use go_httpserver.Bind.Timed.Steps.{Reach-Traced}

-- The body, by the answers to its Reads.
abbrev pub reader_of : List Answer → Reader
reader_of [] = record { content = []; fails = none }
reader_of (bytes_read b ∷ given) =
    let rest = reader_of given in record rest { content = b ++ rest.content }
reader_of (at_end ∷ given) = record { content = []; fails = none }
reader_of (broken e ∷ given) = record { content = []; fails = some e }

reply_of :
    {J V : Type 0} (P : Outcome Result → Type 0) (m : Machine J V) {c : Caller} {r : Outcome Result}
    → c ≡ replied r
    → Replies P m c
    → P r
reply_of P m is h = rw is at h

module _ {V : Type 0} (lib : BindLibrary V) (request : Request) (params : Params)
    (binder : Reader → Action V Result) where
  -- bindFullTextBody on a body with these answers, for one end of the race.
  abbrev pub bound : List Answer → Race V → V → Outcome Result × V
  bound given race =
      bind_full_text_body lib (record request { body = reader_of given }) params binder race

  raced :
      pos 0 ≤ℤ request.content_length
      → request.content_length ≤ℤ pos (2 ^ 20)
      → (race : Race V) (given : List Answer) (v : V)
      → bound given race v
        ≡ race_binder lib
            (bind_reader lib binder (charset_reader lib (reader_of given) params))
            race
            v
  unfolding bind_full_text_body
  raced known small race given v = ground arith

module _ {J V : Type 0} (lib : BindLibrary V) (request : Request) (params : Params)
    (binder : Reader → Action V Result) where
  -- Where the goroutine ends, it has done what charsetReader and the binder do on a body with the answers that it got.
  abbrev pub CarriesOut : (J → Work J V) → J → Type 0
  CarriesOut does start =
      (given : List Answer) (v : V) (r : Outcome Result) (w : V)
      → Completes does start given v r w
      → bind_reader lib binder (charset_reader lib (reader_of given) params) v ≡ (r, w)

  -- The end of the race that the state shows. Where the binding was given up, the struct may be anything.
  abbrev pub Raced : List Answer → V → Outcome Result → Machine J V → Type 0
  Raced given v r m =
      (m.body_closed ≡ false) × Comes binder_done
      ⊎ (m.body_closed ≡ true)
        × ((m.disconnected ≡ true) × ((torn : V → V) × Comes (client_gone torn))
            ⊎ (m.expired ≡ true) × ((torn : V → V) × Comes (timed_out torn)))
    where
      Comes : Race V → Type 0
      Comes race = bound lib request params binder given race v ≡ (r, m.parsed)

  module _ (does : J → Work J V) (start : J) (carries : CarriesOut does start)
      (known : pos 0 ≤ℤ request.content_length)
      (small : request.content_length ≤ℤ pos (2 ^ 20)) where
    given_up-Raced :
        (given : List Answer) (v : V) (m : Machine J V) (r : Outcome Result)
        → IsGivenUp m r
        → Raced given v r m
    given_up-Raced given v m r (closed, inl (gone, is)) = inr (
      closed,
      inl (
        gone,
        (
          λ _. m.parsed,
          raced lib request params binder known small (client_gone (λ _. m.parsed)) given v
              ∙ ap (λ o. (o, m.parsed)) (sym is),
        ),
      ),
    )
    given_up-Raced given v m r (closed, inr (late, is)) = inr (
      closed,
      inr (
        late,
        (
          λ _. m.parsed,
          raced lib request params binder known small (timed_out (λ _. m.parsed)) given v
              ∙ ap (λ o. (o, m.parsed)) (sym is),
        ),
      ),
    )

    replied-Raced :
        (recovers : Panic → Bool) (given : List Answer) (v : V) (w : Worker J) (m : Machine J V)
        (r : Outcome Result)
        → m.caller ≡ replied r
        → Traced does recovers start v given w m
        → Raced given v r m
    replied-Raced recovers given v (running j) m r is (h, (_, reply)) =
        given_up-Raced given v m r (reply_of (IsGivenUp m) m is reply)
    replied-Raced recovers given v (sending o) m r is (h, (_, reply)) =
        given_up-Raced given v m r (reply_of (IsGivenUp m) m is reply)
    replied-Raced recovers given v (crashed e) m r is (_, reply) =
        given_up-Raced given v m r (reply_of (IsGivenUp m) m is reply)
    replied-Raced recovers given v exited m r is (o, ended, (_, reply)) =
        elim (reply_of (HasResult does recovers start v m o) m is reply) [
          | inl up ↦ given_up-Raced given v m r up
          | inr (same, open_) ↦ inl (
            open_,
            raced lib request params binder known small binder_done given v
                ∙ carries given v r m.parsed (rw same ended),
          )
        ]

    -- Take a request whose length is known and at most 1 MiB, and a goroutine that, if it ends, has carried out
    -- charsetReader and the binder. Take any schedule of its steps, the answers to its Reads, the timer, the client and
    -- the select, after which the caller has replied. Either the body is open, and the reply and the struct are those of
    -- bindFullTextBody for a binder that is done, on the body that the answers of this schedule make up; or the body
    -- was closed, and they are those of bindFullTextBody for a client that is gone, where the client did disconnect, or
    -- for a timeout, where the timer did fire.
    pub launched-Raced :
        (recovers : Panic → Bool) (v : V) {m : Machine J V} (r : Outcome Result)
        (reached : Reach (step does recovers) (launched start v) m)
        → m.caller ≡ replied r
        → Raced (answers reached) v r m
    launched-Raced recovers v {m} r reached is =
        replied-Raced recovers (answers reached) v m.worker m r is
          (Reach-Traced does recovers start v reached)
