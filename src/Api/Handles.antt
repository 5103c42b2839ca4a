-- ===== src/Api/Handles.antt =====
-- When a handle of a response is live, and when its use panics.
use go_httpserver.Base.{
  ℕ, ◌+◌, ◌^◌, ◌≤◌, ◌<◌, ◌≡◌, ◌⊎◌, refl, arith, true, false, some, List, [], ◌∷◌, length,
}
use go_httpserver.Base.Int.{ℤ, pos, ◌≤ℤ◌}
use go_httpserver.Effect.{bug, returned, panicked}
use go_httpserver.State.{
  nil, direct, Takeover, takeover, underlying, stream_writer, State, Context, Platform,
}
use go_httpserver.Context.{Response, zero_response, new_response, hijack, response, hijacked}
use go_httpserver.Response.{check}
use go_httpserver.Api.{Op, Handles, at, step, play}
use go_httpserver.Api.Sound.{IsSound, IsBehind, at-IsBehind, step-ticket-le}

-- What the use of a handle that is not live does, before anything else.
abbrev pub IsRefused : Response → State → Type 0
IsRefused r s = check r s ≡ (panicked (bug "BUG: stale response handle"), s)

-- The writer of the Context answers a call of Header.
abbrev pub HasWriter : State → Type 0
HasWriter s =
    (s.context.writer ≡ some underlying)
    ⊎ (s.context.writer ≡ some stream_writer) × (s.stream.attached ≡ true)

older-IsRefused :
    (c : Context) (r : Response) (s : State)
    → IsBehind c r
    → c.ticket < s.context.ticket
    → IsRefused r s
unfolding check
older-IsRefused c r s h newer = ground (arith, h)

-- Where the Context still has its writer, NewResponse with a status from 200 to 599 starts a response with that status,
-- no body, nothing to marshal and no headers, whatever response was there, and hands out a handle that is live; the
-- handles of before are refused from then on, while the tickets do not run out.
pub new_response_renews :
    (hs : Handles) (s : State) (code : ℤ)
    → IsSound (hs, s)
    → HasWriter s
    → s.context.ticket + 1 < 2 ^ 64
    → pos 200 ≤ℤ code
    → code ≤ℤ pos 599
    → let (r, s') = new_response code s in
      (r ≡ returned (record { ctx = true; ticket = s'.context.ticket }))
      × (check (record { ctx = true; ticket = s'.context.ticket }) s' ≡ (returned tt, s'))
      × (s'.context.status ≡ code)
      × (s'.context.body ≡ nil)
      × (s'.context.marshaller ≡ direct)
      × (s'.header ≡ [])
      × ((i : ℕ) → IsRefused (at hs i) s')
unfolding new_response check
new_response_renews hs s code h w room lo hi = (
  ground arith,
  ground arith,
  ground arith,
  ground arith,
  ground arith,
  ground arith,
  λ i. ground (arith, at-IsBehind s.context hs i h.behind),
)

-- NewResponse with any other status panics and changes nothing.
pub new_response_invalid :
    (s : State) (code : ℤ)
    → ¬ ((pos 200 ≤ℤ code) × (code ≤ℤ pos 599))
    → new_response code s ≡ (panicked (bug "BUG: invalid status"), s)
unfolding new_response
new_response_invalid s code bad = ground arith

-- Hijack discards the response, whatever it was: the body is the takeover that it was given, with no status and nothing
-- to marshal; Hijacked reports it and Response no response; and every handle of before is refused, while the tickets do
-- not run out.
pub hijack_discards :
    (hs : Handles) (s : State) (b : Takeover)
    → IsSound (hs, s)
    → s.context.ticket + 1 < 2 ^ 64
    → let (r, s') = hijack (some b) s in
      (r ≡ returned tt)
      × (s'.context.body ≡ takeover b)
      × (s'.context.marshaller ≡ direct)
      × (s'.context.status ≡ pos 0)
      × (hijacked s' ≡ (returned true, s'))
      × (response s' ≡ (returned (zero_response, false), s'))
      × ((i : ℕ) → IsRefused (at hs i) s')
unfolding hijack hijacked response check
hijack_discards hs s b h room =
    (refl, refl, refl, refl, refl, refl, λ i. ground (arith, at-IsBehind s.context hs i h.behind))

step-le-ticket :
    (p : Platform) (op : Op) (hs : Handles) (s : State)
    → s.context.ticket + 1 < 2 ^ 64
    → s.context.ticket ≤ (step p op (hs, s)).1.context.ticket
unfolding step
step-le-ticket p (Op.new_response code) hs s room = ground arith
step-le-ticket p op hs s room = ground arith

play-le-ticket :
    (p : Platform) (ops : List Op) (hs : Handles) (s : State)
    → s.context.ticket + length ops < 2 ^ 64
    → s.context.ticket ≤ (play p ops (hs, s)).1.context.ticket
unfolding play
play-le-ticket p [] hs s room = omega arith
play-le-ticket p (op ∷ ops) hs s room =
    let (hs', s') = step p op (hs, s) in
    omega (arith, step-le-ticket p op hs s, step-ticket-le p op hs s, play-le-ticket p ops hs' s')

-- A handle that is refused because the Context has moved on stays refused, whatever calls follow,
-- while the tickets do not run out.
pub stale_stays_stale :
    (p : Platform) (ops : List Op) (hs : Handles) (c : Context) (r : Response) (s : State)
    → IsBehind c r
    → c.ticket < s.context.ticket
    → s.context.ticket + length ops < 2 ^ 64
    → IsRefused r (play p ops (hs, s)).1
stale_stays_stale p ops hs c r s behind newer room =
    older-IsRefused c r (play p ops (hs, s)).1 behind
      (omega (arith, play-le-ticket p ops hs s room))
