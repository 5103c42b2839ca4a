-- ===== src/Api/Refines.antt =====
-- The exported methods of Context and Response, with their tickets, against the promise.
use go_httpserver.Base.{
  ℕ, ◌+◌, ◌%◌, ◌^◌, ◌<◌, ◌≡◌, ◌≢◌, refl, ap, ◌∙◌, arith, none, some, List, [], ◌∷◌, map, length,
  All,
}
use mathlib.Core.Path.{ap₂}
use go_httpserver.State.{State, Platform, Context}
use go_httpserver.Api.{Op, Handles, Session, at, perform, step, play}
use go_httpserver.Api
use go_httpserver.Api.Keeps.{IsQuiet, step-IsQuiet}
use go_httpserver.Api.Sound.{IsSound, IsBehind, at-IsBehind, step-IsSound, step-ticket-le}
use go_httpserver.Api.Handles.{HasWriter}
use go_httpserver.Api.Promise.{retired, promise_step, promise_play}
use go_httpserver.Api.View.{views, view, reply, replies, handle_at-views}

views-newer :
    (c : Context) (t : ℕ) (hs : Handles)
    → c.ticket < t
    → All (IsBehind c) hs
    → views t hs ≡ map retired (views c.ticket hs)
views-newer c t [] lt h = refl
views-newer c t (r ∷ hs) lt h = ap₂ ◌∷◌ (ground (arith, h.0)) (views-newer c t hs lt h.1)

-- The Context has its request and a writer that answers.
abbrev pub IsOpen : State → Type 0
IsOpen s = (s.context.request ≢ none) × HasWriter s

module _ (p : Platform) (hs : Handles) (s : State) (h : IsSound (hs, s)) (o : IsOpen s)
    (room : s.context.ticket + 1 < 2 ^ 64) where
  abbrev pub Refines : Op → Type 0
  Refines op = (reply p op (hs, s), view (step p op (hs, s))) ≡ promise_step p op (view (hs, s))

  pub step-Refines : (op : Op) → Refines op
  unfolding reply step promise_step
  step-Refines (Api.new_response c) =
      ground (
        arith,
        o,
        views-newer s.context ((s.context.ticket + 1) % 2 ^ 64) hs (omega arith) h.behind,
      )
  step-Refines (Api.hijack none) = refl
  step-Refines (Api.hijack (some b)) =
      ground
        (arith, views-newer s.context ((s.context.ticket + 1) % 2 ^ 64) hs (omega arith) h.behind)
  step-Refines Api.response = ground arith
  step-Refines Api.hijacked = ground (arith, h.recorded)
  step-Refines Api.delegate = ground (arith, o)
  step-Refines (Api.status i) = ground (arith, handle_at-views s.context.ticket hs i)
  step-Refines (Api.header i) = ground (arith, o, handle_at-views s.context.ticket hs i)
  step-Refines (Api.body i) = ground (arith, h.recorded, handle_at-views s.context.ticket hs i)
  step-Refines (Api.marshal_zerolog_object i) =
      ground (arith, h.recorded, o, handle_at-views s.context.ticket hs i)
  step-Refines (Api.change_header f i) = ground (arith, o, handle_at-views s.context.ticket hs i)
  step-Refines (Api.cookie i c) =
      ground (arith, o, handle_at-views s.context.ticket hs i, at-IsBehind s.context hs i h.behind)
  step-Refines (Api.bytes_body i b) =
      ground (arith, o, handle_at-views s.context.ticket hs i, at-IsBehind s.context hs i h.behind)
  step-Refines (Api.string_body i b) =
      ground (arith, o, handle_at-views s.context.ticket hs i, at-IsBehind s.context hs i h.behind)
  step-Refines (Api.plain_text_body i b) =
      ground (arith, o, handle_at-views s.context.ticket hs i, at-IsBehind s.context hs i h.behind)
  step-Refines (Api.octets_body i b) =
      ground (arith, o, handle_at-views s.context.ticket hs i, at-IsBehind s.context hs i h.behind)
  step-Refines (Api.stream_body i b) =
      ground (arith, o, handle_at-views s.context.ticket hs i, at-IsBehind s.context hs i h.behind)
  step-Refines (Api.json_body i b) =
      ground (arith, o, handle_at-views s.context.ticket hs i, at-IsBehind s.context hs i h.behind)

IsOpen-quiet : (s s' : State) → IsQuiet s s' → IsOpen s → IsOpen s'
IsOpen-quiet s s' quiet o = ground (arith, o, quiet)

-- No sequence of calls tells a Context and its handles, which go by tickets that are compared, from the promise,
-- in which a new response or a takeover retires the handles of before by itself: every call gives the same,
-- panics and values read included, and the response, takeover or neither that is left, its headers
-- and the handles that are live are those of the promise. The Context is sound and has its request and a writer
-- that answers, and the calls cannot exhaust the 64 bits of the tickets.
pub play-refines :
    (p : Platform) (ops : List Op) (hs : Handles) (s : State)
    → IsSound (hs, s)
    → IsOpen s
    → s.context.ticket + length ops < 2 ^ 64
    → (replies p ops (hs, s), view (play p ops (hs, s))) ≡ promise_play p ops (view (hs, s))
unfolding replies play promise_play
play-refines p [] hs s h o room = refl
play-refines p (op ∷ ops) hs s h o room =
    let (hs', s') = step p op (hs, s) in
    let one = step-Refines p hs s h o (omega arith) op in
    let rest =
      play-refines p ops hs' s' (step-IsSound p h op (omega arith))
        (IsOpen-quiet s s' (step-IsQuiet p op (hs, s)) o)
        (omega (arith, step-ticket-le p op hs s)) in
    ap (λ y. (reply p op (hs, s) ∷ y.0, y.1)) rest
    ∙ ap (λ x. let (rs, q) = promise_play p ops x.1 in (x.0 ∷ rs, q)) one
