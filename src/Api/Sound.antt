-- ===== src/Api/Sound.antt =====
-- What holds of a Context and of the handles given out, after any calls of an application.
use go_httpserver.Base.{
  ℕ, ◌+◌, ◌^◌, ◌≤◌, ◌<◌, ◌≡◌, ◌≢◌, ◌⊎◌, arith, true, Option, List, [], ◌∷◌, length, All, zero, suc,
}
use go_httpserver.Base.Int.{ℤ, pos, ◌≤ℤ◌}
use go_httpserver.State.{
  Body, nil, takeover, bytes, string, stream, other, Takeover, Marshaller, direct, json, Context,
  State, Platform,
}
use go_httpserver.Context.{Response}
use go_httpserver.Api.{Op, Handles, Session, at, perform, step, play}
use go_httpserver.Api

-- Nothing is recorded, a takeover is pending, or there is a response with a final status. A function
-- of Hijack's type is written as JSON or is a takeover that is pending, never a response body.
abbrev pub IsRecord : ℤ → Marshaller → Body → Type 0
IsRecord code direct nil = (code ≡ pos 0) ⊎ (pos 200 ≤ℤ code) × (code ≤ℤ pos 599)
IsRecord code direct (takeover _) = code ≡ pos 0
IsRecord code _ _ = (pos 200 ≤ℤ code) × (code ≤ℤ pos 599)

-- A handle is no newer than the Context, and while there is no response none is live.
abbrev pub IsBehind : Context → Response → Type 0
IsBehind c r = r.ctx ≡ true → (r.ticket ≤ c.ticket) × (r.ticket ≡ c.ticket → c.status ≢ pos 0)

pub record IsSound (session : Session) : Type 0 where
  pub recorded :
      IsRecord session.1.context.status session.1.context.marshaller session.1.context.body
  pub behind : All (IsBehind session.1.context) session.0

module _ (c c' : Context) where
  IsBehind-newer :
      (hs : Handles) → c.ticket < c'.ticket → All (IsBehind c) hs → All (IsBehind c') hs
  IsBehind-newer [] lt h = tt
  IsBehind-newer (r ∷ hs) lt h = (λ e. ground (arith, h.0 e), IsBehind-newer hs lt h.1)

  IsBehind-same :
      (hs : Handles)
      → c'.ticket ≡ c.ticket
      → (c.status ≢ pos 0 → c'.status ≢ pos 0)
      → All (IsBehind c) hs
      → All (IsBehind c') hs
  IsBehind-same [] same keeps h = tt
  IsBehind-same (r ∷ hs) same keeps h = (
    λ e. (ground (arith, h.0 e), λ eq. keeps ((h.0 e).1 (ground arith))),
    IsBehind-same hs same keeps h.1,
  )

pub at-IsBehind : (c : Context) (hs : Handles) (i : ℕ) → All (IsBehind c) hs → IsBehind c (at hs i)
at-IsBehind c [] i h = λ e. cc
at-IsBehind c (r ∷ hs) zero h = h.0
at-IsBehind c (r ∷ hs) (suc i) h = at-IsBehind c hs i h.1

final :
    (code : ℤ) (m : Marshaller) (b : Body)
    → IsRecord code m b
    → code ≢ pos 0
    → (pos 200 ≤ℤ code) × (code ≤ℤ pos 599)
final code direct nil h ne = ground arith
final code direct (takeover _) h ne = absurd (ne h)
final code direct (bytes _) h ne = h
final code direct (string _) h ne = h
final code direct (stream _) h ne = h
final code direct (other _) h ne = h
final code json b h ne = h

module _ (p : Platform) {hs : Handles} {s : State} (h : IsSound (hs, s)) where
  -- A live handle is of a response that there is.
  live :
      (i : ℕ)
      → (at hs i).ctx ≡ true
      → (at hs i).ticket ≡ s.context.ticket
      → (pos 200 ≤ℤ s.context.status) × (s.context.status ≤ℤ pos 599)
  live i owned current =
      final _ _ _ h.recorded ((at-IsBehind s.context hs i h.behind owned).1 current)

  -- A call that issues no ticket and hands out no handle.
  same-IsSound :
      (op : Op)
      → IsRecord
          (step p op (hs, s)).1.context.status
          (step p op (hs, s)).1.context.marshaller
          (step p op (hs, s)).1.context.body
      → (step p op (hs, s)).1.context.ticket ≡ s.context.ticket
      → (s.context.status ≢ pos 0 → (step p op (hs, s)).1.context.status ≢ pos 0)
      → (step p op (hs, s)).0 ≡ hs
      → IsSound (step p op (hs, s))
  same-IsSound op recorded same keeps hands = record {
    recorded = recorded;
    behind =
        rw hands (IsBehind-same s.context (step p op (hs, s)).1.context hs same keeps h.behind);
  }

  new_response-IsSound :
      (code : ℤ) → s.context.ticket + 1 < 2 ^ 64 → IsSound (step p (Api.new_response code) (hs, s))
  unfolding step
  new_response-IsSound code room = record {
    recorded = ground (arith, h.recorded);
    behind = ground (
      arith,
      h.behind,
      IsBehind-newer s.context (step p (Api.new_response code) (hs, s)).1.context hs,
      IsBehind-same s.context (step p (Api.new_response code) (hs, s)).1.context hs,
    );
  }

  hijack-IsSound :
      (b : Option Takeover)
      → s.context.ticket + 1 < 2 ^ 64
      → IsSound (step p (Api.hijack b) (hs, s))
  unfolding step
  hijack-IsSound b room = record {
    recorded = ground (arith, h.recorded);
    behind =
        ground
          (arith, h.behind, IsBehind-newer s.context (step p (Api.hijack b) (hs, s)).1.context hs);
  }

  pub step-IsSound : (op : Op) → s.context.ticket + 1 < 2 ^ 64 → IsSound (step p op (hs, s))
  unfolding step
  step-IsSound (Api.new_response code) room = new_response-IsSound code room
  step-IsSound (Api.hijack b) room = hijack-IsSound b room
  step-IsSound Api.response room = record {
    recorded = ground (arith, h.recorded);
    behind = ground (arith, h.behind);
  }
  step-IsSound (Api.bytes_body i b) room =
      same-IsSound (Api.bytes_body i b) (ground (arith, live i)) (ground arith) (λ ne. ground arith)
        (ground arith)
  step-IsSound (Api.string_body i b) room =
      same-IsSound (Api.string_body i b) (ground (arith, live i)) (ground arith)
        (λ ne. ground arith) (ground arith)
  step-IsSound (Api.stream_body i b) room =
      same-IsSound (Api.stream_body i b) (ground (arith, live i)) (ground arith)
        (λ ne. ground arith) (ground arith)
  step-IsSound (Api.plain_text_body i b) room =
      same-IsSound (Api.plain_text_body i b) (ground (arith, live i)) (ground arith)
        (λ ne. ground arith) (ground arith)
  step-IsSound (Api.octets_body i b) room =
      same-IsSound (Api.octets_body i b) (ground (arith, live i)) (ground arith)
        (λ ne. ground arith) (ground arith)
  step-IsSound (Api.json_body i b) room =
      same-IsSound (Api.json_body i b) (ground (arith, live i)) (ground arith) (λ ne. ground arith)
        (ground arith)
  step-IsSound op room =
      same-IsSound op (ground (arith, h.recorded)) (ground arith) (λ ne. ground arith)
        (ground arith)

-- A call issues one ticket at most.
pub step-ticket-le :
    (p : Platform) (op : Op) (hs : Handles) (s : State)
    → (step p op (hs, s)).1.context.ticket ≤ s.context.ticket + 1
unfolding step
step-ticket-le p (Api.new_response code) hs s = ground arith
step-ticket-le p op hs s = ground arith

-- From a sound Context, any calls that cannot exhaust the 64 bits of the tickets lead to a sound
-- Context: its status is 0 or from 200 to 599, it holds a response, a pending takeover or neither,
-- no handle is newer than the Context, and a live handle is of a response that there is.
pub play-IsSound :
    (p : Platform) (ops : List Op) (hs : Handles) (s : State)
    → IsSound (hs, s)
    → s.context.ticket + length ops < 2 ^ 64
    → IsSound (play p ops (hs, s))
unfolding play
play-IsSound p [] hs s h room = h
play-IsSound p (op ∷ ops) hs s h room =
    let (hs', s') = step p op (hs, s) in
    play-IsSound p ops hs' s' (step-IsSound p h op (omega arith))
      (omega (arith, step-ticket-le p op hs s))
