-- ===== src/Write/Settles.antt =====
-- That writeResponse settles a request that goes through the server's StreamWriter.
use go_httpserver.Base.{
  ℕ, ◌≡◌, ◌⊎◌, inl, inr, refl, arith, ap, true, false, Option, none, some, List, ⊤, Option-cases,
}
use go_httpserver.Base.Int.{ℤ, pos, ◌≤ℤ◌}
use go_httpserver.Effect.{
  Panic, Error, not_supported, Outcome, returned, panicked, continue, Keeps, continue-Keeps,
  >>=-Keeps, >>=-returned, >>-returned, modify, ◌>>=◌, ◌>>◌,
}
use go_httpserver.State.{
  Body, nil, bytes, string, stream, takeover, other, direct, json, Marshaller, Call, State,
  Platform, stream_writer, Stream, Takeover, clear_header,
}
use go_httpserver.StreamWriter
use go_httpserver.StreamWriter.Stable.{run-Keeps}
use go_httpserver.StreamWriter.Effects.{IsCommitted, IsStable-IsCommitted}
use go_httpserver.Context.{on_context, bump, writer_header}
use go_httpserver.Api.Sound.{IsRecord}
use go_httpserver.Write.Takeovers.{run_takeover-exchanges, given_up}
use go_httpserver.Write.{
  abort_on_error, write_header, write, controller_hijack, run_takeover, write_failure, write_data,
  write_marshalled, write_json, write_nothing, write_stream, run_taken_over, write_takeover,
  write_body, write_response, take_stream_writer, release,
}

-- The underlying writer does not panic on a status from 200 to 599.
abbrev pub IsWilling : Platform → Type 0
IsWilling p =
    (cs : List Call) (code : ℤ) → pos 200 ≤ℤ code → code ≤ℤ pos 599 → p.write_header cs code ≡ none

-- A request of which nothing has been answered.
abbrev pub IsOpen : State → Type 0
IsOpen s =
    (s.context.writer ≡ some stream_writer) × (s.stream.attached ≡ true) × (s.stream.status ≡ pos 0)

-- A final status is committed or the connection is taken over; or there was a panic before either.
abbrev pub IsSettled : Outcome ⊤ × State → Type 0
IsSettled (r, s) =
    IsCommitted s
    ⊎ ((e : Panic) × (r ≡ panicked e) × (s.stream.attached ≡ true) × (s.stream.status ≡ pos 0))

module _ (p : Platform) (willing : IsWilling p) where
  write_header-commits :
      (code : ℤ) (s : State)
      → IsOpen s
      → pos 200 ≤ℤ code
      → code ≤ℤ pos 599
      → let (r, s') = write_header p code s in
        (r ≡ returned tt) × IsCommitted s' × (s'.context.writer ≡ some stream_writer)
  unfolding write_header StreamWriter.write_header
  write_header-commits code s o lo hi =
      (ground (arith, willing s.calls code lo hi), λ a. ground arith, ground arith)

  write_failure-commits : (s : State) → IsOpen s → IsCommitted (write_failure p s).1
  unfolding write_failure writer_header StreamWriter.header
  write_failure-commits s o = λ a. ground (arith, write_header-commits (pos 500) (clear_header s) o)

  write-commits : (d : List ℕ) → Keeps IsCommitted (write p d)
  unfolding write StreamWriter.write
  write-commits d s h = λ a. ground (arith, h)

  abort_on_error-commits : (e : Option Error) → Keeps IsCommitted (abort_on_error e)
  abort_on_error-commits none s h = h
  abort_on_error-commits (some _) s h = h

  write_data-commits :
      (d : List ℕ) (s : State)
      → IsOpen s
      → pos 200 ≤ℤ s.context.status
      → s.context.status ≤ℤ pos 599
      → IsCommitted (write_data p d s).1
  unfolding write_data
  write_data-commits d s o lo hi =
      let (r, s') = write_header p s.context.status s in
      let rest = write p d >>= λ answer. abort_on_error answer.1 in
      continue-Keeps IsCommitted r (λ _. rest)
        (λ _.
          >>=-Keeps IsCommitted (write p d) (λ answer. abort_on_error answer.1) (write-commits d)
            (λ answer. abort_on_error-commits answer.1))
        s' (write_header-commits s.context.status s o lo hi).1

  write_marshalled-commits :
      (m : List ℕ ⊎ Error) (s : State)
      → IsOpen s
      → pos 200 ≤ℤ s.context.status
      → s.context.status ≤ℤ pos 599
      → IsCommitted (write_marshalled p m s).1
  unfolding write_marshalled writer_header StreamWriter.header
  write_marshalled-commits (inr err) s o lo hi = write_failure-commits s o
  write_marshalled-commits (inl d) s o lo hi = λ a.
      let h = p.header_set "Content-Type" "application/json; charset=utf-8" s.header in
      ground (arith, write_data-commits d (record s { header = h }) o lo hi)

  write_json-settles :
      (m : Outcome (List ℕ ⊎ Error)) (s : State)
      → IsOpen s
      → pos 200 ≤ℤ s.context.status
      → s.context.status ≤ℤ pos 599
      → IsSettled (continue m (λ d. write_marshalled p d) s)
  write_json-settles (returned d) s o lo hi = inl (write_marshalled-commits d s o lo hi)
  write_json-settles (panicked e) s o lo hi = inr (e, refl, o.1, o.2)

  stream_body-commits :
      (b : Stream) (s : State)
      → s.context.writer ≡ some stream_writer
      → IsCommitted s
      → IsCommitted
          ((StreamWriter.run p b >>= abort_on_error) (on_context release (take_stream_writer s))).1
  stream_body-commits b s on h =
      let start = on_context release (take_stream_writer s) in
      >>=-Keeps IsCommitted (StreamWriter.run p b) abort_on_error
        (run-Keeps (IsStable-IsCommitted p) b) abort_on_error-commits start (λ a. ground (arith, h))

  -- The calls of a stream's body start when the status is committed.
  write_stream-commits :
      (b : Stream) (s : State)
      → IsOpen s
      → pos 200 ≤ℤ s.context.status
      → s.context.status ≤ℤ pos 599
      → IsCommitted (write_stream p b s).1
  unfolding write_stream
  write_stream-commits b s o lo hi =
      let (ok, committed, on) = write_header-commits s.context.status s o lo hi in
      rw
        (>>-returned (write_header p s.context.status)
          (modify take_stream_writer
            >> (modify (on_context release) >> (StreamWriter.run p b >>= abort_on_error)))
          s ok)
        (stream_body-commits b (write_header p s.context.status s).1 on committed)

  run_takeover_stream : (b : Takeover) (s : State) → (run_takeover p b s).1.stream ≡ s.stream
  run_takeover_stream b s = ap (λ (t : State). t.stream) (run_takeover-exchanges p b s).1

  -- A takeover is granted and the StreamWriter detached, or it is refused and nothing has changed.
  controller_hijack-settles :
      (s : State)
      → IsOpen s
      → let (r, s') = controller_hijack p s in
        (r ≡ returned none) × (s'.stream.attached ≡ false)
        ⊎ ((err : Error) × (r ≡ returned (some err)) × IsOpen s')
  unfolding controller_hijack StreamWriter.hijack
  controller_hijack-settles s o = elim (Option-cases p.hijacker) [
    | inl missing ↦ inr (not_supported, ground arith, ground arith)
    | inr (method, there) ↦ elim (Option-cases (method s.calls)) [
      | inl granted ↦ inl (ground arith, ground arith)
      | inr (err, refused) ↦ inr (err, ground arith, ground arith)
    ]
  ]

  taken_over-detached :
      (b : Takeover) (s : State)
      → s.stream.attached ≡ false
      → IsCommitted (run_taken_over p b none s).1
  unfolding run_taken_over
  taken_over-detached b s detached =
      λ a. ground (arith, run_takeover_stream b (on_context given_up s))

  refused-commits :
      (b : Takeover) (err : Error) (s : State)
      → IsOpen s
      → IsCommitted (run_taken_over p b (some err) s).1
  unfolding run_taken_over
  refused-commits b err s o = write_failure-commits s o

  write_takeover-commits :
      (b : Takeover) (s : State) → IsOpen s → IsCommitted (write_takeover p b s).1
  unfolding write_takeover
  write_takeover-commits b s o = elim (controller_hijack-settles s o) [
    | inl (granted, detached) ↦
        rw (>>=-returned (controller_hijack p) (run_taken_over p b) s granted)
          (taken_over-detached b (controller_hijack p s).1 detached)
    | inr (err, refused, still) ↦
        rw (>>=-returned (controller_hijack p) (run_taken_over p b) s refused)
          (refused-commits b err (controller_hijack p s).1 still)
  ]

  write_body-settles :
      (m : Marshaller) (b : Body) (s : State)
      → IsOpen s
      → IsRecord s.context.status m b
      → IsSettled (write_body p m b s)
  unfolding write_body write_json write_nothing
  write_body-settles json b s o h = write_json-settles (p.json_marshal b) s o h.0 h.1
  write_body-settles direct (bytes d) s o h = inl (write_data-commits d s o h.0 h.1)
  write_body-settles direct (string d) s o h = inl (write_data-commits d s o h.0 h.1)
  write_body-settles direct (other n) s o h = inl (write_failure-commits s o)
  write_body-settles direct nil s o h = elim h [
    | inl missing ↦ inl (λ a. ground (arith, missing, write_failure-commits s o))
    | inr (lo, hi) ↦
        inl (λ a. ground (arith, lo, hi, write_header-commits s.context.status s o lo hi))
  ]
  write_body-settles direct (stream b) s o h = inl (write_stream-commits b s o h.0 h.1)
  write_body-settles direct (takeover b) s o h = inl (write_takeover-commits b s o)

  write_response_on :
      (s : State)
      → s.context.writer ≡ some stream_writer
      → write_response p s ≡ write_body p s.context.marshaller s.context.body (on_context bump s)
  unfolding write_response
  write_response_on s on = ground arith

  -- writeResponse on a sound Context that nothing was written for: a final status from 200 to 599 is
  -- committed, or the connection was taken over, or json.Marshal panicked and nothing was sent.
  pub write_response-settles :
      (s : State)
      → IsOpen s
      → IsRecord s.context.status s.context.marshaller s.context.body
      → IsSettled (write_response p s)
  write_response-settles s o h =
      let c = s.context in
      let settled = write_body-settles c.marshaller c.body (on_context bump s) o h in
      rw (write_response_on s o.0) settled
