-- ===== src/Write/Accounting.antt =====
-- The StreamWriter's accounting through writeResponse, on a Context that writes to the StreamWriter.
use go_httpserver.Base.{
  ℕ, ◌≡◌, refl, arith, Bool, true, false, Option, none, some, List, ◌∷◌, ◌⊎◌, inl, inr,
}
use go_httpserver.Base.Int.{ℤ, pos}
use go_httpserver.Effect.{
  Error, Keeps, continue-Keeps, >>=-Keeps, >>-Keeps, pure, modify, ◌>>=◌, ◌>>◌,
}
use go_httpserver.State.{
  Stream, Takeover, Body, Marshaller, State, Platform, Writer, underlying, exchanged, nil, bytes,
  string, stream, takeover, other, direct, json, clear_header, record_call, closed,
}
use go_httpserver.StreamWriter
use go_httpserver.StreamWriter.Stable.{run-Keeps}
use go_httpserver.StreamWriter.Attached.{IsHeld, IsStable-IsHeld}
use go_httpserver.StreamWriter.Accounting.{IsAccounted, run-IsAccounted}
use go_httpserver.Write.Streams.{run-Extends}
use go_httpserver.Write.Takeovers.{given_up}
use go_httpserver.Context.{on_context, bump, writer_header}
use go_httpserver.Write.{
  deferred, release, take_stream_writer, abort_on_error, write_header, write, controller_hijack,
  run_takeover, write_failure, write_data, write_marshalled, write_json, write_nothing,
  write_stream, run_taken_over, write_takeover, write_body, write_response,
}

-- `c.writer` is not the underlying writer.
abbrev is_served : Option Writer → Bool
is_served (some underlying) = false
is_served _ = true

-- The accounts are right, the Context writes to nothing but the StreamWriter, and nothing but a hijack
-- detached that.
pub record IsServed (p : Platform) (s : State) : Type 0 where
  pub accounted : IsAccounted p s
  pub served : is_served s.context.writer ≡ true
  pub held : IsHeld s

module _ (p : Platform) where
  write_header-IsServed : (code : ℤ) → Keeps (IsServed p) (write_header p code)
  unfolding write_header StreamWriter.write_header
  write_header-IsServed code s h = record {
    accounted = λ a. ground (arith, h.accounted);
    served = ground arith;
    held = ground (arith, h.held);
  }

  write-IsServed : (body : List ℕ) → Keeps (IsServed p) (write p body)
  unfolding write StreamWriter.write
  write-IsServed body s h = record {
    accounted = λ a. ground (arith, h.accounted);
    served = ground arith;
    held = ground (arith, h.held);
  }

  writer_header-IsServed : Keeps (IsServed p) writer_header
  unfolding writer_header StreamWriter.header
  writer_header-IsServed s h = record {
    accounted = λ a. ground (arith, h.accounted);
    served = ground arith;
    held = ground (arith, h.held);
  }

  controller_hijack-IsServed : Keeps (IsServed p) (controller_hijack p)
  unfolding controller_hijack StreamWriter.hijack
  controller_hijack-IsServed s h = record {
    accounted = λ a. ground (arith, h.accounted);
    served = ground arith;
    held = ground (arith, h.held);
  }

  run_takeover-IsServed : (b : Takeover) → Keeps (IsServed p) (run_takeover p b)
  unfolding run_takeover
  run_takeover-IsServed (Takeover.done err) s h = h
  run_takeover-IsServed (Takeover.panic e) s h = h
  run_takeover-IsServed (Takeover.exchange out k) s h =
      run_takeover-IsServed (k (p.connection s.calls out))
        (record s { calls = exchanged out ∷ s.calls })
        (record {
          accounted = λ a. ground (arith, h.accounted);
          served = h.served;
          held = ground (arith, h.held);
        })

  -- A change of the header map or of the Context that leaves its writer, or drops it.
  change-IsServed :
      (f : State → State)
      → ((s : State) → (f s).calls ≡ s.calls)
      → ((s : State) → (f s).stream ≡ s.stream)
      → ((s : State) → is_served s.context.writer ≡ true → is_served (f s).context.writer ≡ true)
      → Keeps (IsServed p) (modify f)
  change-IsServed f calls same keeps s h = record {
    accounted = λ a. ground (arith, calls s, same s, h.accounted);
    served = keeps s h.served;
    held = ground (arith, calls s, same s, h.held);
  }

  clear-IsServed : Keeps (IsServed p) (modify clear_header)
  clear-IsServed = change-IsServed clear_header (λ s. refl) (λ s. refl) (λ s h. h)

  write_failure-IsServed : Keeps (IsServed p) (write_failure p)
  unfolding write_failure
  write_failure-IsServed =
      >>-Keeps (IsServed p) writer_header (modify clear_header >> write_header p (pos 500))
        writer_header-IsServed
        (>>-Keeps (IsServed p) (modify clear_header) (write_header p (pos 500)) clear-IsServed
          (write_header-IsServed (pos 500)))

  abort_on_error-IsServed : (e : Option Error) → Keeps (IsServed p) (abort_on_error e)
  abort_on_error-IsServed none s h = h
  abort_on_error-IsServed (some _) s h = h

  write_data-IsServed : (data_ : List ℕ) → Keeps (IsServed p) (write_data p data_)
  unfolding write_data
  write_data-IsServed data_ s =
      >>-Keeps (IsServed p) (write_header p s.context.status)
        (write p data_ >>= λ answer. abort_on_error answer.1)
        (write_header-IsServed s.context.status)
        (>>=-Keeps (IsServed p) (write p data_) (λ answer. abort_on_error answer.1)
          (write-IsServed data_) (λ answer. abort_on_error-IsServed answer.1))
        s

  write_marshalled-IsServed : (m : List ℕ ⊎ Error) → Keeps (IsServed p) (write_marshalled p m)
  unfolding write_marshalled
  write_marshalled-IsServed (inr err) = write_failure-IsServed
  write_marshalled-IsServed (inl data_) =
      let set = λ (s : State). record s {
        header = p.header_set "Content-Type" "application/json; charset=utf-8" s.header;
      } in
      >>-Keeps (IsServed p) writer_header (modify set >> write_data p data_) writer_header-IsServed
        (>>-Keeps (IsServed p) (modify set) (write_data p data_)
          (change-IsServed set (λ s. refl) (λ s. refl) (λ s h. h)) (write_data-IsServed data_))

  write_nothing-IsServed : Keeps (IsServed p) (write_nothing p)
  unfolding write_nothing
  write_nothing-IsServed s h =
      ground (arith, write_failure-IsServed s h, write_header-IsServed s.context.status s h)

  take_stream_writer-IsServed : Keeps (IsServed p) (modify take_stream_writer)
  take_stream_writer-IsServed s h = record {
    accounted = λ a. ground (arith, h.accounted);
    served = ground arith;
    held = ground (arith, h.held);
  }

  run-IsServed : (b : Stream) → Keeps (IsServed p) (StreamWriter.run p b)
  run-IsServed b s h = record {
    accounted = run-IsAccounted p b s h.accounted;
    served = rw ((run-Extends p b s).0) h.served;
    held = run-Keeps (IsStable-IsHeld p) b s h.held;
  }

  write_stream-IsServed : (b : Stream) → Keeps (IsServed p) (write_stream p b)
  unfolding write_stream
  write_stream-IsServed b s =
      let ran = StreamWriter.run p b >>= abort_on_error in
      let released = modify (on_context release) >> ran in
      >>-Keeps (IsServed p) (write_header p s.context.status)
        (modify take_stream_writer >> released) (write_header-IsServed s.context.status)
        (>>-Keeps (IsServed p) (modify take_stream_writer) released take_stream_writer-IsServed (
          >>-Keeps (IsServed p) (modify (on_context release)) ran
            (change-IsServed (on_context release) (λ s. refl) (λ s. refl) (λ s h. refl))
            (>>=-Keeps (IsServed p) (StreamWriter.run p b) abort_on_error (run-IsServed b)
              abort_on_error-IsServed)))
        s

  deferred-IsServed :
      (b : Takeover) → Keeps (IsServed p) (deferred (record_call closed) (run_takeover p b))
  deferred-IsServed b s h =
      let ran = run_takeover-IsServed b s h in
      record {
        accounted = λ a. ground (arith, ran.accounted);
        served = ran.served;
        held = ground (arith, ran.held);
      }

  run_taken_over-IsServed :
      (b : Takeover) (err : Option Error) → Keeps (IsServed p) (run_taken_over p b err)
  unfolding run_taken_over
  run_taken_over-IsServed b (some err) = write_failure-IsServed
  run_taken_over-IsServed b none =
      let closing = deferred (record_call closed) (run_takeover p b) >> pure tt in
      >>-Keeps (IsServed p) (modify (on_context given_up)) closing
        (change-IsServed (on_context given_up) (λ s. refl) (λ s. refl) (λ s h. refl))
        (>>-Keeps (IsServed p) (deferred (record_call closed) (run_takeover p b)) (pure tt)
          (deferred-IsServed b) (λ s h. h))

  write_takeover-IsServed : (b : Takeover) → Keeps (IsServed p) (write_takeover p b)
  unfolding write_takeover
  write_takeover-IsServed b =
      >>=-Keeps (IsServed p) (controller_hijack p) (run_taken_over p b) controller_hijack-IsServed
        (run_taken_over-IsServed b)

  write_body-IsServed : (m : Marshaller) (b : Body) → Keeps (IsServed p) (write_body p m b)
  unfolding write_body write_json
  write_body-IsServed json b s h =
      continue-Keeps (IsServed p) (p.json_marshal b) (λ m. write_marshalled p m)
        write_marshalled-IsServed s h
  write_body-IsServed direct nil s h = write_nothing-IsServed s h
  write_body-IsServed direct (bytes d) s h = write_data-IsServed d s h
  write_body-IsServed direct (string d) s h = write_data-IsServed d s h
  write_body-IsServed direct (other n) s h = write_failure-IsServed s h
  write_body-IsServed direct (stream b) s h = write_stream-IsServed b s h
  write_body-IsServed direct (takeover b) s h = write_takeover-IsServed b s h

  -- Committing a Context that writes to the StreamWriter keeps the accounts right, on every branch and
  -- also when it panics.
  pub write_response-IsServed : Keeps (IsServed p) (write_response p)
  unfolding write_response
  write_response-IsServed s h =
      let c = s.context in
      let bumped = change-IsServed (on_context bump) (λ s. refl) (λ s. refl) (λ s h. h) s h in
      ground (arith, write_body-IsServed c.marshaller c.body (on_context bump s) bumped)
