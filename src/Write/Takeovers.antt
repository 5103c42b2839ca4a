-- ===== src/Write/Takeovers.antt =====
-- What writeResponse does for a pending takeover of the connection.
use go_httpserver.Base.{ℕ, ◌≡◌, refl, arith, ap, Option, none, List, [], ◌∷◌, ◌++◌, ⊤, map, ◌∙◌}
use mathlib.Core.List.{append_assoc, map-append}
use go_httpserver.Effect.{Error, Outcome, returned, panicked}
use go_httpserver.State.{
  Takeover, takeover, nil, Call, exchanged, closed, hijack_asked, direct, Context, State, Platform,
  record_call,
}
use go_httpserver.Context.{on_context, bump}
use go_httpserver.StreamWriter
use go_httpserver.Write.{
  run_takeover, controller_hijack, write_takeover, run_taken_over, write_body, write_response,
}

-- The state after exchanges with a connection that was taken over, in the order of time.
abbrev pub after_exchanges : List (List ℕ) → State → State
after_exchanges outs s = record s { calls = map exchanged outs ++ s.calls }

exchanged_first :
    (out : List ℕ) (outs : List (List ℕ)) (cs : List Call)
    → map exchanged outs ++ exchanged out ∷ cs ≡ map exchanged (outs ++ out ∷ []) ++ cs
exchanged_first out outs cs = simp (map-append, append_assoc)

-- The Context while a takeover runs: nothing of it can be used.
abbrev pub given_up : Context → Context
given_up c = record c { request = none; writer = none; body = nil }

-- What becomes of a takeover's own error or panic.
abbrev pub settled : Outcome (Option Error) → Outcome ⊤
settled (returned _) = returned tt
settled (panicked e) = panicked e

module _ (p : Platform) where
  pub run_takeover-exchanges :
      (b : Takeover) (s : State)
      → (outs : List (List ℕ)) × ((run_takeover p b s).1 ≡ after_exchanges outs s)
  unfolding run_takeover
  run_takeover-exchanges (Takeover.done err) s = ([], refl)
  run_takeover-exchanges (Takeover.panic e) s = ([], refl)
  run_takeover-exchanges (Takeover.exchange out k) s =
      let s' = record s { calls = exchanged out ∷ s.calls } in
      let (outs, e) = run_takeover-exchanges (k (p.connection s.calls out)) s' in
      (outs ++ out ∷ [], e ∙ ap (λ cs. record s { calls = cs }) (exchanged_first out outs s.calls))

  -- A takeover that succeeds: it is asked for once.
  controller_hijack_lem :
      (s : State)
      → (controller_hijack p s).0 ≡ returned none
      → ((controller_hijack p s).1.calls ≡ hijack_asked ∷ s.calls)
        × ((controller_hijack p s).1.context ≡ s.context)
  unfolding controller_hijack StreamWriter.hijack
  controller_hijack_lem s e = ground arith

  write_takeover_lem :
      (b : Takeover) (s : State)
      → (controller_hijack p s).0 ≡ returned none
      → let ran = run_takeover p b (on_context given_up (controller_hijack p s).1) in
        write_takeover p b s ≡ (settled ran.0, record_call closed ran.1)
  unfolding write_takeover run_taken_over
  write_takeover_lem b s granted = ground arith

  -- Only a Context that has a writer can take over.
  write_response_of_takeover :
      (s : State) (b : Takeover)
      → s.context.marshaller ≡ direct
      → s.context.body ≡ takeover b
      → (controller_hijack p (on_context bump s)).0 ≡ returned none
      → write_response p s ≡ write_takeover p b (on_context bump s)
  unfolding write_response write_body controller_hijack
  write_response_of_takeover s b m e granted = ground arith

  -- When the connection lets itself be taken over, writeResponse sends no response: after the request
  -- for the takeover there are the exchanges of the takeover's body, and at last the connection is closed,
  -- also if the body panics. The body's error is dropped and its panic goes on, and the Context has
  -- no request, writer or body left.
  pub write_response-takes_over :
      (s : State) (b : Takeover)
      → s.context.marshaller ≡ direct
      → s.context.body ≡ takeover b
      → (controller_hijack p (on_context bump s)).0 ≡ returned none
      → let (r, s') = write_response p s in
        let asked = (controller_hijack p (on_context bump s)).1 in
        (outs : List (List ℕ)) × (s'.calls ≡ closed ∷ map exchanged outs ++ hijack_asked ∷ s.calls)
        × (s'.context ≡ given_up (bump s.context))
        × (r ≡ settled (run_takeover p b (on_context given_up asked)).0)
  write_response-takes_over s b m e granted =
      let asked = (controller_hijack p (on_context bump s)).1 in
      let (outs, ran) = run_takeover-exchanges b (on_context given_up asked) in
      let written =
        write_response_of_takeover s b m e granted
        ∙ write_takeover_lem b (on_context bump s) granted in
      (
        outs,
        ground (arith, written, ran, controller_hijack_lem (on_context bump s) granted),
        ground (arith, written, ran, controller_hijack_lem (on_context bump s) granted),
        ground (arith, written),
      )
