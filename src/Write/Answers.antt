-- ===== src/Write/Answers.antt =====
-- What writeResponse sends for a Context that holds a response with a complete body, or none.
use go_httpserver.Base.{
  ℕ, ◌≡◌, ◌⊎◌, inl, inr, arith, Option, none, some, List, [], ◌∷◌, ⊤, if◌then◌else◌,
}
use go_httpserver.Base.Int.{ℤ, pos, is_zero_ℤ}
use go_httpserver.Effect.{abort_handler, Error, Outcome, returned, panicked, continue}
use go_httpserver.State.{
  Header, Body, nil, bytes, string, stream, takeover, other, direct, json, Marshaller, Call,
  header_sent, body_sent, State, Platform, clear_header,
}
use go_httpserver.Api.Handles.{HasWriter}
use go_httpserver.StreamWriter
use go_httpserver.Context.{on_context, bump, writer_header}
use go_httpserver.Write.{
  write_header, write, write_data, write_failure, write_json, write_nothing, write_marshalled,
  write_body, write_response,
}

-- An answer: a status, the headers that go with it, and a body if there is one.
pub record Answer : Type 0 where
  pub status : ℤ
  pub header : Header
  pub body : Option (List ℕ)

abbrev pub empty_500 : Answer
empty_500 = record { status = pos 500; header = []; body = none }

-- The calls that send an answer, after the calls `cs`.
abbrev pub sent : Answer → List Call → List Call
sent a cs = elim a.body [
  | none ↦ header_sent a.status a.header ∷ cs
  | some data_ ↦ body_sent data_ ∷ header_sent a.status a.header ∷ cs
]

-- How a call of Write ends the request: by a panic with http.ErrAbortHandler, if it failed.
abbrev pub ending : Outcome (ℕ × Option Error) → Outcome ⊤
ending (returned (_, none)) = returned tt
ending (returned (_, some _)) = panicked abort_handler
ending (panicked e) = panicked e

module _ (p : Platform) where
  abbrev marshalled : ℤ → Header → Outcome (List ℕ ⊎ Error) → Option Answer
  marshalled code h (returned (inl data_)) = some (record {
    status = code;
    header = p.header_set "Content-Type" "application/json; charset=utf-8" h;
    body = some data_;
  })
  marshalled code h (returned (inr _)) = some empty_500
  marshalled code h (panicked _) = none

  -- The answer that a response stands for, given its headers: `none` where json.Marshal panics, and
  -- for a body that takes the connection over in its own way.
  abbrev pub answer_of : ℤ → Marshaller → Body → Header → Option Answer
  answer_of code json b h = marshalled code h (p.json_marshal b)
  answer_of code direct nil h =
      some (if is_zero_ℤ code then empty_500 else record { status = code; header = h; body = none })
  answer_of code direct (bytes data_) h =
      some (record { status = code; header = h; body = some data_ })
  answer_of code direct (string data_) h =
      some (record { status = code; header = h; body = some data_ })
  answer_of code direct (stream _) h = none
  answer_of code direct (takeover _) h = none
  answer_of code direct (other _) h = some empty_500

  abbrev pub outcome_of : Answer → List Call → Outcome ⊤
  outcome_of a cs = elim a.body [
    | none ↦ returned tt
    | some data_ ↦ ending (p.write (header_sent a.status a.header ∷ cs) data_)
  ]

  -- A call of WriteHeader that does not panic.
  pub write_header_lem :
      (code : ℤ) (s : State)
      → HasWriter s
      → p.write_header s.calls code ≡ none
      → let (r, s') = write_header p code s in
        (r ≡ returned tt)
        × (s'.calls ≡ header_sent code s.header ∷ s.calls)
        × (s'.context ≡ s.context)
        × HasWriter s'
  unfolding write_header StreamWriter.write_header
  write_header_lem code s (inl e) willing = ground arith
  write_header_lem code s (inr (e, a)) willing = ground arith

  write_lem :
      (data_ : List ℕ) (s : State)
      → HasWriter s
      → let (r, s') = write p data_ s in
        (r ≡ p.write s.calls data_) × (s'.calls ≡ body_sent data_ ∷ s.calls)
  unfolding write StreamWriter.write
  write_lem data_ s (inl e) = ground arith
  write_lem data_ s (inr (e, a)) = ground arith

  write_data_lem :
      (data_ : List ℕ) (s : State)
      → HasWriter s
      → p.write_header s.calls s.context.status ≡ none
      → let (r, s') = write_data p data_ s in
        let cs = header_sent s.context.status s.header ∷ s.calls in
        (s'.calls ≡ body_sent data_ ∷ cs) × (r ≡ ending (p.write cs data_))
  unfolding write_data
  write_data_lem data_ s w willing =
      let code = s.context.status in
      let s' = (write_header p code s).1 in
      ground (arith, write_header_lem code s w willing, write_lem data_ s')

  write_failure_lem :
      (s : State)
      → HasWriter s
      → p.write_header s.calls (pos 500) ≡ none
      → let (r, s') = write_failure p s in
        (s'.calls ≡ header_sent (pos 500) [] ∷ s.calls) × (r ≡ returned tt)
  unfolding write_failure writer_header StreamWriter.header
  write_failure_lem s w willing =
      ground (arith, write_header_lem (pos 500) (clear_header s) w willing)

  write_marshalled_lem :
      (m : Outcome (List ℕ ⊎ Error)) (s : State) (a : Answer)
      → HasWriter s
      → marshalled s.context.status s.header m ≡ some a
      → p.write_header s.calls a.status ≡ none
      → let (r, s') = continue m (λ data_. write_marshalled p data_) s in
        (s'.calls ≡ sent a s.calls) × (r ≡ outcome_of a s.calls)
  unfolding write_marshalled writer_header StreamWriter.header
  write_marshalled_lem (returned (inl data_)) s a w e willing =
      let h = p.header_set "Content-Type" "application/json; charset=utf-8" s.header in
      ground (arith, write_data_lem data_ (record s { header = h }) w)
  write_marshalled_lem (returned (inr err)) s a w e willing = ground (arith, write_failure_lem s w)
  write_marshalled_lem (panicked err) s a w e willing = cc

  write_body_lem :
      (m : Marshaller) (b : Body) (s : State) (a : Answer)
      → HasWriter s
      → answer_of s.context.status m b s.header ≡ some a
      → p.write_header s.calls a.status ≡ none
      → let (r, s') = write_body p m b s in (s'.calls ≡ sent a s.calls) × (r ≡ outcome_of a s.calls)
  unfolding write_body write_nothing write_json
  write_body_lem direct (bytes d) s a w e willing = ground (arith, write_data_lem d s w)
  write_body_lem direct (string d) s a w e willing = ground (arith, write_data_lem d s w)
  write_body_lem direct nil s a w e willing =
      ground (arith, write_header_lem s.context.status s w, write_failure_lem s w)
  write_body_lem direct (other n) s a w e willing = ground (arith, write_failure_lem s w)
  write_body_lem direct (stream b) s a w e willing = cc
  write_body_lem direct (takeover b) s a w e willing = cc
  write_body_lem json b s a w e willing = write_marshalled_lem (p.json_marshal b) s a w e willing

  -- A response is sent once, with one header and then its body, to whichever writer the Context has:
  -- the calls are those of its answer, a failed marshalling, an unsupported body and a missing
  -- response being an empty 500, and writeResponse returns unless the body could not be written.
  pub write_response-sends :
      (s : State) (a : Answer)
      → HasWriter s
      → answer_of s.context.status s.context.marshaller s.context.body s.header ≡ some a
      → p.write_header s.calls a.status ≡ none
      → ((write_response p s).1.calls ≡ sent a s.calls)
        × ((write_response p s).0 ≡ outcome_of a s.calls)
  unfolding write_response
  write_response-sends s a w e willing =
      let c = s.context in
      ground (arith, write_body_lem c.marshaller c.body (on_context bump s) a w e willing)
