-- ===== src/Api/Keeps.antt =====
-- The calls of an application write nothing and leave the connection's accounting alone.
use go_httpserver.Base.{◌≡◌, ◌∙◌, refl, arith, List, [], ◌∷◌}
use go_httpserver.State.{State, Platform}
use go_httpserver.Api.{Op, Session, perform, step, play}
use go_httpserver.Api

-- What one request keeps from state to state until its response is written.
pub record IsQuiet (s s' : State) : Type 0 where
  pub same_calls : s'.calls ≡ s.calls
  pub same_stream : s'.stream ≡ s.stream
  pub same_writer : s'.context.writer ≡ s.context.writer
  pub same_request : s'.context.request ≡ s.context.request

pub step-IsQuiet :
    (p : Platform) (op : Op) (session : Session) → IsQuiet session.1 (step p op session).1
unfolding step
step-IsQuiet p (Api.new_response code) (hs, s) = ground arith
step-IsQuiet p op (hs, s) = ground arith

IsQuiet-trans : {s t u : State} → IsQuiet s t → IsQuiet t u → IsQuiet s u
IsQuiet-trans a b = record {
  same_calls = b.same_calls ∙ a.same_calls;
  same_stream = b.same_stream ∙ a.same_stream;
  same_writer = b.same_writer ∙ a.same_writer;
  same_request = b.same_request ∙ a.same_request;
}

-- However an application uses its Context and its Responses, it sends nothing to the connection,
-- leaves the StreamWriter's accounting as it was, and the Context keeps its writer and request.
pub play-IsQuiet :
    (p : Platform) (ops : List Op) (session : Session) → IsQuiet session.1 (play p ops session).1
unfolding play
play-IsQuiet p [] session = record {
  same_calls = refl;
  same_stream = refl;
  same_writer = refl;
  same_request = refl;
}
play-IsQuiet p (op ∷ ops) session =
    IsQuiet-trans (step-IsQuiet p op session) (play-IsQuiet p ops (step p op session))
