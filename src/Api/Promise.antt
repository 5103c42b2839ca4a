-- ===== src/Api/Promise.antt =====
-- What the exported methods of Context and Response (context.go, response.go) do, as a machine
-- without tickets: a promise of what is to be sent, and handles that are live or not.
use go_httpserver.Base.{
  ℕ, Bool, true, false, ◌||◌, Option, none, some, List, [], ◌∷◌, map, get_elem?, if◌then◌else◌,
}
use go_httpserver.Base.Int.{ℤ, pos, ltb_ℤ}
use go_httpserver.Effect.{Panic, bug, nil_dereference}
use go_httpserver.State.{
  Header, Takeover, Body, nil, takeover, bytes, string, stream, Marshaller, direct, json, Platform,
}
use go_httpserver.Context.{is_nil}
use go_httpserver.Response.{LogObject, non_empty}
use go_httpserver.Api.{Op}
use go_httpserver.Api

-- What is to be sent when the chain has returned.
pub data Pending : Type 0 where
  nothing : Pending
  answer : ℤ → Marshaller → Body → Pending
  taken : Takeover → Pending

-- A live handle is of the latest response; a stale one is of a response that was replaced.
pub data Handle : Type 0 where
  zero live stale : Handle

pub record Promise : Type 0 where
  pub pending : Pending
  pub header : Header
  pub handles : List Handle

-- What a call gives its caller.
pub data Reply : Type 0 where
  panics : Panic → Reply
  done : Reply
  code : ℤ → Reply
  map_of : Header → Reply
  content : Body → Reply
  flag : Bool → Reply
  log : Option LogObject → Reply

abbrev pub status_of : Pending → ℤ
status_of (answer c m b) = c
status_of _ = pos 0

abbrev pub body_of : Pending → Body
body_of nothing = nil
body_of (answer c m b) = b
body_of (taken b) = takeover b

abbrev pub is_answer : Pending → Bool
is_answer (answer c m b) = true
is_answer _ = false

abbrev pub is_taken : Pending → Bool
is_taken (taken b) = true
is_taken _ = false

abbrev with_body : Marshaller → Body → Pending → Pending
with_body m b (answer c _ _) = answer c m b
with_body m b other = other

-- A new response or takeover.
abbrev pub retired : Handle → Handle
retired zero = zero
retired _ = stale

abbrev found : Option Handle → Handle
found none = zero
found (some h) = h

abbrev pub handle_at : List Handle → ℕ → Handle
handle_at hs i = found (get_elem? hs i)

-- A read, which any handle but the zero one gives.
abbrev read : Reply → Promise → Handle → Reply × Promise
read r q zero = (panics nil_dereference, q)
read r q _ = (r, q)

-- A write by a setter, which only a live handle makes.
abbrev set : Promise → Promise → Handle → Reply × Promise
set q' q live = (done, q')
set q' q _ = (panics (bug "BUG: stale response handle"), q)

abbrev with_handle : Handle → Promise → Promise
with_handle h q = record q { handles = h ∷ q.handles }

abbrev renewed : Pending → Promise → Promise
renewed pending q = record q { pending = pending; handles = map retired q.handles }

abbrev written : Marshaller → Body → Promise → Promise
written m b q = record q { pending = with_body m b q.pending }

abbrev headed : (Header → Header) → Promise → Promise
headed f q = record q { header = f q.header }

abbrev logged : Promise → Option LogObject
logged q = some (record {
  status = status_of q.pending;
  header = non_empty q.header;
  body = if is_nil (body_of q.pending) then none else some (body_of q.pending);
})

abbrev logs : Promise → Handle → Reply × Promise
logs q zero = (log none, q)
logs q _ = (log (logged q), q)

-- A use of the header map, through any handle but the zero one.
abbrev changes : (Header → Header) → Promise → Handle → Reply × Promise
changes f q zero = (panics nil_dereference, q)
changes f q _ = (done, headed f q)

module _ (p : Platform) where
  unfoldable pub promise_step : Op → Promise → Reply × Promise
  promise_step (Api.new_response c) q =
      if ltb_ℤ c (pos 200) || ltb_ℤ (pos 599) c
      then (panics (bug "BUG: invalid status"), q)
      else (done, with_handle live (record (renewed (answer c direct nil) q) { header = [] }))
  promise_step (Api.hijack none) q = (panics (bug "BUG: nil hijack body"), q)
  promise_step (Api.hijack (some b)) q = (done, renewed (taken b) q)
  promise_step Api.response q =
      (flag (is_answer q.pending), with_handle (if is_answer q.pending then live else zero) q)
  promise_step Api.hijacked q = (flag (is_taken q.pending), q)
  promise_step Api.delegate q = (done, q)
  promise_step (Api.status i) q = read (code (status_of q.pending)) q (handle_at q.handles i)
  promise_step (Api.header i) q = read (map_of q.header) q (handle_at q.handles i)
  promise_step (Api.body i) q = read (content (body_of q.pending)) q (handle_at q.handles i)
  promise_step (Api.marshal_zerolog_object i) q = logs q (handle_at q.handles i)
  promise_step (Api.change_header f i) q = changes f q (handle_at q.handles i)
  promise_step (Api.cookie i c) q =
      set (headed (p.header_add "Set-Cookie" (p.cookie_string c)) q) q (handle_at q.handles i)
  promise_step (Api.bytes_body i b) q = set (written direct (bytes b) q) q (handle_at q.handles i)
  promise_step (Api.string_body i b) q = set (written direct (string b) q) q (handle_at q.handles i)
  promise_step (Api.plain_text_body i b) q =
      set
        (written direct (string b)
          (headed (p.header_set "Content-Type" "text/plain; charset=utf-8") q))
        q (handle_at q.handles i)
  promise_step (Api.octets_body i b) q =
      set
        (written direct (bytes b)
          (headed (p.header_set "Content-Type" "application/octet-stream") q))
        q (handle_at q.handles i)
  promise_step (Api.stream_body i b) q = set (written direct (stream b) q) q (handle_at q.handles i)
  promise_step (Api.json_body i b) q = set (written json b q) q (handle_at q.handles i)

  -- The replies to a sequence of calls, and the promise that is left.
  unfoldable pub promise_play : List Op → Promise → List Reply × Promise
  unfolding promise_step
  promise_play [] q = ([], q)
  promise_play (op ∷ ops) q =
      let (r, q') = promise_step op q in let (rs, q'') = promise_play ops q' in (r ∷ rs, q'')
