-- ===== src/Response.antt =====
-- response.go: the handle by which a handler builds its response.
use go_httpserver.Base.{ℕ, not, ◌||◌, ◌==◌, Option, none, some, List, [], ⊤, if◌then◌else◌}
use go_httpserver.Base.Int.{ℤ}
use go_httpserver.Effect.{
  bug, nil_dereference, pure, panic, gets, modify, returned, panicked, ◌>>=◌, ◌>>◌,
}
use go_httpserver.State.{
  Header, Stream, Body, bytes, string, stream, direct, json, Marshaller, M, Platform,
}
use go_httpserver.Context.{Response, on_context, is_nil, writer_header}

unfoldable pub check : Response → M ⊤
check r s =
    if not r.ctx || not (r.ticket == s.context.ticket)
    then (panicked (bug "BUG: stale response handle"), s)
    else (returned tt, s)

-- `r.ctx.…`, which faults on the zero Response.
abbrev on_ctx : {A : Type 0} → Response → M A → M A
on_ctx r m = if r.ctx then m else panic nil_dereference

unfoldable pub status : Response → M ℤ
status r = on_ctx r (gets (λ s. s.context.status))

unfoldable pub header : Response → M Header
unfolding writer_header
header r = on_ctx r writer_header

-- Any use of the map that `Header` returns.
unfoldable pub change_header : (Header → Header) → Response → M ⊤
unfolding header
change_header f r = do header r; modify (λ s. record s { header = f s.header })

unfoldable pub body : Response → M Body
body r = on_ctx r (gets (λ s. s.context.body))

abbrev set_body : Body → Marshaller → M ⊤
set_body b m = modify (on_context λ c. record c { body = b; marshaller = m })

unfoldable pub bytes_body : Response → List ℕ → M ⊤
unfolding check
bytes_body r b = do check r; set_body (bytes b) direct

unfoldable pub string_body : Response → List ℕ → M ⊤
unfolding check
string_body r b = do check r; set_body (string b) direct

unfoldable pub stream_body : Response → Stream → M ⊤
unfolding check
stream_body r b = do check r; set_body (stream b) direct

unfoldable pub json_body : Response → Body → M ⊤
unfolding check
json_body r b = do check r; set_body b json

module _ (p : Platform) where
  unfoldable pub cookie : Response → ℕ → M ⊤
  unfolding check change_header
  cookie r c = do check r; change_header (p.header_add "Set-Cookie" (p.cookie_string c)) r

  unfoldable pub plain_text_body : Response → List ℕ → M ⊤
  unfolding check change_header
  plain_text_body r b = do
    check r
    change_header (p.header_set "Content-Type" "text/plain; charset=utf-8") r
    set_body (string b) direct

  unfoldable pub octets_body : Response → List ℕ → M ⊤
  unfolding check change_header
  octets_body r b = do
    check r
    change_header (p.header_set "Content-Type" "application/octet-stream") r
    set_body (bytes b) direct

-- What MarshalZerologObject adds to a log event; `none` is the empty object.
pub record LogObject : Type 0 where
  pub status : ℤ
  pub header : Option Header
  pub body : Option Body

abbrev pub non_empty : Header → Option Header
non_empty [] = none
non_empty h = some h

unfoldable pub marshal_zerolog_object : Response → M (Option LogObject)
unfolding writer_header
marshal_zerolog_object r = if not r.ctx then pure none else do
  header ← writer_header
  gets (λ s. some (record {
    status = s.context.status;
    header = non_empty header;
    body = if is_nil s.context.body then none else some s.context.body;
  }))
