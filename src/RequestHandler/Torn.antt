-- ===== src/RequestHandler/Torn.antt =====
-- The request struct of a binder that lost the race with the timeout, which goes on writing it.
use go_httpserver.Base.{
  ◌≡◌, ap, sym, Option, ◌∙◌, ◌⊎◌, inl, inr, refl, arith, Bool, true, false, ⊤, is_some, Bool-cases,
  String, none, some, if◌then◌else◌,
}
use go_httpserver.Effect.{Action, Error, Outcome, returned, panicked, continue}
use go_httpserver.State.{Request, State, M, Reader}
use go_httpserver.Tags.{RequestTags, header, cookie, query, url}
use go_httpserver.Bind.{
  bind_header, bind_cookie, bind_query, bind_url, bind_body_of_type, bind_media_type, parse_body,
  stage, parse,
}
use go_httpserver.Bind.Body.{
  bind_full_text_body, bind_form, bind_json, charset_reader, race_binder, bind_reader,
}
use go_httpserver.Bind.Library.{
  BindLibrary, Result, Race, Params, binder_done, client_gone, timed_out,
}
use go_httpserver.RequestHandler.{with_struct, handle_parsed, handle_defaulted, request_handler}
use go_httpserver.RequestHandler.Guards.{asks_then_binds}

-- Two races with the same end, between which only what the binder wrote after it was given up
-- may differ.
pub data EndsAlike {V : Type 0} : Race V → Race V → Type 0 where
  both_done : EndsAlike binder_done binder_done
  both_gone : (torn torn' : V → V) → EndsAlike (client_gone torn) (client_gone torn')
  both_timed_out : (torn torn' : V → V) → EndsAlike (timed_out torn) (timed_out torn')

abbrev HasFailed : Outcome Result → Type 0
HasFailed (returned r) = is_some r.error ≡ true
HasFailed (panicked e) = ⊤

-- The same result, and the same struct unless binding failed.
abbrev IsAlike : {V : Type 0} → Outcome Result × V → Outcome Result × V → Type 0
IsAlike p q = (p ≡ q) ⊎ (p.0 ≡ q.0) × HasFailed q.0

stage-IsAlike :
    {V : Type 0} (on : Bool) (m rest rest' : Action V Result)
    → ((v : V) → IsAlike (rest v) (rest' v))
    → (v : V) → IsAlike (stage on m rest v) (stage on m rest' v)
unfolding stage
stage-IsAlike false m rest rest' h v = h v
stage-IsAlike {V} true m rest rest' h v = after (m v).0 (m v).1
  where
    after :
        (r : Outcome Result) (v' : V)
        → IsAlike
            (continue r (λ a. if is_some a.error then (λ u. (returned a, u)) else rest) v')
            (continue r (λ a. if is_some a.error then (λ u. (returned a, u)) else rest') v')
    after (panicked e) v' = inl refl
    after (returned r) v' = elim (Bool-cases (is_some r.error)) [
      | inl failed ↦ rw failed (inl refl)
      | inr fine ↦ rw fine (h v')
    ]

race_binder-IsAlike :
    {V : Type 0} (lib : BindLibrary V) (bound : Action V Result) (race race' : Race V)
    → EndsAlike race race'
    → (v : V) → IsAlike (race_binder lib bound race v) (race_binder lib bound race' v)
race_binder-IsAlike lib bound _ _ both_done v = inl refl
race_binder-IsAlike lib bound _ _ (both_gone torn torn') v = inr (refl, refl)
race_binder-IsAlike lib bound _ _ (both_timed_out torn torn') v = inr (refl, refl)

module _ {V : Type 0} (lib : BindLibrary V) (tags : RequestTags) (request : Request)
    (race race' : Race V) (alike : EndsAlike race race') where
  bind_full_text_body-IsAlike :
      (params : Params) (binder : Reader → Action V Result) (v : V)
      → IsAlike
          (bind_full_text_body lib request params binder race v)
          (bind_full_text_body lib request params binder race' v)
  unfolding bind_full_text_body
  bind_full_text_body-IsAlike params binder v = ground (
    arith,
    race_binder-IsAlike lib (bind_reader lib binder (charset_reader lib request.body params)) race
        race' alike v,
  )

  bind_body_of_type-IsAlike :
      (content_type : String) (params : Params) (v : V)
      → IsAlike
          (bind_body_of_type lib tags request race content_type params v)
          (bind_body_of_type lib tags request race' content_type params v)
  unfolding bind_body_of_type
  bind_body_of_type-IsAlike content_type params v = ground (
    arith,
    bind_full_text_body-IsAlike params (bind_form lib tags) v,
    bind_full_text_body-IsAlike params (bind_json lib tags) v,
  )

  bind_media_type-IsAlike :
      (m : (String × Params) ⊎ Error) (v : V)
      → IsAlike
          (bind_media_type lib tags request race m v)
          (bind_media_type lib tags request race' m v)
  unfolding bind_media_type
  bind_media_type-IsAlike (inl (content_type, params)) v =
      bind_body_of_type-IsAlike content_type params v
  bind_media_type-IsAlike (inr err) v = inl refl

  parse_body-IsAlike :
      (v : V) → IsAlike (parse_body lib tags request race v) (parse_body lib tags request race' v)
  unfolding parse_body
  parse_body-IsAlike v = ground (
    arith,
    bind_media_type-IsAlike (lib.parse_media_type (lib.header_get "Content-Type" request.header)) v,
  )

  parse-IsAlike : (v : V) → IsAlike (parse lib tags request race v) (parse lib tags request race' v)
  unfolding parse
  parse-IsAlike = stage-IsAlike (tags.flags header) (bind_header lib tags request) _ _ (
      stage-IsAlike (tags.flags cookie) (bind_cookie lib tags request) _ _ (
        stage-IsAlike (tags.flags query) (bind_query lib tags request) _ _
          (stage-IsAlike (tags.flags url) (bind_url lib tags request) _ _ parse_body-IsAlike)))

module _ {V : Type 0} (lib : BindLibrary V) (tags : RequestTags) (zero : V) (race race' : Race V)
    (traces : Bool) (next : V → M ⊤) (s : State) where
  fails_alike :
      (o : Outcome Result) (v v' : V)
      → HasFailed o
      → continue (with_struct o v) (handle_parsed lib tags zero race traces next) s
        ≡ continue (with_struct o v') (handle_parsed lib tags zero race' traces next) s
  unfolding handle_parsed
  fails_alike (returned r) v v' failed = rw failed refl
  fails_alike (panicked e) v v' failed = refl

  handle_parsed-same :
      (p q : Outcome Result × V)
      → IsAlike p q
      → continue (with_struct p.0 p.1) (handle_parsed lib tags zero race traces next) s
        ≡ continue (with_struct q.0 q.1) (handle_parsed lib tags zero race' traces next) s
  unfolding handle_parsed
  handle_parsed-same p q (inl same) =
      ap (λ x. continue (with_struct x.0 x.1) (handle_parsed lib tags zero race traces next) s) same
  handle_parsed-same (o, v) (o', v') (inr (same, failed)) =
      ap (λ x. continue (with_struct x v) (handle_parsed lib tags zero race traces next) s) same
      ∙ fails_alike o' v v' failed

  handle_defaulted-same :
      (o : Outcome (Option Error)) (v : V) (request : Request)
      → EndsAlike race race'
      → continue (with_struct o v) (handle_defaulted lib tags zero race traces next request) s
        ≡ continue (with_struct o v) (handle_defaulted lib tags zero race' traces next request) s
  unfolding handle_defaulted
  handle_defaulted-same (panicked e) v request alike = refl
  handle_defaulted-same (returned (some err)) v request alike = refl
  handle_defaulted-same (returned none) v request alike =
      handle_parsed-same (parse lib tags request race v) (parse lib tags request race' v)
        (parse-IsAlike lib tags request race race' alike v)

  -- On a Context with its request: once binding was given up, as the client was gone or the time was
  -- up, nothing that its binder still writes to the request struct is observed: the handler's outcome and the
  -- state after it are the same whatever it writes.
  pub request_handler_ignores_torn :
      (request : Request)
      → s.context.request ≡ some request
      → EndsAlike race race'
      → request_handler lib tags zero race traces next s
        ≡ request_handler lib tags zero race' traces next s
  request_handler_ignores_torn request asked alike =
      asks_then_binds lib tags zero race traces next s request asked
      ∙ handle_defaulted-same (lib.apply_defaults zero).0 (lib.apply_defaults zero).1 request alike
      ∙ sym (asks_then_binds lib tags zero race' traces next s request asked)
