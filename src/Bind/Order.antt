-- ===== src/Bind/Order.antt =====
-- The order in which parse binds the sources.
use go_httpserver.Base.{
  ◌≡◌, refl, arith, Bool, true, false, is_some, Bool-cases, inl, inr, if◌then◌else◌,
}
use go_httpserver.Effect.{Action, Outcome, returned, panicked, continue}
use go_httpserver.State.{Request}
use go_httpserver.Tags.{RequestTags, header, cookie, query, url}
use go_httpserver.Bind.Library.{BindLibrary, Result, Race}
use go_httpserver.Bind.{bind_header, bind_cookie, bind_query, bind_url, parse_body, stage, parse}

-- A binder that is enabled takes one struct to another and succeeds; one that is not does not run.
abbrev pub Binds : {V : Type 0} → Bool → Action V Result → V → V → Type 0
Binds false m v v' = v' ≡ v
Binds true m v v' = (r : Result) × (m v ≡ (returned r, v')) × (is_some r.error ≡ false)

stage-Binds :
    {V : Type 0} (on : Bool) (m rest : Action V Result) (v w : V) (r : Result)
    → stage on m rest v ≡ (returned r, w)
    → is_some r.error ≡ false
    → (v' : V) × Binds on m v v' × (rest v' ≡ (returned r, w))
unfolding stage
stage-Binds false m rest v w r is fine = (v, refl, is)
stage-Binds {V} true m rest v w r is fine = after (m v).0 (m v).1 refl is
  where
    after :
        (o : Outcome Result) (v' : V)
        → m v ≡ (o, v')
        → continue o (λ a. if is_some a.error then (λ u. (returned a, u)) else rest) v'
          ≡ (returned r, w)
        → (v' : V) × Binds true m v v' × (rest v' ≡ (returned r, w))
    after (panicked e) v' ran ended = absurd (ground arith)
    after (returned a) v' ran ended = elim (Bool-cases (is_some a.error)) [
      | inl failed ↦ absurd (ground (arith, failed, ended, fine))
      | inr good ↦ (v', (a, ran, good), ground (arith, good, ended))
    ]

module _ {V : Type 0} (lib : BindLibrary V) (tags : RequestTags) (request : Request)
    (race : Race V) where
  -- The struct `v` goes through the sources in their order, and then through the body, to `w`.
  pub record InOrder (v w : V) (r : Result) : Type 0 where
    pub after_header : V
    pub after_cookie : V
    pub after_query : V
    pub after_url : V
    pub headers : Binds (tags.flags header) (bind_header lib tags request) v after_header
    pub cookies : Binds (tags.flags cookie) (bind_cookie lib tags request) after_header after_cookie
    pub queries : Binds (tags.flags query) (bind_query lib tags request) after_cookie after_query
    pub urls : Binds (tags.flags url) (bind_url lib tags request) after_query after_url
    pub bodies : parse_body lib tags request race after_url ≡ (returned r, w)

  -- When binding succeeds, each source that the tags use was bound, successfully, to the struct that the ones
  -- before it left, in the order header, cookie, query, URL, body: a later source overwrites what an earlier one
  -- wrote, none is skipped, and a source that is not used leaves the struct as it was.
  pub parse-InOrder :
      (v w : V) (r : Result)
      → parse lib tags request race v ≡ (returned r, w)
      → is_some r.error ≡ false
      → InOrder v w r
  unfolding parse
  parse-InOrder v w r is fine =
      let b = parse_body lib tags request race in
      let u = stage (tags.flags url) (bind_url lib tags request) b in
      let q = stage (tags.flags query) (bind_query lib tags request) u in
      let c = stage (tags.flags cookie) (bind_cookie lib tags request) q in
      let (v1, h1, is1) =
        stage-Binds (tags.flags header) (bind_header lib tags request) c v w r is fine in
      let (v2, h2, is2) =
        stage-Binds (tags.flags cookie) (bind_cookie lib tags request) q v1 w r is1 fine in
      let (v3, h3, is3) =
        stage-Binds (tags.flags query) (bind_query lib tags request) u v2 w r is2 fine in
      let (v4, h4, is4) =
        stage-Binds (tags.flags url) (bind_url lib tags request) b v3 w r is3 fine in
      record {
        after_header = v1;
        after_cookie = v2;
        after_query = v3;
        after_url = v4;
        headers = h1;
        cookies = h2;
        queries = h3;
        urls = h4;
        bodies = is4;
      }
