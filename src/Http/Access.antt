-- ===== src/Http/Access.antt =====
-- Which requests get past the layers of `main`, src/main.rs.
use realtime_ingestion.Base.{
  ℕ, ◌≡◌, refl, sym, ap, ap₂, ◌∙◌, Bool, true, false, Option, none, some, [], unwrap_or, is_empty,
  inl, inr, ◌⊎◌, Bool-cases, Option-cases,
}
use realtime_ingestion.Text.{Text, codes, as_bytes}
use realtime_ingestion.Models.{IncomingEvent}
use realtime_ingestion.Config.{Config}
use realtime_ingestion.Receiver.{AppState, Response, handle_event}
use realtime_ingestion.Http.{
  event_reply, answer, health_check, Reply, plain, event, axum_reply, Route, events, health_route,
  events_other_method, health_other_method, no_route, Axum, Governor, Handler, provided_key,
  api_key_middleware, rate_limit_middleware, post_event, routes, app,
}
use realtime_ingestion.Http.Layers.{
  quota, checked, app-some, as_bytes-empty, conforming, exceeded, rate_limit-passed, given,
  api_key-denied, api_key-passed,
}

response_of : {W A : Type 0} → Response → Option (Reply A) × W → Response
response_of d (some (event r), w) = r
response_of d _ = d

event_reply-event :
    {W A : Type 0} (x : Option Response × W) {r : Response} {w' : W}
    → event_reply {A = A} x ≡ (some (event r), w')
    → x ≡ (some r, w')
unfolding response_of
event_reply-event (none, v) h = absurd (cc h)
event_reply-event {W} {A} (some q, v) {r} {w'} h =
    ap₂ (λ (a : Response) (b : W). (some a, b)) (ap (response_of q) h)
      (ap (λ (x : Option (Reply A) × W). x.1) h)

module _ {W Req A Json C : Type 0} (axum : Axum Req A Json) (state : AppState W C Json) where
  post_event-handled :
      (limit : ℕ) (req : Req) (w : W) {r : Response} {w' : W}
      → post_event axum state limit req w ≡ (some (event r), w')
      → (e : IncomingEvent Json) × (axum.json_body limit req ≡ some e)
        × (handle_event state e w ≡ (some r, w'))
  unfolding post_event
  post_event-handled limit req w {r} {w'} h = elim (Option-cases (axum.json_body limit req)) [
    | inl rejected ↦ absurd (cc (sym (rejects rejected) ∙ h))
    | inr (e, body) ↦
        (e, body, event_reply-event (handle_event state e w) (sym (handles e body) ∙ h))
  ]
    where
      rejects :
          axum.json_body limit req ≡ none
          → post_event axum state limit req w ≡ (some (axum_reply (axum.rejection limit req)), w)
      rejects q = rw (q, post_event) refl

      handles :
          (e : IncomingEvent Json)
          → axum.json_body limit req ≡ some e
          → post_event axum state limit req w ≡ event_reply (handle_event state e w)
      handles e q = rw (q, post_event) refl

  module _ (key : Text) (limit : ℕ) (req : Req) (w : W) where
    to_events :
        axum.route req ≡ events
        → routes axum state key limit req w
          ≡ api_key_middleware axum key (post_event axum state limit) req w
    unfolding routes
    to_events q = rw (q, routes) refl

    to_other_method :
        axum.route req ≡ events_other_method
        → routes axum state key limit req w
          ≡ api_key_middleware axum key (answer axum.method_not_allowed) req w
    unfolding routes
    to_other_method q = rw (q, routes) refl

    -- Only the handler of `/events` answers with its own kind of reply.
    routes-events :
        {r : Response} {w' : W} (x : Route)
        → axum.route req ≡ x
        → routes axum state key limit req w ≡ (some (event r), w')
        → (axum.route req ≡ events)
          × (api_key_middleware axum key (post_event axum state limit) req w ≡ (some (event r), w'))
    unfolding routes health_check
    routes-events events q = λ h. (q, sym (to_events q) ∙ h)
    routes-events events_other_method q = λ h. absurd (
        cc (
          (api_key-passed axum key (answer axum.method_not_allowed) req w
            (sym (to_other_method q) ∙ h)).1))
    routes-events health_route q = rw (q, routes) (λ h. absurd (cc h))
    routes-events health_other_method q = rw (q, routes) (λ h. absurd (cc h))
    routes-events no_route q = rw (q, routes) (λ h. absurd (cc h))

-- What an answer of `handle_event` takes.
pub record Admitted {W Req A Json C : Type 0} (axum : Axum Req A Json) (governor : Governor W)
    (state : AppState W C Json) (cfg : Config) (req : Req) (w : W) (r : Response) (w' : W)
    : Type 0 where
  pub behind : W
  pub key : Text
  pub body : IncomingEvent Json
  pub within_quota : checked axum governor cfg req w ≡ (true, behind)
  pub routed : axum.route req ≡ events
  pub provided : provided_key axum req ≡ some key
  pub same_key : as_bytes key ≡ as_bytes cfg.api_key
  pub read : axum.json_body cfg.http_max_body_bytes req ≡ some body
  pub handled : handle_event state body behind ≡ (some r, w')

-- What is answered to a request without the key.
abbrev pub turned_away : {W A : Type 0} → Bool × W → Option (Reply A) × W
turned_away (true, v) = (some (plain 401 (codes "unauthorized")), v)
turned_away (false, v) = (some (plain 429 (codes "rate limit exceeded")), v)

module _ {W Req A Json C : Type 0} (axum : Axum Req A Json) (governor : Governor W)
    (state : AppState W C Json) (cfg : Config) (h : Handler W Req A)
    (built : app axum state governor cfg ≡ some h) where
  limited :
      (req : Req) (w : W)
      → h req w
        ≡ rate_limit_middleware axum governor
            (quota cfg)
            (routes axum state cfg.api_key cfg.http_max_body_bytes)
            req
            w
  limited req w = ap (λ (f : Handler W Req A). f req w) (app-some axum governor state cfg built)

  key-provided :
      (req : Req)
      → is_empty cfg.api_key ≡ false
      → as_bytes (unwrap_or (provided_key axum req) []) ≡ as_bytes cfg.api_key
      → (key : Text) × (provided_key axum req ≡ some key) × (as_bytes key ≡ as_bytes cfg.api_key)
  unfolding as_bytes
  key-provided req ne same = elim (Option-cases (provided_key axum req)) [
    | inl absent ↦ absurd (
        cc (
          ne,
          as_bytes-empty cfg.api_key
              (sym same ∙ ap (λ (o : Option Text). as_bytes (unwrap_or o [])) absent),
        ))
    | inr (key, there) ↦
        (key, there, ap (λ (o : Option Text). as_bytes (unwrap_or o [])) (sym there) ∙ same)
  ]

  -- With an API key that is not empty, `handle_event` answers only a request to its route that is
  -- within the quota of its address, has a header with the bytes of the key, and whose body is read
  -- as an event within the limit; the handler runs in the world that the limiter left.
  pub app-Admitted :
      (req : Req) (w : W) (r : Response) (w' : W)
      → is_empty cfg.api_key ≡ false
      → h req w ≡ (some (event r), w')
      → Admitted axum governor state cfg req w r w'
  app-Admitted req w r w' ne e =
      let next = routes axum state cfg.api_key cfg.http_max_body_bytes in
      let (v, passed, answered) =
        rate_limit-passed axum governor (quota cfg) next req w (sym (limited req w) ∙ e) in
      let (routed, layered) =
        routes-events axum state cfg.api_key cfg.http_max_body_bytes req v (axum.route req) refl
          answered in
      let (bytes, posted) =
        api_key-passed axum cfg.api_key (post_event axum state cfg.http_max_body_bytes) req v
          layered in
      let (key, there, same) = key-provided req ne bytes in
      let (body, read, handled) =
        post_event-handled axum state cfg.http_max_body_bytes req v posted in
      record {
        behind = v;
        key = key;
        body = body;
        within_quota = passed;
        routed = routed;
        provided = there;
        same_key = same;
        read = read;
        handled = handled;
      }

  routes-denied :
      (req : Req) (v : W)
      → (axum.route req ≡ events) ⊎ (axum.route req ≡ events_other_method)
      → (as_bytes (given axum req) ≡ as_bytes cfg.api_key → ⊥)
      → routes axum state cfg.api_key cfg.http_max_body_bytes req v
        ≡ (some (plain 401 (codes "unauthorized")), v)
  routes-denied req v routed other = elim routed [
    | inl q ↦
        to_events axum state cfg.api_key cfg.http_max_body_bytes req v q
        ∙ api_key-denied axum cfg.api_key (post_event axum state cfg.http_max_body_bytes) req v
            other
    | inr q ↦
        to_other_method axum state cfg.api_key cfg.http_max_body_bytes req v q
        ∙ api_key-denied axum cfg.api_key (answer axum.method_not_allowed) req v other
  ]

  -- A request to `/events`, with any method, without the bytes of the key changes nothing but the
  -- limiter: the answer is 429 if the limiter refuses its address, and 401 otherwise.
  pub app-turned_away :
      (req : Req) (w : W)
      → (axum.route req ≡ events) ⊎ (axum.route req ≡ events_other_method)
      → (as_bytes (given axum req) ≡ as_bytes cfg.api_key → ⊥)
      → h req w ≡ turned_away (checked axum governor cfg req w)
  app-turned_away req w routed other =
      let next = routes axum state cfg.api_key cfg.http_max_body_bytes in
      let q = quota cfg in
      let r = checked axum governor cfg req w in
      limited req w ∙ elim (Bool-cases r.0) [
        | inl passes ↦
            conforming axum governor q next req w passes
            ∙ routes-denied req r.1 routed other
            ∙ ap (λ (b : Bool). turned_away (b, r.1)) (sym passes)
        | inr stops ↦
            exceeded axum governor q next req w stops
            ∙ ap (λ (b : Bool). turned_away (b, r.1)) (sym stops)
      ]
