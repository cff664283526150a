-- ===== src/Intake/Work.antt =====
-- All that the receiver of src/main.rs does to its services: requests through the router, and reads
-- on any number of connections of src/tcp_listener.rs, in any order.
use realtime_ingestion.Base.{
  ℕ, ◌+◌, ◌*◌, ◌≤◌, ◌<◌, ◌≡◌, refl, sym, subst, Option, none, some, inl, inr, Bool-cases,
  Option-cases, unwrap_or,
}
use realtime_ingestion.Text.{Text, as_bytes}
use realtime_ingestion.External.{RedisLaws, Socket}
use realtime_ingestion.Config.{Config}
use realtime_ingestion.Receiver.{AppState, Response, handle_event}
use realtime_ingestion.Http.{
  Route, events, health_route, events_other_method, health_other_method, no_route, Axum, Governor,
  Handler, answer, event_reply, api_key_middleware, rate_limit_middleware, post_event, routes, app,
  Quota, unspecified,
}
use realtime_ingestion.Http.Layers.{quota, app-some, given, conforming, exceeded}
use realtime_ingestion.Intake.Reads.{SocketLaws, Served-trans, on_read-Served}
use realtime_ingestion.Http.Key.{constant_time_eq}
use realtime_ingestion.Tcp.Connection.{Read, Connection, serve, on_read}
use realtime_ingestion.Intake.{Quiet, PublishLaws, count, Served, done, wait}
use realtime_ingestion.Intake.Once.{Served-once}

module _ {W C Json Req A : Type 0} (state : AppState W C Json) (redis : RedisLaws state.redis)
    (laws : PublishLaws state redis) (socket : Socket W) (axum : Axum Req A Json)
    (governor : Governor W) where
  -- The limiter touches neither Redis nor the queue.
  pub record LimiterLaws : Type 0 where
    pub check_quiet :
        (q : Quota) (ip : ℕ) (w : W) → Quiet state redis w (governor.check_key q ip w).1
    pub check_sent :
        (q : Quota) (ip : ℕ) (w : W) → laws.sent (governor.check_key q ip w).1 ≡ laws.sent w

  module _ (outlet : SocketLaws state redis laws socket) (limits : LimiterLaws)
      (max_frame_bytes : ℕ) where
    abbrev Serves : W → W → Type 0
    Serves w v = Served state redis laws w v

    event_reply-world : (r : Option Response × W) → (event_reply {A = A} r).1 ≡ r.1
    event_reply-world (none, w) = refl
    event_reply-world (some r, w) = refl

    post_event-Served :
        (limit : ℕ) (req : Req) (w : W) → Serves w (post_event axum state limit req w).1
    unfolding post_event
    post_event-Served limit req w = elim (Option-cases (axum.json_body limit req)) [
      | inl rejected ↦ rw (rejected, post_event) Served.done
      | inr (e, body) ↦
          rw (body, post_event)
            (subst (Serves w) (sym (event_reply-world (handle_event state e w)))
              (Served.on_event e Served.done))
    ]

    api_key-Served :
        (key : Text) (next : Handler W Req A) (req : Req) (w : W)
        → Serves w (next req w).1
        → Serves w (api_key_middleware axum key next req w).1
    unfolding api_key_middleware
    api_key-Served key next req w s =
        elim (Bool-cases (constant_time_eq (as_bytes (given axum req)) (as_bytes key))) [
          | inl same ↦ rw same s
          | inr other ↦ rw other Served.done
        ]

    routes-Served :
        (key : Text) (limit : ℕ) (req : Req) (w : W) (x : Route)
        → axum.route req ≡ x
        → Serves w (routes axum state key limit req w).1
    unfolding routes
    routes-Served key limit req w events q =
        rw (q, routes)
          (api_key-Served key (post_event axum state limit) req w (post_event-Served limit req w))
    routes-Served key limit req w events_other_method q =
        rw (q, routes) (api_key-Served key (answer axum.method_not_allowed) req w Served.done)
    routes-Served key limit req w health_route q = rw (q, routes) Served.done
    routes-Served key limit req w health_other_method q = rw (q, routes) Served.done
    routes-Served key limit req w no_route q = rw (q, routes) Served.done

    limit-Served :
        (q : Quota) (next : Handler W Req A) (req : Req) (w : W)
        → ((v : W) → Serves v (next req v).1)
        → Serves w (rate_limit_middleware axum governor q next req w).1
    limit-Served q next req w s =
        let ip = unwrap_or (axum.peer req) unspecified in
        let r = governor.check_key q ip w in
        elim (Bool-cases r.0) [
          | inl passes ↦
              rw (conforming axum governor q next req w passes)
                (wait (limits.check_quiet q ip w) (limits.check_sent q ip w) (s r.1))
          | inr stops ↦
              rw (exceeded axum governor q next req w stops)
                (wait (limits.check_quiet q ip w) (limits.check_sent q ip w) done)
        ]

    app-Served :
        (cfg : Config) (handler : Handler W Req A) (req : Req) (w : W)
        → app axum state governor cfg ≡ some handler
        → Serves w (handler req w).1
    app-Served cfg handler req w built =
        let next = routes axum state cfg.api_key cfg.http_max_body_bytes in
        subst (λ (h : Handler W Req A). Serves w (h req w).1)
          (sym (app-some axum governor state cfg built))
          (limit-Served (quota cfg) next req w
            (λ v. routes-Served cfg.api_key cfg.http_max_body_bytes req v (axum.route req) refl))

    -- A request through the router, a read on a connection whatever its buffer holds, and time that
    -- passes.
    pub data Work (handler : Handler W Req A) : W → W → Type 0 where
      idle : {w : W} → Work handler w w
      request : {w v : W} (req : Req) → Work handler (handler req w).1 v → Work handler w v
      read :
          {w v : W} (c : Connection W) (r : Read)
          → c.world ≡ w
          → Work handler (on_read (serve state socket) max_frame_bytes r c).1.world v
          → Work handler w v
      pass :
          {w w' v : W}
          → Quiet state redis w w'
          → laws.sent w' ≡ laws.sent w
          → Work handler w' v
          → Work handler w v

    Work-Served :
        (cfg : Config) (handler : Handler W Req A) {w v : W}
        → app axum state governor cfg ≡ some handler
        → Work handler w v
        → Serves w v
    Work-Served cfg handler built idle = done
    Work-Served cfg handler built (request {w} req rest) =
        Served-trans state redis laws socket outlet max_frame_bytes
          (app-Served cfg handler req w built) (Work-Served cfg handler built rest)
    Work-Served cfg handler {v = v} built (read c r e rest) =
        subst (λ x. Serves x v) e
          (Served-trans state redis laws socket outlet max_frame_bytes
            (on_read-Served state redis laws socket outlet max_frame_bytes r c)
            (Work-Served cfg handler built rest))
    Work-Served cfg handler built (pass q e rest) = wait q e (Work-Served cfg handler built rest)

    -- However requests through the router and reads on any number of connections follow one another,
    -- whatever they bring, and whether Redis, the broker and the sockets answer or fail: in any
    -- stretch of time shorter than the time to live, at most one message of an event is published.
    -- This holds for services that keep their marks and their queues apart, and calls that run one
    -- at a time.
    pub Work-once :
        (cfg : Config) (handler : Handler W Req A) (i : Text) {w v : W}
        → app axum state governor cfg ≡ some handler
        → Work handler w v
        → redis.now v < redis.now w + 1000 * state.dedup.ttl_secs
        → count state redis laws i v ≤ count state redis laws i w + 1
    Work-once cfg handler i built work h =
        Served-once state redis laws i (Work-Served cfg handler built work) h
