-- ===== src/Main/Serving.antt =====
-- What holds once `main` of src/main.rs serves requests.
use realtime_ingestion.Base.{
  ℕ, ◌≡◌, refl, sym, ap, ◌∙◌, subst, false, Option, none, some, is_empty, All, unwrap_or, inl, inr,
  Option-cases,
}
use realtime_ingestion.Text.{Text}
use realtime_ingestion.External.{Result, ok, err, Io, pure, continue-ok, ◌>>=◌}
use realtime_ingestion.Config.{Config}
use realtime_ingestion.Config.Load.{Env, IpParser, from_env}
use realtime_ingestion.Config.Load.Numbers.{from_env-IsRead}
use realtime_ingestion.Dedup.{DedupChecker}
use realtime_ingestion.Producer.{Producer}
use realtime_ingestion.Producer.Connect.{AmqpSetup, connect}
use realtime_ingestion.Producer.Connect.Topology.{topology, SetupLaws, connect-topology}
use realtime_ingestion.Receiver.{AppState, Response}
use realtime_ingestion.Http.{Axum, Governor, Handler, event, app}
use realtime_ingestion.Http.Access.{Admitted, app-Admitted}
use realtime_ingestion.Main.{Opener, Server, queues, new_checker, listen, set_up, main}

module _ {W C Json Req A : Type 0} (opener : Opener W) (setup : AmqpSetup W)
    (laws : SetupLaws setup) (axum : Axum Req A Json) (governor : Governor W)
    (services : AppState W C Json) where
  -- A server that was set up, with the world that it bound its socket in.
  pub record Serving (server : Server W C Json Req A) (w' : W) : Type 0 where
    pub before : W
    pub bound : opener.bind server.config.server_addr before ≡ (ok tt, w')
    pub ttl : server.state.dedup.ttl_secs ≡ server.config.dedup_ttl_secs
    pub exchange : server.state.producer.exchange ≡ server.config.exchange_name
    pub confirming : laws.confirming before
    pub declared :
        All
          (laws.has before)
          (topology server.config.exchange_name (queues server.config) server.config.dlq_exchange)
    pub handles : app axum server.state governor server.config ≡ some server.handler

  server_of : Server W C Json Req A → Option (Server W C Json Req A) → Server W C Json Req A
  server_of d (some s) = s
  server_of d none = d

  result_of :
      Option (Server W C Json Req A)
      → Result (Option (Server W C Json Req A)) × W
      → Option (Server W C Json Req A)
  result_of d (ok o, w) = o
  result_of d (err e, w) = d

  listen-ok :
      (cfg : Config) (state : AppState W C Json) (o : Option (Handler W Req A)) (w : W)
      {server : Server W C Json Req A} {w' : W}
      → listen opener cfg state o w ≡ (ok (some server), w')
      → (opener.bind cfg.server_addr w ≡ (ok tt, w'))
        × ((h : Handler W Req A) × (o ≡ some h)
            × (record { config = cfg; state = state; handler = h } ≡ server))
  unfolding listen server_of result_of
  listen-ok cfg state none w h = absurd (cc h)
  listen-ok cfg state (some f) w {server} {w'} h =
      let last : Unit {0} → Io W (Option (Server W C Json Req A)) =
        λ l. pure (some (record { config = cfg; state = state; handler = f })) in
      let (u, v, bound, rest) = continue-ok (opener.bind cfg.server_addr w) last h in
      (
        bound ∙ ap (λ (x : Result (Option (Server W C Json Req A)) × W). (ok tt, x.1)) rest,
        (f, refl, ap (λ x. server_of server (result_of none x)) rest),
      )

  new_checker-ttl :
      (redis_url : Text) (ttl_secs : ℕ) (w : W) {d : DedupChecker} {w' : W}
      → new_checker opener redis_url ttl_secs w ≡ (ok d, w')
      → d.ttl_secs ≡ ttl_secs
  unfolding new_checker
  new_checker-ttl redis_url ttl_secs w {d} h =
      let (u, v, opened, rest) =
        continue-ok (opener.redis redis_url w) (λ c. pure (record { ttl_secs = ttl_secs })) h in
      sym (ap ttl_of rest)
    where
      ttl_of : Result DedupChecker × W → ℕ
      ttl_of (ok c, x) = c.ttl_secs
      ttl_of (err e, x) = ttl_secs

  set_up-Serving :
      (cfg : Config) (w : W) (server : Server W C Json Req A) (w' : W)
      → set_up opener setup axum governor services cfg w ≡ (ok (some server), w')
      → (server.config ≡ cfg) × Serving server w'
  unfolding set_up
  set_up-Serving cfg w server w' h =
      let built : DedupChecker → Producer → AppState W C Json =
        λ d p. record services { dedup = d; producer = p } in
      let last : DedupChecker → Producer → Io W (Option (Server W C Json Req A)) =
        λ d p. listen opener cfg (built d p) (app axum (built d p) governor cfg) in
      let producer : Io W Producer =
        connect setup cfg.rabbitmq_url cfg.exchange_name (queues cfg) cfg.dlq_exchange in
      let (d, v1, e1, h1) =
        continue-ok (new_checker opener cfg.redis_url cfg.dedup_ttl_secs w)
          (λ d. producer >>= last d) h in
      let (p, v2, e2, h2) = continue-ok (producer v1) (last d) h1 in
      let (bound, (f, handles, same)) =
        listen-ok cfg (built d p) (app axum (built d p) governor cfg) v2 h2 in
      let (exchange, confirming, declared) =
        connect-topology setup laws cfg.rabbitmq_url cfg.exchange_name (queues cfg) cfg.dlq_exchange
          v1 v2 p e2 in
      subst (λ s. (s.config ≡ cfg) × Serving s w') same
        (
          refl,
          record {
            before = v2;
            bound = bound;
            ttl = new_checker-ttl cfg.redis_url cfg.dedup_ttl_secs w e1;
            exchange = exchange;
            confirming = confirming;
            declared = declared;
            handles = handles;
          },
        )

  run_of :
      (env : Env) (parse_ip : IpParser) (w : W) (cfg : Config)
      → from_env env parse_ip ≡ some cfg
      → main opener setup axum governor services env parse_ip w
        ≡ some (set_up opener setup axum governor services cfg w)
  unfolding main
  run_of env parse_ip w cfg h = rw (h, main) refl

  main-loaded :
      (env : Env) (parse_ip : IpParser) (w : W) (x : Result (Option (Server W C Json Req A)) × W)
      → main opener setup axum governor services env parse_ip w ≡ some x
      → (cfg : Config) × (from_env env parse_ip ≡ some cfg)
        × (set_up opener setup axum governor services cfg w ≡ x)
  unfolding main
  main-loaded env parse_ip w x h = elim (Option-cases (from_env env parse_ip)) [
    | inl panics ↦ absurd (cc (sym (stops panics) ∙ h))
    | inr (cfg, loaded) ↦
        (cfg, loaded, ap (λ o. unwrap_or o x) (sym (run_of env parse_ip w cfg loaded) ∙ h))
  ]
    where
      stops :
          from_env env parse_ip ≡ none
          → main opener setup axum governor services env parse_ip w ≡ none
      stops q = rw (q, main) refl

  -- Once `main` serves requests: its configuration is that of the environment, with the time to
  -- live, the exchange and the queues used as configured; the topology was declared and the channel
  -- is in confirm mode before the socket was bound; and `handle_event` answers only a request that
  -- is within the quota of its address and has a header with the bytes of the key, which is not
  -- empty, whatever the request and the world.
  pub main-Serving :
      (env : Env) (parse_ip : IpParser) (w : W) (server : Server W C Json Req A) (w' : W)
      → main opener setup axum governor services env parse_ip w ≡ some (ok (some server), w')
      → (from_env env parse_ip ≡ some server.config)
        × (is_empty server.config.api_key ≡ false)
        × Serving server w'
        × ((req : Req) (v v' : W) (r : Response)
            → server.handler req v ≡ (some (event r), v')
            → Admitted axum governor server.state server.config req v r v')
  main-Serving env parse_ip w server w' h =
      let (cfg, loaded, run) = main-loaded env parse_ip w (ok (some server), w') h in
      let (same, serving) = set_up-Serving cfg w server w' run in
      let load = loaded ∙ ap some (sym same) in
      let (read, (given, ne)) = from_env-IsRead env parse_ip server.config load in
      (
        load,
        ne,
        serving,
        λ req v v' r answered.
            app-Admitted axum governor server.state server.config server.handler serving.handles req
              v r v' ne answered,
      )
