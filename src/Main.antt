-- ===== src/Main.antt =====
-- src/main.rs, from the environment to the HTTP server and the TCP task. The services that the
-- program opens are parameters: a URL that is opened, or an address that is bound, or an error.
pub mod Serving
pub mod Terminals
use realtime_ingestion.Base.{
  ℕ, Bool, true, false, Option, none, some, List, [], ◌∷◌, ◌++◌, is_some, if◌then◌else◌,
}
use realtime_ingestion.Text.{Text}
use realtime_ingestion.External.{Result, ok, err, Io, pure, continue, ◌>>=◌}
use realtime_ingestion.Config.{Config}
use realtime_ingestion.Config.Load.{Env, IpParser, from_env}
use realtime_ingestion.Dedup.{DedupChecker}
use realtime_ingestion.Producer.{Producer}
use realtime_ingestion.Producer.Connect.{AmqpSetup, connect}
use realtime_ingestion.Receiver.{AppState}
use realtime_ingestion.Telegram.{HttpClient, Notifier}
use realtime_ingestion.Http.{Axum, Governor, Handler, app}
use realtime_ingestion.Tcp.Listener.{ErrorLib, TaskEvent, Listener, start}

unfoldable pub notifier : Config → Option Notifier
notifier cfg = elim (cfg.telegram_bot_token) [
  | none ↦ none
  | some token ↦ elim (cfg.telegram_chat_id) [
    | none ↦ none
    | some chat_id ↦ some (record { bot_token = token; chat_id = chat_id })
  ]
]

-- The queues that are declared, each with its dead letter queue.
unfoldable pub queues : Config → List (Text × Text)
queues cfg =
    if is_some cfg.postgres_url
    then (cfg.mysql_queue, cfg.mysql_dlq_queue) ∷ (cfg.postgres_queue, cfg.postgres_dlq_queue) ∷ []
    else (cfg.mysql_queue, cfg.mysql_dlq_queue) ∷ []

-- Redis and sockets: `Client::open` with `ConnectionManager::new`, and `TcpListener::bind`.
pub record Opener (W : Type 0) : Type 0 where
  pub redis : Text → Io W (Unit {0})
  pub bind : Text → Io W (Unit {0})

-- What serves requests in the end.
pub record Server (W C Json Req A : Type 0) : Type 0 where
  pub config : Config
  pub state : AppState W C Json
  pub handler : Handler W Req A

module _ {W : Type 0} (opener : Opener W) where
  -- `DedupChecker::new`
  unfoldable pub new_checker : Text → ℕ → Io W DedupChecker
  new_checker redis_url ttl_secs = do
    conn ← opener.redis redis_url
    pure (record { ttl_secs = ttl_secs })

module _ {W C Json Req A : Type 0} (opener : Opener W) where
  -- The router, and the socket it is served on; `none` is the panic of `new_rate_limiter`.
  unfoldable pub listen :
      Config → AppState W C Json → Option (Handler W Req A) → Io W (Option (Server W C Json Req A))
  listen cfg state none = pure none
  listen cfg state (some handler) = do
    listener ← opener.bind cfg.server_addr
    pure (some (record { config = cfg; state = state; handler = handler }))

module _ {W C Json Req A : Type 0} (opener : Opener W) (setup : AmqpSetup W)
    (axum : Axum Req A Json) (governor : Governor W) (services : AppState W C Json) where
  -- The state is shared with the TCP task. `services` are Redis, the channel, and the libraries.
  unfoldable pub set_up : Config → Io W (Option (Server W C Json Req A))
  unfolding new_checker connect queues app listen
  set_up cfg = do
    dedup ← new_checker opener cfg.redis_url cfg.dedup_ttl_secs
    producer ← connect setup cfg.rabbitmq_url cfg.exchange_name (queues cfg) cfg.dlq_exchange
    listen opener cfg (record services { dedup = dedup; producer = producer })
        (app axum (record services { dedup = dedup; producer = producer }) governor cfg)

  -- `none` is the panic of `from_env`.
  unfoldable pub main : Env → IpParser → W → Option (Result (Option (Server W C Json Req A)) × W)
  unfolding from_env set_up
  main env parse_ip w = elim (from_env env parse_ip) [
    | none ↦ none
    | some cfg ↦ some (set_up cfg w)
  ]

module _ {W E : Type 0} (client : HttpClient W) (errors : ErrorLib E) where
  -- The loop of the TCP task, along the runs of `start`: whether it can bind, and what happens. The
  -- addresses of the connections that are open, those of the latest run first, and the world. A run that has
  -- not returned is the last.
  unfoldable pub tcp_task : Config → List (Bool × List (TaskEvent E)) → List ℕ → W → List ℕ × W
  unfolding start notifier
  tcp_task cfg [] left w = (left, w)
  tcp_task cfg ((bound, es) ∷ runs) left w =
      elim (start client errors (notifier cfg) bound cfg.allowed_ips cfg.tcp_max_connections
        cfg.tcp_max_conn_per_ip left es w) [
          | none ↦ tcp_task cfg runs left w
          | some (over, l) ↦
              let rest = tcp_task cfg runs (l.tasks ++ l.left) l.world in
              if over then rest else (l.tasks ++ l.left, l.world)
        ]
