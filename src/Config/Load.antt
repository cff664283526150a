-- ===== src/Config/Load.antt =====
-- `Config::from_env` of src/config.rs.
pub mod Allowed
pub mod Numbers
pub mod Returns
use realtime_ingestion.Base.{
  ℕ, ◌-◌, ◌^◌, Bool, true, false, not, Option, none, some, List, [], ◌∷◌, ◌++◌, ◌==◌, if◌then◌else◌,
  unwrap_or, or_else, ◌>>=◌, is_empty,
}
use realtime_ingestion.Text.{Text, codes, trim, parse_unsigned}
use realtime_ingestion.Config.{Config, url_encode_password}

-- `std::env::var(name).ok()`, and `parse::<IpAddr>().ok()`.
abbrev pub Env : Type 0
Env = Text → Option Text

abbrev pub IpParser : Type 0
IpParser = Text → Option ℕ

-- `usize` and `u64` are the same numbers.
abbrev pub u64_max : ℕ
u64_max = 2 ^ 64 - 1

abbrev pub u32_max : ℕ
u32_max = 2 ^ 32 - 1

-- `Option::filter(|s| !s.is_empty())`
unfoldable pub non_empty : Option Text → Option Text
non_empty none = none
non_empty (some s) = if is_empty s then none else some s

-- `str::split(',')`: the piece that has been read comes first.
unfoldable pub split_comma : Text → Text → List Text
split_comma piece [] = piece ∷ []
split_comma piece (c ∷ t) =
    let next = split_comma [] t in
    let on = split_comma (piece ++ c ∷ []) t in if c == b',' then piece ∷ next else on

module _ (parse_ip : IpParser) where
  -- `filter_map(|s| s.trim().parse().ok())`
  unfoldable pub parse_ips : List Text → List ℕ
  parse_ips [] = []
  parse_ips (s ∷ ss) = elim (parse_ip (trim s)) [
    | none ↦ parse_ips ss
    | some ip ↦ ip ∷ parse_ips ss
  ]

module _ (env : Env) where
  -- `std::env::var(name).unwrap_or_else(|_| default)`
  abbrev pub var_or : Text → Text → Text
  var_or name default = unwrap_or (env name) default

  -- `std::env::var(name).or_else(|_| std::env::var(other)).ok()`
  abbrev pub either_var : Text → Text → Option Text
  either_var name other = or_else (env name) (env other)

  -- `std::env::var(name).unwrap_or_else(|_| default).parse().expect(...)`
  unfoldable pub number : ℕ → Text → Text → Option ℕ
  unfolding parse_unsigned
  number limit name default = parse_unsigned limit (var_or name default)

  unfoldable pub load_redis_url : Text
  load_redis_url = unwrap_or (env (codes "REDIS_URL")) (
      codes "redis://"
      ++ (var_or (codes "REDIS_HOST") (codes "127.0.0.1")
          ++ (codes ":" ++ var_or (codes "REDIS_PORT") (codes "6379"))))

  unfoldable pub load_rabbitmq_url : Text
  unfolding url_encode_password
  load_rabbitmq_url = unwrap_or (env (codes "RABBITMQ_URL")) (
      codes "amqp://"
      ++ (var_or (codes "RABBITMQ_V2_USER") (codes "guest")
          ++ (codes ":"
              ++ (url_encode_password (var_or (codes "RABBITMQ_V2_PASS") [])
                  ++ (codes "@"
                      ++ (var_or (codes "RABBITMQ_V2_HOST") (codes "127.0.0.1")
                          ++ (codes ":"
                              ++ (var_or (codes "RABBITMQ_V2_PORT") (codes "5672")
                                  ++ codes "/%2F"))))))))

  unfoldable pub load_mysql_url : Text
  unfolding url_encode_password
  load_mysql_url = unwrap_or (env (codes "MYSQL_URL")) (
      codes "mysql://"
      ++ (var_or (codes "MYSQL_USER") (codes "root")
          ++ (codes ":"
              ++ (url_encode_password (var_or (codes "MYSQL_PASS") [])
                  ++ (codes "@"
                      ++ (var_or (codes "MYSQL_HOST") (codes "127.0.0.1")
                          ++ (codes ":"
                              ++ (var_or (codes "MYSQL_PORT") (codes "3306")
                                  ++ (codes "/" ++ var_or (codes "MYSQL_DB") [])))))))))

  -- The closure of `or_else`, with its two `?`.
  unfoldable pub compose_postgres_url : Option Text
  unfolding url_encode_password
  compose_postgres_url = either_var (codes "PGSQL_HOST") (codes "POSTGRES_HOST") >>= λ host.
      let port =
        unwrap_or (either_var (codes "PGSQL_PORT") (codes "POSTGRES_PORT")) (codes "5432") in
      either_var (codes "PGSQL_USER") (codes "POSTGRES_USER") >>= λ user.
      let pass =
        url_encode_password
          (unwrap_or (either_var (codes "PGSQL_PASS") (codes "POSTGRES_PASS")) []) in
      let db = unwrap_or (either_var (codes "PGSQL_DB") (codes "POSTGRES_DB")) [] in
      some (
        codes "postgres://"
        ++ (user
            ++ (codes ":"
                ++ (pass ++ (codes "@" ++ (host ++ (codes ":" ++ (port ++ (codes "/" ++ db)))))))))

  unfoldable pub load_postgres_url : Option Text
  unfolding compose_postgres_url
  load_postgres_url = or_else (env (codes "POSTGRES_URL")) compose_postgres_url

  unfoldable pub load_dedup_ttl_secs : Option ℕ
  unfolding parse_unsigned
  load_dedup_ttl_secs =
      parse_unsigned u64_max
        (unwrap_or (either_var (codes "DEDUP_TTL_SECS") (codes "REDIS_TTL")) (codes "300"))

  unfoldable pub load_api_key : Option Text
  unfolding non_empty
  load_api_key = non_empty (env (codes "EASYPOS_SECRET_KEY"))

  unfoldable pub load_allowed_ips : IpParser → List ℕ
  unfolding split_comma parse_ips
  load_allowed_ips parse_ip = parse_ips parse_ip (split_comma [] (var_or (codes "ALLOWED_IPS") []))

  -- The fields in their order; the first that panics ends the program.
  unfoldable pub from_env : IpParser → Option Config
  unfolding load_redis_url load_rabbitmq_url load_mysql_url load_postgres_url load_dedup_ttl_secs
      load_api_key load_allowed_ips number
  from_env parse_ip = do
    dedup_ttl_secs ← load_dedup_ttl_secs
    mysql_batch_size ← number u64_max (codes "MYSQL_BATCH_SIZE") (codes "100")
    mysql_batch_interval_secs ← number u64_max (codes "MYSQL_BATCH_INTERVAL") (codes "1")
    pgsql_batch_size ← number u64_max (codes "PGSQL_BATCH_SIZE") (codes "100")
    pgsql_batch_interval_secs ← number u64_max (codes "PGSQL_BATCH_INTERVAL") (codes "1")
    api_key ← load_api_key
    http_rate_per_second ← number u32_max (codes "HTTP_RATE_PER_SECOND") (codes "20")
    http_rate_burst ← number u32_max (codes "HTTP_RATE_BURST") (codes "50")
    http_max_body_bytes ← number u64_max (codes "HTTP_MAX_BODY_BYTES") (codes "65536")
    tcp_max_connections ← number u64_max (codes "TCP_MAX_CONNECTIONS") (codes "1000")
    tcp_max_conn_per_ip ← number u64_max (codes "TCP_MAX_CONN_PER_IP") (codes "10")
    tcp_max_frame_bytes ← number u64_max (codes "TCP_MAX_FRAME_BYTES") (codes "8192")
    some (record {
      server_addr = var_or (codes "SERVER_ADDR") (codes "127.0.0.1:8081");
      redis_url = load_redis_url;
      rabbitmq_url = load_rabbitmq_url;
      mysql_url = load_mysql_url;
      postgres_url = load_postgres_url;
      dedup_ttl_secs = dedup_ttl_secs;
      exchange_name = var_or (codes "EXCHANGE_NAME") (codes "events");
      mysql_queue = var_or (codes "MYSQL_QUEUE") (codes "queue.transactions");
      postgres_queue = var_or (codes "POSTGRES_QUEUE") (codes "queue.analytics");
      dlq_exchange = var_or (codes "DLQ_EXCHANGE") (codes "events.dlq");
      mysql_dlq_queue = var_or (codes "MYSQL_DLQ_QUEUE") (codes "dlq.transactions");
      postgres_dlq_queue = var_or (codes "POSTGRES_DLQ_QUEUE") (codes "dlq.analytics");
      telegram_bot_token = either_var (codes "TELEGRAM_BOT_TOKEN") (codes "TELE_TOKEN");
      telegram_chat_id = either_var (codes "TELEGRAM_CHAT_ID") (codes "TELE_CHATID");
      tcp_addr = var_or (codes "TCP_ADDR") (codes "0.0.0.0:38701");
      allowed_ips = load_allowed_ips parse_ip;
      mysql_batch_size = mysql_batch_size;
      mysql_batch_interval_secs = mysql_batch_interval_secs;
      pgsql_batch_size = pgsql_batch_size;
      pgsql_batch_interval_secs = pgsql_batch_interval_secs;
      api_key = api_key;
      http_rate_per_second = http_rate_per_second;
      http_rate_burst = http_rate_burst;
      http_max_body_bytes = http_max_body_bytes;
      tcp_max_connections = tcp_max_connections;
      tcp_max_conn_per_ip = tcp_max_conn_per_ip;
      tcp_max_frame_bytes = tcp_max_frame_bytes;
    })
