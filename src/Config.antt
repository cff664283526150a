-- ===== src/Config.antt =====
-- `Config` of src/config.rs. The environment is a function from names to values; `none` as a result
-- is a panic, and addresses are read by a parameter.
pub mod Password
pub mod Load
use realtime_ingestion.Base.{
  ℕ, ◌-◌, ◌^◌, Bool, not, Option, none, some, List, [], ◌∷◌, ◌++◌, ◌==◌, if◌then◌else◌, unwrap_or,
  or_else, ◌>>=◌, is_empty,
}
use realtime_ingestion.Text.{Text, codes, trim, parse_unsigned}

pub record Config : Type 0 where
  pub server_addr : Text
  pub redis_url : Text
  pub rabbitmq_url : Text
  pub mysql_url : Text
  pub postgres_url : Option Text
  pub dedup_ttl_secs : ℕ
  pub exchange_name : Text
  pub mysql_queue : Text
  pub postgres_queue : Text
  pub dlq_exchange : Text
  pub mysql_dlq_queue : Text
  pub postgres_dlq_queue : Text
  pub telegram_bot_token : Option Text
  pub telegram_chat_id : Option Text
  pub tcp_addr : Text
  pub allowed_ips : List ℕ
  pub mysql_batch_size : ℕ
  pub mysql_batch_interval_secs : ℕ
  pub pgsql_batch_size : ℕ
  pub pgsql_batch_interval_secs : ℕ
  pub api_key : Text
  pub http_rate_per_second : ℕ
  pub http_rate_burst : ℕ
  pub http_max_body_bytes : ℕ
  pub tcp_max_connections : ℕ
  pub tcp_max_conn_per_ip : ℕ
  pub tcp_max_frame_bytes : ℕ

-- The `match` on a character.
unfoldable pub encode_char : ℕ → Text
encode_char c =
    if c == b'@'
    then codes "%40"
    else if c == b'#'
    then codes "%23"
    else if c == b':'
    then codes "%3A"
    else if c == b'/'
    then codes "%2F"
    else if c == b'%'
    then codes "%25"
    else c ∷ []

-- `flat_map` over the characters.
unfoldable pub url_encode_password : Text → Text
url_encode_password [] = []
url_encode_password (c ∷ s) = encode_char c ++ url_encode_password s
