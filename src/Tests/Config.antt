-- ===== src/Tests/Config.antt =====
-- The configuration at concrete inputs.
use realtime_ingestion.Base.{
  ◌≡◌, ◌↔◌, refl, true, none, some, not, all, if◌then◌else◌, [], ◌∷◌, is_some, All,
}
use realtime_ingestion.Text.{
  Text, codes, text_eq, trim, trim_start, trim_end, parse_unsigned, digits_to, is_whitespace,
}
use realtime_ingestion.Config.{Config, url_encode_password, encode_char}
use realtime_ingestion.Config.Password.{
  percent_decode, is_delimiter, percent_decode-url_encode_password,
}
use realtime_ingestion.Config.Load.{
  Env, IpParser, number, load_dedup_ttl_secs, load_api_key, load_allowed_ips, non_empty,
  split_comma, parse_ips, load_postgres_url, compose_postgres_url, from_env, load_redis_url,
  load_rabbitmq_url, load_mysql_url,
}
use realtime_ingestion.Config.Load.Numbers.{inputs, numbers, AllRead, IsKey, from_env-IsRead}
use realtime_ingestion.Config.Load.Returns.{IsReadable, from_env_iff}

percent_decode-url_encode_password_example :
    (percent_decode (url_encode_password (codes "p@ss#%40")) ≡ codes "p@ss#%40")
    × (all (λ d. not (is_delimiter d)) (url_encode_password (codes "p@ss#%40")) ≡ true)
percent_decode-url_encode_password_example = percent_decode-url_encode_password (codes "p@ss#%40")

-- A key, one list of addresses, and a database.
abbrev pub env : Env
env name =
    if text_eq name (codes "EASYPOS_SECRET_KEY")
    then some (codes "k3y")
    else if text_eq name (codes "ALLOWED_IPS")
    then some (codes "7, x,9")
    else if text_eq name (codes "PGSQL_HOST")
    then some (codes "db")
    else if text_eq name (codes "POSTGRES_USER")
    then some (codes "app")
    else if text_eq name (codes "PGSQL_PASS")
    then some (codes "a@b")
    else none

abbrev pub parse_ip : IpParser
parse_ip t = parse_unsigned 255 t

-- An entry that is no address is dropped.
ips : load_allowed_ips env parse_ip ≡ 7 ∷ 9 ∷ []
unfolding load_allowed_ips text_eq split_comma parse_ips trim trim_start trim_end parse_unsigned
    digits_to is_whitespace
ips = refl

url : load_postgres_url env ≡ some (codes "postgres://app:a%40b@db:5432/")
unfolding load_postgres_url compose_postgres_url text_eq url_encode_password encode_char
url = refl

from_env_iff_example :
    (is_some (from_env env parse_ip) ≡ true)
    ↔ (All IsReadable (inputs env) × ((key : Text) × IsKey env key))
from_env_iff_example = from_env_iff env parse_ip

abbrev pub loaded : Config
loaded = record {
  server_addr = codes "127.0.0.1:8081";
  redis_url = codes "redis://127.0.0.1:6379";
  rabbitmq_url = codes "amqp://guest:@127.0.0.1:5672/%2F";
  mysql_url = codes "mysql://root:@127.0.0.1:3306/";
  postgres_url = some (codes "postgres://app:a%40b@db:5432/");
  dedup_ttl_secs = 300;
  exchange_name = codes "events";
  mysql_queue = codes "queue.transactions";
  postgres_queue = codes "queue.analytics";
  dlq_exchange = codes "events.dlq";
  mysql_dlq_queue = codes "dlq.transactions";
  postgres_dlq_queue = codes "dlq.analytics";
  telegram_bot_token = none;
  telegram_chat_id = none;
  tcp_addr = codes "0.0.0.0:38701";
  allowed_ips = 7 ∷ 9 ∷ [];
  mysql_batch_size = 100;
  mysql_batch_interval_secs = 1;
  pgsql_batch_size = 100;
  pgsql_batch_interval_secs = 1;
  api_key = codes "k3y";
  http_rate_per_second = 20;
  http_rate_burst = 50;
  http_max_body_bytes = 65_536;
  tcp_max_connections = 1_000;
  tcp_max_conn_per_ip = 10;
  tcp_max_frame_bytes = 8_192;
}

pub from_env-loaded : from_env env parse_ip ≡ some loaded
unfolding from_env load_redis_url load_rabbitmq_url load_mysql_url load_postgres_url
    compose_postgres_url load_dedup_ttl_secs load_api_key load_allowed_ips non_empty number text_eq
    split_comma parse_ips trim trim_start trim_end parse_unsigned digits_to is_whitespace
    url_encode_password encode_char
from_env-loaded = refl

from_env-IsRead_example : AllRead (inputs env) (numbers loaded) × IsKey env loaded.api_key
from_env-IsRead_example = from_env-IsRead env parse_ip loaded from_env-loaded
