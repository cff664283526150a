-- ===== src/Main/Terminals.antt =====
-- Which connections of terminals the TCP task of src/main.rs leaves open, from the environment's
-- list of addresses and limits, through `start` of src/tcp_listener.rs.
use realtime_ingestion.Base.{ℕ, ◌^◌, ◌≡◌, ◌<◌, true, ◌||◌, List, ltb, is_empty}
use realtime_ingestion.Text.{Text}
use realtime_ingestion.Config.{Config}
use realtime_ingestion.Telegram.{HttpClient}
use realtime_ingestion.Security.Tracker.Invariant.{count}
use realtime_ingestion.Tcp.Listener.{ErrorLib, Listener}
use realtime_ingestion.Tcp.Listener.Open.{Open}

module _ {W E : Type 0} (client : HttpClient W) (errors : ErrorLib E) (cfg : Config)
    (small : cfg.tcp_max_connections < 2 ^ 64) (P : ℕ → Type 0)
    (allows : (ip : ℕ)
      → (is_empty cfg.allowed_ips || ltb 0 (count ip cfg.allowed_ips)) ≡ true
      → P ip) where
  abbrev Within : ℕ → List ℕ → Type 0
  Within = Open P cfg.tcp_max_connections cfg.tcp_max_conn_per_ip
