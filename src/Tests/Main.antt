-- ===== src/Tests/Main.antt =====
-- `main` with services that answer, and the TCP task with a listener that fails.
use realtime_ingestion.Base.{List, Bool, ℕ, ◌≡◌, refl, true, false, some, [], ◌∷◌, is_empty}
use realtime_ingestion.Text.{Text, codes}
use realtime_ingestion.External.{ok}
use realtime_ingestion.Security.Tracker.{new, acquire, entry_or_zero}
use realtime_ingestion.Base.Map.{lookup, insert}
use realtime_ingestion.Config.{Config}
use realtime_ingestion.Config.Load.{from_env}
use realtime_ingestion.Producer.Connect.{declare_pair, declare_pairs, connect}
use realtime_ingestion.Receiver.{AppState, Response}
use realtime_ingestion.Http.{event, rate_limit_middleware, routes, non_zero, new_rate_limiter, app}
use realtime_ingestion.Http.Layers.{quota}
use realtime_ingestion.Http.Access.{Admitted}
use realtime_ingestion.Tcp.Listener.{
  ErrorKind, TaskEvent, connected, accept_failed, left_finished, returned, contains_ip, admit,
  on_connected, on_finished, on_left_finished, report, accept_loop, start as listen_tcp,
}
use realtime_ingestion.Main.{
  Opener, Server, notifier, queues, new_checker, listen, set_up, main, tcp_task,
}
use realtime_ingestion.Main.Serving.{Serving, main-Serving}
use realtime_ingestion.Tests.Codec.{Fields}
use realtime_ingestion.Tests.World.{World, start, state}
use realtime_ingestion.Tests.Config.{env, parse_ip, loaded, from_env-loaded}
use realtime_ingestion.Tests.Producer.{broker, broker-SetupLaws}
use realtime_ingestion.Tests.Http.{Request, axum, governor}
use realtime_ingestion.Tests.Listener.{client, errors}

abbrev opener : Opener World
opener = record { redis = λ url w. (ok tt, w); bind = λ addr w. (ok tt, w) }

abbrev server_state : AppState World (Unit {0}) Fields
server_state = record state {
  dedup = record { ttl_secs = 300 };
  producer = record { exchange = codes "events" };
}

abbrev server : Server World (Unit {0}) Fields Request ℕ
server = record {
  config = loaded;
  state = server_state;
  handler =
      rate_limit_middleware axum governor (quota loaded)
        (routes axum server_state loaded.api_key loaded.http_max_body_bytes);
}

abbrev serving_world : World
serving_world = (set_up opener broker axum governor state loaded start).1

main-server :
    main opener broker axum governor state env parse_ip start
    ≡ some (ok (some server), serving_world)
unfolding main set_up new_checker listen connect declare_pairs declare_pair queues app
    new_rate_limiter non_zero
main-server = rw (from_env-loaded, main) refl

main-Serving_example :
    (from_env env parse_ip ≡ some loaded)
    × (is_empty loaded.api_key ≡ false)
    × Serving opener broker broker-SetupLaws axum governor state server serving_world
    × ((req : Request) (v v' : World) (r : Response)
        → server.handler req v ≡ (some (event r), v')
        → Admitted axum governor server_state loaded req v r v')
main-Serving_example =
    main-Serving opener broker broker-SetupLaws axum governor state env parse_ip start server
      serving_world main-server

-- The limits of a run do not count the connections that an earlier run has left: two of an address
-- with the limit one.
abbrev tight : Config
tight = record loaded { tcp_max_conn_per_ip = 1 }

restarted :
    (tcp_task {E = ErrorKind} client errors tight
      ((true, connected 7 ∷ connected 7 ∷ accept_failed ∷ []) ∷ (true, connected 7 ∷ []) ∷ [])
      []
      0).0
    ≡ 7 ∷ 7 ∷ []
unfolding tcp_task notifier listen_tcp accept_loop on_connected on_finished contains_ip admit new
    acquire entry_or_zero lookup insert
restarted = refl

-- The entries of the environment, one of which is no address, and two runs, each with a
-- connection; the one of the first run ends during the second.
abbrev entries : List Text
entries = codes "7" ∷ codes " x" ∷ codes "9" ∷ []

abbrev two_runs : List (Bool × List (TaskEvent ErrorKind))
two_runs =
    (true, connected 7 ∷ connected 8 ∷ accept_failed ∷ [])
    ∷ (true, connected 9 ∷ left_finished 0 returned ∷ [])
    ∷ []

still_open : (tcp_task client errors loaded two_runs [] 0).0 ≡ 9 ∷ []
unfolding tcp_task notifier listen_tcp accept_loop on_connected on_finished on_left_finished report
    contains_ip admit new acquire entry_or_zero lookup insert
still_open = refl
