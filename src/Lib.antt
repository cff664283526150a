-- ===== src/Lib.antt =====
-- realtime-ingestion: a model of the service that receives events over HTTP and card payment
-- messages over TCP, drops duplicates with Redis, puts the rest into RabbitMQ, and stores them from
-- there in MySQL and PostgreSQL.
--
-- The parts, and how they interact:
--
-- * A card terminal sends requests over TCP. `handle_connection` (src/tcp_listener.rs) cuts the
--   stream into frames with `extract_frame`, gives each to `process_frame`, and writes the response
--   that `build_response` makes of the request. Tcp.Frame, Tcp.Response, Tcp.Process and
--   Tcp.Connection model them; ConnectionTracker of src/security.rs, which limits the connections,
--   is Security.Tracker, and in atomic steps that interleave Security.Threads.
-- * `process_frame` reads the fixed fields of a request with `parse_frame` (src/parser.rs; Parser),
--   which masks the card number and the business number (src/security.rs; Security.Mask).
-- * A client sends JSON to `handle_event` (src/receiver.rs; Receiver), which validates it.
-- * `main` (src/main.rs; Main) loads the configuration (src/config.rs; Config, Config.Load), opens
--   the services, has `Producer::connect` (src/producer.rs; Producer.Connect) declare exchanges and
--   queues, and puts the middlewares of src/security.rs (Http, Http.Key) around the two routes.
-- * `start` (src/tcp_listener.rs; Tcp.Listener) accepts the terminals' connections, and reports an
--   error of one through `notify` (src/telegram.rs; Telegram).
-- * The log goes through `HourlyWriter` (src/logger.rs; Logger).
-- * Both ask `is_new` (src/dedup.rs; Dedup) and call `publish` (src/producer.rs; Producer). The
--   structs that go through the queue are those of src/models.rs (Models).
-- * The MySQL consumer (src/consumer/mysql.rs; Mysql) makes a row of each message (Mysql.Row), keeps
--   a batch, and inserts it by table (Mysql.Batch).
-- * The PostgreSQL consumer (src/consumer/postgres.rs; Postgres) makes a row of daily totals of each
--   message (Postgres.Row), sums the rows of a batch by their key (Postgres.Totals), and upserts the
--   sums (Postgres.Batch). Consumer has what both consumers share.
-- * Intake takes the two ways in together: histories of HTTP requests and reads of connections that
--   follow one another on one world, and what each does to Redis and the queue.
-- * Consumer.Ledger compares what a database holds with what the acknowledged deliveries bring
--   (Mysql.Batch.Books, Postgres.Batch.Books), along a run and over restarts (Consumer.Program.Along).
-- * Tcp.Connection.Transcript has what a terminal is sent, as a function of its own bytes and socket,
--   and Main.Terminals which terminals the environment's configuration lets in.
--
-- How the code becomes definitions:
--
-- * A text is the list of its code points, and its UTF-8 bytes are computed (Text), because the code
--   measures and slices some texts in bytes. A byte is a number. Machine integers are numbers with
--   their wrap-around written out; an `i64` is its two's complement pattern.
-- * What the program calls and does not implement is a record of operations on an abstract world `W`
--   (External, Consumer.Channel, Mysql.Batch.MySqlPool, Postgres.Batch.PgPool): Redis, the AMQP
--   channel, the socket, the clock, serde_json, EUC-KR, sqlx; chrono is
--   Postgres.Row.Chrono; axum and governor are those of Http, lapin's declarations are
--   Producer.Connect.AmqpSetup, and the file system is Logger.FileSystem. What a theorem relies on is
--   a record of laws (RedisLaws, JsonLaws, BrokerLaws, SettleLaws, SetupLaws, OpenLaws, FileLaws,
--   PublishLaws, SocketLaws, LimiterLaws, BookLaws, TableLaws, TotalsLaws, SocketLog, ServicesKeep,
--   OpensAlong), and the tests fill every one of them. A call that returns an error is taken as its
--   law says: a statement that fails has changed no table, so a connection that is lost behind a
--   commit is outside the model.
-- * An asynchronous call is a function from the world to a result and the world behind it. A panic
--   is `none`. Logging is left out.
-- * The loop of a connection takes the list of the results of its reads, and the loop of the consumer
--   the list of what its `select!` sees. A read may bring any number of bytes.
-- * The inner loop of a connection is recursion on fuel. Each frame takes a byte or more off the
--   buffer, so one more than the bytes in it is enough.
-- * `flush` takes the groups of a `HashMap` in an order that is a parameter.
-- * A sequence of calls at start-up is a do block that ends at the first error. The accept loop
--   takes the list of what happens to it: connections, an `accept` that fails, tasks that end.
-- * A consumer's program takes a list of runs, each with what its loop sees (Consumer.Program,
--   Mysql.Program, Postgres.Program).
-- * In a history of Intake the calls run one at a time, each as a whole. For one connection,
--   Tcp.Connection.Transcript lets everything else change the world between its reads.
--
-- Not modelled: the .env file and the registration of the loggers in the three programs, the pauses
-- before a restart, build.sh, migrations and systemd. The threads of the program meet in
-- the ConnectionTracker; the other parts share no state in memory. Logger.HourlyWriter is taken one
-- call at a time, as its mutex does. How long a comparison of keys takes is outside the model.
--
-- Base and Text have the shared helpers, and Tests has the theorems at concrete inputs.
pub mod Base
pub mod Text
pub mod Models
pub mod External
pub mod Security
pub mod Telegram
pub mod Logger
pub mod Parser
pub mod Dedup
pub mod Producer
pub mod Receiver
pub mod Tcp
pub mod Consumer
pub mod Config
pub mod Intake
pub mod Http
pub mod Main
pub mod Mysql
pub mod Postgres
pub mod Tests
