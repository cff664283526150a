-- ===== src/Producer/Connect.antt =====
-- `Producer::connect` of src/producer.rs: what it declares at the broker, through an interface of
-- the calls of lapin that it makes.
pub mod Topology
use realtime_ingestion.Base.{ℕ, Bool, true, List, [], ◌∷◌}
use realtime_ingestion.Text.{Text, codes}
use realtime_ingestion.External.{Io, pure, ◌>>=◌}
use realtime_ingestion.Producer.{Producer}

pub data ExchangeKind : Type 0 where
  fanout direct : ExchangeKind

-- The calls: the connection, its channel and confirm mode; then exchanges and queues (name,
-- durable, the arguments of a queue), and bindings (queue, exchange, routing key). The other
-- options and arguments are those of `default()`.
pub record AmqpSetup (W : Type 0) : Type 0 where
  pub connection : Text → Io W (Unit {0})
  pub create_channel : Io W (Unit {0})
  pub confirm_select : Io W (Unit {0})
  pub exchange_declare : Text → ExchangeKind → Bool → Io W (Unit {0})
  pub queue_declare : Text → Bool → List (Text × Text) → Io W (Unit {0})
  pub queue_bind : Text → Text → Text → Io W (Unit {0})

-- The arguments of a queue whose rejected messages go to `dlq_exchange` as `dlq_name`.
abbrev pub dead_letter : Text → Text → List (Text × Text)
dead_letter dlq_exchange dlq_name =
    (codes "x-dead-letter-exchange", dlq_exchange)
    ∷ (codes "x-dead-letter-routing-key", dlq_name)
    ∷ []

module _ {W : Type 0} (amqp : AmqpSetup W) where
  -- The body of the loop.
  unfoldable pub declare_pair : Text → Text → Text × Text → Io W (Unit {0})
  declare_pair exchange_name dlq_exchange (queue_name, dlq_name) = do
    queue ← amqp.queue_declare queue_name true (dead_letter dlq_exchange dlq_name)
    bound ← amqp.queue_bind queue_name exchange_name []
    dlq ← amqp.queue_declare dlq_name true []
    amqp.queue_bind dlq_name dlq_exchange dlq_name

  unfoldable pub declare_pairs : Text → Text → List (Text × Text) → Io W (Unit {0})
  unfolding declare_pair
  declare_pairs exchange_name dlq_exchange [] = pure tt
  declare_pairs exchange_name dlq_exchange (q ∷ queues) = do
    declared ← declare_pair exchange_name dlq_exchange q
    declare_pairs exchange_name dlq_exchange queues

  unfoldable pub connect : Text → Text → List (Text × Text) → Text → Io W Producer
  unfolding declare_pairs
  connect amqp_url exchange_name queues dlq_exchange = do
    conn ← amqp.connection amqp_url
    channel ← amqp.create_channel
    confirms ← amqp.confirm_select
    main ← amqp.exchange_declare exchange_name fanout true
    dead ← amqp.exchange_declare dlq_exchange direct true
    declared ← declare_pairs exchange_name dlq_exchange queues
    pure (record { exchange = exchange_name })
