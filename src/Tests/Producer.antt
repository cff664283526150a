-- ===== src/Tests/Producer.antt =====
-- `Producer::connect` against a broker that keeps what it is told.
use realtime_ingestion.Base.{
  ◌≡◌, refl, sym, ap, subst, ◌∙◌, true, List, [], ◌∷◌, ◌⊎◌, inl, inr, All,
}
use realtime_ingestion.Text.{Text, codes}
use realtime_ingestion.External.{Result, ok}
use realtime_ingestion.Tests.World.{World, start}
use realtime_ingestion.Producer.Connect.{AmqpSetup, declare_pair, declare_pairs, connect}
use realtime_ingestion.Producer.Connect.Topology.{
  Declaration, exchange, queue, binding, topology, declare, SetupLaws, connect-topology,
}

abbrev pub added : Declaration → World → Result (Unit {0}) × World
added d b = (ok tt, record b { declared = d ∷ b.declared })

abbrev pub broker : AmqpSetup World
broker = record {
  connection = λ url b. (ok tt, b);
  create_channel = λ b. (ok tt, b);
  confirm_select = λ b. (ok tt, record b { confirms = true });
  exchange_declare = λ name kind durable. added (exchange name kind durable);
  queue_declare = λ name durable args. added (queue name durable args);
  queue_bind = λ name from key. added (binding name from key);
}

abbrev pub In : Declaration → List Declaration → Type 0
In d [] = ⊥
In d (e ∷ es) = (e ≡ d) ⊎ In d es

declare-added : (d : Declaration) (b : World) → declare broker d b ≡ added d b
declare-added (exchange name kind durable) b = refl
declare-added (queue name durable args) b = refl
declare-added (binding name from key) b = refl

pub behind :
    {b : World} {d : Declaration} {b' : World}
    → declare broker d b ≡ (ok tt, b')
    → record b { declared = d ∷ b.declared } ≡ b'
behind {b} {d} e = ap (λ (r : Result (Unit {0}) × World). r.1) (sym (declare-added d b) ∙ e)

abbrev pub broker-SetupLaws : SetupLaws broker
broker-SetupLaws = record {
  has = λ b d. In d b.declared;
  confirming = λ b. b.confirms ≡ true;
  selected = λ b b' e. sym (ap (λ (r : Result (Unit {0}) × World). r.1.confirms) e);
  made = λ d b b' e. subst (λ (c : World). In d c.declared) (behind e) (inl refl);
  kept = λ d b b' e. (
    λ f x. subst (λ (c : World). In f c.declared) (behind e) (inr x),
    λ on. sym (ap (λ (c : World). c.confirms) (behind e)) ∙ on,
  );
}

abbrev queue_pairs : List (Text × Text)
queue_pairs = (codes "queue.transactions", codes "dlq.transactions") ∷ []

abbrev declared_world : World
declared_world = (connect broker [] (codes "events") queue_pairs (codes "events.dlq") start).1

connect-topology_example :
    (codes "events" ≡ codes "events")
    × (declared_world.confirms ≡ true)
    × All
        (λ d. In d declared_world.declared)
        (topology (codes "events") queue_pairs (codes "events.dlq"))
unfolding connect declare_pairs declare_pair
connect-topology_example =
    connect-topology broker broker-SetupLaws [] (codes "events") queue_pairs (codes "events.dlq")
      start declared_world (record { exchange = codes "events" }) refl
