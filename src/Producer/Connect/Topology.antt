-- ===== src/Producer/Connect/Topology.antt =====
-- What `Producer::connect`, src/producer.rs, leaves at the broker.
use realtime_ingestion.Base.{◌≡◌, refl, sym, ap, ◌∙◌, Bool, true, List, [], ◌∷◌, ◌++◌, subst, All}
use realtime_ingestion.Text.{Text}
use realtime_ingestion.External.{Result, ok, err, Io, pure, continue, continue-ok, ◌>>=◌}
use realtime_ingestion.Producer.{Producer}
use realtime_ingestion.Producer.Connect.{
  ExchangeKind, fanout, direct, AmqpSetup, dead_letter, declare_pair, declare_pairs, connect,
}

-- What a channel can be asked to have.
pub data Declaration : Type 0 where
  exchange : Text → ExchangeKind → Bool → Declaration
  queue : Text → Bool → List (Text × Text) → Declaration
  binding : Text → Text → Text → Declaration

-- The topology, as a list: each queue is durable, takes what the fanout exchange gets, and gives
-- what is rejected to the direct exchange, which brings it to the queue's own durable DLQ.
abbrev pub pair : Text → Text → Text × Text → List Declaration
pair exchange_name dlq_exchange (queue_name, dlq_name) =
    queue queue_name true (dead_letter dlq_exchange dlq_name)
    ∷ binding queue_name exchange_name []
    ∷ queue dlq_name true []
    ∷ binding dlq_name dlq_exchange dlq_name
    ∷ []

abbrev pub pairs : Text → Text → List (Text × Text) → List Declaration
pairs exchange_name dlq_exchange [] = []
pairs exchange_name dlq_exchange (q ∷ queues) =
    pair exchange_name dlq_exchange q ++ pairs exchange_name dlq_exchange queues

abbrev pub topology : Text → List (Text × Text) → Text → List Declaration
topology exchange_name queues dlq_exchange =
    exchange exchange_name fanout true
    ∷ exchange dlq_exchange direct true
    ∷ pairs exchange_name dlq_exchange queues

module _ {W : Type 0} (amqp : AmqpSetup W) where
  abbrev pub declare : Declaration → Io W (Unit {0})
  declare (exchange name kind durable) = amqp.exchange_declare name kind durable
  declare (queue name durable args) = amqp.queue_declare name durable args
  declare (binding name from key) = amqp.queue_bind name from key

  -- One after the other, up to the first error.
  abbrev pub declare_all : List Declaration → Io W (Unit {0})
  declare_all [] = pure tt
  declare_all (d ∷ ds) = do done ← declare d; declare_all ds

continue_assoc :
    {W A B D : Type 0} (r : Result A × W) (f : A → Io W B) (g : B → Io W D)
    → continue (continue r f) g ≡ continue r (λ a w. continue (f a w) g)
continue_assoc (ok a, w) f g = refl
continue_assoc (err e, w) f g = refl

continue_ext :
    {W A B : Type 0} (r : Result A × W) {f g : A → Io W B}
    → ((a : A) (w : W) → f a w ≡ g a w)
    → continue r f ≡ continue r g
continue_ext (ok a, w) h = h a w
continue_ext (err e, w) h = refl

module _ {W : Type 0} (amqp : AmqpSetup W) where
  declare_all-append :
      (ds es : List Declaration) (w : W)
      → declare_all amqp (ds ++ es) w ≡ continue (declare_all amqp ds w) (λ u. declare_all amqp es)
  declare_all-append [] es w = refl
  declare_all-append (d ∷ ds) es w =
      continue_ext (declare amqp d w) (λ u v. declare_all-append ds es v)
      ∙ sym
          (continue_assoc (declare amqp d w) (λ u. declare_all amqp ds) (λ u. declare_all amqp es))

  last_call : (r : Result (Unit {0}) × W) → r ≡ continue r (λ u. pure tt)
  last_call (ok tt, w) = refl
  last_call (err e, w) = refl

  declare_pair-declare_all :
      (exchange_name dlq_exchange : Text) (q : Text × Text) (w : W)
      → declare_pair amqp exchange_name dlq_exchange q w
        ≡ declare_all amqp (pair exchange_name dlq_exchange q) w
  unfolding declare_pair
  declare_pair-declare_all exchange_name dlq_exchange (queue_name, dlq_name) w =
      continue_ext (amqp.queue_declare queue_name true (dead_letter dlq_exchange dlq_name) w)
        (λ a v. continue_ext (amqp.queue_bind queue_name exchange_name [] v) (λ b u.
          continue_ext (amqp.queue_declare dlq_name true [] u)
            (λ c x. last_call (amqp.queue_bind dlq_name dlq_exchange dlq_name x))))

  declare_pairs-declare_all :
      (exchange_name dlq_exchange : Text) (queues : List (Text × Text)) (w : W)
      → declare_pairs amqp exchange_name dlq_exchange queues w
        ≡ declare_all amqp (pairs exchange_name dlq_exchange queues) w
  unfolding declare_pairs
  declare_pairs-declare_all exchange_name dlq_exchange [] w = refl
  declare_pairs-declare_all exchange_name dlq_exchange (q ∷ queues) w =
      ap (λ r. continue r (λ u. declare_pairs amqp exchange_name dlq_exchange queues))
        (declare_pair-declare_all exchange_name dlq_exchange q w)
      ∙ continue_ext (declare_all amqp (pair exchange_name dlq_exchange q) w)
          (λ u v. declare_pairs-declare_all exchange_name dlq_exchange queues v)
      ∙ sym (
          declare_all-append (pair exchange_name dlq_exchange q)
            (pairs exchange_name dlq_exchange queues) w)

-- What a broker keeps: a call that succeeds has made what it asks for, and no later call of the
-- list takes it back; confirm mode, once selected, stays on.
pub record SetupLaws {W : Type 0} (amqp : AmqpSetup W) : Type 1 where
  pub has : W → Declaration → Type 0
  pub confirming : W → Type 0
  pub selected : (w w' : W) → amqp.confirm_select w ≡ (ok tt, w') → confirming w'
  pub made : (d : Declaration) (w w' : W) → declare amqp d w ≡ (ok tt, w') → has w' d
  pub kept :
      (d : Declaration) (w w' : W)
      → declare amqp d w ≡ (ok tt, w')
      → ((e : Declaration) → has w e → has w' e) × (confirming w → confirming w')

module _ {W : Type 0} (amqp : AmqpSetup W) (laws : SetupLaws amqp) where
  declare_all-kept :
      (ds : List Declaration) (w w' : W)
      → declare_all amqp ds w ≡ (ok tt, w')
      → ((e : Declaration) → laws.has w e → laws.has w' e)
        × (laws.confirming w → laws.confirming w')
  declare_all-kept [] w w' h =
      let same = ap (λ (r : Result (Unit {0}) × W). r.1) h in
      (λ e. subst (λ v. laws.has v e) same, subst laws.confirming same)
  declare_all-kept (d ∷ ds) w w' h =
      let (u, v, first, rest) = continue-ok (declare amqp d w) (λ u. declare_all amqp ds) h in
      let (here, mode) = laws.kept d w v first in
      let (later, still) = declare_all-kept ds v w' rest in
      (λ e x. later e (here e x), λ x. still (mode x))

  declare_all-made :
      (ds : List Declaration) (w w' : W)
      → declare_all amqp ds w ≡ (ok tt, w')
      → All (laws.has w') ds
  declare_all-made [] w w' h = tt
  declare_all-made (d ∷ ds) w w' h =
      let (u, v, first, rest) = continue-ok (declare amqp d w) (λ u. declare_all amqp ds) h in
      ((declare_all-kept ds v w' rest).0 d (laws.made d w v first), declare_all-made ds v w' rest)

  -- The declarations, and the producer behind them.
  abbrev declared : Text → List (Text × Text) → Text → Io W Producer
  declared exchange_name queues dlq_exchange =
      declare_all amqp (topology exchange_name queues dlq_exchange) >>= λ done.
      pure (record { exchange = exchange_name })

  connect-declare_all :
      (amqp_url exchange_name : Text) (queues : List (Text × Text)) (dlq_exchange : Text) (w : W)
      → connect amqp amqp_url exchange_name queues dlq_exchange w
        ≡ continue (amqp.connection amqp_url w) (λ conn v.
          continue (amqp.create_channel v) (λ channel u.
            continue
              (amqp.confirm_select u)
              (λ confirms. declared exchange_name queues dlq_exchange)))
  unfolding connect
  connect-declare_all amqp_url exchange_name queues dlq_exchange w =
      let finish : Unit {0} → Io W Producer = λ done. pure (record { exchange = exchange_name }) in
      let rest : Unit {0} → Io W (Unit {0}) =
        λ done. declare_all amqp (pairs exchange_name dlq_exchange queues) in
      continue_ext (amqp.connection amqp_url w) (λ conn v.
        continue_ext (amqp.create_channel v) (λ channel u.
          continue_ext (amqp.confirm_select u) (λ confirms x.
            continue_ext (amqp.exchange_declare exchange_name fanout true x) (λ main y.
              continue_ext (amqp.exchange_declare dlq_exchange direct true y) (λ dead z.
                ap (λ r. continue r finish)
                  (declare_pairs-declare_all amqp exchange_name dlq_exchange queues z))
              ∙ sym (continue_assoc (amqp.exchange_declare dlq_exchange direct true y) rest finish))
            ∙ sym (
                continue_assoc (amqp.exchange_declare exchange_name fanout true x)
                  (λ main. amqp.exchange_declare dlq_exchange direct true >>= rest) finish))))

  declared-topology :
      (exchange_name : Text) (queues : List (Text × Text)) (dlq_exchange : Text) (w w' : W)
      (p : Producer)
      → laws.confirming w
      → declared exchange_name queues dlq_exchange w ≡ (ok p, w')
      → (p.exchange ≡ exchange_name)
        × laws.confirming w'
        × All (laws.has w') (topology exchange_name queues dlq_exchange)
  declared-topology exchange_name queues dlq_exchange w w' p confirming h =
      let ds = topology exchange_name queues dlq_exchange in
      let (u, v, all_made, returned) =
        continue-ok (declare_all amqp ds w) (λ done. pure (record { exchange = exchange_name }))
          h in
      let world : v ≡ w' = ap (λ (r : Result Producer × W). r.1) returned in
      (
        ap exchange_of (sym returned),
        subst laws.confirming world ((declare_all-kept ds w v all_made).1 confirming),
        subst (λ x. All (laws.has x) ds) world (declare_all-made ds w v all_made),
      )
    where
      exchange_of : Result Producer × W → Text
      exchange_of (ok q, x) = q.exchange
      exchange_of (err e, x) = []

  -- When `connect` returns `Ok`, the producer publishes to the exchange that was declared, the
  -- channel is in confirm mode, and the broker has the whole topology: both exchanges, and for
  -- each pair of names a durable queue bound to the main exchange, whose rejected messages go
  -- through the dead letter exchange to a durable queue of the other name that is bound there.
  pub connect-topology :
      (amqp_url exchange_name : Text) (queues : List (Text × Text)) (dlq_exchange : Text) (w w' : W)
      (p : Producer)
      → connect amqp amqp_url exchange_name queues dlq_exchange w ≡ (ok p, w')
      → (p.exchange ≡ exchange_name)
        × laws.confirming w'
        × All (laws.has w') (topology exchange_name queues dlq_exchange)
  connect-topology amqp_url exchange_name queues dlq_exchange w w' p h =
      let last : Unit {0} → Io W Producer = λ c. declared exchange_name queues dlq_exchange in
      let confirmed : Unit {0} → Io W Producer = λ c. amqp.confirm_select >>= last in
      let (conn, w1, e1, h1) =
        continue-ok (amqp.connection amqp_url w) (λ c. amqp.create_channel >>= confirmed)
          (sym (connect-declare_all amqp_url exchange_name queues dlq_exchange w) ∙ h) in
      let (channel, w2, e2, h2) = continue-ok (amqp.create_channel w1) confirmed h1 in
      let (confirms, w3, e3, h3) = continue-ok (amqp.confirm_select w2) last h2 in
      declared-topology exchange_name queues dlq_exchange w3 w' p (laws.selected w2 w3 e3) h3
