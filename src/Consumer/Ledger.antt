-- ===== src/Consumer/Ledger.antt =====
-- What the consumers of src/consumer/mysql.rs and src/consumer/postgres.rs write to a database,
-- against the deliveries that they acknowledge. A ledger has accounts: numbers that are read off the
-- database, to which each delivery brings something.
use realtime_ingestion.Base.{
  ℕ, ◌+◌, ◌≡◌, refl, sym, ap, ◌∙◌, subst, List, [], ◌∷◌, ◌++◌, append_assoc, sum_of, sum_of-append,
  arith,
}
use realtime_ingestion.Text.{Text}
use realtime_ingestion.Consumer.{Channel, for_each}

pub record Ledger (W D : Type 0) : Type 1 where
  pub Account : Type 0
  -- The deliveries that were acknowledged.
  pub acked : W → List D
  pub balance : Account → W → ℕ
  pub brings : Account → D → ℕ
  -- When two balances are the same: numbers up to the width of a column, for instance.
  pub Same : Account → ℕ → ℕ → Type 0
  pub same_refl : (a : Account) (x : ℕ) → Same a x x
  pub same_trans : (a : Account) (x y z : ℕ) → Same a x y → Same a y z → Same a x z
  pub same_add : (a : Account) (n x y : ℕ) → Same a x y → Same a (n + x) (n + y)

module _ {W D : Type 0} (ledger : Ledger W D) where
  open ledger use {Account, acked, balance, brings, Same, same_refl, same_trans, same_add}

  -- From `w` to `w'` these deliveries were acknowledged, and each account grew by what they bring.
  pub record Booked (w w' : W) : Type 0 where
    pub news : List D
    pub acks : acked w' ≡ news ++ acked w
    pub books : (a : Account) → Same a (balance a w') (sum_of (brings a) news + balance a w)

  pub record Unmoved (w w' : W) : Type 0 where
    pub acks : acked w' ≡ acked w
    pub books : (a : Account) → balance a w' ≡ balance a w

  Same-of_eq : (a : Account) {x y : ℕ} → x ≡ y → Same a x y
  Same-of_eq a {x} e = subst (Same a x) e (same_refl a x)

  pub Unmoved-Booked : {w w' : W} → Unmoved w w' → Booked w w'
  Unmoved-Booked u = record {
    news = [];
    acks = u.acks;
    books = λ a. Same-of_eq a (omega (arith, u.books a));
  }

  pub Unmoved-refl : (w : W) → Unmoved w w
  Unmoved-refl w = record { acks = refl; books = λ a. refl }

  pub Unmoved-trans : {u v w : W} → Unmoved u v → Unmoved v w → Unmoved u w
  Unmoved-trans s t = record { acks = t.acks ∙ s.acks; books = λ a. t.books a ∙ s.books a }

  pub Booked-refl : (w : W) → Booked w w
  Booked-refl w = Unmoved-Booked (Unmoved-refl w)

  pub Booked-trans : {u v w : W} → Booked u v → Booked v w → Booked u w
  Booked-trans {u} {v} {w} s t = record {
    news = t.news ++ s.news;
    acks = t.acks ∙ ap (λ ds. t.news ++ ds) s.acks ∙ sym (append_assoc t.news s.news (acked u));
    books = λ a. same_trans a (balance a w) (sum_of (brings a) t.news + balance a v) _ (t.books a) (
        same_trans a _ (sum_of (brings a) t.news + (sum_of (brings a) s.news + balance a u)) _
          (same_add a (sum_of (brings a) t.news) (balance a v) _ (s.books a))
          (Same-of_eq a (omega (arith, sum_of-append (brings a) t.news s.news))));
  }

  -- An acknowledgement writes its delivery down and leaves the database alone; a rejection and a
  -- notification do neither.
  pub record BookLaws (channel : Channel W D) : Type 0 where
    pub ack : (d : D) (w : W) → acked (channel.ack d w) ≡ d ∷ acked w
    pub ack_books : (d : D) (w : W) (a : Account) → balance a (channel.ack d w) ≡ balance a w
    pub nack : (d : D) (w : W) → Unmoved w (channel.nack d w)
    pub notify : (t : Text) (w : W) → Unmoved w (channel.notify t w)

  module _ (channel : Channel W D) (laws : BookLaws channel) where
    -- A delivery that brings nothing is acknowledged.
    pub ack_nothing :
        (d : D) (w : W) → ((a : Account) → brings a d ≡ 0) → Booked w (channel.ack d w)
    ack_nothing d w nothing = record {
      news = d ∷ [];
      acks = laws.ack d w;
      books = λ a. Same-of_eq a (omega (arith, nothing a, laws.ack_books d w a));
    }

    -- Some deliveries were acknowledged, in some order, and the database was left alone.
    record Acked (ds : List D) (w w' : W) : Type 0 where
      news : List D
      acks : acked w' ≡ news ++ acked w
      same : (f : D → ℕ) → sum_of f news ≡ sum_of f ds
      books : (a : Account) → balance a w' ≡ balance a w

    for_each-Acked : (ds : List D) (w : W) → Acked ds w (for_each channel.ack ds w)
    unfolding for_each
    for_each-Acked [] w = record { news = []; acks = refl; same = λ f. refl; books = λ a. refl }
    for_each-Acked (d ∷ ds) w =
        let rest = for_each-Acked ds (channel.ack d w) in
        record {
          news = rest.news ++ d ∷ [];
          acks =
              rest.acks
              ∙ ap (λ xs. rest.news ++ xs) (laws.ack d w)
              ∙ sym (append_assoc rest.news (d ∷ []) (acked w));
          same = λ f. omega (arith, rest.same f, sum_of-append f rest.news (d ∷ []));
          books = λ a. rest.books a ∙ laws.ack_books d w a;
        }

    -- A statement that wrote what these deliveries bring, and their acknowledgement.
    pub stored :
        (ds : List D) (w v : W)
        → acked v ≡ acked w
        → ((a : Account) → Same a (balance a v) (sum_of (brings a) ds + balance a w))
        → Booked w (for_each channel.ack ds v)
    stored ds w v e written =
        let all = for_each-Acked ds v in
        record {
          news = all.news;
          acks = all.acks ∙ ap (λ xs. all.news ++ xs) e;
          books = λ a. same_trans a _ (balance a v) _ (Same-of_eq a (all.books a)) (
              same_trans a _ (sum_of (brings a) ds + balance a w) _ (written a)
                (Same-of_eq a (omega (arith, all.same (brings a)))));
        }

    pub all_rejected : (ds : List D) (w : W) → Unmoved w (for_each channel.nack ds w)
    unfolding for_each
    all_rejected [] w = Unmoved-refl w
    all_rejected (d ∷ ds) w = Unmoved-trans (laws.nack d w) (all_rejected ds (channel.nack d w))
