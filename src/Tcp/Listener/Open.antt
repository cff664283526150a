-- ===== src/Tcp/Listener/Open.antt =====
-- The connections that are open behind runs of `start`, src/tcp_listener.rs: their addresses, and how
-- many they are.
use realtime_ingestion.Base.{
  not, ◌&&◌, sym, subst, Option-cases, inl, inr, ℕ, zero, suc, ◌*◌, ◌≡◌, ◌≤◌, refl, Bool, true,
  false, ◌||◌, Option, none, some, List, [], ◌∷◌, ◌++◌, ltb, ◌==◌, if◌then◌else◌, is_empty, length,
  get_elem?, inl, inr, arith, Bool-cases, both, All, All-append, length-append,
}
use realtime_ingestion.Security.Tracker.Invariant.{count, count-append}
use realtime_ingestion.Telegram.{HttpClient, Notifier}
use realtime_ingestion.Security.Tracker.{
  ConnectionTracker, Acquired, guard, too_many, too_many_of_ip, acquire,
}
use realtime_ingestion.Tcp.Listener.{
  ErrorLib, Listener, Finished, contains_ip, admit, on_connected, on_finished, on_left_finished,
  accept_loop, TaskEvent, connected, accept_failed, finished, left_finished, without,
}
use realtime_ingestion.Tcp.Listener.Admission.{serves, served_tasks}

without-All : (P : ℕ → Type 0) (i : ℕ) (tasks : List ℕ) → All P tasks → All P (without i tasks)
without-All P zero [] a = tt
without-All P (suc i) [] a = tt
without-All P zero (x ∷ tasks) a = a.1
without-All P (suc i) (x ∷ tasks) a = (a.0, without-All P i tasks a.1)

without-length : (i : ℕ) (tasks : List ℕ) → length (without i tasks) ≤ length tasks
without-length zero [] = omega arith
without-length (suc i) [] = omega arith
without-length zero (x ∷ tasks) = omega arith
without-length (suc i) (x ∷ tasks) = omega (arith, without-length i tasks)

without-count : (ip i : ℕ) (tasks : List ℕ) → count ip (without i tasks) ≤ count ip tasks
without-count ip zero [] = omega arith
without-count ip (suc i) [] = omega arith
without-count ip zero (x ∷ tasks) = omega arith
without-count ip (suc i) (x ∷ tasks) = omega (arith, without-count ip i tasks)

-- The addresses `tasks` satisfy `P`, and are within the limits of `n` runs.
pub record Open (P : ℕ → Type 0) (max_connections max_conn_per_ip n : ℕ) (tasks : List ℕ)
    : Type 0 where
  pub named : All P tasks
  pub few : length tasks ≤ n * max_connections
  pub few_of : (ip : ℕ) → count ip tasks ≤ n * max_conn_per_ip

module _ (P : ℕ → Type 0) (allowed_ips : List ℕ) (max_connections max_conn_per_ip : ℕ)
    (allows : (ip : ℕ) → (is_empty allowed_ips || ltb 0 (count ip allowed_ips)) ≡ true → P ip) where
  serves-Open :
      (tasks : List ℕ) (ip : ℕ)
      → serves allowed_ips max_connections max_conn_per_ip tasks ip ≡ true
      → Open P max_connections max_conn_per_ip 1 tasks
      → Open P max_connections max_conn_per_ip 1 (ip ∷ tasks)
  serves-Open tasks ip h o =
      let (allowed, room) = both (is_empty allowed_ips || ltb 0 (count ip allowed_ips)) _ h in
      let (of_ip, in_all) =
        both (ltb (count ip tasks) max_conn_per_ip) (ltb (length tasks) max_connections) room in
      record {
        named = (allows ip allowed, o.named);
        few = ground (arith, in_all);
        few_of = λ j. elim (Bool-cases (ip == j)) [
          | inl same ↦ ground (arith, same, of_ip)
          | inr other ↦ ground (arith, other, o.few_of j)
        ];
      }

  if-Open :
      (b : Bool) (xs ys : List ℕ)
      → (b ≡ true → Open P max_connections max_conn_per_ip 1 xs)
      → Open P max_connections max_conn_per_ip 1 ys
      → Open P max_connections max_conn_per_ip 1 (if b then xs else ys)
  if-Open true xs ys o p = o refl
  if-Open false xs ys o p = p

  pub without-Open :
      (n i : ℕ) (tasks : List ℕ)
      → Open P max_connections max_conn_per_ip n tasks
      → Open P max_connections max_conn_per_ip n (without i tasks)
  without-Open n i tasks o = record {
    named = without-All P i tasks o.named;
    few = omega (arith, without-length i tasks, o.few);
    few_of = λ ip. omega (arith, without-count ip i tasks, o.few_of ip);
  }

  ended-Open :
      (i : ℕ) (tasks : List ℕ) (task : Option ℕ)
      → Open P max_connections max_conn_per_ip 1 tasks
      → Open P max_connections max_conn_per_ip 1
          (elim task [ none ↦ tasks | some ip ↦ without i tasks ])
  ended-Open i tasks none o = o
  ended-Open i tasks (some ip) o = without-Open 1 i tasks o

  pub served_tasks-Open :
      {E : Type 0} (es : List (TaskEvent E)) (tasks : List ℕ)
      → Open P max_connections max_conn_per_ip 1 tasks
      → Open P max_connections max_conn_per_ip 1
          (served_tasks allowed_ips max_connections max_conn_per_ip es tasks).1
  served_tasks-Open [] tasks o = o
  served_tasks-Open (connected ip ∷ es) tasks o = served_tasks-Open es _ (
      if-Open (serves allowed_ips max_connections max_conn_per_ip tasks ip) (ip ∷ tasks) tasks
        (λ may. serves-Open tasks ip may o) o)
  served_tasks-Open (accept_failed ∷ es) tasks o = o
  served_tasks-Open (finished i f ∷ es) tasks o =
      served_tasks-Open es _ (ended-Open i tasks (get_elem? tasks i) o)
  served_tasks-Open (left_finished i f ∷ es) tasks o = served_tasks-Open es tasks o

  pub Open-append :
      (n : ℕ) (newer older : List ℕ)
      → Open P max_connections max_conn_per_ip 1 newer
      → Open P max_connections max_conn_per_ip n older
      → Open P max_connections max_conn_per_ip (suc n) (newer ++ older)
  Open-append n newer older p o = record {
    named = All-append P newer older p.named o.named;
    few = omega (arith, length-append newer older, o.few, p.few);
    few_of = λ ip. omega (arith, count-append ip newer older, o.few_of ip, p.few_of ip);
  }

  pub Open-more :
      (n : ℕ) (tasks : List ℕ)
      → Open P max_connections max_conn_per_ip n tasks
      → Open P max_connections max_conn_per_ip (suc n) tasks
  Open-more n tasks o = record {
    named = o.named;
    few = omega (arith, o.few);
    few_of = λ ip. omega (arith, o.few_of ip);
  }

-- No event adds to the tasks that are left.
module _ {W E : Type 0} (client : HttpClient W) (errors : ErrorLib E) (notifier : Option Notifier)
    (allowed_ips : List ℕ) where
  admit-left : (l : Listener W) (a : Acquired × ConnectionTracker) → (admit l a).left ≡ l.left
  unfolding admit
  admit-left l (guard ip, t) = refl
  admit-left l (too_many, t) = refl
  admit-left l (too_many_of_ip, t) = refl

  on_connected-left : (ip : ℕ) (l : Listener W) → (on_connected allowed_ips ip l).left ≡ l.left
  unfolding on_connected
  on_connected-left ip l = either (not (is_empty allowed_ips) && not (contains_ip allowed_ips ip))
    where
      either : (b : Bool) → (if b then l else admit l (acquire l.tracker ip)).left ≡ l.left
      either true = refl
      either false = admit-left l (acquire l.tracker ip)

  on_finished-left :
      (i : ℕ) (f : Finished E) (l : Listener W)
      → (on_finished client errors notifier i f l).left ≡ l.left
  unfolding on_finished
  on_finished-left i f l = elim (Option-cases (get_elem? l.tasks i)) [
    | inl absent ↦ rw (absent, on_finished) refl
    | inr (ip, there) ↦ rw (there, on_finished) refl
  ]

  module _ (P : List ℕ → Type 0)
      (shrinks : (i : ℕ) (tasks : List ℕ) → P tasks → P (without i tasks)) where
    on_left_finished-left :
        (i : ℕ) (f : Finished E) (l : Listener W)
        → P l.left
        → P (on_left_finished client errors notifier i f l).left
    unfolding on_left_finished
    on_left_finished-left i f l p = elim (Option-cases (get_elem? l.left i)) [
      | inl absent ↦ rw (absent, on_left_finished) p
      | inr (ip, there) ↦ rw (there, on_left_finished) (shrinks i l.left p)
    ]

    pub accept_loop-left :
        (es : List (TaskEvent E)) (l : Listener W)
        → P l.left
        → P (accept_loop client errors notifier allowed_ips es l).1.left
    unfolding accept_loop
    accept_loop-left [] l p = p
    accept_loop-left (connected ip ∷ es) l p =
        accept_loop-left es (on_connected allowed_ips ip l)
          (subst P (sym (on_connected-left ip l)) p)
    accept_loop-left (accept_failed ∷ es) l p = p
    accept_loop-left (finished i f ∷ es) l p =
        accept_loop-left es (on_finished client errors notifier i f l)
          (subst P (sym (on_finished-left i f l)) p)
    accept_loop-left (left_finished i f ∷ es) l p =
        accept_loop-left es (on_left_finished client errors notifier i f l)
          (on_left_finished-left i f l p)
