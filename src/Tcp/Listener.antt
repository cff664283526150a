-- ===== src/Tcp/Listener.antt =====
-- `start` of src/tcp_listener.rs: the accept loop and the tasks that it spawns. What happens is a
-- list: connections that arrive, an `accept` that fails, and tasks whose connection is finished, those
-- of an earlier run among them.
pub mod Admission
pub mod Open
use realtime_ingestion.Base.{
  ℕ, suc, Bool, true, false, not, ◌&&◌, ◌||◌, Option, none, some, List, [], ◌∷◌, ◌++◌, ◌==◌,
  if◌then◌else◌, is_empty, take, drop, get_elem?,
}
use realtime_ingestion.Text.{Text, codes}
use realtime_ingestion.Telegram.{HttpClient, Notifier, notify}
use realtime_ingestion.Security.Tracker.{ConnectionTracker, new, Acquired, guard, acquire, release}

-- `std::io::ErrorKind`, by what the program asks of it.
pub data ErrorKind : Type 0 where
  connection_reset connection_aborted other_kind : ErrorKind

-- The errors `E` of a connection: the kind of one that is an `io::Error`, and `Display`, also of
-- an address.
pub record ErrorLib (E : Type 0) : Type 0 where
  pub kind : E → Option ErrorKind
  pub display : E → Text
  pub display_ip : ℕ → Text

-- How a task ends: by what `handle_connection` returns, or by its panic.
pub data Finished (E : Type 0) : Type 0 where
  returned : Finished E
  error : E → Finished E
  panicked : Finished E

pub data TaskEvent (E : Type 0) : Type 0 where
  connected : ℕ → TaskEvent E
  accept_failed : TaskEvent E
  finished left_finished : ℕ → Finished E → TaskEvent E

-- The tracker, the addresses of the tasks that hold a guard, those of the tasks that an earlier
-- `start` has left, and the world.
pub record Listener (W : Type 0) : Type 0 where
  pub tracker : ConnectionTracker
  pub tasks : List ℕ
  pub left : List ℕ
  pub world : W

-- `allowed_ips.contains(&ip)`
unfoldable pub contains_ip : List ℕ → ℕ → Bool
contains_ip [] ip = false
contains_ip (x ∷ xs) ip = x == ip || contains_ip xs ip

abbrev pub is_terminal_side : Option ErrorKind → Bool
is_terminal_side (some connection_reset) = true
is_terminal_side (some connection_aborted) = true
is_terminal_side _ = false

-- `list.remove(i)`
abbrev pub without : ℕ → List ℕ → List ℕ
without i tasks = take i tasks ++ drop (suc i) tasks

-- The text of the notification.
unfoldable pub connection_error : Text → Text → Text
connection_error ip e = codes "🔴 <b>[TCP 리스너]</b> 연결 오류 (IP: " ++ (ip ++ (codes "): " ++ e))

module _ {W : Type 0} where
  -- The `match` on `acquire`: a task is spawned with the guard, or the connection is dropped.
  unfoldable pub admit : Listener W → Acquired × ConnectionTracker → Listener W
  admit l (guard ip, t) = record l { tracker = t; tasks = ip ∷ l.tasks }
  admit l (_, t) = record l { tracker = t }

  -- The body of the loop behind `accept`.
  unfoldable pub on_connected : List ℕ → ℕ → Listener W → Listener W
  unfolding contains_ip admit
  on_connected allowed_ips ip l =
      if not (is_empty allowed_ips) && not (contains_ip allowed_ips ip)
      then l
      else admit l (acquire l.tracker ip)

module _ {W E : Type 0} (client : HttpClient W) (errors : ErrorLib E)
    (notifier : Option Notifier) where
  -- The `match` of the task on the result of `handle_connection`.
  unfoldable pub report : ℕ → Finished E → W → W
  unfolding connection_error
  report ip returned w = w
  report ip panicked w = w
  report ip (error e) w = if is_terminal_side (errors.kind e) then w else elim notifier [
    | none ↦ w
    | some n ↦ (notify client n (connection_error (errors.display_ip ip) (errors.display e)) w).1
  ]

  -- The end of the task at a place of the list; its guard is dropped. Nothing is at other places.
  unfoldable pub on_finished : ℕ → Finished E → Listener W → Listener W
  unfolding report
  on_finished i f l = elim (get_elem? l.tasks i) [
    | none ↦ l
    | some ip ↦ record l {
      tracker = release l.tracker ip;
      tasks = without i l.tasks;
      world = report ip f l.world;
    }
  ]

  -- The same for a task that is left; its guard is one of a tracker that no one asks any more.
  unfoldable pub on_left_finished : ℕ → Finished E → Listener W → Listener W
  unfolding report
  on_left_finished i f l = elim (get_elem? l.left i) [
    | none ↦ l
    | some ip ↦ record l { left = without i l.left; world = report ip f l.world }
  ]

  -- Whether `start` has returned, and the state then. The tasks outlive it.
  unfoldable pub accept_loop : List ℕ → List (TaskEvent E) → Listener W → Bool × Listener W
  unfolding on_connected on_finished on_left_finished
  accept_loop allowed_ips [] l = (false, l)
  accept_loop allowed_ips (connected ip ∷ es) l =
      accept_loop allowed_ips es (on_connected allowed_ips ip l)
  accept_loop allowed_ips (accept_failed ∷ es) l = (true, l)
  accept_loop allowed_ips (finished i f ∷ es) l = accept_loop allowed_ips es (on_finished i f l)
  accept_loop allowed_ips (left_finished i f ∷ es) l =
      accept_loop allowed_ips es (on_left_finished i f l)

  -- `none` is an address that cannot be bound. The tasks that are left go on beside this run.
  unfoldable pub start :
      Bool → List ℕ → ℕ → ℕ → List ℕ → List (TaskEvent E) → W → Option (Bool × Listener W)
  unfolding accept_loop
  start bound allowed_ips max_connections max_conn_per_ip left es w =
      if bound
      then some (
          accept_loop allowed_ips es (record {
            tracker = new max_connections max_conn_per_ip;
            tasks = [];
            left = left;
            world = w;
          }))
      else none
