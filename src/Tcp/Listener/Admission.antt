-- ===== src/Tcp/Listener/Admission.antt =====
-- Which connections `start` of src/tcp_listener.rs serves.
use realtime_ingestion.Base.{
  ℕ, ◌^◌, ◌≡◌, ◌<◌, Bool, true, false, ◌&&◌, ◌||◌, Option, none, some, List, [], ◌∷◌, ltb,
  if◌then◌else◌, is_empty, length, get_elem?,
}
use realtime_ingestion.Security.Tracker.Invariant.{count, Reach, Reach.start as begun}
use realtime_ingestion.Tcp.Listener.{
  TaskEvent, connected, accept_failed, finished, left_finished, Listener, without, start,
}

-- The specification keeps only the addresses that are being served.
module _ (allowed_ips : List ℕ) (max_connections max_conn_per_ip : ℕ) where
  abbrev room : List ℕ → ℕ → Bool
  room tasks ip = ltb (count ip tasks) max_conn_per_ip && ltb (length tasks) max_connections

  abbrev pub serves : List ℕ → ℕ → Bool
  serves tasks ip = (is_empty allowed_ips || ltb 0 (count ip allowed_ips)) && room tasks ip

  abbrev pub served_tasks : {E : Type 0} → List (TaskEvent E) → List ℕ → Bool × List ℕ
  served_tasks [] tasks = (false, tasks)
  served_tasks (connected ip ∷ es) tasks =
      served_tasks es (if serves tasks ip then ip ∷ tasks else tasks)
  served_tasks (accept_failed ∷ es) tasks = (true, tasks)
  served_tasks (finished i f ∷ es) tasks =
      served_tasks es (elim (get_elem? tasks i) [ none ↦ tasks | some ip ↦ without i tasks ])
  served_tasks (left_finished i f ∷ es) tasks = served_tasks es tasks

-- What the specification says of a run.
abbrev pub tasks_of : {W : Type 0} → Option (Bool × Listener W) → Option (Bool × List ℕ)
tasks_of none = none
tasks_of (some (over, l)) = some (over, l.tasks)

module _ {W : Type 0} (allowed_ips : List ℕ) (max_connections max_conn_per_ip : ℕ)
    (small : max_connections < 2 ^ 64) where
  abbrev Held : Listener W → Type 0
  Held l = Reach max_connections max_conn_per_ip l.tracker l.tasks

  -- One step of both: the state is again that of a history, with the addresses of the specification.
  record Agrees (l : Listener W) (tasks : List ℕ) : Type 0 where
    held : Held l
    same : l.tasks ≡ tasks
