-- ===== src/Tests/Listener.antt =====
-- The accept loop with one allowed address and one connection for it.
use realtime_ingestion.Base.{ℕ, ◌≡◌, refl, Bool, true, Option, none, some, List, [], ◌∷◌}
use realtime_ingestion.Text.{codes}
use realtime_ingestion.Telegram.{HttpClient, Notifier, notify}
use realtime_ingestion.Security.Tracker.{new, acquire, release, entry_or_zero, decrement}
use realtime_ingestion.Base.Map.{lookup, insert, remove}
use realtime_ingestion.Tcp.Listener.{
  ErrorKind, connection_reset, other_kind, ErrorLib, error, TaskEvent, connected, accept_failed,
  finished, Listener, contains_ip, admit, report, on_connected, on_finished, accept_loop, start,
}

-- The world counts the notifications.
abbrev pub client : HttpClient ℕ
client = record { post_json = λ url object sent. (none, Prim.Native.Nat.suc sent) }

abbrev pub errors : ErrorLib ErrorKind
errors = record {
  kind = λ k. some k;
  display = λ k. codes "broken pipe";
  display_ip = λ ip. codes "10.0.0.5";
}

abbrev telegram : Option Notifier
telegram = some (record { bot_token = codes "123:abc"; chat_id = codes "42" })

-- An address that is not listed, one that is, twice, and its end by an error; then `accept` fails.
abbrev events : List (TaskEvent ErrorKind)
events =
    connected 9
    ∷ connected 5
    ∷ connected 5
    ∷ finished 0 (error other_kind)
    ∷ connected 5
    ∷ finished 0 (error connection_reset)
    ∷ connected 5
    ∷ accept_failed
    ∷ []

abbrev run_of : Option (Bool × Listener ℕ) → Option (Bool × List ℕ × ℕ)
run_of none = none
run_of (some (over, l)) = some (over, l.tasks, l.world)

outcome :
    run_of (start client errors telegram true (5 ∷ []) 10 1 [] events 0) ≡ some (true, 5 ∷ [], 1)
unfolding start accept_loop on_connected on_finished contains_ip admit report notify new acquire
    release entry_or_zero decrement lookup insert remove
outcome = refl
