-- ===== src/Tcp/Process.antt =====
-- `process_frame` of src/tcp_listener.rs: parse, deduplicate, publish, respond. `none` is the panic
-- of `build_response`.
pub mod Laws
pub mod Keeps
use realtime_ingestion.Base.{Bool, true, false, Option, [], Bytes, unwrap_or}
use realtime_ingestion.Text.{codes}
use realtime_ingestion.Models.{QueueMessage}
use realtime_ingestion.External.{Result, ok, err}
use realtime_ingestion.Parser.{parse_frame}
use realtime_ingestion.Dedup.{is_new}
use realtime_ingestion.Producer.{publish}
use realtime_ingestion.Receiver.{AppState}
use realtime_ingestion.Tcp.Response.{build_response}

module _ {W C Json : Type 0} (state : AppState W C Json) where
  -- The three arms behind the call of `is_new`: only a new event is published, and no failure
  -- reaches the terminal.
  unfoldable pub deliver : QueueMessage Json → Result Bool × W → W
  deliver msg (ok true, w) = (publish state.amqp state.json state.producer msg w).1
  deliver msg (ok false, w) = w
  deliver msg (err e, w) = w

  unfoldable pub process_message : Bytes → Result (QueueMessage Json) → W → Option Bytes × W
  unfolding deliver
  process_message frame (err e) w = (build_response frame [], w)
  process_message frame (ok msg) w =
      let msg_type = unwrap_or (state.json.str_at msg.payload (codes "msg_type")) [] in
      (build_response frame msg_type, deliver msg (is_new state.redis state.dedup msg.id w))

  unfoldable pub process_frame : Bytes → W → Option Bytes × W
  unfolding process_message
  process_frame frame w =
      process_message frame (parse_frame state.euc_kr state.clock state.json frame w) w
