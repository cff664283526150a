-- ===== src/Tests/Transcript.antt =====
-- What a terminal gets, at concrete inputs. The world is the answers that were written; the socket
-- takes two of them.
use realtime_ingestion.Base.{
  ◌≡◌, refl, Bool, true, false, none, List, [], ◌∷◌, ◌++◌, Bytes, All, length, ltb, if◌then◌else◌,
  arith,
}
use realtime_ingestion.Text.{
  codes, trim, trim_start, trim_end, is_whitespace, format_04, decimal, parse_unsigned, digits_to,
  text_eq, as_bytes, utf8_char,
}
use realtime_ingestion.External.{ok, Socket}
use realtime_ingestion.Receiver.{AppState}
use realtime_ingestion.Parser.{parse_frame}
use realtime_ingestion.Tcp.Frame.{
  IsWellFormed, extract_frame, take_llll, payload_length, wrap_response,
}
use realtime_ingestion.Tcp.Response.{response_type, build_response}
use realtime_ingestion.Tcp.Process.{process_message, process_frame}
use realtime_ingestion.Tcp.Process.Keeps.{ServicesKeep}
use realtime_ingestion.Tcp.Connection.{
  Read, received, Connection, opened, on_read, on_data, drain, serve, reply, send,
}
use realtime_ingestion.Tcp.Connection.Chunks.{serve_all}
use realtime_ingestion.Tcp.Connection.Transcript.{
  answer, transcript, SocketLog, Lived, Lived-transcript, Lived-answers,
}
use realtime_ingestion.Tests.Codec.{Fields, json, json-JsonLaws}

abbrev Log : Type 0
Log = List Bytes

abbrev state : AppState Log (Unit {0}) Fields
state = record {
  dedup = record { ttl_secs = 60 };
  producer = record { exchange = codes "events" };
  redis = record { set_nx_ex = λ k ttl w. (ok none, w) };
  amqp = record {
    basic_publish = λ exchange key kind mode body w. (ok 1, w);
    confirmation = λ tag w. (ok tt, w);
  };
  json = json;
  clock = record { since_epoch = λ w. none };
  euc_kr = record { decode = λ b. b; decode_ascii = λ b h. refl };
}

abbrev takes : Log → Bytes → Bool
takes log b = ltb (length log) 2

abbrev socket : Socket Log
socket = record { write_all = λ b w. (takes w b, if takes w b then w ++ b ∷ [] else w) }

written : (b : Bytes) (w : Log) → takes w b ≡ true → (socket.write_all b w).1 ≡ w ++ b ∷ []
written b w h = rw h refl

broken : (b : Bytes) (w : Log) → takes w b ≡ false → (socket.write_all b w).1 ≡ w
broken b w h = rw h refl

abbrev line : SocketLog socket
line = record {
  log = λ w. w;
  takes = takes;
  result = λ b w. refl;
  taken = written;
  refused = broken;
}

abbrev keep : ServicesKeep state (λ (w : Log). w)
keep = record {
  set_nx_ex = λ k ttl w. refl;
  basic_publish = λ exchange key kind mode body w. refl;
  confirmation = λ tag w. refl;
}

abbrev frames : List (Bytes × Bool)
frames = (codes "ping", true) ∷ (codes "pong", true) ∷ []

abbrev reads : List Read
reads = received (codes "0004pi") ∷ received (codes "ng0004pong") ∷ []

abbrev half : Connection Log
half = (on_read (serve state socket) 4096 (received (codes "0004pi")) (opened [])).1

abbrev whole : Connection Log
whole = (on_read (serve state socket) 4096 (received (codes "ng0004pong")) half).1

half_read : on_read (serve state socket) 4096 (received (codes "0004pi")) (opened []) ≡ (none, half)
unfolding on_read on_data drain extract_frame take_llll payload_length trim trim_start trim_end
    is_whitespace parse_unsigned digits_to
half_read = refl

whole_read : on_read (serve state socket) 4096 (received (codes "ng0004pong")) half ≡ (none, whole)
unfolding on_read on_data drain extract_frame take_llll payload_length trim trim_start trim_end
    is_whitespace parse_unsigned digits_to serve reply send process_frame process_message
    parse_frame build_response response_type text_eq wrap_response format_04 decimal as_bytes
    utf8_char
whole_read = refl

lived : Lived state json-JsonLaws socket line keep 4096 (opened []) reads (none, whole)
lived = Lived.goes_on (received (codes "0004pi")) half half_read (
    Lived.others half.world refl
      (Lived.goes_on (received (codes "ng0004pong")) whole whole_read Lived.waits))

frames-IsWellFormed : All (IsWellFormed 4096) frames
frames-IsWellFormed =
    ((omega arith, omega arith, omega arith), ((omega arith, omega arith, omega arith), tt))

Lived-transcript_example :
    let (end, spoken) = transcript state.euc_kr takes 4096 reads [] in
    (none ≡ end) × (whole.world ≡ spoken.world)
Lived-transcript_example = Lived-transcript state json-JsonLaws socket line keep 4096 [] lived

Lived-answers_example : (none, whole.world) ≡ serve_all (answer state.euc_kr takes) 4096 frames []
unfolding wrap_response format_04 decimal
Lived-answers_example =
    Lived-answers state json-JsonLaws socket line keep 4096 [] frames lived (tt, (tt, tt))
      frames-IsWellFormed refl
