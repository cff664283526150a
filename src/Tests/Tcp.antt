-- ===== src/Tests/Tcp.antt =====
-- Frames, responses and a connection at concrete inputs.
use realtime_ingestion.Base.{
  ℕ, ◌≤◌, ◌≡◌, ◌≢◌, ◌↔◌, refl, Bool, true, false, none, some, List, [], ◌∷◌, ◌++◌, Bytes, All,
  length, take, drop, replicate, get_elem?, arith,
}
use realtime_ingestion.Text.{codes, text_eq, as_bytes, utf8_char, decimal, format_04}
use realtime_ingestion.Parser.{field}
use realtime_ingestion.Tcp.Frame.{IsWellFormed, extract_frame, wrap_response}
use realtime_ingestion.Tcp.Frame.Invert.{Outcome, extract_frame-Outcome, extract_frame_iff}
use realtime_ingestion.Tcp.Response.{response_type, build_response}
use realtime_ingestion.Tcp.Response.Laws.{response_at, build_response-response_at}
use realtime_ingestion.Tcp.Process.{process_frame}
use realtime_ingestion.Tcp.Process.Laws.{
  answered_type, process_frame_answer, process_frame_panics_iff,
}
use realtime_ingestion.Tcp.Connection.{
  Read, received, opened, serve, round, drain, handle_connection,
}
use realtime_ingestion.Tcp.Connection.Drain.{drain_equation}
use realtime_ingestion.Tcp.Connection.Chunks.{wire, stream, Serves, handle_connection-Serves}
use realtime_ingestion.Tests.Codec.{json-JsonLaws}
use realtime_ingestion.Tests.World.{start, state, socket}

-- A request with a header, and one with none.
abbrev ping : Bytes × Bool
ping = (codes "ping", true)

abbrev request : Bytes
request = codes "MERCHANT0200TRAN00000001" ++ replicate 146 32

abbrev requests : List (Bytes × Bool)
requests = ping ∷ (request, false) ∷ []

ping-IsWellFormed : IsWellFormed 4096 ping
ping-IsWellFormed = (omega arith, omega arith, omega arith)

request-IsWellFormed : IsWellFormed 4096 (request, false)
request-IsWellFormed = (refl, omega arith, refl)

requests-IsWellFormed : All (IsWellFormed 4096) requests
requests-IsWellFormed = (ping-IsWellFormed, (request-IsWellFormed, tt))

-- The stream of the two, cut inside the header and inside the second request.
abbrev reads : List Read
reads =
    received (codes "00")
    ∷ received (codes "04ping" ++ take 100 request)
    ∷ received (drop 100 request)
    ∷ []

reads-wire : stream reads ≡ wire requests
unfolding wrap_response format_04 decimal
reads-wire = refl

handle_connection-Serves_example :
    Serves
      (serve state socket)
      4096
      requests
      start
      (handle_connection state socket 4096 reads start)
handle_connection-Serves_example =
    handle_connection-Serves state socket 4096 reads requests start (tt, (tt, (tt, tt)))
      requests-IsWellFormed reads-wire

drain_equation_example :
    drain (serve state socket) 4096 1 (opened start)
    ≡ round
        (serve state socket)
        4096
        (drain (serve state socket) 4096 1)
        (opened start)
        (extract_frame [] 4096)
drain_equation_example = drain_equation (serve state socket) 4096 1 (opened start) (omega arith)

extract_frame_iff_example :
    (extract_frame (codes "0004pingX") 4096 ≡ (some ping, codes "X"))
    ↔ (IsWellFormed 4096 ping × (codes "0004pingX" ≡ wrap_response ping ++ codes "X"))
extract_frame_iff_example = extract_frame_iff 4096 (codes "0004pingX") (codes "X") ping

extract_frame-Outcome_example :
    Outcome 4096 (codes "00000004ping") (extract_frame (codes "00000004ping") 4096)
extract_frame-Outcome_example = extract_frame-Outcome 4096 (codes "00000004ping")

abbrev answer : Bytes
answer = codes "MERCHANT0210TRAN0000000100" ++ replicate 144 32

built : build_response request (codes "0200") ≡ some answer
unfolding build_response response_type text_eq as_bytes utf8_char
built = refl

build_response-response_at_example :
    (length answer ≡ length request)
    × ((n : ℕ) → get_elem? answer n ≡ response_at request (codes "0200") n)
build_response-response_at_example = build_response-response_at request (codes "0200") answer built

process_frame_answer_example :
    (process_frame state request start).0
    ≡ build_response request (answered_type state.euc_kr request)
process_frame_answer_example = process_frame_answer state json-JsonLaws request start

process_frame_panics_iff_example : ((process_frame state request start).0 ≡ none) ↔ (
    (153 ≤ length request)
    × (response_type (field state.euc_kr request 8 4) ≢ [])
    × (length (as_bytes (response_type (field state.euc_kr request 8 4))) ≢ 4))
process_frame_panics_iff_example = process_frame_panics_iff state json-JsonLaws request start
