-- ===== src/Tcp/Process/Laws.antt =====
-- What `process_frame` answers, and what it does to the outside world on each of its paths.
use realtime_ingestion.Base.{
  ◌≡◌, ◌≢◌, ◌≤◌, ◌↔◌, refl, sym, ap, none, some, [], Bytes, ltb, if◌then◌else◌, length, arith, inl,
  inr, Bool-cases, ◌∙◌, unwrap_or,
}
use realtime_ingestion.Text.{Text, codes, text_eq, as_bytes}
use realtime_ingestion.Models.{QueueMessage}
use realtime_ingestion.External.{Result, ok, err, Error, JsonLaws, entry, EucKr}
use realtime_ingestion.Parser.{field, payload_fields, parse_frame, min_payload}
use realtime_ingestion.Receiver.{AppState}
use realtime_ingestion.Tcp.Response.{response_type, build_response}
use realtime_ingestion.Tcp.Response.Laws.{build_response_panics_iff}
use realtime_ingestion.Tcp.Process.{process_message, process_frame}

-- The message type that the response is built from: none for a payload that is too short.
abbrev pub answered_type : EucKr → Bytes → Text
answered_type euc_kr frame = if ltb (length frame) min_payload then [] else field euc_kr frame 8 4

entry-msg_type :
    (euc_kr : EucKr) (frame : Bytes)
    → entry (codes "msg_type") (payload_fields euc_kr frame) ≡ some (field euc_kr frame 8 4)
unfolding payload_fields entry text_eq
entry-msg_type euc_kr frame = refl

response_type_nil : response_type [] ≡ []
unfolding response_type text_eq
response_type_nil = refl

module _ {W C Json : Type 0} (state : AppState W C Json) (laws : JsonLaws state.json) where
  parsed_type :
      (frame : Bytes) (w : W) (m : QueueMessage Json)
      → parse_frame state.euc_kr state.clock state.json frame w ≡ ok m
      → unwrap_or (state.json.str_at m.payload (codes "msg_type")) []
        ≡ answered_type state.euc_kr frame
  unfolding parse_frame
  parsed_type frame w m e = ground (
    arith,
    laws.str_at-object (payload_fields state.euc_kr frame) (codes "msg_type"),
    entry-msg_type state.euc_kr frame,
  )

  failed_type :
      (frame : Bytes) (w : W) (e : Error)
      → parse_frame state.euc_kr state.clock state.json frame w ≡ err e
      → ◌≡◌ {A = Text} [] (answered_type state.euc_kr frame)
  unfolding parse_frame
  failed_type frame w e h = ground arith

  answered :
      (frame : Bytes) (w : W) (r : Result (QueueMessage Json))
      → parse_frame state.euc_kr state.clock state.json frame w ≡ r
      → (process_message state frame r w).0
        ≡ build_response frame (answered_type state.euc_kr frame)
  unfolding process_message
  answered frame w (ok m) e = ap (build_response frame) (parsed_type frame w m e)
  answered frame w (err x) e = ap (build_response frame) (failed_type frame w x e)

  -- The answer to a frame depends on its bytes alone: not on whether the event is new, nor on
  -- whether Redis or the broker fails.
  pub process_frame_answer :
      (frame : Bytes) (w : W)
      → (process_frame state frame w).0 ≡ build_response frame (answered_type state.euc_kr frame)
  unfolding process_frame
  process_frame_answer frame w =
      answered frame w (parse_frame state.euc_kr state.clock state.json frame w) refl

  answered_type-ne-nil :
      (frame : Bytes)
      → ((12 ≤ length frame)
          × (response_type (answered_type state.euc_kr frame) ≢ [])
          × (length (as_bytes (response_type (answered_type state.euc_kr frame))) ≢ 4))
        ↔ ((153 ≤ length frame)
            × (response_type (field state.euc_kr frame 8 4) ≢ [])
            × (length (as_bytes (response_type (field state.euc_kr frame 8 4))) ≢ 4))
  answered_type-ne-nil frame = elim (Bool-cases (ltb (length frame) 153)) [
    | inl short ↦
        rw short ((λ (a, b, c). absurd (b response_type_nil)), λ (a, b, c). absurd (ground arith))
    | inr long ↦ rw long ((λ (a, b, c). (ground arith, b, c)), λ (a, b, c). (omega arith, b, c))
  ]

  -- Processing a frame panics exactly when it has 153 bytes or more and its type, trimmed, is
  -- neither empty nor four bytes long; the terminal then gets no answer.
  pub process_frame_panics_iff :
      (frame : Bytes) (w : W)
      → ((process_frame state frame w).0 ≡ none) ↔ (
          (153 ≤ length frame)
          × (response_type (field state.euc_kr frame 8 4) ≢ [])
          × (length (as_bytes (response_type (field state.euc_kr frame 8 4))) ≢ 4))
  process_frame_panics_iff frame w =
      let inner = build_response_panics_iff frame (answered_type state.euc_kr frame) in
      let outer = answered_type-ne-nil frame in
      (
        λ e. outer.0 (inner.0 (sym (process_frame_answer frame w) ∙ e)),
        λ h. process_frame_answer frame w ∙ inner.1 (outer.1 h),
      )

module _ {W C Json : Type 0} (state : AppState W C Json) where
  -- The message that a frame is read as.
  abbrev pub message_of : Bytes → W → Result (QueueMessage Json)
  message_of frame w = parse_frame state.euc_kr state.clock state.json frame w
