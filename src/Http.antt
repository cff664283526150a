-- ===== src/Http.antt =====
-- The HTTP side: the middlewares of src/security.rs, `health_check` of src/receiver.rs, and the
-- router that `main` of src/main.rs builds. axum and governor are parameters: what the code asks of
-- a request, which route it takes, what axum answers itself, and whether a limiter lets an address
-- in. `none` as a reply is a panic.
pub mod Key
pub mod Layers
pub mod Access
use realtime_ingestion.Base.{
  ℕ, Bool, true, false, not, Option, none, some, [], ◌==◌, if◌then◌else◌, unwrap_or, ◌>>=◌, Bytes,
}
use realtime_ingestion.Text.{Text, codes, as_bytes}
use realtime_ingestion.Models.{IncomingEvent}
use realtime_ingestion.Config.{Config}
use realtime_ingestion.Receiver.{AppState, Response, handle_event}
use realtime_ingestion.Http.Key.{constant_time_eq}

-- What goes back: a code with a text, the answer of `handle_event`, that of `health_check` (200 and
-- a JSON object with a `status`), or one of axum's own.
pub data Reply (A : Type 0) : Type 0 where
  plain : ℕ → Text → Reply A
  event : Response → Reply A
  health : ℕ → Text → Reply A
  axum_reply : A → Reply A

-- What axum's router finds: the handler of one of the two routes, another method of it, or no
-- route.
pub data Route : Type 0 where
  events health_route events_other_method health_other_method no_route : Route

-- axum: headers, the peer's address, routing, the `Json` extractor with a limit on the body, which
-- gives an event or rejects, and the answers to what no handler takes.
pub record Axum (Req A Json : Type 0) : Type 0 where
  pub header : Req → Text → Option Bytes
  pub to_str : Bytes → Option Text
  pub peer : Req → Option ℕ
  pub route : Req → Route
  pub json_body : ℕ → Req → Option (IncomingEvent Json)
  pub rejection : ℕ → Req → A
  pub method_not_allowed : Req → A
  pub not_found : Req → A

-- governor: a keyed limiter with its quota (cells per second, burst), in the world.
pub record Quota : Type 0 where
  pub per_second : ℕ
  pub burst : ℕ

pub record Governor (W : Type 0) : Type 0 where
  pub check_key : Quota → ℕ → W → Bool × W

-- `NonZeroU32::new(n).unwrap()`
unfoldable pub non_zero : ℕ → Option ℕ
non_zero n = if n == 0 then none else some n

unfoldable pub new_rate_limiter : ℕ → ℕ → Option Quota
unfolding non_zero
new_rate_limiter per_second burst = do
  p ← non_zero per_second
  b ← non_zero burst
  some (record { per_second = p; burst = b })

-- `IpAddr::V4(Ipv4Addr::UNSPECIFIED)`
abbrev pub unspecified : ℕ
unspecified = 0

unfoldable pub health_check : {A : Type 0} → Reply A
health_check = health 200 (codes "ok")

-- A handler, and the rest of the stack (`Next`).
abbrev pub Handler : Type 0 → Type 0 → Type 0 → Type 0
Handler W Req A = Req → W → Option (Reply A) × W

-- The text of the header, if it is one of visible ASCII characters.
abbrev pub provided_key : {Req A Json : Type 0} → Axum Req A Json → Req → Option Text
provided_key axum req = axum.header req (codes "x-api-key") >>= axum.to_str

-- A handler that gives one of axum's answers.
abbrev pub answer : {W Req A : Type 0} → (Req → A) → Handler W Req A
answer f req w = (some (axum_reply (f req)), w)

-- The answer of `handle_event` as a reply.
abbrev pub event_reply : {W A : Type 0} → Option Response × W → Option (Reply A) × W
event_reply (none, w) = (none, w)
event_reply (some r, w) = (some (event r), w)

module _ {W Req A Json : Type 0} (axum : Axum Req A Json) where
  unfoldable pub api_key_middleware : Text → Handler W Req A → Handler W Req A
  unfolding constant_time_eq
  api_key_middleware expected next req w =
      let provided = unwrap_or (provided_key axum req) [] in
      if not (constant_time_eq (as_bytes provided) (as_bytes expected))
      then (some (plain 401 (codes "unauthorized")), w)
      else next req w

  unfoldable pub rate_limit_middleware : Governor W → Quota → Handler W Req A → Handler W Req A
  rate_limit_middleware governor limiter next req w =
      let ip = unwrap_or (axum.peer req) unspecified in
      let (conforming, w') = governor.check_key limiter ip w in
      let rest = next req w' in
      if not conforming then (some (plain 429 (codes "rate limit exceeded")), w') else rest

  module _ {C : Type 0} (state : AppState W C Json) where
    -- `post(handle_event)`: axum reads the body for the handler's argument first.
    unfoldable pub post_event : ℕ → Handler W Req A
    unfolding handle_event
    post_event limit req w = elim (axum.json_body limit req) [
      | none ↦ (some (axum_reply (axum.rejection limit req)), w)
      | some e ↦ event_reply (handle_event state e w)
    ]

    -- The two routes. The layer of `/events` is around every method of it.
    unfoldable pub routes : Text → ℕ → Handler W Req A
    unfolding api_key_middleware post_event health_check
    routes api_key limit req w = elim (axum.route req) [
      | events ↦ api_key_middleware api_key (post_event limit) req w
      | events_other_method ↦ api_key_middleware api_key (answer axum.method_not_allowed) req w
      | health_route ↦ (some health_check, w)
      | health_other_method ↦ answer axum.method_not_allowed req w
      | no_route ↦ answer axum.not_found req w
    ]

    -- The router with its layers; `none` is the panic of `new_rate_limiter`.
    unfoldable pub app : Governor W → Config → Option (Handler W Req A)
    unfolding new_rate_limiter rate_limit_middleware routes
    app governor cfg = do
      rate_limiter ← new_rate_limiter cfg.http_rate_per_second cfg.http_rate_burst
      some
          (rate_limit_middleware governor rate_limiter (routes cfg.api_key cfg.http_max_body_bytes))
