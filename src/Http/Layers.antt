-- ===== src/Http/Layers.antt =====
-- The layers of `main`, src/main.rs: each answers itself, or gives the request on.

use realtime_ingestion.Base.{
  ℕ, ◌≡◌, refl, sym, ap, ◌∙◌, Bool, true, false, none, some, [], unwrap_or, ◌==◌, is_empty, inl,
  inr, Bool-cases, >>=-some,
}
use realtime_ingestion.Text.{Text, codes, as_bytes}
use realtime_ingestion.Text.Laws.{byte_len-is_empty, byte_len-as_bytes}
use realtime_ingestion.Config.{Config}
use realtime_ingestion.Receiver.{AppState, Response}
use realtime_ingestion.Http.{
  plain, event, Axum, Quota, Governor, non_zero, new_rate_limiter, unspecified, Handler,
  provided_key, api_key_middleware, rate_limit_middleware, routes, app,
}
use realtime_ingestion.Http.Key.{constant_time_eq}
use realtime_ingestion.Http.Key.Laws.{constant_time_eq_iff}

-- The quota of the configuration.
abbrev pub quota : Config → Quota
quota cfg = record { per_second = cfg.http_rate_per_second; burst = cfg.http_rate_burst }

new_rate_limiter-some :
    (p b : ℕ) {q : Quota} → new_rate_limiter p b ≡ some q → q ≡ record { per_second = p; burst = b }
unfolding new_rate_limiter non_zero
new_rate_limiter-some p b {q} h = elim (Bool-cases (p == 0)) [
  | inl z ↦ absurd (cc (sym (stopped_first z) ∙ h))
  | inr s ↦ elim (Bool-cases (b == 0)) [
    | inl z ↦ absurd (cc (sym (stopped_second s z) ∙ h))
    | inr t ↦ sym (ap (λ o. unwrap_or o q) (sym (made s t) ∙ h))
  ]
]
  where
    stopped_first : (p == 0) ≡ true → new_rate_limiter p b ≡ none
    stopped_first z = rw (new_rate_limiter, z) refl

    stopped_second : (p == 0) ≡ false → (b == 0) ≡ true → new_rate_limiter p b ≡ none
    stopped_second s z = rw (new_rate_limiter, s, z) refl

    made :
        (p == 0) ≡ false
        → (b == 0) ≡ false
        → new_rate_limiter p b ≡ some (record { per_second = p; burst = b })
    made s t = rw (new_rate_limiter, s, t) refl

-- An empty text is the only one without bytes.
pub as_bytes-empty : (t : Text) → as_bytes t ≡ [] → is_empty t ≡ true
as_bytes-empty t h = byte_len-is_empty t ∙ rw (byte_len-as_bytes t, h) refl

module _ {W Req A Json : Type 0} (axum : Axum Req A Json) (governor : Governor W) where
  -- What the limiter says of a request.
  abbrev pub checked : Config → Req → W → Bool × W
  checked cfg req = governor.check_key (quota cfg) (unwrap_or (axum.peer req) unspecified)

  module _ (q : Quota) (next : Handler W Req A) (req : Req) (w : W) where
    abbrev call : Bool × W
    call = governor.check_key q (unwrap_or (axum.peer req) unspecified) w

    pub conforming :
        call.0 ≡ true → rate_limit_middleware axum governor q next req w ≡ next req call.1
    unfolding rate_limit_middleware
    conforming h = rw h refl

    pub exceeded :
        call.0 ≡ false
        → rate_limit_middleware axum governor q next req w
          ≡ (some (plain 429 (codes "rate limit exceeded")), call.1)
    unfolding rate_limit_middleware
    exceeded h = rw h refl

    -- Behind the limiter, for a reply that is not its own.
    pub rate_limit-passed :
        {r : Response} {w' : W}
        → rate_limit_middleware axum governor q next req w ≡ (some (event r), w')
        → (v : W) × (call ≡ (true, v)) × (next req v ≡ (some (event r), w'))
    rate_limit-passed h = elim (Bool-cases call.0) [
      | inl passes ↦ (call.1, ap (λ (b : Bool). (b, call.1)) passes, sym (conforming passes) ∙ h)
      | inr stops ↦ absurd (cc (sym (exceeded stops) ∙ h))
    ]

module _ {W Req A Json C : Type 0} (axum : Axum Req A Json) (governor : Governor W)
    (state : AppState W C Json) where
  pub app-some :
      (cfg : Config) {h : Handler W Req A}
      → app axum state governor cfg ≡ some h
      → h
        ≡ rate_limit_middleware axum governor
            (quota cfg)
            (routes axum state cfg.api_key cfg.http_max_body_bytes)
  unfolding app
  app-some cfg {h} e =
      let next = routes axum state cfg.api_key cfg.http_max_body_bytes in
      let (q, made, returned) =
        >>=-some (new_rate_limiter cfg.http_rate_per_second cfg.http_rate_burst)
          (λ q. some (rate_limit_middleware axum governor q next)) e in
      ap (λ o. unwrap_or o h) (sym returned)
      ∙ ap (λ q. rate_limit_middleware axum governor q next) (new_rate_limiter-some _ _ made)

-- What is compared with the key.
abbrev pub given : {Req A Json : Type 0} → Axum Req A Json → Req → Text
given axum req = unwrap_or (provided_key axum req) []

module _ {W Req A Json : Type 0} (axum : Axum Req A Json) (expected : Text) (next : Handler W Req A)
    (req : Req) (w : W) where
  pub api_key-granted :
      as_bytes (given axum req) ≡ as_bytes expected
      → api_key_middleware axum expected next req w ≡ next req w
  unfolding api_key_middleware
  api_key-granted h =
      rw ((constant_time_eq_iff (as_bytes (given axum req)) (as_bytes expected)).1 h) refl

  pub api_key-denied :
      (as_bytes (given axum req) ≡ as_bytes expected → ⊥)
      → api_key_middleware axum expected next req w ≡ (some (plain 401 (codes "unauthorized")), w)
  unfolding api_key_middleware
  api_key-denied h =
      elim (Bool-cases (constant_time_eq (as_bytes (given axum req)) (as_bytes expected))) [
        | inl same ↦
            absurd
              (h ((constant_time_eq_iff (as_bytes (given axum req)) (as_bytes expected)).0 same))
        | inr differs ↦ rw differs refl
      ]

  pub api_key-passed :
      {r : Response} {w' : W}
      → api_key_middleware axum expected next req w ≡ (some (event r), w')
      → (as_bytes (given axum req) ≡ as_bytes expected) × (next req w ≡ (some (event r), w'))
  api_key-passed h =
      elim (Bool-cases (constant_time_eq (as_bytes (given axum req)) (as_bytes expected))) [
        | inl same ↦
            let bytes =
              (constant_time_eq_iff (as_bytes (given axum req)) (as_bytes expected)).0 same in
            (bytes, sym (api_key-granted bytes) ∙ h)
        | inr differs ↦ absurd (
            cc (
              sym (
                api_key-denied (λ same. absurd (
                  cc (
                    differs,
                    (constant_time_eq_iff (as_bytes (given axum req)) (as_bytes expected)).1 same,
                  ))))
              ∙ h))
      ]
