-- ===== src/Config/Load/Numbers.antt =====
-- The numbers and the key in what `Config::from_env` of src/config.rs returns.
use realtime_ingestion.Base.{
  >>=-some, ℕ, ◌≤◌, ◌≡◌, refl, ap, subst, false, Option, none, some, List, [], ◌∷◌, is_empty,
  unwrap_or,
}
use realtime_ingestion.Text.{Text, codes, parse_unsigned}
use realtime_ingestion.Text.Laws.{parse_unsigned-le}
use realtime_ingestion.Config.{Config}
use realtime_ingestion.Config.Load.{
  Env, IpParser, u64_max, u32_max, var_or, either_var, non_empty, number, load_dedup_ttl_secs,
  load_api_key, load_allowed_ips, from_env,
}

-- The settings that are numbers: the largest number of the field's type, and the text.
abbrev pub inputs : Env → List (ℕ × Text)
inputs env =
    (u64_max, unwrap_or (either_var env (codes "DEDUP_TTL_SECS") (codes "REDIS_TTL")) (codes "300"))
    ∷ (u64_max, var_or env (codes "MYSQL_BATCH_SIZE") (codes "100"))
    ∷ (u64_max, var_or env (codes "MYSQL_BATCH_INTERVAL") (codes "1"))
    ∷ (u64_max, var_or env (codes "PGSQL_BATCH_SIZE") (codes "100"))
    ∷ (u64_max, var_or env (codes "PGSQL_BATCH_INTERVAL") (codes "1"))
    ∷ (u32_max, var_or env (codes "HTTP_RATE_PER_SECOND") (codes "20"))
    ∷ (u32_max, var_or env (codes "HTTP_RATE_BURST") (codes "50"))
    ∷ (u64_max, var_or env (codes "HTTP_MAX_BODY_BYTES") (codes "65536"))
    ∷ (u64_max, var_or env (codes "TCP_MAX_CONNECTIONS") (codes "1000"))
    ∷ (u64_max, var_or env (codes "TCP_MAX_CONN_PER_IP") (codes "10"))
    ∷ (u64_max, var_or env (codes "TCP_MAX_FRAME_BYTES") (codes "8192"))
    ∷ []

-- The fields they become.
abbrev pub numbers : Config → List ℕ
numbers c =
    c.dedup_ttl_secs ∷ c.mysql_batch_size ∷ c.mysql_batch_interval_secs ∷ c.pgsql_batch_size
    ∷ c.pgsql_batch_interval_secs ∷ c.http_rate_per_second ∷ c.http_rate_burst
    ∷ c.http_max_body_bytes ∷ c.tcp_max_connections ∷ c.tcp_max_conn_per_ip ∷ c.tcp_max_frame_bytes
    ∷ []

-- A text stands for a number of its type.
abbrev pub IsRead : ℕ × Text → ℕ → Type 0
IsRead (limit, t) n = (parse_unsigned limit t ≡ some n) × (n ≤ limit)

abbrev pub AllRead : List (ℕ × Text) → List ℕ → Type 0
AllRead [] [] = Unit
AllRead (i ∷ is) (n ∷ ns) = IsRead i n × AllRead is ns
AllRead _ _ = ⊥

-- The API key that the environment gives.
abbrev pub IsKey : Env → Text → Type 0
IsKey env key = (env (codes "EASYPOS_SECRET_KEY") ≡ some key) × (is_empty key ≡ false)

number-IsRead :
    (env : Env) (limit : ℕ) (name default : Text) {n : ℕ}
    → number env limit name default ≡ some n
    → IsRead (limit, var_or env name default) n
unfolding number
number-IsRead env limit name default h = (h, parse_unsigned-le limit (var_or env name default) h)

non_empty-some :
    (o : Option Text) {s : Text} → non_empty o ≡ some s → (o ≡ some s) × (is_empty s ≡ false)
unfolding non_empty
non_empty-some none h = absurd (cc h)
non_empty-some (some []) h = absurd (cc h)
non_empty-some (some (c ∷ t)) h =
    (h, subst (λ s. is_empty s ≡ false) (ap (λ o. unwrap_or o (c ∷ t)) h) refl)

dedup-IsRead :
    (env : Env) {n : ℕ}
    → load_dedup_ttl_secs env ≡ some n
    → IsRead
        (
          u64_max,
          unwrap_or (either_var env (codes "DEDUP_TTL_SECS") (codes "REDIS_TTL")) (codes "300"),
        )
        n
unfolding load_dedup_ttl_secs
dedup-IsRead env h = (
  h,
  parse_unsigned-le u64_max
      (unwrap_or (either_var env (codes "DEDUP_TTL_SECS") (codes "REDIS_TTL")) (codes "300")) h,
)

module _ (env : Env) (parse_ip : IpParser) where
  -- The fields that are read from texts.
  pub from_env-fields :
      (c : Config)
      → from_env env parse_ip ≡ some c
      → AllRead (inputs env) (numbers c)
        × IsKey env c.api_key
        × (c.allowed_ips ≡ load_allowed_ips env parse_ip)
  unfolding from_env load_api_key
  from_env-fields c h =
      let (ttl, e0, h0) = >>=-some (load_dedup_ttl_secs env) _ h in
      let (n1, e1, h1) =
        >>=-some (number env u64_max (codes "MYSQL_BATCH_SIZE") (codes "100")) _ h0 in
      let (n2, e2, h2) =
        >>=-some (number env u64_max (codes "MYSQL_BATCH_INTERVAL") (codes "1")) _ h1 in
      let (n3, e3, h3) =
        >>=-some (number env u64_max (codes "PGSQL_BATCH_SIZE") (codes "100")) _ h2 in
      let (n4, e4, h4) =
        >>=-some (number env u64_max (codes "PGSQL_BATCH_INTERVAL") (codes "1")) _ h3 in
      let (n5, e5, h5) = >>=-some (load_api_key env) _ h4 in
      let (n6, e6, h6) =
        >>=-some (number env u32_max (codes "HTTP_RATE_PER_SECOND") (codes "20")) _ h5 in
      let (n7, e7, h7) =
        >>=-some (number env u32_max (codes "HTTP_RATE_BURST") (codes "50")) _ h6 in
      let (n8, e8, h8) =
        >>=-some (number env u64_max (codes "HTTP_MAX_BODY_BYTES") (codes "65536")) _ h7 in
      let (n9, e9, h9) =
        >>=-some (number env u64_max (codes "TCP_MAX_CONNECTIONS") (codes "1000")) _ h8 in
      let (n10, e10, h10) =
        >>=-some (number env u64_max (codes "TCP_MAX_CONN_PER_IP") (codes "10")) _ h9 in
      let (n11, e11, h11) =
        >>=-some (number env u64_max (codes "TCP_MAX_FRAME_BYTES") (codes "8192")) _ h10 in
      subst
        (λ d.
          AllRead (inputs env) (numbers d)
          × IsKey env d.api_key
          × (d.allowed_ips ≡ load_allowed_ips env parse_ip))
        (ap (λ o. unwrap_or o c) h11)
        (
          (
            dedup-IsRead env e0,
            (
              number-IsRead env u64_max (codes "MYSQL_BATCH_SIZE") (codes "100") e1,
              (
                number-IsRead env u64_max (codes "MYSQL_BATCH_INTERVAL") (codes "1") e2,
                (
                  number-IsRead env u64_max (codes "PGSQL_BATCH_SIZE") (codes "100") e3,
                  (
                    number-IsRead env u64_max (codes "PGSQL_BATCH_INTERVAL") (codes "1") e4,
                    (
                      number-IsRead env u32_max (codes "HTTP_RATE_PER_SECOND") (codes "20") e6,
                      (
                        number-IsRead env u32_max (codes "HTTP_RATE_BURST") (codes "50") e7,
                        (
                          number-IsRead env u64_max (codes "HTTP_MAX_BODY_BYTES") (codes "65536")
                              e8,
                          (
                            number-IsRead env u64_max (codes "TCP_MAX_CONNECTIONS") (codes "1000")
                                e9,
                            (
                              number-IsRead env u64_max (codes "TCP_MAX_CONN_PER_IP") (codes "10")
                                  e10,
                              (
                                number-IsRead env u64_max (codes "TCP_MAX_FRAME_BYTES")
                                    (codes "8192") e11,
                                tt,
                              ),
                            ),
                          ),
                        ),
                      ),
                    ),
                  ),
                ),
              ),
            ),
          ),
          non_empty-some (env (codes "EASYPOS_SECRET_KEY")) e5,
          refl,
        )

  -- When `from_env` returns, every number is what its text stands for and is within its type (`u32`
  -- for the two rates, `u64` and `usize` for the others), and the API key is the variable's value
  -- and is not empty.
  pub from_env-IsRead :
      (c : Config)
      → from_env env parse_ip ≡ some c
      → AllRead (inputs env) (numbers c) × IsKey env c.api_key
  from_env-IsRead c h = let (read, key, ips) = from_env-fields c h in (read, key)
