-- ===== src/Config/Load/Returns.antt =====
-- When `Config::from_env` of src/config.rs returns.
use realtime_ingestion.Base.{
  ℕ, ◌≡◌, refl, ap, false, Option, none, some, List, [], ◌∷◌, is_some, ◌>>=◌, Option-cases, inl,
  inr, ◌↔◌, true, is_empty, All,
}
use realtime_ingestion.Text.{Text, codes, parse_unsigned}
use realtime_ingestion.Config.Load.{
  Env, IpParser, u64_max, u32_max, non_empty, number, load_dedup_ttl_secs, load_api_key, from_env,
}
use realtime_ingestion.Config.Load.Numbers.{inputs, numbers, AllRead, IsKey, from_env-IsRead}

abbrev pub IsReadable : ℕ × Text → Type 0
IsReadable (limit, t) = is_some (parse_unsigned limit t) ≡ true

>>=-is_some :
    {A B : Type 0} (o : Option A) (f : A → Option B)
    → is_some o ≡ true
    → ((a : A) → is_some (f a) ≡ true)
    → is_some (o >>= f) ≡ true
>>=-is_some none f h g = absurd (cc h)
>>=-is_some (some a) f h g = g a

non_empty-is_some :
    (o : Option Text) (s : Text) → o ≡ some s → is_empty s ≡ false → is_some (non_empty o) ≡ true
unfolding non_empty
non_empty-is_some o s h e = rw (h, non_empty, e) refl

AllRead-IsReadable : (is : List (ℕ × Text)) (ns : List ℕ) → AllRead is ns → All IsReadable is
AllRead-IsReadable [] [] h = tt
AllRead-IsReadable (i ∷ is) (n ∷ ns) h = (ap is_some h.0.0, AllRead-IsReadable is ns h.1)
AllRead-IsReadable [] (n ∷ ns) h = absurd h
AllRead-IsReadable (i ∷ is) [] h = absurd h

module _ (env : Env) (parse_ip : IpParser) where
  from_env-is_some :
      (key : Text)
      → All IsReadable (inputs env)
      → IsKey env key
      → is_some (from_env env parse_ip) ≡ true
  unfolding from_env load_dedup_ttl_secs load_api_key number
  from_env-is_some key (r0, (r1, (r2, (r3, (r4, (r6, (r7, (r8, (r9, (r10, (r11, u)))))))))))
        (k, ne) =
      >>=-is_some (load_dedup_ttl_secs env) _ r0 (λ n0.
        >>=-is_some (number env u64_max (codes "MYSQL_BATCH_SIZE") (codes "100")) _ r1 (λ n1.
          >>=-is_some (number env u64_max (codes "MYSQL_BATCH_INTERVAL") (codes "1")) _ r2 (λ n2.
            >>=-is_some (number env u64_max (codes "PGSQL_BATCH_SIZE") (codes "100")) _ r3 (λ n3.
              >>=-is_some (number env u64_max (codes "PGSQL_BATCH_INTERVAL") (codes "1")) _ r4
                (λ n4.
                  >>=-is_some (load_api_key env) _
                    (non_empty-is_some (env (codes "EASYPOS_SECRET_KEY")) key k ne)
                    (λ n5.
                      >>=-is_some (number env u32_max (codes "HTTP_RATE_PER_SECOND") (codes "20")) _
                        r6
                        (λ n6.
                          >>=-is_some (number env u32_max (codes "HTTP_RATE_BURST") (codes "50")) _
                            r7
                            (λ n7.
                              >>=-is_some
                                (number env u64_max (codes "HTTP_MAX_BODY_BYTES") (codes "65536")) _
                                r8
                                (λ n8.
                                  >>=-is_some
                                    (number env u64_max (codes "TCP_MAX_CONNECTIONS")
                                      (codes "1000"))
                                    _ r9
                                    (λ n9.
                                      >>=-is_some
                                        (number env u64_max (codes "TCP_MAX_CONN_PER_IP")
                                          (codes "10"))
                                        _ r10
                                        (λ n10.
                                          >>=-is_some
                                            (number env u64_max (codes "TCP_MAX_FRAME_BYTES")
                                              (codes "8192"))
                                            _ r11 (λ n11. refl))))))))))))

  -- `from_env` returns exactly if every number of the environment, or its default, is the text of a
  -- number of its type, and the API key is set and not empty; otherwise it panics.
  pub from_env_iff :
      (is_some (from_env env parse_ip) ≡ true)
      ↔ (All IsReadable (inputs env) × ((key : Text) × IsKey env key))
  from_env_iff = (returns, λ (r, (key, k)). from_env-is_some key r k)
    where
      returns :
          is_some (from_env env parse_ip) ≡ true
          → All IsReadable (inputs env) × ((key : Text) × IsKey env key)
      returns h = elim (Option-cases (from_env env parse_ip)) [
        | inl fails ↦ absurd (cc (h, fails))
        | inr (c, loaded) ↦
            let (numbers_read, key) = from_env-IsRead env parse_ip c loaded in
            (AllRead-IsReadable (inputs env) (numbers c) numbers_read, (c.api_key, key))
      ]
