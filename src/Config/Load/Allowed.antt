-- ===== src/Config/Load/Allowed.antt =====
-- The addresses that `ALLOWED_IPS` names, as src/config.rs reads them.
use realtime_ingestion.Base.{
  ℕ, ◌≡◌, refl, sym, ap, ◌∙◌, subst, true, false, not, ◌&&◌, none, some, List, [], ◌∷◌, ◌++◌, ◌==◌,
  ltb, is_empty, all, All, ◌⊎◌, inl, inr, Option-cases, Bool-cases, arith, unwrap_or, append_assoc,
  append-nil,
}
use realtime_ingestion.Text.{Text, codes, trim}
use realtime_ingestion.Config.{Config}
use realtime_ingestion.Config.Load.{
  Env, IpParser, split_comma, parse_ips, load_allowed_ips, from_env,
}
use realtime_ingestion.Config.Load.Numbers.{from_env-fields}
use realtime_ingestion.Security.Tracker.Invariant.{count}

-- Entries with commas between them.
abbrev pub commas : Text → List Text → Text
commas e [] = e
commas e (f ∷ es) = e ++ b',' ∷ commas f es

abbrev pub HasNoComma : Text → Type 0
HasNoComma e = all (λ c. not (c == b',')) e ≡ true

-- An entry, trimmed, is read as the address.
abbrev pub Named : IpParser → List Text → ℕ → Type 0
Named parse_ip [] ip = ⊥
Named parse_ip (e ∷ es) ip = (parse_ip (trim e) ≡ some ip) ⊎ Named parse_ip es ip

HasNoComma-cons : (c : ℕ) (e : Text) → HasNoComma (c ∷ e) → ((c == b',') ≡ false) × HasNoComma e
HasNoComma-cons c e h = elim (Bool-cases (c == b',')) [
  | inl comma ↦ absurd (cc (sym (ap (λ b. not b && all (λ d. not (d == b',')) e) comma) ∙ h))
  | inr other ↦ (other, sym (ap (λ b. not b && all (λ d. not (d == b',')) e) other) ∙ h)
]

-- What is read up to a comma, and what is read at the end.
split_comma-entry :
    (p e t : Text) → HasNoComma e → split_comma p (e ++ b',' ∷ t) ≡ (p ++ e) ∷ split_comma [] t
unfolding split_comma
split_comma-entry p [] t h = ap (λ q. q ∷ split_comma [] t) (sym (append-nil p))
split_comma-entry p (c ∷ e) t h =
    let (other, rest) = HasNoComma-cons c e h in
    rw other (
      split_comma-entry (p ++ c ∷ []) e t rest
      ∙ ap (λ q. q ∷ split_comma [] t) (append_assoc p (c ∷ []) e))

split_comma-last : (p e : Text) → HasNoComma e → split_comma p e ≡ (p ++ e) ∷ []
unfolding split_comma
split_comma-last p [] h = ap (λ q. q ∷ []) (sym (append-nil p))
split_comma-last p (c ∷ e) h =
    let (other, rest) = HasNoComma-cons c e h in
    rw other (split_comma-last (p ++ c ∷ []) e rest ∙ ap (λ q. q ∷ []) (append_assoc p (c ∷ []) e))

split_comma-commas :
    (e : Text) (es : List Text) → All HasNoComma (e ∷ es) → split_comma [] (commas e es) ≡ e ∷ es
split_comma-commas e [] (h, hs) = split_comma-last [] e h
split_comma-commas e (f ∷ es) (h, hs) =
    split_comma-entry [] e (commas f es) h ∙ ap (◌∷◌ e) (split_comma-commas f es hs)

module _ (parse_ip : IpParser) where
  parse_ips-none :
      (e : Text) (es : List Text)
      → parse_ip (trim e) ≡ none
      → parse_ips parse_ip (e ∷ es) ≡ parse_ips parse_ip es
  unfolding parse_ips
  parse_ips-none e es h = rw (h, parse_ips) refl

  parse_ips-some :
      (e : Text) (es : List Text) (a : ℕ)
      → parse_ip (trim e) ≡ some a
      → parse_ips parse_ip (e ∷ es) ≡ a ∷ parse_ips parse_ip es
  unfolding parse_ips
  parse_ips-some e es a h = rw (h, parse_ips) refl

  -- An address in the list is named by an entry.
  pub parse_ips-Named :
      (es : List Text) (ip : ℕ)
      → ltb 0 (count ip (parse_ips parse_ip es)) ≡ true
      → Named parse_ip es ip
  unfolding parse_ips
  parse_ips-Named [] ip h = absurd (cc h)
  parse_ips-Named (e ∷ es) ip h =
      let listed : List ℕ → Type 0 = λ l. ltb 0 (count ip l) ≡ true in
      elim (Option-cases (parse_ip (trim e))) [
        | inl fails ↦ inr (parse_ips-Named es ip (subst listed (parse_ips-none e es fails) h))
        | inr (a, reads) ↦
            let here = subst listed (parse_ips-some e es a reads) h in
            elim (Bool-cases (a == ip)) [
              | inl same ↦ inl (reads ∙ ap some (ground (arith, same)))
              | inr other ↦ inr (parse_ips-Named es ip (ground (arith, here, other)))
            ]
      ]

  -- With no address in the list, no entry names one.
  pub parse_ips-unnamed :
      (es : List Text) (ip : ℕ) → is_empty (parse_ips parse_ip es) ≡ true → ¬ Named parse_ip es ip
  unfolding parse_ips
  parse_ips-unnamed [] ip h n = n
  parse_ips-unnamed (e ∷ es) ip h n = elim (Option-cases (parse_ip (trim e))) [
    | inl fails ↦ elim n [
      | inl reads ↦ cc (sym fails ∙ reads)
      | inr later ↦
          parse_ips-unnamed es ip (ap is_empty (sym (parse_ips-none e es fails)) ∙ h) later
    ]
    | inr (a, reads) ↦ cc (sym (ap is_empty (parse_ips-some e es a reads)) ∙ h)
  ]

-- With these entries in the environment, they are what the configuration lists.
pub from_env-commas :
    (env : Env) (parse_ip : IpParser) (cfg : Config) (e : Text) (es : List Text)
    → from_env env parse_ip ≡ some cfg
    → env (codes "ALLOWED_IPS") ≡ some (commas e es)
    → All HasNoComma (e ∷ es)
    → cfg.allowed_ips ≡ parse_ips parse_ip (e ∷ es)
unfolding load_allowed_ips
from_env-commas env parse_ip cfg e es h given apart =
    let (read, key, ips) = from_env-fields env parse_ip cfg h in
    ips
    ∙ ap (λ o. parse_ips parse_ip (split_comma [] (unwrap_or o []))) given
    ∙ ap (parse_ips parse_ip) (split_comma-commas e es apart)
