-- ===== src/Token/Claims/Dates.antt =====
-- token/token.go, checkTime: when a token is in force.
use qumo.Common.{◌+◌, ◌<◌, ◌≤◌, ◌≡◌, ◌↔◌, Bool, false, some, ok, arith, ◌⊎◌, inl, inr, Option-cases}
use qumo.Token.Claims.{Time, leeway, max_lifetime, Claims, whole_seconds, check_dates, check_time}

-- The dates of a token that is accepted at `now`: a lifetime of at most an hour, begun at most the
-- leeway from now, and, if the expiry counts, not over by more than the leeway.
pub record InForce (now : Time) (expiry : Bool) (exp nbf iat : Time) : Type 0 where
  pub lives : iat < exp
  pub short : exp ≤ iat + max_lifetime
  pub begun : (nbf ≤ now + leeway) × (iat ≤ now + leeway)
  pub not_over : (expiry ≡ false) ⊎ (now < whole_seconds (exp + leeway))

check_dates→ :
    (now : Time) (expiry : Bool) (exp nbf iat : Time) {e : Time}
    → check_dates now expiry exp nbf iat ≡ ok e
    → (e ≡ exp) × InForce now expiry exp nbf iat
unfolding check_dates
check_dates→ now expiry exp nbf iat h = ground arith

→check_dates :
    (now : Time) (expiry : Bool) (exp nbf iat : Time)
    → InForce now expiry exp nbf iat
    → check_dates now expiry exp nbf iat ≡ ok exp
unfolding check_dates
→check_dates now expiry exp nbf iat f = ground arith

-- The claims carry the three dates, and they are in force.
pub record Dated (now : Time) (expiry : Bool) (c : Claims) (exp : Time) : Type 0 where
  pub nbf : Time
  pub iat : Time
  pub has_exp : c.expires_at ≡ some exp
  pub has_nbf : c.not_before ≡ some nbf
  pub has_iat : c.issued_at ≡ some iat
  pub in_force : InForce now expiry exp nbf iat

check_time→ :
    (now : Time) (expiry : Bool) (c : Claims) (e : Time)
    → check_time now expiry c ≡ ok e
    → Dated now expiry c e
unfolding check_time
check_time→ now expiry c e h = elim (Option-cases c.expires_at) [
  | inl n ↦ ground arith
  | inr (exp, a) ↦ elim (Option-cases c.not_before) [
    | inl n ↦ ground arith
    | inr (nbf, b) ↦ elim (Option-cases c.issued_at) [
      | inl n ↦ ground arith
      | inr (iat, d) ↦
          let g : check_dates now expiry exp nbf iat ≡ ok e = ground arith in
          record {
            nbf = nbf;
            iat = iat;
            has_exp = ground (arith, check_dates→ now expiry exp nbf iat g);
            has_nbf = b;
            has_iat = d;
            in_force = ground (arith, check_dates→ now expiry exp nbf iat g);
          }
    ]
  ]
]

→check_time :
    (now : Time) (expiry : Bool) (c : Claims) (e : Time)
    → Dated now expiry c e
    → check_time now expiry c ≡ ok e
unfolding check_time
→check_time now expiry c e d =
    ground
      (arith, d.has_exp, d.has_nbf, d.has_iat, →check_dates now expiry e d.nbf d.iat d.in_force)

-- checkTime accepts claims, and returns their expiry, exactly when they carry the three dates and
-- these are in force.
pub check_time_iff :
    (now : Time) (expiry : Bool) (c : Claims) (e : Time)
    → (check_time now expiry c ≡ ok e) ↔ Dated now expiry c e
check_time_iff now expiry c e = (check_time→ now expiry c e, λ d. →check_time now expiry c e d)
