-- ===== src/Policy/Examples.antt =====
-- Tests of the policies, and their theorems at concrete requests.
use promolog.Prelude.{
  ℕ, ◌+◌, ◌-◌, ◌^◌, ℤ, pos, Bool, true, false, ltb, leb_ℤ, ◌≤ℤ◌, List, [], ◌∷◌, Option, none, some,
  ◌≡◌, ◌≢◌, ◌⊎◌, ◌↔◌, refl, arith, Str, lit, str_eq,
}
use promolog.Trace.{Time, zero_time, time_sub}
use promolog.Context.{start_time, get_request_start_time}
use promolog.Http.{Request}
use promolog.Policy.{
  PromotionPolicy, status_policy, latency_policy, any_policy, Floats, sample_policy,
}
use promolog.Policy.Decide.{
  Fires, any_policy_iff, latency_policy_iff, IsUniform, sample_policy_rates,
}

-- The environment of the tests: a clock that is read in steps of one.
abbrev tick : Time → Time × Time
tick t = elim t [ pos n ↦ (pos n, pos (n + 1)) | other ↦ (other, other) ]

abbrev request : Request
request = record {
  path = lit "/api";
  method = lit "GET";
  user_agent = [];
  remote_addr = [];
  header = [];
  ctx = start_time (pos 10) ∷ [];
}

abbrev slow : PromotionPolicy Time
slow = latency_policy tick (λ d. lit "5ns") (pos 5)

-- The status policy is asked first and leaves the clock alone.
second_fires :
    any_policy (status_policy (pos 500) ∷ slow ∷ []) request (pos 200) (pos 15) ≡ (true, pos 16)
unfolding any_policy status_policy latency_policy get_request_start_time time_sub
    promolog.Prelude.◌-ℤ◌
second_fires = refl

one_policy-Fires :
    (any_policy (status_policy (pos 500) ∷ slow ∷ []) request (pos 200) (pos 15) ≡ (true, pos 16))
    ↔ Fires request (pos 200) (status_policy (pos 500) ∷ slow ∷ []) (pos 15) (pos 16)
one_policy-Fires =
    any_policy_iff (status_policy (pos 500) ∷ slow ∷ []) request (pos 200) (pos 15) (pos 16)

slow_request_fires :
    ((((latency_policy tick (λ d. lit "5ns") (pos 5)).predicate request (pos 200) (pos 12)).0
        ≡ true)
      ↔ ((get_request_start_time request.ctx ≢ zero_time)
          × (pos 5 ≤ℤ time_sub (pos 12) (get_request_start_time request.ctx))))
    × (get_request_start_time request.ctx ≡ zero_time
        → ((latency_policy tick (λ d. lit "5ns") (pos 5)).predicate request (pos 200) (pos 12)).1
          ≡ pos 12)
slow_request_fires = latency_policy_iff tick (λ d. lit "5ns") (pos 5) request (pos 200) (pos 12)

-- Floats of the tests: thousandths, none of them a NaN.
abbrev thousandths : Floats (Unit {0})
thousandths = record {
  Float = ℕ;
  zero_float = 0;
  one_float = 1000;
  is_nan = λ x. false;
  less = ltb;
  format_float = λ x. [];
  default_draw = λ env. (0, env);
}

abbrev half_draw : Unit {0} → ℕ × Unit {0}
half_draw env = (500, env)

half_draw-IsUniform : IsUniform thousandths half_draw
half_draw-IsUniform = record {
  zero_is_number = refl;
  one_is_number = refl;
  zero_irreflexive = refl;
  one_irreflexive = refl;
  one_not_below_zero = refl;
  draw_not_negative = λ env. refl;
  draw_below_one = λ env. refl;
}

sampled_rates :
    ((p : PromotionPolicy (Unit {0})) × (sample_policy thousandths 0 (some half_draw) ≡ some p)
      × ((r : Request) (code : ℤ) (env : Unit {0}) → (p.predicate r code env).0 ≡ false))
    × ((p : PromotionPolicy (Unit {0})) × (sample_policy thousandths 1000 (some half_draw) ≡ some p)
        × ((r : Request) (code : ℤ) (env : Unit {0}) → (p.predicate r code env).0 ≡ true))
    × ((rate : ℕ)
        → (false ≡ true) ⊎ ((ltb rate 0 ≡ true) ⊎ (ltb 1000 rate ≡ true))
        → sample_policy thousandths rate (some half_draw) ≡ none)
sampled_rates = sample_policy_rates thousandths half_draw half_draw-IsUniform
