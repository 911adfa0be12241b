-- ===== src/Policy/Decide.antt =====
-- What the built-in policies decide, and in which order policies are asked.
use promolog.Prelude.{
  ℤ, Bool, true, false, leb_ℤ_iff, eqb_ℤ_iff, ◌≤ℤ◌, if◌then◌else◌, none, some, List, [], ◌∷◌, ◌≡◌,
  ◌≢◌, refl, ap, ◌↔◌, ◌⊎◌, inl, inr, Bool-cases, arith, Str,
}
use promolog.Trace.{Time, Duration, is_zero, zero_time, time_sub}
use promolog.Context.{get_request_start_time}
use promolog.Http.{Request}
use promolog.Policy.{
  PromotionPolicy, latency_policy, late_enough, any_policy, Floats, sample_policy, below_rate,
  sampler,
}

module _ {E : Type 0} where
  -- The policies are asked from the left, each in the environment that the one before it left,
  -- until one fires.
  pub data Fires (r : Request) (code : ℤ) : List (PromotionPolicy E) → E → E → Type 0 where
    first :
        {p : PromotionPolicy E} {ps : List (PromotionPolicy E)} {env env' : E}
        → p.predicate r code env ≡ (true, env')
        → Fires r code (p ∷ ps) env env'
    next :
        {p : PromotionPolicy E} {ps : List (PromotionPolicy E)} {env env' env'' : E}
        → p.predicate r code env ≡ (false, env')
        → Fires r code ps env' env''
        → Fires r code (p ∷ ps) env env''

  any_policy_sound :
      (ps : List (PromotionPolicy E)) (r : Request) (code : ℤ) (env env' : E)
      → any_policy ps r code env ≡ (true, env')
      → Fires r code ps env env'
  unfolding any_policy
  any_policy_sound [] r code env env' h = cc (ap (λ q. q.0) h)
  any_policy_sound (p ∷ ps) r code env env' h =
      let e : p.predicate r code env ≡ ((p.predicate r code env).0, (p.predicate r code env).1) =
        refl in
      elim (Bool-cases (p.predicate r code env).0) [
        | inl fired ↦ first (λ i. (fired i, (rw fired at (ap (λ q. q.1) h)) i))
        | inr quiet ↦
            next (λ i. (quiet i, (p.predicate r code env).1))
              (any_policy_sound ps r code (p.predicate r code env).1 env' (rw quiet at h))
      ]

  any_policy_complete :
      {r : Request} {code : ℤ} {ps : List (PromotionPolicy E)} {env env' : E}
      → Fires r code ps env env'
      → any_policy ps r code env ≡ (true, env')
  unfolding any_policy
  any_policy_complete (first e) = rw e
  any_policy_complete (next e f) = rw e (any_policy_complete f)

  -- The middleware's question is answered yes, with an environment, exactly when the policies, asked
  -- in their order until the first that fires, lead to that environment.
  pub any_policy_iff :
      (ps : List (PromotionPolicy E)) (r : Request) (code : ℤ) (env env' : E)
      → (any_policy ps r code env ≡ (true, env')) ↔ Fires r code ps env env'
  any_policy_iff ps r code env env' = (any_policy_sound ps r code env env', any_policy_complete)

  latency_from :
      (threshold : Duration) (start : Time) (env : E) (read : Time × E)
      → let out : Bool × E =
          if is_zero start then (false, env) else late_enough threshold start read in
        ((out.0 ≡ true) ↔ ((start ≢ zero_time) × (threshold ≤ℤ time_sub read.0 start)))
        × (start ≡ zero_time → out.1 ≡ env)
  latency_from threshold start env (now, env') = elim (Bool-cases (is_zero start)) [
    | inl zero_start ↦ rw zero_start (
      ((λ h. cc h), (λ (h, k). absurd (h ((eqb_ℤ_iff start zero_time).0 zero_start)))),
      λ _. refl,
    )
    | inr started ↦ rw started (
      (
        λ h. (
          λ e. cc (started, (eqb_ℤ_iff start zero_time).1 e),
          (leb_ℤ_iff threshold (time_sub now start)).0 h,
        ),
        λ (h, k). (leb_ℤ_iff threshold (time_sub now start)).1 k,
      ),
      λ e. cc (started, (eqb_ℤ_iff start zero_time).1 e),
    )
  ]

  -- A latency policy fires exactly for a request whose context has a start time other than the zero
  -- time and whose duration, on the clock at the time of the question, has reached the threshold.
  -- Without a start time it does not read the clock.
  pub latency_policy_iff :
      (clock : E → Time × E) (format_duration : Duration → Str) (threshold : Duration) (r : Request)
      (code : ℤ) (env : E)
      → ((((latency_policy clock format_duration threshold).predicate r code env).0 ≡ true) ↔ (
          (get_request_start_time r.ctx ≢ zero_time)
          × (threshold ≤ℤ time_sub (clock env).0 (get_request_start_time r.ctx))))
        × (get_request_start_time r.ctx ≡ zero_time
            → ((latency_policy clock format_duration threshold).predicate r code env).1 ≡ env)
  unfolding latency_policy
  latency_policy_iff clock format_duration threshold r code env =
      latency_from threshold (get_request_start_time r.ctx) env (clock env)

module _ {E : Type 0} (F : Floats E) where
  open F use {Float, zero_float, one_float, is_nan, less}

  -- What IEEE 754 and package math/rand document of the constants and of a draw from [0, 1).
  pub record IsUniform (draw : E → Float × E) : Type 0 where
    pub zero_is_number : is_nan zero_float ≡ false
    pub one_is_number : is_nan one_float ≡ false
    pub zero_irreflexive : less zero_float zero_float ≡ false
    pub one_irreflexive : less one_float one_float ≡ false
    pub one_not_below_zero : less one_float zero_float ≡ false
    pub draw_not_negative : (env : E) → less (draw env).0 zero_float ≡ false
    pub draw_below_one : (env : E) → less (draw env).0 one_float ≡ true

  fires_at_rate :
      (rate : Float) (read : Float × E) (b : Bool)
      → less read.0 rate ≡ b
      → (below_rate F rate read).0 ≡ b
  fires_at_rate rate (x, env) b h = h

  -- The sampling policy can be built for the rates 0 and 1. With a source whose draws lie in
  -- [0, 1), the rate 0 never promotes and the rate 1 always does; and a rate that is NaN, below 0
  -- or above 1 panics.
  pub sample_policy_rates :
      (draw : E → Float × E)
      → IsUniform draw
      → ((p : PromotionPolicy E) × (sample_policy F zero_float (some draw) ≡ some p)
          × ((r : Request) (code : ℤ) (env : E) → (p.predicate r code env).0 ≡ false))
        × ((p : PromotionPolicy E) × (sample_policy F one_float (some draw) ≡ some p)
            × ((r : Request) (code : ℤ) (env : E) → (p.predicate r code env).0 ≡ true))
        × ((rate : Float)
            → (is_nan rate ≡ true) ⊎ ((less rate zero_float ≡ true) ⊎ (less one_float rate ≡ true))
            → sample_policy F rate (some draw) ≡ none)
  unfolding sample_policy
  sample_policy_rates draw u = (
    (
      sampler F zero_float draw,
      rw (u.zero_is_number, u.zero_irreflexive, u.one_not_below_zero),
      λ r code env. fires_at_rate zero_float (draw env) false (u.draw_not_negative env),
    ),
    (
      sampler F one_float draw,
      rw (u.one_is_number, u.one_not_below_zero, u.one_irreflexive),
      λ r code env. fires_at_rate one_float (draw env) true (u.draw_below_one env),
    ),
    λ rate bad. ground arith,
  )
