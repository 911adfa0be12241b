-- ===== src/Policy.antt =====
-- policy.go: promotion policies. A predicate may read the clock or a random source, so it takes the
-- environment and returns it. What the policies take from outside is an argument: the clock,
-- `path.Match`, the texts of package fmt, and the floats with their random source.
pub mod Decide
mod Examples
use promolog.Prelude.{
  ℤ, pos, Bool, true, false, ◌&&◌, ◌||◌, leb_ℤ, if◌then◌else◌, Option, none, some, List, [], ◌∷◌,
  ◌++◌, Str, lit,
}
use promolog.Trace.{Time, Duration, is_zero, time_sub}
use promolog.Context.{get_request_start_time}
use promolog.Http.{Request}

pub record PromotionPolicy (E : Type 0) : Type 0 where
  pub name : Str
  pub predicate : Request → ℤ → E → Bool × E

module _ {E : Type 0} where
  unfoldable pub status_policy : ℤ → PromotionPolicy E
  status_policy min_code = record {
    name = lit "status";
    predicate = λ r status_code env. (leb_ℤ min_code status_code, env);
  }

  -- `none` of `path.Match` is its error.
  unfoldable pub route_policy : (Str → Str → Option Bool) → Str → (ℤ → Bool) → PromotionPolicy E
  route_policy path_match pattern accepts = record {
    name = lit "route:" ++ pattern;
    predicate = λ r status_code env. (
      elim (path_match pattern r.path) [
        | none ↦ false
        | some matched ↦ matched && accepts status_code
      ],
      env,
    );
  }

  -- `time.Since(start) >= threshold`, at the time that the clock gives.
  abbrev pub late_enough : Duration → Time → Time × E → Bool × E
  late_enough threshold start (now, env) = (leb_ℤ threshold (time_sub now start), env)

  unfoldable pub latency_policy : (E → Time × E) → (Duration → Str) → Duration → PromotionPolicy E
  latency_policy clock format_duration threshold = record {
    name = lit "latency:" ++ format_duration threshold;
    predicate = λ r status_code env.
        let start = get_request_start_time r.ctx in
        if is_zero start then (false, env) else late_enough threshold start (clock env);
  }

  -- The first policy whose predicate holds; those behind it are not asked.
  unfoldable pub any_policy : List (PromotionPolicy E) → Request → ℤ → E → Bool × E
  any_policy [] r status_code env = (false, env)
  any_policy (p ∷ ps) r status_code env =
      let (fires, env') = p.predicate r status_code env in
      let rest = any_policy ps r status_code env' in if fires then (true, env') else rest

-- `float64`, its order and constants, its `%.4f`, and `Float64` of a random source.
pub record Floats (E : Type 0) : Type 1 where
  pub Float : Type 0
  pub zero_float : Float
  pub one_float : Float
  pub is_nan : Float → Bool
  pub less : Float → Float → Bool
  pub format_float : Float → Str
  pub default_draw : E → Float × E

module _ {E : Type 0} (F : Floats E) where
  open F use {Float, zero_float, one_float, is_nan, less, format_float, default_draw}

  abbrev pub draw_or_default : Option (E → Float × E) → E → Float × E
  draw_or_default none = default_draw
  draw_or_default (some draw) = draw

  abbrev pub below_rate : Float → Float × E → Bool × E
  below_rate rate (x, env) = (less x rate, env)

  abbrev pub sampler : Float → (E → Float × E) → PromotionPolicy E
  sampler rate draw = record {
    name = lit "sample:" ++ format_float rate;
    predicate = λ r status_code env. below_rate rate (draw env);
  }

  -- `none` is the panic of a rate that is NaN or outside [0, 1].
  unfoldable pub sample_policy : Float → Option (E → Float × E) → Option (PromotionPolicy E)
  sample_policy rate rng =
      if is_nan rate || (less rate zero_float || less one_float rate)
      then none
      else some (sampler rate (draw_or_default rng))
