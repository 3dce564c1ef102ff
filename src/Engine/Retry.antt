-- ===== src/Engine/Retry.antt =====
-- crates/onesync-core/src/engine/retry.rs. There are no floats here: a jitter is a value of an unknown
-- type with the order, the two constants and the product that the code uses.
pub mod Bounds
use onesync.Prelude.{ℕ, Bool, ◌+◌, ◌-◌, ◌*◌, ◌^◌}
use Prim.Native.Nat.{min}
use onesync.Prelude.Tests.{if◌then◌else◌, ltb, leb}
use onesync.Prelude.Equality.{◌==◌, nat_eq}
use onesync.Engine.Limits.{retry_max_attempts, retry_backoff_base_ms}

pub data RetryDecision : Type 0 where
  immediate exhausted : RetryDecision
  backoff : ℕ → RetryDecision

-- `u64::saturating_mul`.
abbrev saturating_mul : ℕ → ℕ → ℕ
saturating_mul a b = min (a * b) (2 ^ 64 - 1)

-- `1u64 << shift` for a shift below 7.
unfoldable pub ceiling_ms : ℕ → ℕ
ceiling_ms attempt = saturating_mul retry_backoff_base_ms (2 ^ min (attempt - 1) 6)

-- Of `f64`: the order, `0.0`, `1.0 - f64::EPSILON`, and `(x * ceiling as f64) as u64`.
pub record Fractions (Jitter : Type 0) : Type 0 where
  pub less : Jitter → Jitter → Bool
  pub zero : Jitter
  pub one_less_epsilon : Jitter
  pub times : Jitter → ℕ → ℕ

-- `f64::clamp`.
abbrev pub clamp : {Jitter : Type 0} → Fractions Jitter → Jitter → Jitter
clamp f x =
    if f.less x f.zero
    then f.zero
    else if f.less f.one_less_epsilon x
    then f.one_less_epsilon
    else x

unfoldable pub retry_decision : {Jitter : Type 0} → Fractions Jitter → ℕ → Jitter → RetryDecision
retry_decision f attempt jitter_fraction =
    if attempt == 0
    then immediate
    else if leb retry_max_attempts attempt
    then exhausted
    else backoff (f.times (clamp f jitter_fraction) (ceiling_ms attempt))

unfoldable pub should_retry : ℕ → Bool
should_retry attempt = ltb attempt retry_max_attempts
