-- ===== src/Engine/Retry/Bounds.antt =====
-- The backoff schedule, for every jitter.
use onesync.Prelude.{ℕ, zero, suc, false, inl, inr, ◌-◌, ◌*◌, ◌^◌, ◌≤◌, ◌<◌, ◌≡◌, arith}
use onesync.Prelude.Tests.{Bool-cases}
use onesync.Engine.Retry.{
  RetryDecision, immediate, exhausted, backoff, Fractions, clamp, ceiling_ms, retry_decision,
}

-- What a decision promises for an attempt: no delay for the first, none after the fifth, and in
-- between a delay below a second doubled with each attempt.
abbrev pub OnSchedule : ℕ → RetryDecision → Type 0
OnSchedule attempt immediate = attempt ≡ 0
OnSchedule attempt exhausted = 5 ≤ attempt
OnSchedule attempt (backoff delay_ms) =
    (0 < attempt) × (attempt < 5) × (delay_ms < 1000 * 2 ^ (attempt - 1)) × (delay_ms < 8000)

ceiling_doubles :
    (attempt : ℕ)
    → 0 < attempt
    → attempt < 5
    → (ceiling_ms attempt ≡ 1000 * 2 ^ (attempt - 1))
      × (0 < ceiling_ms attempt)
      × (ceiling_ms attempt ≤ 8000)
unfolding ceiling_ms
ceiling_doubles zero p q = absurd (omega arith)
ceiling_doubles (suc zero) p q = omega arith
ceiling_doubles (suc (suc zero)) p q = omega arith
ceiling_doubles (suc (suc (suc zero))) p q = omega arith
ceiling_doubles (suc (suc (suc (suc zero)))) p q = omega arith
ceiling_doubles (suc (suc (suc (suc (suc n))))) p q = absurd (omega arith)

-- What the schedule needs of `f64`: the two constants are in order and none is below itself, and the
-- product of a fraction from 0 to 1 - EPSILON with a ceiling of 64000 or less, cast to an integer, is less
-- than the ceiling.
pub record IsFraction {Jitter : Type 0} (f : Fractions Jitter) : Type 0 where
  pub irreflexive : (x : Jitter) → f.less x x ≡ false
  pub ordered : f.less f.one_less_epsilon f.zero ≡ false
  pub below :
      (x : Jitter) (ceiling : ℕ)
      → f.less x f.zero ≡ false
      → f.less f.one_less_epsilon x ≡ false
      → 0 < ceiling
      → ceiling ≤ 64000
      → f.times x ceiling < ceiling

module _ {Jitter : Type 0} (f : Fractions Jitter) (float : IsFraction f) where
  clamped_lem :
      (j : Jitter) (ceiling : ℕ)
      → 0 < ceiling
      → ceiling ≤ 64000
      → f.times (clamp f j) ceiling < ceiling
  clamped_lem j ceiling p q = elim (Bool-cases (f.less j f.zero)) [
    | inl low ↦ rw low (float.below f.zero ceiling (float.irreflexive f.zero) float.ordered p q)
    | inr enough ↦ elim (Bool-cases (f.less f.one_less_epsilon j)) [
      | inl high ↦
          rw (enough, high)
            (float.below f.one_less_epsilon ceiling float.ordered
              (float.irreflexive f.one_less_epsilon) p q)
      | inr within ↦ rw (enough, within) (float.below j ceiling enough within p q)
    ]
  ]

  -- For every jitter, clamped as the code does, and floats whose product with a fraction below 1 is below
  -- the ceiling: a decision is immediate for attempt 0 only, exhausted from attempt 5 on only, and between
  -- them a backoff shorter than a second doubled with each attempt after the first, so below
  -- BASE * 2^(attempt - 1).
  pub retry_decision-OnSchedule :
      (attempt : ℕ) (j : Jitter) → OnSchedule attempt (retry_decision f attempt j)
  unfolding retry_decision
  retry_decision-OnSchedule attempt j =
      ground (arith, ceiling_doubles attempt, clamped_lem j (ceiling_ms attempt))
