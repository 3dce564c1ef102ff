-- ===== src/Tests/Token.antt =====
-- A run of the token source of crates/onesync-daemon/src/scheduler.rs, whose refreshes fail twice for
-- a passing reason and then give a token.
use onesync.Prelude.{ℕ, suc, ◌≡◌, refl, ap, inl, inr, some, []}
use onesync.Prelude.Tests.{if◌then◌else◌, ltb, Bool-cases}
use onesync.Prelude.Text.{codes}
use onesync.Prelude.Outcome.{Outcome, ok, err}
use onesync.Graph.Errors.{GraphInternalError, transient, cause}
use onesync.Daemon.Tokens.{Tokens, CachedToken, TokenPorts, access_token}
use onesync.Daemon.Tokens.Attempts.{Ends, IsCount, Answered, access_token-IsAnswered}

-- The world counts the refreshes.
abbrev third_time : ℕ → Outcome GraphInternalError ℕ Tokens
third_time n =
    if ltb n 2
    then err (transient (cause (codes "busy")) []) (suc n)
    else ok
        (record { access_token = codes "access"; refresh_token = codes "next"; expires_in = 3600 })
        (suc n)

abbrev pub counting : TokenPorts
counting = record {
  World = ℕ;
  pairs_list = λ id n. ok [] n;
  pair_upsert = λ p n. ok tt n;
  audit_append = λ event n. ok tt n;
  emit = λ event n. n;
  now = λ n. (5, n);
  new_id = λ n. (7, n);
  load_refresh = λ id n. ok (codes "first") n;
  store_refresh = λ id t n. ok [] n;
  refresh = λ client_id rt n. third_time n;
  sleep_ms = λ ms n. n;
  instant = λ n. (9000000000, n);
  id_text = λ id. [];
}

abbrev stale_token : CachedToken
stale_token = record { access_token = codes "old"; fetched_at = 0; expires_in = 100 }

abbrev renewed_token : CachedToken
renewed_token = record { access_token = codes "access"; fetched_at = 9000000000; expires_in = 3600 }

third_works :
    access_token counting 4 (codes "client") (0, some stale_token)
    ≡ ok (some (codes "access")) (3, some renewed_token)
unfolding access_token
third_works = refl

abbrev Counts : ℕ → ℕ → Type 0
Counts n w = w ≡ n

third_counts : (n w : ℕ) → Counts n w → Ends counting (Counts (suc n)) (third_time w)
third_counts n w h = elim (Bool-cases (ltb w 2)) [
  | inl early ↦ rw early (ap suc h)
  | inr late ↦ rw late (ap suc h)
]

counting_counts : IsCount counting Counts
counting_counts = record {
  refresh = λ client_id rt n w h. third_counts n w h;
  pairs_list = λ id n w h. h;
  pair_upsert = λ p n w h. h;
  audit_append = λ event n w h. h;
  emit = λ event n w h. h;
  now = λ n w h. h;
  new_id = λ n w h. h;
  load_refresh = λ id n w h. h;
  store_refresh = λ id t n w h. h;
  sleep_ms = λ ms n w h. h;
  instant = λ n w h. h;
}

access_token-IsAnswered_example :
    Answered counting 4
      (codes "client")
      Counts
      counting_counts
      (some stale_token)
      (access_token counting 4 (codes "client") (0, some stale_token))
access_token-IsAnswered_example =
    access_token-IsAnswered counting 4 (codes "client") Counts counting_counts 0 (some stale_token)
      refl
