-- ===== src/Graph/Throttle/Invariant.antt =====
-- What holds of the bucket in every interleaving.
use onesync.Prelude.{
  ℕ, zero, suc, ◌+◌, ◌≤◌, ◌≡◌, refl, Bool, true, false, ◌||◌, ◌&&◌, not, ◌⊎◌, inl, inr, ◌*◌, ◌%◌,
  ◌^◌, map, List, [], ◌∷◌, arith,
}
use mathlib.Core.Path.{subst}
use onesync.Prelude.Tests.{if◌then◌else◌, ltb, leb}
use onesync.Prelude.Equality.{◌==◌, nat_eq}
use onesync.Prelude.Lists.{count_if, All}
use onesync.Graph.Throttle.{
  Bucket, Thread, pause_load, pause_exchange, pause_returned, acquire_load, acquire_check,
  acquire_clear, acquire_sleep, acquire_permit, acquire_returned, next, run_at, ticked, add_one,
  Event, run, start_pause, start_acquire, tick, add_permit, pass_ms, System, step, steps, with_rate,
  burst_of,
}
use onesync.Graph.Throttle.Deadlines.{deadline_of, deadlines, map-steps}

-- A pause that was set is in force until its deadline, only a later deadline replaces one, and only a
-- deadline that has passed is cleared.
abbrev pub respected : Bucket → Thread → Bool
respected b (pause_returned target_ms) =
    leb target_ms b.elapsed_ms || leb target_ms b.pause_until_ms
respected b (acquire_clear until) = leb until b.elapsed_ms
respected b (pause_exchange target_ms current) = ltb current target_ms
respected b _ = true

abbrev pub Respected : Bucket → List Thread → Type 0
Respected b = All (λ t. respected b t ≡ true)

abbrev has_permit : Thread → Bool
has_permit acquire_returned = true
has_permit _ = false

-- The calls of `acquire` that have returned.
abbrev pub acquired : List Thread → ℕ
acquired = count_if has_permit

-- A step of the bucket that loses no pause.
abbrev goes_on : Bucket → Bucket → Bool
goes_on b c =
    leb b.elapsed_ms c.elapsed_ms
    && (leb b.pause_until_ms c.pause_until_ms || leb b.pause_until_ms c.elapsed_ms)

stays_respected :
    (b c : Bucket) (t : Thread) → goes_on b c ≡ true → respected b t ≡ true → respected c t ≡ true
stays_respected b c (pause_returned target_ms) h r = ground arith
stays_respected b c (acquire_clear until) h r = ground arith
stays_respected b c (pause_load target_ms) h r = refl
stays_respected b c (pause_exchange target_ms current) h r = r
stays_respected b c acquire_load h r = refl
stays_respected b c (acquire_check until) h r = refl
stays_respected b c (acquire_sleep until) h r = refl
stays_respected b c acquire_permit h r = refl
stays_respected b c acquire_returned h r = refl

stay_Respected :
    (b c : Bucket) (ts : List Thread) → goes_on b c ≡ true → Respected b ts → Respected c ts
stay_Respected b c [] h r = tt
stay_Respected b c (t ∷ ts) h r = (stays_respected b c t h r.0, stay_Respected b c ts h r.1)

-- What one step of a thread does.
abbrev moved : Thread → Bucket → Thread → Bucket → Bool
moved t b u c =
    goes_on b c
    && respected c u
    && (c.permits + count_if has_permit (u ∷ []) == b.permits + count_if has_permit (t ∷ []))
    && (leb c.permits b.permits && c.added == b.added && c.elapsed_ms == b.elapsed_ms)
    && (if c.adding then b.adding else not b.adding)

next_lem :
    (t : Thread) (b : Bucket) → respected b t ≡ true → moved t b (next t b).0 (next t b).1 ≡ true
next_lem (pause_load target_ms) b r = ground arith
next_lem (pause_exchange target_ms current) b r = ground arith
next_lem (pause_returned target_ms) b r = ground arith
next_lem acquire_load b r = ground arith
next_lem (acquire_check until) b r = ground arith
next_lem (acquire_clear until) b r = ground arith
next_lem (acquire_sleep until) b r = ground arith
next_lem acquire_permit b r = ground arith
next_lem acquire_returned b r = ground arith

-- The same of a step of one thread among others.
abbrev pub all_moved : List Thread → Bucket → List Thread → Bucket → Bool
all_moved ts b us c =
    goes_on b c
    && (c.permits + acquired us == b.permits + acquired ts)
    && (leb c.permits b.permits && c.added == b.added && c.elapsed_ms == b.elapsed_ms)
    && (if c.adding then b.adding else not b.adding)

moved_first :
    (t u : Thread) (ts : List Thread) (b c : Bucket)
    → moved t b u c ≡ true
    → (all_moved (t ∷ ts) b (u ∷ ts) c ≡ true) × (goes_on b c ≡ true) × (respected c u ≡ true)
moved_first t u ts b c m = ground (arith, m)

moved_later :
    (t : Thread) (ts us : List Thread) (b c : Bucket)
    → all_moved ts b us c ≡ true
    → (all_moved (t ∷ ts) b (t ∷ us) c ≡ true) × (goes_on b c ≡ true)
moved_later t ts us b c m = ground (arith, m)

run_at_lem :
    (i : ℕ) (ts : List Thread) (b : Bucket)
    → Respected b ts
    → (all_moved ts b (run_at i ts b).0 (run_at i ts b).1 ≡ true)
      × Respected (run_at i ts b).1 (run_at i ts b).0
run_at_lem i [] b r = (ground arith, tt)
run_at_lem zero (t ∷ ts) b r =
    let (u, c) = next t b in
    let (m, on, here) = moved_first t u ts b c (next_lem t b r.0) in
    (m, (here, stay_Respected b c ts on r.1))
run_at_lem (suc i) (t ∷ ts) b r =
    let (us, c) = run_at i ts b in
    let (m, rest) = run_at_lem i ts b r.1 in
    let (later, on) = moved_later t ts us b c m in (later, (stays_respected b c t on r.0, rest))

-- Permits are neither lost nor invented, and there are never more than the burst.
pub record IsSound (burst : ℕ) (s : System) : Type 0 where
  pub conserved : s.bucket.permits + acquired s.threads ≡ burst + s.bucket.added
  pub capped : (if s.bucket.adding then s.bucket.permits + 1 else s.bucket.permits) ≤ burst
  pub pauses : Respected s.bucket s.threads

run-IsSound :
    (burst : ℕ) (ts us : List Thread) (b c : Bucket)
    → IsSound burst (record { bucket = b; threads = ts })
    → all_moved ts b us c ≡ true
    → Respected c us
    → IsSound burst (record { bucket = c; threads = us })
run-IsSound burst ts us b c sound m r = record {
  conserved = ground (arith, sound.conserved, m);
  capped = ground (arith, sound.capped, m);
  pauses = r;
}

bucket-IsSound :
    (burst : ℕ) (ts : List Thread) (b c : Bucket)
    → Respected b ts
    → goes_on b c ≡ true
    → c.permits + acquired ts ≡ burst + c.added
    → (if c.adding then c.permits + 1 else c.permits) ≤ burst
    → IsSound burst (record { bucket = c; threads = ts })
bucket-IsSound burst ts b c r on conserved capped = record {
  conserved = conserved;
  capped = capped;
  pauses = stay_Respected b c ts on r;
}

step-IsSound :
    (burst : ℕ) (event : Event) (s : System) → IsSound burst s → IsSound burst (step burst event s)
step-IsSound burst (run i) s sound =
    let (m, r) = run_at_lem i s.threads s.bucket sound.pauses in
    run-IsSound burst s.threads (run_at i s.threads s.bucket).0 s.bucket
      (run_at i s.threads s.bucket).1 sound m r
step-IsSound burst (start_pause duration_ms) s sound = record {
  conserved = sound.conserved;
  capped = sound.capped;
  pauses = (refl, sound.pauses);
}
step-IsSound burst start_acquire s sound = record {
  conserved = sound.conserved;
  capped = sound.capped;
  pauses = (refl, sound.pauses);
}
step-IsSound burst tick s sound =
    bucket-IsSound burst s.threads s.bucket (ticked burst s.bucket) sound.pauses (ground arith)
      (ground (arith, sound.conserved)) (ground (arith, sound.capped))
step-IsSound burst add_permit s sound =
    bucket-IsSound burst s.threads s.bucket (add_one s.bucket) sound.pauses (ground arith)
      (ground (arith, sound.conserved)) (ground (arith, sound.capped))
step-IsSound burst (pass_ms n) s sound =
    bucket-IsSound burst s.threads s.bucket _ sound.pauses (ground arith) sound.conserved
      sound.capped

steps-IsSound :
    (burst : ℕ) (events : List Event) (s : System)
    → IsSound burst s
    → IsSound burst (steps burst events s)
steps-IsSound burst [] s sound = sound
steps-IsSound burst (event ∷ events) s sound =
    steps-IsSound burst events (step burst event s) (step-IsSound burst event s sound)

-- Whether the next step of a thread takes it to the wait for a permit.
abbrev at_permit : Thread → Bool
at_permit acquire_permit = true
at_permit _ = false

abbrev pub enters : Thread → Bucket → Bool
enters t b = at_permit (next t b).0 && not (at_permit t)

-- A pause that was set, and whose deadline has passed.
abbrev pub due : Bucket → Thread → Bool
due b (pause_returned target_ms) = leb target_ms b.elapsed_ms
due b _ = true

-- A thread passes on to the permits only when no returned `pause_for` has its deadline ahead.
abbrev pub Obeys : System → Thread → Type 0
Obeys s t = (enters t s.bucket ≡ false) ⊎ All (λ u. due s.bucket u ≡ true) s.threads

enters_lem : (t : Thread) (b : Bucket) → (enters t b ≡ false) ⊎ (b.pause_until_ms ≡ 0)
enters_lem (pause_load target_ms) b = inl (ground arith)
enters_lem (pause_exchange target_ms current) b = inl (ground arith)
enters_lem (pause_returned target_ms) b = inl refl
enters_lem acquire_load b = ground arith
enters_lem (acquire_check until) b = inl (ground arith)
enters_lem (acquire_clear until) b = inl (ground arith)
enters_lem (acquire_sleep until) b = inl (ground arith)
enters_lem acquire_permit b = inl (ground arith)
enters_lem acquire_returned b = inl refl

due_lem : (b : Bucket) (t : Thread) → b.pause_until_ms ≡ 0 → respected b t ≡ true → due b t ≡ true
due_lem b (pause_returned target_ms) h r = ground (arith, h, r)
due_lem b (pause_load target_ms) h r = refl
due_lem b (pause_exchange target_ms current) h r = refl
due_lem b acquire_load h r = refl
due_lem b (acquire_check until) h r = refl
due_lem b (acquire_clear until) h r = refl
due_lem b (acquire_sleep until) h r = refl
due_lem b acquire_permit h r = refl
due_lem b acquire_returned h r = refl

All-due :
    (b : Bucket) (ts : List Thread)
    → b.pause_until_ms ≡ 0
    → Respected b ts
    → All (λ u. due b u ≡ true) ts
All-due b [] h r = tt
All-due b (t ∷ ts) h r = (due_lem b t h r.0, All-due b ts h r.1)

pauses-Obeys :
    (b : Bucket) (all ts : List Thread)
    → Respected b all
    → All (Obeys (record { bucket = b; threads = all })) ts
pauses-Obeys b all [] r = tt
pauses-Obeys b all (t ∷ ts) r = (or_due (enters_lem t b), pauses-Obeys b all ts r)
  where
    or_due :
        (enters t b ≡ false) ⊎ (b.pause_until_ms ≡ 0)
        → Obeys (record { bucket = b; threads = all }) t
    or_due (inl stays) = inl stays
    or_due (inr open_now) = inr (All-due b all open_now r)

-- What holds of the system after some events.
pub record IsThrottled (burst : ℕ) (events : List Event) (s : System) : Type 0 where
  pub sound : IsSound burst s
  pub obeyed : All (Obeys s) s.threads
  pub asked : map deadline_of s.threads ≡ deadlines events 0 []

burst_lem :
    (rate_rps : ℕ) → burst_of rate_rps ≡ (if rate_rps == 0 then 2 else 2 * rate_rps % 2 ^ 32)
burst_lem rate_rps = ground arith

-- In every interleaving of a new bucket, whose burst is twice the rate on 32 bits: the permits taken and
-- the permits left are together the burst and the permits added, the permits left are at most the burst,
-- the threads of `pause_for` have the deadlines that their calls asked for, the deadline of every one
-- that has returned has passed or is covered by the deadline that the bucket holds, and a thread whose
-- next step passes on to the permits does so only if the deadlines of all of these have passed.
pub steps-with_rate-IsSound :
    (rate_rps : ℕ) (events : List Event)
    → IsThrottled
        (if rate_rps == 0 then 2 else 2 * rate_rps % 2 ^ 32)
        events
        (steps (burst_of rate_rps) events (with_rate rate_rps))
steps-with_rate-IsSound rate_rps events =
    let sound =
      steps-IsSound (burst_of rate_rps) events (with_rate rate_rps)
        (record { conserved = omega arith; capped = omega arith; pauses = tt }) in
    let s = steps (burst_of rate_rps) events (with_rate rate_rps) in
    record {
      sound = subst (λ burst. IsSound burst s) (burst_lem rate_rps) sound;
      obeyed = pauses-Obeys s.bucket s.threads s.threads sound.pauses;
      asked = map-steps (burst_of rate_rps) events (with_rate rate_rps);
    }
