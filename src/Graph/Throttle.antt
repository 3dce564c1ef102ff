-- ===== src/Graph/Throttle.antt =====
-- crates/onesync-graph/src/throttle.rs: the token bucket, as an interleaving of atomic steps. Each
-- thread runs one `pause_for` or one `acquire`, one access of a shared cell at a step; a schedule says
-- which thread moves, when the ticker ticks and how the clock goes on. The compare-and-exchange loops
-- touch one atomic cell only, on which relaxed accesses have one order. The casts to 64 bits, exact
-- for hundreds of millions of years, are left out, and the order in which waiting threads get permits
-- is left open.
pub mod Deadlines
pub mod Invariant
use onesync.Prelude.{ℕ, zero, suc, ◌+◌, ◌-◌, ◌*◌, ◌/◌, ◌%◌, ◌^◌, Bool, true, false, List, [], ◌∷◌}
use onesync.Prelude.Tests.{if◌then◌else◌, ltb, leb}
use onesync.Prelude.Equality.{◌==◌, nat_eq}

abbrev pub max : ℕ → ℕ → ℕ
max a b = if ltb a b then b else a

-- What `with_rate` computes from the rate: `rate_rps * 2` on 32 bits, which wraps in a release build
-- and panics in a debug build.
abbrev pub burst_of : ℕ → ℕ
burst_of rate_rps = max rate_rps 1 * 2 % 2 ^ 32

abbrev pub interval_ms_of : ℕ → ℕ
interval_ms_of rate_rps = 1000 / max rate_rps 1

-- `elapsed_ms` is `start.elapsed()`. `added` counts the permits added, for the theorems only.
pub record Bucket : Type 0 where
  pub permits : ℕ
  pub pause_until_ms : ℕ
  pub elapsed_ms : ℕ
  pub adding : Bool
  pub added : ℕ

-- Where a thread stands, with its local variables.
pub data Thread : Type 0 where
  pause_load : ℕ → Thread
  pause_exchange : ℕ → ℕ → Thread
  pause_returned : ℕ → Thread
  acquire_load : Thread
  acquire_check : ℕ → Thread
  acquire_clear : ℕ → Thread
  acquire_sleep : ℕ → Thread
  acquire_permit : Thread
  acquire_returned : Thread

-- A new `pause_for`, with its deadline computed.
abbrev pub pause_for : ℕ → Bucket → Thread
pause_for duration_ms b = pause_load (b.elapsed_ms + duration_ms)

abbrev pub acquire : Thread
acquire = acquire_load

abbrev pub next : Thread → Bucket → Thread × Bucket
next (pause_load target_ms) b =
    if leb target_ms b.pause_until_ms
    then (pause_returned target_ms, b)
    else (pause_exchange target_ms b.pause_until_ms, b)
next (pause_exchange target_ms current) b =
    if b.pause_until_ms == current
    then (pause_returned target_ms, (record b { pause_until_ms = target_ms }))
    else (pause_load target_ms, b)
next (pause_returned target_ms) b = (pause_returned target_ms, b)
next acquire_load b =
    if b.pause_until_ms == 0 then (acquire_permit, b) else (acquire_check b.pause_until_ms, b)
next (acquire_check until) b =
    if leb until b.elapsed_ms then (acquire_clear until, b) else (acquire_sleep until, b)
next (acquire_clear until) b =
    if b.pause_until_ms == until
    then (acquire_load, (record b { pause_until_ms = 0 }))
    else (acquire_load, b)
next (acquire_sleep until) b =
    if leb until b.elapsed_ms then (acquire_load, b) else (acquire_sleep until, b)
next acquire_permit b =
    if ltb 0 b.permits
    then (acquire_returned, (record b { permits = b.permits - 1 }))
    else (acquire_permit, b)
next acquire_returned b = (acquire_returned, b)

pub data Event : Type 0 where
  run : ℕ → Event
  start_pause : ℕ → Event
  start_acquire : Event
  tick : Event
  add_permit : Event
  pass_ms : ℕ → Event

pub record System : Type 0 where
  pub bucket : Bucket
  pub threads : List Thread

abbrev pub run_at : ℕ → List Thread → Bucket → List Thread × Bucket
run_at i [] b = ([], b)
run_at zero (t ∷ ts) b = let (t', b') = next t b in (t' ∷ ts, b')
run_at (suc i) (t ∷ ts) b = let (ts', b') = run_at i ts b in (t ∷ ts', b')

-- The refilling task looks at the permits at a tick, and adds one in a second step.
abbrev pub ticked : ℕ → Bucket → Bucket
ticked burst b =
    if b.adding then b else if ltb b.permits burst then (record b { adding = true }) else b

abbrev pub add_one : Bucket → Bucket
add_one b =
    if b.adding
    then (record b { permits = b.permits + 1; adding = false; added = b.added + 1 })
    else b

abbrev pub step : ℕ → Event → System → System
step burst (run i) s =
    let (threads, bucket) = run_at i s.threads s.bucket in
    record { bucket = bucket; threads = threads }
step burst (start_pause duration_ms) s = record s {
  threads = pause_for duration_ms s.bucket ∷ s.threads;
}
step burst start_acquire s = record s { threads = acquire ∷ s.threads }
step burst tick s = record s { bucket = ticked burst s.bucket }
step burst add_permit s = record s { bucket = add_one s.bucket }
step burst (pass_ms n) s =
    let b = s.bucket in record s { bucket = record b { elapsed_ms = b.elapsed_ms + n } }

abbrev pub steps : ℕ → List Event → System → System
steps burst [] s = s
steps burst (event ∷ events) s = steps burst events (step burst event s)

-- `Bucket::with_rate`.
abbrev pub with_rate : ℕ → System
with_rate rate_rps = record {
  bucket = record {
    permits = burst_of rate_rps;
    pause_until_ms = 0;
    elapsed_ms = 0;
    adding = false;
    added = 0;
  };
  threads = [];
}
