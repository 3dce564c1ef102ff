-- ===== src/Graph/Throttle/Deadlines.antt =====
-- The deadlines of the threads, against those that the calls ask for.
use onesync.Prelude.{
  ℕ, zero, suc, ◌+◌, ◌≡◌, refl, ap, ◌∙◌, map, Option, none, some, List, [], ◌∷◌, arith,
}
use onesync.Prelude.Equality.{nat_eq}
use onesync.Graph.Throttle.{
  Bucket, Thread, pause_load, pause_exchange, pause_returned, acquire_load, acquire_check,
  acquire_clear, acquire_sleep, acquire_permit, acquire_returned, next, run_at, ticked, add_one,
  Event, run, start_pause, start_acquire, tick, add_permit, pass_ms, System, step, steps,
}

-- The deadline that a thread is to set or has set, if it runs `pause_for`.
abbrev pub deadline_of : Thread → Option ℕ
deadline_of (pause_load target_ms) = some target_ms
deadline_of (pause_exchange target_ms current) = some target_ms
deadline_of (pause_returned target_ms) = some target_ms
deadline_of _ = none

-- The deadlines that the calls among the events ask for, the latest call first: the time of the call and
-- the duration together. `acquire` asks for none.
abbrev pub deadlines : List Event → ℕ → List (Option ℕ) → List (Option ℕ)
deadlines [] now ds = ds
deadlines (start_pause duration_ms ∷ events) now ds =
    deadlines events now (some (now + duration_ms) ∷ ds)
deadlines (start_acquire ∷ events) now ds = deadlines events now (none ∷ ds)
deadlines (pass_ms n ∷ events) now ds = deadlines events (now + n) ds
deadlines (run i ∷ events) now ds = deadlines events now ds
deadlines (tick ∷ events) now ds = deadlines events now ds
deadlines (add_permit ∷ events) now ds = deadlines events now ds

deadline_of-next : (t : Thread) (b : Bucket) → deadline_of (next t b).0 ≡ deadline_of t
deadline_of-next (pause_load target_ms) b = ground arith
deadline_of-next (pause_exchange target_ms current) b = ground arith
deadline_of-next (pause_returned target_ms) b = refl
deadline_of-next acquire_load b = ground arith
deadline_of-next (acquire_check until) b = ground arith
deadline_of-next (acquire_clear until) b = ground arith
deadline_of-next (acquire_sleep until) b = ground arith
deadline_of-next acquire_permit b = ground arith
deadline_of-next acquire_returned b = refl

elapsed_lem : (t : Thread) (b : Bucket) → (next t b).1.elapsed_ms ≡ b.elapsed_ms
elapsed_lem (pause_load target_ms) b = ground arith
elapsed_lem (pause_exchange target_ms current) b = ground arith
elapsed_lem (pause_returned target_ms) b = refl
elapsed_lem acquire_load b = ground arith
elapsed_lem (acquire_check until) b = ground arith
elapsed_lem (acquire_clear until) b = ground arith
elapsed_lem (acquire_sleep until) b = ground arith
elapsed_lem acquire_permit b = ground arith
elapsed_lem acquire_returned b = refl

map-run_at :
    (i : ℕ) (ts : List Thread) (b : Bucket)
    → (map deadline_of (run_at i ts b).0 ≡ map deadline_of ts)
      × ((run_at i ts b).1.elapsed_ms ≡ b.elapsed_ms)
map-run_at i [] b = (refl, refl)
map-run_at zero (t ∷ ts) b =
    (ap (λ o. o ∷ map deadline_of ts) (deadline_of-next t b), elapsed_lem t b)
map-run_at (suc i) (t ∷ ts) b =
    let (same, still) = map-run_at i ts b in (ap (λ os. deadline_of t ∷ os) same, still)

pub map-steps :
    (burst : ℕ) (events : List Event) (s : System)
    → map deadline_of (steps burst events s).threads
      ≡ deadlines events s.bucket.elapsed_ms (map deadline_of s.threads)
map-steps burst [] s = refl
map-steps burst (run i ∷ events) s =
    let (same, still) = map-run_at i s.threads s.bucket in
    map-steps burst events (step burst (run i) s)
    ∙ ap (λ now. deadlines events now (map deadline_of (run_at i s.threads s.bucket).0)) still
    ∙ ap (deadlines events s.bucket.elapsed_ms) same
map-steps burst (start_pause duration_ms ∷ events) s =
    map-steps burst events (step burst (start_pause duration_ms) s)
map-steps burst (start_acquire ∷ events) s = map-steps burst events (step burst start_acquire s)
map-steps burst (tick ∷ events) s =
    map-steps burst events (step burst tick s)
    ∙ ap (λ now. deadlines events now (map deadline_of s.threads)) (ticked_lem s.bucket)
  where
    ticked_lem : (b : Bucket) → (ticked burst b).elapsed_ms ≡ b.elapsed_ms
    ticked_lem b = ground arith
map-steps burst (add_permit ∷ events) s =
    map-steps burst events (step burst add_permit s)
    ∙ ap (λ now. deadlines events now (map deadline_of s.threads)) (add_one_lem s.bucket)
  where
    add_one_lem : (b : Bucket) → (add_one b).elapsed_ms ≡ b.elapsed_ms
    add_one_lem b = ground arith
map-steps burst (pass_ms n ∷ events) s = map-steps burst events (step burst (pass_ms n) s)
