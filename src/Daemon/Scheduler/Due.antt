-- ===== src/Daemon/Scheduler/Due.antt =====
-- Which pairs a tick runs.
use onesync.Prelude.{◌≡◌, refl, inl, inr, Bool, true, false, ◌&&◌, ◌||◌, not, List, [], ◌∷◌, arith}
use onesync.Prelude.Tests.{Bool-cases}
use onesync.Prelude.Lists.{keep}
use onesync.Prelude.Outcome.{ok}
use onesync.Protocol.Enums.{scheduled, is_removed}
use onesync.Protocol.Entities.{Pair}
use onesync.Engine.Ports.{Ports, World}
use onesync.Daemon.Scheduler.{Extra, run_one_pair, run_pairs, run_due_pairs}

abbrev pub is_due : Pair → Bool
is_due pair = not pair.paused && not (is_removed pair.status)

module _ (P : Ports) (X : Extra P) where
  -- One cycle after the other.
  abbrev pub each : List Pair → World P → World P
  each [] w = w
  each (pair ∷ pairs) w = each pairs (run_one_pair P X pair.id scheduled w)

  run_pairs-keep :
      (pairs : List Pair) (w : World P) → run_pairs P X pairs w ≡ each (keep is_due pairs) w
  run_pairs-keep [] w = refl
  run_pairs-keep (pair ∷ pairs) w = elim (Bool-cases (is_due pair)) [
    | inl due ↦
        let skip : (pair.paused || is_removed pair.status) ≡ false = ground (arith, due) in
        rw (skip, due) (run_pairs-keep pairs (run_one_pair P X pair.id scheduled w))
    | inr not_due ↦
        let skip : (pair.paused || is_removed pair.status) ≡ true = ground (arith, not_due) in
        rw (skip, not_due) (run_pairs-keep pairs w)
  ]

  -- When the store lists the active pairs, a tick runs a cycle for each of them that is neither
  -- paused nor removed, in the order of the list, and goes on after a cycle that fails.
  pub run_due_pairs-each :
      (s s' : P.Store) (e : P.Env) (pairs : List Pair)
      → X.pairs_active s ≡ ok pairs s'
      → run_due_pairs P X (s, e) ≡ each (keep is_due pairs) (s', e)
  unfolding run_due_pairs
  run_due_pairs-each s s' e pairs h = rw h (run_pairs-keep pairs (s', e))
