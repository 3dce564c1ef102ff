-- ===== src/Engine/Cycle/Resolve/Kept.antt =====
-- What `phase_resolve_conflicts` leaves for the planner, and the operations it adds.
use onesync.Prelude.{◌≡◌, refl, Bool, true, false, not, List, [], ◌∷◌, ◌++◌, arith, inl, inr}
use onesync.Prelude.Tests.{Bool-cases}
use onesync.Prelude.Lists.{keep, all, all-append}
use onesync.Prelude.Outcome.{Outcome, ok, err, and_then, return, ◌>>=◌, Returns, returns}
use onesync.Protocol.Enums.{FileOpKind, local_rename, download}
use onesync.Protocol.Entities.{RowId, FileOp}
use onesync.Engine.Types.{Decision, is_conflict}
use onesync.Engine.Ports.{Ports, World, EngineError}
use onesync.Engine.Cycle.Context.{CycleCtx}
use onesync.Engine.Cycle.Execute.{from_conflict}
use onesync.Engine.Cycle.Resolve.{
  new_op, push_remote_winner_conflict_ops, materialise, record_content_conflict,
  phase_resolve_conflicts,
}

abbrev not_conflict : Decision → Bool
not_conflict d = not (is_conflict d.kind)

-- A local rename marked as a conflict's, or a download.
abbrev kind_of_conflict_op : FileOp → FileOpKind → Bool
kind_of_conflict_op op local_rename = from_conflict op
kind_of_conflict_op op download = true
kind_of_conflict_op op _ = false

abbrev pub is_conflict_op : FileOp → Bool
is_conflict_op op = kind_of_conflict_op op op.kind

module _ (P : Ports) (ctx : CycleCtx) (run_id : RowId) where
  conflict_ops_lem :
      (d : Decision) (w : World P)
      → returns (all is_conflict_op) (record_content_conflict P ctx run_id d w) ≡ true
  unfolding record_content_conflict materialise push_remote_winner_conflict_ops new_op from_conflict
  conflict_ops_lem d w = ground arith

  abbrev pub Handled : List Decision → List Decision × List FileOp → Type 0
  Handled ds r = (r.0 ≡ keep not_conflict ds) × all is_conflict_op r.1 ≡ true

  keep_step :
      (d : Decision) (ds : List Decision)
      (o : Outcome EngineError (World P) (List Decision × List FileOp))
      → is_conflict d.kind ≡ false
      → Returns (Handled ds) o
      → Returns (Handled (d ∷ ds)) (and_then o (λ rest. return (d ∷ rest.0, rest.1)))
  keep_step d ds (ok r w) c h = ground (arith, c, h)
  keep_step d ds (err e w) c h = tt

  add_step :
      (d : Decision) (ds : List Decision) (ops : List FileOp)
      (o : Outcome EngineError (World P) (List Decision × List FileOp))
      → is_conflict d.kind ≡ true
      → all is_conflict_op ops ≡ true
      → Returns (Handled ds) o
      → Returns (Handled (d ∷ ds)) (and_then o (λ rest. return (rest.0, ops ++ rest.1)))
  add_step d ds ops (ok r w) c k h = ground (arith, c, h, all-append is_conflict_op ops r.1)
  add_step d ds ops (err e w) c k h = tt

  resolve_step :
      (d : Decision) (ds : List Decision) (o : Outcome EngineError (World P) (List FileOp))
      → is_conflict d.kind ≡ true
      → returns (all is_conflict_op) o ≡ true
      → ((v : World P) → Returns (Handled ds) (phase_resolve_conflicts P ctx run_id ds v))
      → Returns (Handled (d ∷ ds)) (
          and_then o (λ ops.
            phase_resolve_conflicts P ctx run_id ds >>= λ rest. return (rest.0, ops ++ rest.1)))
  resolve_step d ds (ok ops w) c k ih = add_step d ds ops _ c k (ih w)
  resolve_step d ds (err e w) c k ih = tt

  -- Whenever the phase returns, the planner gets exactly the decisions that are no conflicts, in their
  -- order, and the operations added are only local renames marked as a conflict's and downloads.
  pub phase_resolve_conflicts-Handled :
      (ds : List Decision) (w : World P)
      → Returns (Handled ds) (phase_resolve_conflicts P ctx run_id ds w)
  unfolding phase_resolve_conflicts
  phase_resolve_conflicts-Handled [] w = (refl, refl)
  phase_resolve_conflicts-Handled (d ∷ ds) w = elim (Bool-cases (is_conflict d.kind)) [
    | inl c ↦
        rw c (resolve_step d ds _ c (conflict_ops_lem d w) (phase_resolve_conflicts-Handled ds))
    | inr c ↦ rw c (keep_step d ds _ c (phase_resolve_conflicts-Handled ds w))
  ]
