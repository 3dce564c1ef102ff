-- ===== src/Engine/Cycle/Delta/Counts.antt =====
-- The counters of the delta phase against the decisions it returns.
use onesync.Prelude.{
  ◌≡◌, refl, sym, ap, ◌∙◌, ◌⊎◌, Bool, true, false, not, ◌&&◌, inl, inr, Option, none, some, List,
  [], ◌∷◌, ◌++◌, arith,
}
use mathlib.Core.Path.{subst}
use mathlib.Core.List.{append-nil, append_assoc}
use onesync.Prelude.Tests.{if◌then◌else◌, is_some, Bool-cases}
use onesync.Prelude.Lists.{length, count_if, count_if-append}
use onesync.Prelude.Outcome.{Outcome, ok, err, and_then, return, ◌>>=◌, Returns}
use onesync.Protocol.Path.{RelPath}
use onesync.Protocol.Remote.{RemoteItem, DeltaPage}
use onesync.Protocol.Entities.{FileEntry}
use onesync.Engine.Types.{Decision, is_conflict}
use onesync.Engine.Reconcile.{reconcile_one}
use onesync.Engine.Ports.{Ports, World, EngineError, GraphError, env_result, remote_port}
use onesync.Engine.Cycle.Context.{CycleCtx, entry_of}
use onesync.Engine.Cycle.Buckets.{Dropped, is_dropped, detect_remote_case_collisions}
use onesync.Engine.Cycle.Collisions.{
  CollisionRename, path_of, process_remote_case_collisions, skip_for_case_collision,
}
use onesync.Engine.Cycle.Delta.{
  DeltaReconcileOutcome, Progress, live, count_conflict, skipped, observe, unless_skipped, at_path,
  process_item, process_items, start, outcome_of, found, phase_delta_reconcile,
}

abbrev pub decides_conflict : Decision → Bool
decides_conflict d = is_conflict d.kind

-- The counter is the number of conflicts decided.
abbrev pub Counted : Progress → Type 0
Counted p = p.conflicts_detected ≡ count_if decides_conflict p.decisions

module _ (P : Ports) (ctx : CycleCtx) (dropped : Dropped) where
  -- Why no decision is made for an item: it has no path, its path lost a collision within the page, or
  -- the look-up without regard to case says that it collides with a row.
  abbrev pub PassedOver : RemoteItem → Type 0
  PassedOver item =
      (path_of P item ≡ none)
      ⊎ ((path : RelPath) × (path_of P item ≡ some path)
          × ((is_dropped path dropped ≡ true)
              ⊎ ((w : World P) × (renames : List CollisionRename) × (v : World P)
                  × (skip_for_case_collision P ctx path item w ≡ ok (true, renames) v))))

  -- The decisions made for one item: none, or the one of the item at its path against some row.
  abbrev pub DecidedFor : RemoteItem → List Decision → Type 0
  DecidedFor item [] = PassedOver item
  DecidedFor item (d ∷ []) =
      (path : RelPath) × (entry : Option FileEntry) × (path_of P item ≡ some path)
      × (d ≡ reconcile_one ctx.pair_id path entry (live item))
  DecidedFor item (d ∷ (e ∷ ds)) = ⊥

  -- The decisions of a list of items, item by item.
  abbrev pub Decided : List RemoteItem → List Decision → Type 0
  Decided [] ds = ds ≡ []
  Decided (item ∷ items) ds =
      (own : List Decision) × (rest : List Decision) × (ds ≡ own ++ rest)
      × DecidedFor item own
      × Decided items rest

  -- The loop variables after an item, from those before.
  abbrev After : RemoteItem → Progress → Progress → Type 0
  After item p q =
      Counted q × (own : List Decision) × (q.decisions ≡ p.decisions ++ own) × DecidedFor item own

  unchanged_lem :
      (item : RemoteItem) (p q : Progress)
      → Counted p
      → q.decisions ≡ p.decisions
      → q.conflicts_detected ≡ p.conflicts_detected
      → PassedOver item
      → After item p q
  unchanged_lem item p q h ds cs why =
      (ground (arith, h, ds, cs), [], ds ∙ sym (append-nil p.decisions), why)

  observe_step :
      (item : RemoteItem) (d : Decision) (p q : Progress)
      (o : Outcome EngineError (World P) (Unit {0}))
      → q.decisions ≡ p.decisions ++ (d ∷ [])
      → q.conflicts_detected ≡ count_conflict d p.conflicts_detected
      → Counted p
      → DecidedFor item (d ∷ [])
      → Returns (After item p) (and_then o (λ _. return q))
  observe_step item d p q (ok u w) ds cs h own = (
    ground (arith, ds, cs, h, count_if-append decides_conflict p.decisions (d ∷ [])),
    d ∷ [],
    ds,
    own,
  )
  observe_step item d p q (err e w) ds cs h own = tt

  module _ (item : RemoteItem) (path : RelPath) (at : path_of P item ≡ some path) (p : Progress)
      (h : Counted p) where
    observe-After :
        (entry : Option FileEntry) (renames : List CollisionRename) (w : World P)
        → Returns (After item p) (
            observe P ctx path item entry
              (record p { collision_renames = p.collision_renames ++ renames })
              w)
    unfolding observe reconcile_one
    observe-After entry renames w = observe_step item _ p _ _ refl refl h (path, entry, at, refl)

    skipped_lem :
        (entry : Option FileEntry) (renames : List CollisionRename) (w v : World P)
        → skipped P ctx path item entry w ≡ ok (true, renames) v
        → skip_for_case_collision P ctx path item w ≡ ok (true, renames) v
    skipped_lem entry renames w v = looked (not (is_some entry) && not (is_some item.deleted))
      where
        looked :
            (b : Bool)
            → (if b then skip_for_case_collision P ctx path item else return (false, [])) w
              ≡ ok (true, renames) v
            → skip_for_case_collision P ctx path item w ≡ ok (true, renames) v
        looked true e = e
        looked false e = absurd (ground (arith, e))

    skip_step :
        (entry : Option FileEntry) (w : World P)
        (o : Outcome EngineError (World P) (Bool × List CollisionRename))
        → skipped P ctx path item entry w ≡ o
        → Returns (After item p) (and_then o (unless_skipped P ctx path item entry p))
    skip_step entry w (ok (true, renames) v) e =
        unchanged_lem item p (record p { collision_renames = p.collision_renames ++ renames }) h
          refl refl (inr (path, at, inr (w, renames, v, skipped_lem entry renames w v e)))
    skip_step entry w (ok (false, renames) v) e = observe-After entry renames v
    skip_step entry w (err x v) e = tt

    entry_step :
        (o : Outcome EngineError (World P) (Option FileEntry))
        → Returns (After item p) (
            and_then o
              (λ entry. skipped P ctx path item entry >>= unless_skipped P ctx path item entry p))
    entry_step (ok entry w) = skip_step entry w (skipped P ctx path item entry w) refl
    entry_step (err e w) = tt

  at_path-After :
      (item : RemoteItem) (p : Progress) (path : Option RelPath) (w : World P)
      → path_of P item ≡ path
      → Counted p
      → Returns (After item p) (at_path P ctx dropped item p path w)
  at_path-After item p none w e h = unchanged_lem item p p h refl refl (inl e)
  at_path-After item p (some path) w e h = elim (Bool-cases (is_dropped path dropped)) [
    | inl lost ↦ rw lost (unchanged_lem item p p h refl refl (inr (path, e, inl lost)))
    | inr kept ↦ rw kept (entry_step item path e p h (entry_of P ctx path w))
  ]

  -- The loop variables after a list of items.
  abbrev AfterAll : List RemoteItem → Progress → Progress → Type 0
  AfterAll items p q =
      Counted q × (ds : List Decision) × (q.decisions ≡ p.decisions ++ ds) × Decided items ds

  and_rest :
      (item : RemoteItem) (items : List RemoteItem) (p q : Progress)
      (o : Outcome EngineError (World P) Progress)
      → After item p q
      → Returns (AfterAll items q) o
      → Returns (AfterAll (item ∷ items) p) o
  and_rest item items p q (ok r w) (k, own, e, why) (l, ds, f, rest) = (
    l,
    own ++ ds,
    f ∙ ap (λ t. t ++ ds) e ∙ append_assoc p.decisions own ds,
    (own, ds, refl, why, rest),
  )
  and_rest item items p q (err e w) h k = tt

  item_step :
      (item : RemoteItem) (items : List RemoteItem) (p : Progress)
      (o : Outcome EngineError (World P) Progress)
      → Returns (After item p) o
      → ((q : Progress) (w : World P)
          → Counted q
          → Returns (AfterAll items q) (process_items P ctx dropped items q w))
      → Returns (AfterAll (item ∷ items) p) (and_then o (process_items P ctx dropped items))
  item_step item items p (ok q w) h ih = and_rest item items p q _ h (ih q w h.0)
  item_step item items p (err e w) h ih = tt

  process_items-AfterAll :
      (items : List RemoteItem) (p : Progress) (w : World P)
      → Counted p
      → Returns (AfterAll items p) (process_items P ctx dropped items p w)
  unfolding process_items process_item
  process_items-AfterAll [] p w h = (h, [], sym (append-nil p.decisions), refl)
  process_items-AfterAll (item ∷ items) p w h =
      item_step item items p _ (at_path-After item p (path_of P item) w refl h)
        (λ q v k. process_items-AfterAll items q v k)

module _ (P : Ports) (ctx : CycleCtx) where
  abbrev losers : List RemoteItem → Dropped
  losers items = detect_remote_case_collisions P.nfc P.to_lowercase items

  -- The outcome of the phase agrees with itself and with the page.
  abbrev pub Agrees : List RemoteItem → DeltaReconcileOutcome → Type 0
  Agrees items d =
      (d.conflicts_detected ≡ count_if decides_conflict d.decisions)
      × (d.remote_items_seen ≡ length items)
      × Decided P ctx (losers items) items d.decisions

  -- What the phase returns for each answer of the drive.
  abbrev pub Answers :
      P.Store
      → Outcome GraphError P.Env DeltaPage
      → Outcome EngineError (World P) DeltaReconcileOutcome
      → Type 0
  Answers s (ok page e) r = Returns (Agrees page.items) r
  Answers s (err x e) r = r ≡ err (remote_port x) (s, e)

  finish_step :
      (page : DeltaPage) (renames : List CollisionRename)
      (o : Outcome EngineError (World P) Progress)
      → Returns (AfterAll P ctx (losers page.items) page.items (start renames)) o
      → Returns (Agrees page.items) (and_then o (λ p. return (outcome_of page p)))
  finish_step page renames (ok p w) (counted, ds, e, decided) =
      (counted, refl, subst (Decided P ctx (losers page.items) page.items) (sym e) decided)
  finish_step page renames (err e w) h = tt

  renames_step :
      (page : DeltaPage) (o : Outcome EngineError (World P) (List CollisionRename))
      → Returns (Agrees page.items) (
          and_then o (λ renames.
            process_items P ctx (losers page.items) page.items (start renames) >>= λ p.
            return (outcome_of page p)))
  renames_step page (ok renames w) =
      finish_step page renames _
        (process_items-AfterAll P ctx (losers page.items) page.items (start renames) w refl)
  renames_step page (err e w) = tt

  answer_step :
      (s : P.Store) (o : Outcome GraphError P.Env DeltaPage)
      → Answers s o (and_then (env_result P remote_port o s) (found P ctx))
  answer_step s (ok page e) =
      renames_step page (process_remote_case_collisions P ctx page.items _ (s, e))
  answer_step s (err x e) = refl

  -- If the drive answers with a page, then whenever the phase returns it has counted exactly the
  -- conflicts among its decisions, has seen every item of the page, and its decisions are, item by item
  -- and in their order, none or one: one is `reconcile_one` of the item at its path and some row, and
  -- none is made only for an item without a path, with a path that lost a collision within the page, or
  -- that the look-up without regard to case tells to skip. If the drive answers with an error, the phase
  -- ends with that error before any call of the state store.
  pub phase_delta_reconcile-Answers :
      (w : World P)
      → Answers w.0 (P.delta ctx.drive_id ctx.cursor w.1) (phase_delta_reconcile P ctx w)
  unfolding phase_delta_reconcile
  phase_delta_reconcile-Answers w = answer_step w.0 (P.delta ctx.drive_id ctx.cursor w.1)
