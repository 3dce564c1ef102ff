-- ===== src/Engine/Cycle/LocalScan/Promoted.antt =====
-- `apply_initial_sync_collisions` turns downloads into conflicts and changes nothing else.
use onesync.Prelude.{
  ℕ, ◌+◌, ◌≡◌, refl, Bool, true, false, ◌⊎◌, inl, inr, Option, List, [], ◌∷◌, arith,
}
use onesync.Prelude.Tests.{Bool-cases, if◌then◌else◌}
use onesync.Prelude.Lists.{count_if}
use onesync.Prelude.Outcome.{Outcome, ok, err, and_then, Returns, ◌>>=◌}
use onesync.Protocol.FileSide.{FileSide}
use onesync.Protocol.Path.{RelPath}
use onesync.Protocol.Entities.{FileEntry}
use onesync.Engine.Types.{Decision, download, conflict_detected, is_conflict}
use onesync.Engine.Ports.{Ports, World, EngineError}
use onesync.Engine.Cycle.Context.{CycleCtx}
use onesync.Engine.Cycle.Delta.Counts.{decides_conflict}
use onesync.Engine.Cycle.LocalScan.{is_download_at, promote, attach, apply_initial_sync_collisions}

-- One decision as it was, or a download that became a conflict.
abbrev pub Upgraded : Decision → Decision → Type 0
Upgraded d d' = (d' ≡ d) ⊎ ((d.kind ≡ download) × (d' ≡ record d { kind = conflict_detected }))

abbrev pub UpgradedAll : List Decision → List Decision → Type 0
UpgradedAll [] [] = Unit
UpgradedAll (d ∷ ds) (d' ∷ ds') = Upgraded d d' × UpgradedAll ds ds'
UpgradedAll _ _ = ⊥

UpgradedAll-refl : (ds : List Decision) → UpgradedAll ds ds
UpgradedAll-refl [] = tt
UpgradedAll-refl (d ∷ ds) = (inl refl, UpgradedAll-refl ds)

Upgraded-trans : (a b c : Decision) → Upgraded a b → Upgraded b c → Upgraded a c
Upgraded-trans a b c h k = ground (arith, h, k)

UpgradedAll-trans :
    (xs ys zs : List Decision) → UpgradedAll xs ys → UpgradedAll ys zs → UpgradedAll xs zs
UpgradedAll-trans [] [] zs h k = k
UpgradedAll-trans (x ∷ xs) (y ∷ ys) (z ∷ zs) h k =
    (Upgraded-trans x y z h.0 k.0, UpgradedAll-trans xs ys zs h.1 k.1)
UpgradedAll-trans (x ∷ xs) (y ∷ ys) [] h k = k
UpgradedAll-trans [] (y ∷ ys) zs h k = absurd h
UpgradedAll-trans (x ∷ xs) [] zs h k = absurd h

-- The conflicts among the decisions.
abbrev pub conflicts : List Decision → ℕ
conflicts = count_if decides_conflict

download_here : (rel : RelPath) (d : Decision) → is_download_at rel d ≡ true → d.kind ≡ download
download_here rel d h = ground (arith, h)

abbrev Promoted : List Decision → List Decision × Bool → Type 0
Promoted ds r = UpgradedAll ds r.0 × (conflicts r.0 ≡ conflicts ds + (if r.1 then 1 else 0))

promote_lem : (rel : RelPath) (ds : List Decision) → Promoted ds (promote rel ds)
unfolding promote is_conflict
promote_lem rel [] = (tt, refl)
promote_lem rel (d ∷ ds) = elim (Bool-cases (is_download_at rel d)) [
  | inl c ↦ rw c (
    (inr (download_here rel d c, refl), UpgradedAll-refl ds),
    ground (arith, download_here rel d c),
  )
  | inr c ↦ let (same, more) = promote_lem rel ds in rw c ((inl refl, same), ground (arith, more))
]

-- The decisions after the step, with the counter advanced by the conflicts that are new.
abbrev pub Raised : List Decision → ℕ → List Decision × ℕ → Type 0
Raised ds n r = UpgradedAll ds r.0 × (conflicts r.0 + n ≡ conflicts ds + r.1)

module _ (P : Ports) (ctx : CycleCtx) where
  raise_after :
      (ds xs : List Decision) (n : ℕ) (found : Bool)
      (o : Outcome EngineError (World P) (List Decision × ℕ))
      → UpgradedAll ds xs
      → conflicts xs ≡ conflicts ds + (if found then 1 else 0)
      → Returns (Raised xs (if found then n + 1 else n)) o
      → Returns (Raised ds n) o
  raise_after ds xs n true (ok r w) u c h =
      (UpgradedAll-trans ds xs r.0 u h.0, omega (arith, c, h.1))
  raise_after ds xs n false (ok r w) u c h =
      (UpgradedAll-trans ds xs r.0 u h.0, omega (arith, c, h.1))
  raise_after ds xs n found (err e w) u c h = tt

  attach_step :
      (ds : List Decision) (n : ℕ) (rest : List (RelPath × FileSide))
      (o : Outcome EngineError (World P) (Unit {0}))
      → ((w : World P) → Returns (Raised ds n) (apply_initial_sync_collisions P ctx ds rest n w))
      → Returns (Raised ds n) (and_then o (λ _. apply_initial_sync_collisions P ctx ds rest n))
  attach_step ds n rest (ok u w) h = h w
  attach_step ds n rest (err e w) h = tt

  entry_step :
      (ds : List Decision) (n : ℕ) (side : FileSide) (ts : ℕ) (rest : List (RelPath × FileSide))
      (o : Outcome EngineError (World P) (Option FileEntry))
      → ((w : World P) → Returns (Raised ds n) (apply_initial_sync_collisions P ctx ds rest n w))
      → Returns (Raised ds n) (
          and_then o (λ entry.
            attach P ctx side ts entry >>= λ _. apply_initial_sync_collisions P ctx ds rest n))
  entry_step ds n side ts rest (ok entry w) h =
      attach_step ds n rest (attach P ctx side ts entry w) h
  entry_step ds n side ts rest (err e w) h = tt

  -- Whenever the step for initial-sync collisions returns, the decisions stand at the same places and
  -- are unchanged but for downloads that became conflicts, and the counter it returns has grown by
  -- exactly the number of new conflicts.
  pub apply_initial_sync_collisions-Raised :
      (ds : List Decision) (found : List (RelPath × FileSide)) (n : ℕ) (w : World P)
      → Returns (Raised ds n) (apply_initial_sync_collisions P ctx ds found n w)
  unfolding apply_initial_sync_collisions
  apply_initial_sync_collisions-Raised ds [] n w = (UpgradedAll-refl ds, refl)
  apply_initial_sync_collisions-Raised ds ((rel, side) ∷ rest) n w =
      let (same, more) = promote_lem rel ds in
      raise_after ds (promote rel ds).0 n (promote rel ds).1 _ same more (
        entry_step (promote rel ds).0 (if (promote rel ds).1 then n + 1 else n) side _ rest _
          (λ v. apply_initial_sync_collisions-Raised (promote rel ds).0 rest _ v))
