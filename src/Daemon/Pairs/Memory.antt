-- ===== src/Daemon/Pairs/Memory.antt =====
-- The methods on pairs over the store in memory, with any other surroundings.
use onesync.Prelude.{◌≡◌, ◌⊎◌, inl, inr, true, false, some, List, [], ◌∷◌, arith}
use onesync.Prelude.Tests.{Bool-cases}
use onesync.Prelude.Equality.{◌==◌, nat_eq}
use onesync.Prelude.Map.{Map, get, insert}
use onesync.Prelude.Text.{Text}
use onesync.Prelude.Outcome.{Outcome, ok, err, Action}
use onesync.Protocol.Entities.{RowId, Pair}
use onesync.Engine.Ports.{StateError}
use onesync.State.Memory.{InMemoryStore, pair_upsert, conflict_resolve, audit_append}
use onesync.State.Memory.Reads.{
  account_get, config_get, pair_get, runs_recent, conflicts_unresolved, conflict_get,
}
use onesync.Daemon.Services.{Services, MethodError}
use onesync.Daemon.Pairs.{PairAddParams, add, pause, resume, remove}
use onesync.Daemon.Pairs.Flags.{FlagsAgree, Keeps, Ends, add-Ends, set_paused-Ends, remove-Ends}

module _ (S : Services) where
  abbrev pub Both : Type 0
  Both = InMemoryStore × S.World

  abbrev beside : {E A : Type 0} → Outcome E InMemoryStore A → S.World → Outcome E Both A
  beside (ok a s) e = ok a (s, e)
  beside (err x s) e = err x (s, e)

  abbrev in_store : {A : Type 0} → Action StateError InMemoryStore A → Action StateError Both A
  in_store call w = beside (call w.0) w.1

  abbrev around : {E A : Type 0} → Outcome E S.World A → InMemoryStore → Outcome E Both A
  around (ok a e) s = ok a (s, e)
  around (err x e) s = err x (s, e)

  abbrev outside : {E A : Type 0} → Action E S.World A → Action E Both A
  outside call w = around (call w.1) w.0

  abbrev kept_aside : {A : Type 0} → (S.World → A × S.World) → Both → A × Both
  kept_aside f w = let (a, e) = f w.1 in (a, (w.0, e))

  -- The services of `S` with the store in memory in place of theirs.
  abbrev pub with_memory : Services
  with_memory = record {
    World = Both;
    account_get = λ id. in_store (account_get id);
    config_get = in_store config_get;
    pair_get = λ id. in_store (pair_get id);
    pair_upsert = λ pair. in_store (pair_upsert pair);
    runs_recent = λ id limit. in_store (runs_recent id limit);
    conflicts_unresolved = λ id. in_store (conflicts_unresolved id);
    conflict_get = λ id. in_store (conflict_get id);
    conflict_resolve =
        λ id resolution now comment. in_store (conflict_resolve id resolution now comment);
    audit_append = λ event. in_store (audit_append event);
    mkdir_p = λ path. outside (S.mkdir_p path);
    load_refresh = λ id. outside (S.load_refresh id);
    store_refresh = λ id token. outside (S.store_refresh id token);
    refresh = λ client token. outside (S.refresh client token);
    item_by_path = λ token drive path. outside (S.item_by_path token drive path);
    force_sync = λ id. kept_aside (S.force_sync id);
    now = kept_aside S.now;
    new_id = kept_aside S.new_id;
    emit = λ event w. (w.0, S.emit event w.1);
  }

abbrev pub RowsAgree : Map RowId Pair → Type 0
RowsAgree [] = Unit
RowsAgree ((k, pair) ∷ m) = FlagsAgree pair × RowsAgree m

insert-RowsAgree :
    (id : RowId) (pair : Pair) (m : Map RowId Pair)
    → FlagsAgree pair
    → RowsAgree m
    → RowsAgree (insert id pair m)
insert-RowsAgree id pair [] q h = (q, tt)
insert-RowsAgree id pair ((k, p) ∷ m) q h = elim (Bool-cases (k == id)) [
  | inl same ↦ rw same (q, h.1)
  | inr other ↦ rw other (h.0, insert-RowsAgree id pair m q h.1)
]

get-RowsAgree :
    (id : RowId) (m : Map RowId Pair)
    → RowsAgree m
    → (pair : Pair) → get id m ≡ some pair
    → FlagsAgree pair
get-RowsAgree id [] h pair e = absurd (ground arith)
get-RowsAgree id ((k, p) ∷ m) h pair e = ground (arith, get-RowsAgree id m h.1 pair, h.0, e)

module _ (S : Services) where
  abbrev pub StoreAgrees : Both S → Type 0
  StoreAgrees w = RowsAgree w.0.pairs

  around_lem :
      {E A : Type 0} (o : Outcome E S.World A) (s : InMemoryStore)
      → RowsAgree s.pairs
      → Ends (with_memory S) StoreAgrees (around S o s)
  around_lem (ok a e) s h = (tt, h)
  around_lem (err x e) s h = h

  memory_keeps : Keeps (with_memory S) StoreAgrees
  memory_keeps = record {
    account_get = λ id w i. (tt, i);
    config_get = λ w i. (tt, i);
    pair_get = λ id w i. (get-RowsAgree id w.0.pairs i, i);
    pair_upsert = λ pair w q i. (tt, insert-RowsAgree pair.id pair w.0.pairs q i);
    audit_append = λ event w i. (tt, i);
    mkdir_p = λ path w i. around_lem (S.mkdir_p path w.1) w.0 i;
    load_refresh = λ id w i. around_lem (S.load_refresh id w.1) w.0 i;
    store_refresh = λ id token w i. around_lem (S.store_refresh id token w.1) w.0 i;
    refresh = λ client token w i. around_lem (S.refresh client token w.1) w.0 i;
    item_by_path = λ token drive path w i. around_lem (S.item_by_path token drive path w.1) w.0 i;
    now = λ w i. i;
    new_id = λ w i. i;
    emit = λ event w i. i;
  }

-- A call of a method that writes rows of pairs, with its parameters parsed or not.
pub data PairCall : Type 0 where
  adding : Text ⊎ PairAddParams → PairCall
  pausing resuming removing : Text ⊎ RowId → PairCall

module _ (S : Services) (id_text : RowId → Text) where
  abbrev after : {A : Type 0} → Outcome MethodError (Both S) A → Both S
  after (ok a w) = w
  after (err e w) = w

  -- One call after the other; an error is the client's answer and ends nothing.
  abbrev pub serve_one : PairCall → Both S → Both S
  serve_one (adding params) w = after (add (with_memory S) id_text params w)
  serve_one (pausing params) w = after (pause (with_memory S) id_text params w)
  serve_one (resuming params) w = after (resume (with_memory S) id_text params w)
  serve_one (removing params) w = after (remove (with_memory S) id_text params w)

  abbrev pub serve : List PairCall → Both S → Both S
  serve [] w = w
  serve (call ∷ calls) w = serve calls (serve_one call w)

  after_lem :
      {A : Type 0} (o : Outcome MethodError (Both S) A)
      → Ends (with_memory S) (StoreAgrees S) o
      → StoreAgrees S (after o)
  after_lem (ok a w) h = h.1
  after_lem (err e w) h = h

  serve_one-StoreAgrees :
      (call : PairCall) (w : Both S) → StoreAgrees S w → StoreAgrees S (serve_one call w)
  serve_one-StoreAgrees (adding params) w h =
      after_lem _ (add-Ends (with_memory S) (StoreAgrees S) (memory_keeps S) id_text params w h)
  serve_one-StoreAgrees (pausing params) w h =
      after_lem _
        (set_paused-Ends (with_memory S) (StoreAgrees S) (memory_keeps S) id_text params true w h)
  serve_one-StoreAgrees (resuming params) w h =
      after_lem _
        (set_paused-Ends (with_memory S) (StoreAgrees S) (memory_keeps S) id_text params false w h)
  serve_one-StoreAgrees (removing params) w h =
      after_lem _ (remove-Ends (with_memory S) (StoreAgrees S) (memory_keeps S) id_text params w h)

  -- With the store in memory and whatever the other services answer: if every pair's row has its
  -- `paused` flag set exactly when its status is paused or removed, then so has every row after any
  -- list of calls that add, pause, resume and remove pairs, the failed ones included.
  pub serve-StoreAgrees :
      (calls : List PairCall) (w : Both S) → StoreAgrees S w → StoreAgrees S (serve calls w)
  serve-StoreAgrees [] w h = h
  serve-StoreAgrees (call ∷ calls) w h =
      serve-StoreAgrees calls (serve_one call w) (serve_one-StoreAgrees call w h)
