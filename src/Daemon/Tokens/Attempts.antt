-- ===== src/Daemon/Tokens/Attempts.antt =====
-- What a request for an access token ends with, and how often it refreshes.
use onesync.Prelude.{
  ℕ, zero, suc, ◌+◌, ◌≤◌, ◌<◌, ◌≡◌, refl, inl, inr, Option, none, some, List, [], ◌∷◌, arith,
}
use onesync.Prelude.Tests.{ltb, Bool-cases}
use onesync.Prelude.Text.{Text}
use onesync.Prelude.Outcome.{Outcome, ok, err}
use onesync.Protocol.FileSide.{Timestamp}
use onesync.Protocol.Entities.{RowId, Pair, AuditEvent}
use onesync.Engine.Ports.{StateError}
use onesync.Graph.Errors.{
  GraphInternalError, unauthorized, re_auth_required, forbidden, not_found, name_conflict,
  resync_required, invalid_range, stale, throttled, transient, network, decode, invalid_argument,
  hash_mismatch, too_large, timeout,
}
use onesync.Daemon.Tokens.{
  Tokens, CachedToken, TokenPorts, is_fresh, logged, mark_all, mark_listed, handle_re_auth_required,
  again_or, after_refresh, refresh_loop, keep_token, with_vault, from_cache, access_token,
}

module _ (T : TokenPorts) where
  -- What holds of the world in which a call ends.
  abbrev pub Ends : {E A : Type 0} → (T.World → Type 0) → Outcome E T.World A → Type 0
  Ends I (ok a w) = I w
  Ends I (err e w) = I w

-- A count of the refreshes: a refresh raises it by one, and no other call changes it.
pub record IsCount (T : TokenPorts) (C : ℕ → T.World → Type 0) : Type 0 where
  pub refresh :
      (client_id rt : Text) (n : ℕ) (w : T.World)
      → C n w
      → Ends T (C (suc n)) (T.refresh client_id rt w)
  pub pairs_list : (id : RowId) (n : ℕ) (w : T.World) → C n w → Ends T (C n) (T.pairs_list id w)
  pub pair_upsert : (p : Pair) (n : ℕ) (w : T.World) → C n w → Ends T (C n) (T.pair_upsert p w)
  pub audit_append :
      (event : AuditEvent) (n : ℕ) (w : T.World) → C n w → Ends T (C n) (T.audit_append event w)
  pub emit : (event : AuditEvent) (n : ℕ) (w : T.World) → C n w → C n (T.emit event w)
  pub now : (n : ℕ) (w : T.World) → C n w → C n (T.now w).1
  pub new_id : (n : ℕ) (w : T.World) → C n w → C n (T.new_id w).1
  pub load_refresh : (id : RowId) (n : ℕ) (w : T.World) → C n w → Ends T (C n) (T.load_refresh id w)
  pub store_refresh :
      (id : RowId) (t : Text) (n : ℕ) (w : T.World) → C n w → Ends T (C n) (T.store_refresh id t w)
  pub sleep_ms : (ms n : ℕ) (w : T.World) → C n w → C n (T.sleep_ms ms w)
  pub instant : (n : ℕ) (w : T.World) → C n w → C n (T.instant w).1

module _ (T : TokenPorts) (account_id : RowId) (client_id : Text) (C : ℕ → T.World → Type 0)
    (count : IsCount T C) where
  logged_lem :
      {E A : Type 0} (I : T.World → Type 0) (o : Outcome E T.World A)
      → Ends T I o
      → I (logged T account_id client_id o)
  logged_lem I (ok a w) h = h
  logged_lem I (err e w) h = h

  marked_lem :
      (ts : Timestamp) (pairs : List Pair) (n : ℕ) (w : T.World)
      → C n w
      → C n (mark_all T account_id client_id ts pairs w)
  marked_lem ts [] n w h = h
  marked_lem ts (pair ∷ pairs) n w h =
      marked_lem ts pairs n _ (logged_lem (C n) _ (count.pair_upsert _ n w h))

  listed_lem :
      (ts : Timestamp) (n : ℕ) (o : Outcome StateError T.World (List Pair))
      → Ends T (C n) o
      → C n (mark_listed T account_id client_id ts o)
  listed_lem ts n (ok pairs w) h = marked_lem ts pairs n w h
  listed_lem ts n (err e w) h = h

  handled_lem :
      (n : ℕ) (w : T.World) → C n w → C n (handle_re_auth_required T account_id client_id w)
  unfolding handle_re_auth_required
  handled_lem n w h =
      let (ts, v) = T.now w in
      count.emit _ n _ (
        logged_lem (C n) _ (
          count.audit_append _ n _ (
            count.new_id n _
              (listed_lem ts n _ (count.pairs_list account_id n v (count.now n w h))))))

  -- A count that is at most a number.
  abbrev Within : ℕ → T.World → Type 0
  Within most w = (m : ℕ) × (m ≤ most) × C m w

  abbrev Ended : ℕ → Outcome GraphInternalError T.World (Option Tokens) → Type 0
  Ended most (ok none w) = ⊥
  Ended most (ok (some tokens) w) = Within most w
  Ended most (err e w) = Within most w

  again_lem :
      (rest : ℕ → T.World → Outcome GraphInternalError T.World (Option Tokens)) (attempt most m : ℕ)
      (e : GraphInternalError) (w : T.World)
      → m ≤ most
      → C m w
      → (attempt < 3 → (v : T.World) → C m v → Ended most (rest attempt v))
      → Ended most (again_or T account_id client_id rest attempt e w)
  again_lem rest attempt most m e w le h next = elim (Bool-cases (ltb attempt 3)) [
    | inl more ↦ rw more (next (ground (arith, more)) _ (count.sleep_ms _ m w h))
    | inr last ↦ rw last (m, le, h)
  ]

  after_lem :
      (rest : ℕ → T.World → Outcome GraphInternalError T.World (Option Tokens)) (attempt most m : ℕ)
      (o : Outcome GraphInternalError T.World Tokens)
      → m ≤ most
      → Ends T (C m) o
      → (attempt < 3 → (v : T.World) → C m v → Ended most (rest attempt v))
      → Ended most (after_refresh T account_id client_id rest attempt o)
  after_lem rest attempt most m (ok tokens w) le h next = (m, le, h)
  after_lem rest attempt most m (err (re_auth_required request_id) w) le h next =
      (m, le, handled_lem m w h)
  after_lem rest attempt most m (err (network detail) w) le h next =
      again_lem rest attempt most m (network detail) w le h next
  after_lem rest attempt most m (err (transient detail request_id) w) le h next =
      again_lem rest attempt most m (transient detail request_id) w le h next
  after_lem rest attempt most m (err (unauthorized r) w) le h next = (m, le, h)
  after_lem rest attempt most m (err (forbidden r) w) le h next = (m, le, h)
  after_lem rest attempt most m (err (not_found r) w) le h next = (m, le, h)
  after_lem rest attempt most m (err (name_conflict r) w) le h next = (m, le, h)
  after_lem rest attempt most m (err (resync_required r) w) le h next = (m, le, h)
  after_lem rest attempt most m (err (invalid_range r) w) le h next = (m, le, h)
  after_lem rest attempt most m (err (stale tag r) w) le h next = (m, le, h)
  after_lem rest attempt most m (err (throttled s r) w) le h next = (m, le, h)
  after_lem rest attempt most m (err (decode d) w) le h next = (m, le, h)
  after_lem rest attempt most m (err (invalid_argument d) w) le h next = (m, le, h)
  after_lem rest attempt most m (err hash_mismatch w) le h next = (m, le, h)
  after_lem rest attempt most m (err too_large w) le h next = (m, le, h)
  after_lem rest attempt most m (err timeout w) le h next = (m, le, h)

  loop_lem :
      (fuel attempt n most : ℕ) (rt : Text) (w : T.World)
      → attempt + suc fuel ≡ 3
      → n + suc fuel ≡ most
      → C n w
      → Ended most (refresh_loop T account_id client_id (suc fuel) rt attempt w)
  loop_lem zero attempt n most rt w left total h =
      after_lem (refresh_loop T account_id client_id zero rt) (attempt + 1) most (suc n) _
        (ground (arith, total)) (count.refresh client_id rt n w h)
        (λ more v k. ground (arith, left, more))
  loop_lem (suc fuel) attempt n most rt w left total h =
      after_lem (refresh_loop T account_id client_id (suc fuel) rt) (attempt + 1) most (suc n) _
        (ground (arith, total)) (count.refresh client_id rt n w h)
        (λ more v k.
          loop_lem fuel (attempt + 1) (suc n) most rt v (ground (arith, left))
            (ground (arith, total)) k)

  -- The token that the cache holds, or an error that leaves the cache as it was, within the limit.
  abbrev pub Answered :
      Option CachedToken
      → Outcome GraphInternalError (T.World × Option CachedToken) (Option Text)
      → Type 0
  Answered cache (ok none s) = ⊥
  Answered cache (ok (some t) (w, kept)) =
      Within 3 w × ((c : CachedToken) × (kept ≡ some c) × (c.access_token ≡ t))
  Answered cache (err e (w, kept)) = Within 3 w × (kept ≡ cache)

  kept_lem :
      (cache : Option CachedToken) (o : Outcome GraphInternalError T.World (Option Tokens))
      → Ended 3 o
      → Answered cache (keep_token T account_id client_id cache o)
  kept_lem cache (ok none w) h = absurd h
  kept_lem cache (ok (some tokens) w) (m, le, h) =
      let at =
        count.instant m _
          (logged_lem (C m) _ (count.store_refresh account_id tokens.refresh_token m w h)) in
      ((m, le, at), (_, refl, refl))
  kept_lem cache (err e w) within = (within, refl)

  with_vault_lem :
      (cache : Option CachedToken) (o : Outcome Text T.World Text)
      → Ends T (C zero) o
      → Answered cache (with_vault T account_id client_id cache o)
  with_vault_lem cache (ok rt w) h = kept_lem cache _ (loop_lem 2 0 0 3 rt w refl refl h)
  with_vault_lem cache (err e w) h = ((zero, ground arith, h), refl)

  from_cache_lem :
      (instant : ℕ) (c : CachedToken) (w : T.World)
      → C zero w
      → Answered (some c) (from_cache T account_id client_id instant c w)
  from_cache_lem instant c w h = elim (Bool-cases (is_fresh instant c)) [
    | inl fresh ↦ rw fresh ((zero, ground arith, h), (c, refl, refl))
    | inr late ↦ rw late (with_vault_lem (some c) _ (count.load_refresh account_id zero w h))
  ]

  -- For a count that a refresh raises by one and no other call changes: from a state whose count is 0,
  -- a request for an access token ends, with a count of at most three, in the token that the cache then
  -- holds or in an error, and every error, `ReAuthRequired` included, leaves the cache as it was.
  pub access_token-IsAnswered :
      (w : T.World) (cache : Option CachedToken)
      → C zero w
      → Answered cache (access_token T account_id client_id (w, cache))
  unfolding access_token
  access_token-IsAnswered w none h = with_vault_lem none _ (count.load_refresh account_id zero w h)
  access_token-IsAnswered w (some c) h =
      let (instant, v) = T.instant w in from_cache_lem instant c v (count.instant zero w h)
