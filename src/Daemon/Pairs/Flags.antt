-- ===== src/Daemon/Pairs/Flags.antt =====
-- A pair's row has its `paused` flag set exactly if its status is paused or removed, whatever methods
-- are called.
use onesync.Prelude.{
  ℕ, ◌≡◌, refl, ◌⊎◌, inl, inr, Bool, true, false, Option, none, some, [], ◌∷◌, arith,
}
use onesync.Prelude.Text.{Text}
use onesync.Prelude.Outcome.{Outcome, ok, err, and_then, return}
use onesync.Protocol.Enums.{PairStatus}
use onesync.Protocol.Path.{AbsPath, Parsed, valid, invalid, parse_abs}
use onesync.Protocol.Account.{Account, client_id_of}
use onesync.Protocol.Entities.{RowId, Pair, AuditEvent}
use onesync.Daemon.Services.{
  Services, FoundItem, MethodError, Method, stored, required, or_error, dropped,
}
use onesync.Daemon.Pairs.{
  PairAddParams, parse, parse_local_path, require_client_id, require_pair, new_pair, insert_pair,
  find_remote, add, flagged, set_paused, gone, remove,
}

abbrev pub stopped : PairStatus → Bool
stopped PairStatus.paused = true
stopped PairStatus.removed = true
stopped _ = false

-- The flag and the status say the same.
abbrev pub FlagsAgree : Pair → Type 0
FlagsAgree pair = pair.paused ≡ stopped pair.status

module _ (S : Services) (I : S.World → Type 0) where
  -- The fact holds at the end, and a value has the property.
  abbrev pub Yields : {E A : Type 0} → (A → Type 0) → Outcome E S.World A → Type 0
  Yields Q (ok a w) = Q a × I w
  Yields Q (err e w) = I w

  abbrev pub Ends : {E A : Type 0} → Outcome E S.World A → Type 0
  Ends = Yields (λ a. Unit)

  -- What the surroundings promise: rows that are read agree, and the fact is kept by writing a row
  -- that agrees and by every other call.
  pub record Keeps : Type 0 where
    pub account_get : (id : RowId) (w : S.World) → I w → Ends (S.account_get id w)
    pub config_get : (w : S.World) → I w → Ends (S.config_get w)
    pub pair_get :
        (id : RowId) (w : S.World)
        → I w
        → Yields (λ o. (pair : Pair) → o ≡ some pair → FlagsAgree pair) (S.pair_get id w)
    pub pair_upsert :
        (pair : Pair) (w : S.World) → FlagsAgree pair → I w → Ends (S.pair_upsert pair w)
    pub audit_append : (event : AuditEvent) (w : S.World) → I w → Ends (S.audit_append event w)
    pub mkdir_p : (path : AbsPath) (w : S.World) → I w → Ends (S.mkdir_p path w)
    pub load_refresh : (id : RowId) (w : S.World) → I w → Ends (S.load_refresh id w)
    pub store_refresh :
        (id : RowId) (token : Text) (w : S.World) → I w → Ends (S.store_refresh id token w)
    pub refresh : (client token : Text) (w : S.World) → I w → Ends (S.refresh client token w)
    pub item_by_path :
        (token drive path : Text) (w : S.World) → I w → Ends (S.item_by_path token drive path w)
    pub now : (w : S.World) → I w → I (S.now w).1
    pub new_id : (w : S.World) → I w → I (S.new_id w).1
    pub emit : (event : AuditEvent) (w : S.World) → I w → I (S.emit event w)

  then_yields :
      {A B : Type 0} (Q : A → Type 0) (R : B → Type 0) (o : Outcome MethodError S.World A)
      (f : A → Method S B)
      → Yields Q o
      → ((a : A) (w : S.World) → Q a → I w → Yields R (f a w))
      → Yields R (and_then o f)
  then_yields Q R (ok a w) f h next = next a w h.0 h.1
  then_yields Q R (err e w) f h next = h

  wrapped :
      {E A : Type 0} (Q : A → Type 0) (wrap : E → MethodError) (o : Outcome E S.World A)
      → Yields Q o
      → Yields Q (or_error S wrap o)
  wrapped Q wrap (ok a w) h = h
  wrapped Q wrap (err e w) h = h

  ignored : {E A : Type 0} (o : Outcome E S.World A) → Ends o → Ends (dropped S o)
  ignored (ok a w) h = (tt, h.1)
  ignored (err e w) h = (tt, h)

  required_lem :
      {A : Type 0} (Q : A → Type 0) (code : ℕ) (o : Option A) (w : S.World)
      → ((a : A) → o ≡ some a → Q a)
      → I w
      → Yields Q (required S code o w)
  required_lem Q code none w q i = i
  required_lem Q code (some a) w q i = (q a refl, i)

  module _ (keeps : Keeps) (id_text : RowId → Text) where
    parsed_lem : {A : Type 0} (p : Text ⊎ A) (w : S.World) → I w → Ends (parse S id_text p w)
    parsed_lem (inl e) w i = i
    parsed_lem (inr p) w i = (tt, i)

    path_lem : (p : Parsed AbsPath) (w : S.World) → I w → Ends (parse_local_path S id_text p w)
    path_lem (valid path) w i = (tt, i)
    path_lem (invalid e) w i = i

    client_lem :
        (client_id : Text) (w : S.World) → I w → Ends (require_client_id S id_text client_id w)
    client_lem [] w i = i
    client_lem (c ∷ s) w i = (tt, i)

    require_pair-yields :
        (id : RowId) (w : S.World) → I w → Yields FlagsAgree (require_pair S id_text id w)
    require_pair-yields id w i =
        then_yields _ FlagsAgree _ _ (wrapped _ _ (S.pair_get id w) (keeps.pair_get id w i))
          (λ o v q j. required_lem FlagsAgree 1 o v q j)

    stored_row :
        (pair : Pair) (w : S.World) {A : Type 0} (a : A)
        → FlagsAgree pair
        → I w
        → Ends (and_then (stored S (S.pair_upsert pair) w) (λ u. return a))
    stored_row pair w a q i =
        then_yields _ _ _ _ (wrapped _ _ (S.pair_upsert pair w) (keeps.pair_upsert pair w q i))
          (λ u v r j. (tt, j))

    pub set_paused-Ends :
        (params : Text ⊎ RowId) (flag : Bool) (w : S.World)
        → I w
        → Ends (set_paused S id_text params flag w)
    unfolding set_paused
    set_paused-Ends params flag w i = then_yields _ _ _ _ (parsed_lem params w i) (λ id v t j.
        then_yields FlagsAgree _ _ _ (require_pair-yields id v j) (λ pair u q k.
          let (now, x) = S.now u in
          stored_row (flagged S id_text flag now pair) x pair.id (ground arith) (keeps.now u k)))

    pub remove-Ends : (params : Text ⊎ RowId) (w : S.World) → I w → Ends (remove S id_text params w)
    unfolding remove
    remove-Ends params w i = then_yields _ _ _ _ (parsed_lem params w i) (λ id v t j.
        then_yields FlagsAgree _ _ _ (require_pair-yields id v j) (λ pair u q k.
          let (now, x) = S.now u in
          stored_row (gone S id_text now pair) x pair.id refl (keeps.now u k)))

    insert_pair-Ends :
        (p : PairAddParams) (account : Account) (path : AbsPath) (item : FoundItem) (w : S.World)
        → I w
        → Ends (insert_pair S id_text p account path item w)
    insert_pair-Ends p account path item w i =
        let (now, v) = S.now w in
        let (id, u) = S.new_id v in
        let pair = new_pair S id_text p account path item now id in
        then_yields _ _ _ _
          (wrapped _ _ (S.pair_upsert pair u)
            (keeps.pair_upsert pair u refl (keeps.new_id v (keeps.now w i))))
          (λ a x r j.
            then_yields _ _ _ _
              (ignored (S.audit_append _ (S.new_id x).1)
                (keeps.audit_append _ (S.new_id x).1 (keeps.new_id x j)))
              (λ b y s k. (tt, keeps.emit _ y k)))

    find_remote-Ends :
        (p : PairAddParams) (account : Account) (w : S.World)
        → I w
        → Ends (find_remote S id_text p account w)
    find_remote-Ends p account w i =
        then_yields _ _ _ _ (wrapped _ _ (S.config_get w) (keeps.config_get w i)) (λ cfg a r j.
          then_yields _ _ _ _ (client_lem (client_id_of cfg) a j) (λ u b r k.
            then_yields _ _ _ _ (wrapped _ _ _ (keeps.load_refresh account.id b k)) (λ token c r l.
              then_yields _ _ _ _ (wrapped _ _ _ (keeps.refresh (client_id_of cfg) token c l))
                (λ tokens d r m.
                  then_yields _ _ _ _
                    (ignored _ (keeps.store_refresh account.id tokens.refresh_token d m))
                    (λ u e r n.
                      then_yields _ _ _ _
                        (wrapped _ _ _ (
                          keeps.item_by_path tokens.access_token account.drive_id p.remote_path e
                            n))
                        (λ item f r o. required_lem _ 25 item f (λ a h. tt) o))))))

    pub add-Ends :
        (params : Text ⊎ PairAddParams) (w : S.World) → I w → Ends (add S id_text params w)
    unfolding add
    add-Ends params w i = then_yields _ _ _ _ (parsed_lem params w i) (λ p a r j.
        then_yields _ _ _ _ (wrapped _ _ _ (keeps.account_get p.account_id a j)) (λ found b r k.
          then_yields _ _ _ _ (required_lem _ 20 found b (λ a h. tt) k) (λ account c r l.
            then_yields _ _ _ _ (path_lem (parse_abs p.local_path) c l) (λ path d r m.
              then_yields _ _ _ _ (wrapped _ _ _ (keeps.mkdir_p path d m)) (λ u e r n.
                then_yields _ _ _ _ (find_remote-Ends p account e n)
                  (λ item f r o. insert_pair-Ends p account path item f o))))))
