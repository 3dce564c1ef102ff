-- ===== src/Graph/Download/Streaming.antt =====
-- Hashing in blocks while the body streams in, against hashing the whole body at once.
use onesync.Prelude.{
  ℕ, zero, suc, ◌+◌, ◌≡◌, refl, sym, ap, ◌∙◌, inl, inr, ◌⊎◌, Option, List, [], ◌∷◌, ◌++◌, map,
  arith,
}
use mathlib.Core.List.{append-nil, append_assoc}
use onesync.Prelude.Tests.{leb, Bool-cases}
use onesync.Prelude.Lists.{length, length-append, drop}
use onesync.Prelude.Sorting.{take}
use onesync.Prelude.Text.{Text}
use onesync.Prelude.Outcome.{ok, Action}
use onesync.Protocol.Remote.{FileHashes}
use onesync.Graph.Http.{Http, Response, check_status}
use onesync.Graph.Download.{
  Sha1, QuickXorHasher, spread, spread_all, update, Received, started, feed, drain_blocks, finish,
  receive, verify, verified, checked, answered, ended, download_from_url, hash_block_bytes,
}

spread_all-append :
    (a b : List ℕ) (h : QuickXorHasher) → spread_all (a ++ b) h ≡ spread_all b (spread_all a h)
spread_all-append [] b h = refl
spread_all-append (x ∷ a) b h = spread_all-append a b (spread x h)

-- The count of bytes plays no part in the spreading.
abbrev counted : ℕ → QuickXorHasher → QuickXorHasher
counted n h = record h { length_so_far = n }

spread_all-counted :
    (a : List ℕ) (n : ℕ) (h : QuickXorHasher)
    → spread_all a (counted n h) ≡ counted n (spread_all a h)
spread_all-counted [] n h = refl
spread_all-counted (x ∷ a) n h = spread_all-counted a n (spread x h)

spread_all-length :
    (a : List ℕ) (h : QuickXorHasher) → (spread_all a h).length_so_far ≡ h.length_so_far
spread_all-length [] h = refl
spread_all-length (x ∷ a) h = spread_all-length a (spread x h)

update-append : (a b : List ℕ) (h : QuickXorHasher) → update (a ++ b) h ≡ update b (update a h)
unfolding update
update-append a b h =
    rw
      (
        spread_all-counted b (h.length_so_far + length a) (spread_all a h),
        spread_all-append a b h,
        length-append a b,
      )
      (ap (λ n. counted n (spread_all b (spread_all a h))) (omega arith))

update-nil : (h : QuickXorHasher) → update [] h ≡ h
unfolding update
update-nil h = ap (λ n. counted n h) (omega arith)

take-drop {ℓ} : {A : Type ℓ} (n : ℕ) (xs : List A) → take n xs ++ drop n xs ≡ xs
take-drop zero xs = refl
take-drop (suc n) [] = refl
take-drop (suc n) (x ∷ xs) = ap (λ t. x ∷ t) (take-drop n xs)

abbrev pub joined : List (List ℕ) → List ℕ
joined [] = []
joined (c ∷ cs) = c ++ joined cs

abbrev pub arrived : List ℕ → Text ⊎ List ℕ
arrived chunk = inr chunk

-- What the documentation of an incremental hash promises: input may be given in pieces.
pub record IsIncremental (sha1 : Sha1) : Type 0 where
  pub update-append :
      (a b : List ℕ) (s : sha1.State) → sha1.update (a ++ b) s ≡ sha1.update b (sha1.update a s)
  pub update-nil : (s : sha1.State) → sha1.update [] s ≡ s

module _ (sha1 : Sha1) (base64 : List ℕ → Text) (I : IsIncremental sha1) where
  abbrev R : Type 0
  R = Received sha1 base64

  feed-append :
      (a b : List ℕ) (r : R)
      → feed sha1 base64 b (feed sha1 base64 a r) ≡ feed sha1 base64 (a ++ b) r
  feed-append a b r =
      rw (I.update-append a b r.sha1_hasher, update-append a b r.qxh, append_assoc r.all_bytes a b)
        refl

  feed-nil : (r : R) → feed sha1 base64 [] r ≡ r
  feed-nil r = rw (I.update-nil r.sha1_hasher, update-nil r.qxh, append-nil r.all_bytes) refl

  drain_lem :
      (fuel block : ℕ) (buffer : List ℕ) (r : R)
      → let (left, fed) = drain_blocks sha1 base64 fuel block buffer r in
        feed sha1 base64 left fed ≡ feed sha1 base64 buffer r
  drain_lem zero block buffer r = refl
  drain_lem (suc fuel) block buffer r = elim (Bool-cases (leb block (length buffer))) [
    | inl full ↦ rw full (
        drain_lem fuel block (drop block buffer) (feed sha1 base64 (take block buffer) r)
        ∙ feed-append (take block buffer) (drop block buffer) r
        ∙ ap (λ t. feed sha1 base64 t r) (take-drop block buffer))
    | inr short ↦ rw short refl
  ]

  finish_lem :
      (left : List ℕ) (fed : R) → finish sha1 base64 (left, fed) ≡ feed sha1 base64 left fed
  finish_lem [] fed = sym (feed-nil fed)
  finish_lem (b ∷ bs) fed = refl

  -- Whatever pieces the body arrives in, the hashers and the bytes end as for the whole body.
  receive-joined :
      (block : ℕ) (chunks : List (List ℕ)) (buffer : List ℕ) (r : R)
      → receive sha1 base64 block (map arrived chunks) buffer r
        ≡ inr (feed sha1 base64 (buffer ++ joined chunks) r)
  receive-joined block [] buffer r =
      ap inr (finish_lem buffer r ∙ ap (λ t. feed sha1 base64 t r) (sym (append-nil buffer)))
  receive-joined block (c ∷ cs) buffer r =
      let (left, fed) = drain_blocks sha1 base64 (length (buffer ++ c)) block (buffer ++ c) r in
      receive-joined block cs left fed
      ∙ ap inr (
          sym (feed-append left (joined cs) fed)
          ∙ ap (feed sha1 base64 (joined cs))
              (drain_lem (length (buffer ++ c)) block (buffer ++ c) r)
          ∙ feed-append (buffer ++ c) (joined cs) r
          ∙ ap (λ t. feed sha1 base64 t r) (append_assoc buffer c (joined cs)))

  -- For an incremental SHA-1, a response that is passed on and a body that arrives without an error: the
  -- download ends as the check of the whole body against the expected hashes does, in whatever pieces
  -- the body arrived.
  pub download_from_url-joined :
      (H : Http) (get : Text → Text → Text → Action Text H.World (Response × List (Text ⊎ List ℕ)))
      (token url : Text) (expected : Option FileHashes) (w u : H.World) (chunks : List (List ℕ))
      (resp passed : Response)
      → get url token (H.new_request_id w).0 (H.new_request_id w).1
        ≡ ok (resp, map arrived chunks) u
      → check_status H resp (H.new_request_id w).0 ≡ inr passed
      → download_from_url sha1 base64 H get token url expected w
        ≡ ended sha1 base64 H get
            (verify sha1 base64 expected (feed sha1 base64 (joined chunks) (started sha1 base64)))
            u
  unfolding download_from_url
  download_from_url-joined H get token url expected w u chunks resp passed arrival good =
      let id = (H.new_request_id w).0 in
      ap (answered sha1 base64 H get id expected) arrival
      ∙ ap
          (λ c.
            ended sha1 base64 H get
              (checked sha1 base64 H get c hash_block_bytes expected (map arrived chunks)) u)
          good
      ∙ ap (λ r. ended sha1 base64 H get (verified sha1 base64 expected r) u)
          (receive-joined hash_block_bytes chunks [] (started sha1 base64))
