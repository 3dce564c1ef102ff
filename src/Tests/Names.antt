-- ===== src/Tests/Names.antt =====
-- The theorems on paths, names, retries and the pair's row at concrete inputs.
use onesync.Prelude.{
  zero, suc, ◌%◌, inr, inl, ◌⊎◌, [], ◌∷◌, ℕ, ◌+◌, ◌≤◌, ◌<◌, ◌*◌, ◌/◌, ◌≡◌, ◌≢◌, ◌↔◌, refl, false,
  none, some, [], arith,
}
use onesync.Prelude.Tests.{if◌then◌else◌, ltb}
use onesync.Prelude.Text.{Text, codes, starts_with_byte}
use onesync.Protocol.Enums.{initializing}
use onesync.Prelude.Lists.{All}
use onesync.Protocol.FileSide.{ContentHash}
use onesync.Protocol.Hash.{hash_from_str, hash_to_string}
use onesync.Protocol.Hash.RoundTrip.{IsByte, hash_from_str-hash_to_string}
use onesync.Protocol.Id.{id_from_str, id_to_string, wrong_prefix}
use onesync.Protocol.Id.RoundTrip.{id_from_str-id_to_string}
use onesync.Prelude.Equality.{◌==◌, nat_eq, list_eq}
use onesync.Protocol.Path.{parse_rel, valid, slash}
use onesync.Protocol.Path.Valid.{IsPathText, parse_rel_iff}
use onesync.Protocol.Entities.{Pair}
use onesync.Engine.Types.{CycleSummary}
use onesync.Engine.Retry.{retry_decision}
use onesync.Engine.Retry.Bounds.{OnSchedule, IsFraction, retry_decision-OnSchedule}
use onesync.Engine.Conflict.{dir_and_file, loser_text, loser_name}
use onesync.Engine.Conflict.LoserPath.{loser_text_beside}
use onesync.Tests.Fakes.{rel, thousandths, same}

mul_le : (x c : ℕ) → x ≤ 999 → x * c ≤ 999 * c
mul_le x zero h = omega arith
mul_le x (suc c) h = omega (arith, h, mul_le x c h)

below_lem : (x c : ℕ) → ltb 999 x ≡ false → 0 < c → x * c / 1000 < c
below_lem x c h p = let small : x ≤ 999 = ground (arith, h) in omega (arith, p, mul_le x c small)

thousandths-IsFraction : IsFraction thousandths
thousandths-IsFraction = record {
  irreflexive = λ x. ground arith;
  ordered = refl;
  below = λ x ceiling low high p q. below_lem x ceiling high p;
}

retry_decision-OnSchedule_example : OnSchedule 3 (retry_decision thousandths 3 2000)
retry_decision-OnSchedule_example =
    retry_decision-OnSchedule thousandths thousandths-IsFraction 3 2000

-- Bytes that count down from 200 + n.
abbrev hash_bytes : ℕ → ContentHash
hash_bytes zero = []
hash_bytes (suc n) = (200 + n % 32) ∷ hash_bytes n

hash_bytes-IsByte : (n : ℕ) → All IsByte (hash_bytes n)
hash_bytes-IsByte zero = tt
hash_bytes-IsByte (suc n) = (omega arith, hash_bytes-IsByte n)

abbrev original : Text
original = codes "d/a.txt"

loser_text_beside_example :
    (dir_and_file (loser_text original (codes "host") (codes "T") 2) ≡ (
      (dir_and_file original).0,
      loser_name (dir_and_file original).1 (codes "host") (codes "T") 2,
    ))
    × (loser_text original (codes "host") (codes "T") 2 ≢ original)
loser_text_beside_example = loser_text_beside original (codes "host") (codes "T") 2 refl refl

parse_rel_iff_example :
    (parse_rel same original ≡ valid (rel original))
    ↔ ((starts_with_byte slash original ≡ false) × IsPathText original × (original ≡ original))
parse_rel_iff_example = parse_rel_iff same original (rel original)

abbrev new_pair : Pair
new_pair = record {
  id = 1;
  account_id = 2;
  local_path = record { as_str = codes "/home/a" };
  remote_item_id = [];
  remote_path = [];
  display_name = [];
  status = initializing;
  paused = false;
  delta_token = none;
  errored_reason = none;
  created_at = 0;
  updated_at = 0;
  last_sync_at = none;
  conflict_count = 0;
  webhook_enabled = false;
}

abbrev summary : CycleSummary
summary = record {
  remote_items_seen = 2;
  local_events_seen = 1;
  ops_applied = 1;
  conflicts_detected = 0;
  delta_token = some (codes "cursor");
}

abbrev digest : ContentHash
digest = hash_bytes 32

hash_from_str-hash_to_string_example : hash_from_str (hash_to_string digest) ≡ inr digest
hash_from_str-hash_to_string_example =
    hash_from_str-hash_to_string digest refl (hash_bytes-IsByte 32)

abbrev read : Text → Text ⊎ Text
read t = inr t

id_from_str-id_to_string_example :
    id_from_str same read (codes "pair") (id_to_string same read (codes "cfl") (codes "01H")) ≡ (
      if codes "cfl" == codes "pair"
      then inr (codes "01H")
      else inl (wrong_prefix (codes "cfl") (codes "pair")))
id_from_str-id_to_string_example =
    id_from_str-id_to_string same read (λ u. refl) (codes "cfl") (codes "pair") refl (codes "01H")
