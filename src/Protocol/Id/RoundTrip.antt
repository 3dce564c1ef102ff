-- ===== src/Protocol/Id/RoundTrip.antt =====
-- Identifiers printed and parsed, under their own prefix and under another.
use onesync.Prelude.{ℕ, ◌≡◌, refl, false, some, [], ◌∷◌, ◌++◌, ◌⊎◌, inl, inr, arith}
use onesync.Prelude.Tests.{if◌then◌else◌}
use onesync.Prelude.Equality.{◌==◌, nat_eq, list_eq}
use onesync.Prelude.Text.{Text, split_first, has}
use onesync.Protocol.Id.{wrong_prefix, underscore, id_to_string, id_from_str}

split_first-append :
    (sep : ℕ) (before behind : Text)
    → has sep before ≡ false
    → split_first sep (before ++ (sep ∷ behind)) ≡ some (before, behind)
split_first-append sep [] behind h = ground arith
split_first-append sep (c ∷ before) behind h = ground (arith, split_first-append sep before behind)

-- An identifier printed under a prefix without an underscore and parsed under an expected prefix gives
-- its ULID back if the prefixes are the same, and is refused with both of them named if they differ;
-- where the parser of ULIDs reads back what their printer writes.
pub id_from_str-id_to_string :
    {Ulid : Type 0} (print : Ulid → Text) (parse : Text → Text ⊎ Ulid)
    → ((u : Ulid) → parse (print u) ≡ inr u)
    → (prefix expected : Text) → has underscore prefix ≡ false
    → (u : Ulid)
    → id_from_str print parse expected (id_to_string print parse prefix u)
      ≡ (if prefix == expected then inr u else inl (wrong_prefix prefix expected))
unfolding id_from_str id_to_string
id_from_str-id_to_string print parse back prefix expected h u =
    rw (split_first-append underscore prefix (print u) h, back u) refl
