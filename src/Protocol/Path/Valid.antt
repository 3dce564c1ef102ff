-- ===== src/Protocol/Path/Valid.antt =====
-- What the bytes of a parsed path satisfy, stated without the parser.
use onesync.Prelude.{◌≡◌, ◌≢◌, ◌↔◌, ◌≤◌, true, false, none, List, [], ◌∷◌, arith}
use onesync.Prelude.Equality.{nat_eq, list_eq, list_beq_iff}
use onesync.Prelude.Lists.{length, any, All}
use onesync.Prelude.Text.{Text, split, has, is_empty, starts_with_byte}
use onesync.Protocol.Path.{RelPath, valid, slash, dot_dot, is_parent, validate_common, parse_rel}

-- Not empty, at most 1024 bytes, no NUL byte, and no component between slashes that is `..`.
pub record IsPathText (s : Text) : Type 0 where
  pub non_empty : s ≢ []
  pub short : length s ≤ 1024
  pub no_nul : All (λ b. b ≢ 0) s
  pub no_parent : All (λ part. part ≢ dot_dot) (split slash s)

no_nul_iff : (s : Text) → (has 0 s ≡ false) ↔ All (λ b. b ≢ 0) s
no_nul_iff [] = ground arith
no_nul_iff (b ∷ s) = ground (arith, no_nul_iff s)

no_parent_iff :
    (parts : List Text) → (any is_parent parts ≡ false) ↔ All (λ part. part ≢ dot_dot) parts
no_parent_iff [] = ground arith
no_parent_iff (part ∷ parts) = ground (arith, list_beq_iff part dot_dot, no_parent_iff parts)

is_empty_iff : (s : Text) → (is_empty s ≡ true) ↔ (s ≡ [])
is_empty_iff [] = ground arith
is_empty_iff (c ∷ s) = ground arith

pub validate_common_iff : (s : Text) → (validate_common s ≡ none) ↔ IsPathText s
unfolding validate_common
validate_common_iff s = ground (arith, is_empty_iff s, no_nul_iff s, no_parent_iff (split slash s))

-- `RelPath::from_str` accepts a text exactly when it does not begin with a slash and its normal
-- form is a path text, and then keeps the normal form; whatever the normalisation does. A path text may
-- hold two dots within a component that is not `..`, as `a..b` does.
pub parse_rel_iff :
    (nfc : Text → Text) (s : Text) (p : RelPath)
    → (parse_rel nfc s ≡ valid p)
      ↔ ((starts_with_byte slash s ≡ false) × IsPathText (nfc s) × (p.as_str ≡ nfc s))
unfolding parse_rel
parse_rel_iff nfc s p = ground (arith, validate_common_iff (nfc s))
