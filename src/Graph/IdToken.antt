-- ===== src/Graph/IdToken.antt =====
-- crates/onesync-graph/src/auth/id_token.rs. The decoding of base64 and of JSON is a parameter: from the
-- middle segment to the claims that are strings, by name.
use onesync.Prelude.{String, ◌⊎◌, inl, inr, Option, none, some}
use onesync.Prelude.Tests.{if◌then◌else◌}
use onesync.Prelude.Equality.{◌==◌, nat_eq, list_eq}
use onesync.Prelude.Text.{Text, codes, split_first}
use onesync.Protocol.Enums.{AccountKind, personal, business}

pub record IdTokenClaims : Type 0 where
  pub tid : Text
  pub oid : Text
  pub upn : Text
  pub display_name : Text
  pub kind : AccountKind

pub data IdTokenError : Type 0 where
  not_three_segments : IdTokenError
  undecodable : Text → IdTokenError
  missing_claim : String → IdTokenError

-- A claim of the payload: absent, a string, or a value of another type.
pub data Claim : Type 0 where
  absent : Claim
  string : Text → Claim
  other : Claim

abbrev pub consumer_tenant_id : Text
consumer_tenant_id = codes "9188040d-6c67-4c5b-b112-36a304b66dad"

-- `splitn(3, '.')` with three parts: the middle one.
abbrev pub middle_segment : Text → Option Text
middle_segment s = elim (split_first b'.' s) [
  | none ↦ none
  | some (header, behind) ↦ elim (split_first b'.' behind) [
    | none ↦ none
    | some (payload, signature) ↦ some payload
  ]
]

abbrev or_missing : String → Claim → IdTokenError ⊎ Text
or_missing key (string t) = inr t
or_missing key absent = inl (missing_claim key)
or_missing key other = inl (missing_claim key)

abbrev pub or_blank : Claim → Text
or_blank (string t) = t
or_blank absent = codes ""
or_blank other = codes ""

-- `or_else`: the second claim is looked at only if the first is absent.
abbrev pub first_claim : Claim → Claim → Claim
first_claim absent c = c
first_claim (string t) c = string t
first_claim other c = other

abbrev pub kind_of : Text → AccountKind
kind_of tid = if tid == consumer_tenant_id then personal else business

abbrev claims_of :
    (String → Claim) → IdTokenError ⊎ Text → IdTokenError ⊎ Text → IdTokenError ⊎ IdTokenClaims
claims_of claim (inl e) oid = inl e
claims_of claim (inr tid) (inl e) = inl e
claims_of claim (inr tid) (inr oid) = inr (record {
  tid = tid;
  oid = oid;
  upn = or_blank (first_claim (claim "preferred_username") (claim "upn"));
  display_name = or_blank (claim "name");
  kind = kind_of tid;
})

abbrev decoded : Text ⊎ (String → Claim) → IdTokenError ⊎ IdTokenClaims
decoded (inl e) = inl (undecodable e)
decoded (inr claim) =
    claims_of claim (or_missing "tid" (claim "tid")) (or_missing "oid" (claim "oid"))

unfoldable pub parse : (Text → Text ⊎ (String → Claim)) → Text → IdTokenError ⊎ IdTokenClaims
parse decode id_token = elim (middle_segment id_token) [
  | none ↦ inl not_three_segments
  | some payload ↦ decoded (decode payload)
]
