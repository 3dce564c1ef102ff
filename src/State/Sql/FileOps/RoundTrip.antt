-- ===== src/State/Sql/FileOps/RoundTrip.antt =====
-- An operation read from the row that was written for it.
use mathlib.Core.Path.{subst}
use onesync.Prelude.{ℕ, ◌≡◌, refl, ◌<◌, ◌^◌, inl, inr, Option, none, some, [], ◌∷◌, arith}
use onesync.Prelude.Tests.{Option-cases}
use onesync.Prelude.Equality.{nat_eq, list_eq}
use onesync.Prelude.Text.{Text, codes}
use onesync.Protocol.Enums.{
  FileOpKind, upload, download, local_delete, remote_delete, local_mkdir, remote_mkdir,
  local_rename, remote_rename, FileOpStatus, enqueued, in_progress, backoff, failed,
}
use onesync.Protocol.FileSide.{Timestamp}
use onesync.Protocol.Entities.{FileOp, ErrorEnvelope, JsonMap}
use onesync.State.Sql.{Columns, good, transposed, read_json}
use onesync.State.Sql.Tables.{OpRow}
use onesync.State.Sql.FileOps.{
  op_kind_to_str, op_kind_from_str, op_status_to_str, op_status_from_str, to_u32, or_empty,
  encode_last_error, encode_metadata, op_row, op_row_of, row_to_op,
}
use onesync.State.Sql.Faithful.{
  IsFaithful, IsParsed, PlainIfSome, read_id-id_text, read_rel-as_str, parse_timestamp-to_rfc3339,
  transposed-to_rfc3339,
}

kind_from-to : (k : FileOpKind) → op_kind_from_str (op_kind_to_str k) ≡ good k
unfolding op_kind_from_str op_kind_to_str
kind_from-to upload = refl
kind_from-to download = refl
kind_from-to local_delete = refl
kind_from-to remote_delete = refl
kind_from-to local_mkdir = refl
kind_from-to remote_mkdir = refl
kind_from-to local_rename = refl
kind_from-to remote_rename = refl

status_from-to : (s : FileOpStatus) → op_status_from_str (op_status_to_str s) ≡ good s
unfolding op_status_from_str op_status_to_str
status_from-to enqueued = refl
status_from-to in_progress = refl
status_from-to backoff = refl
status_from-to FileOpStatus.success = refl
status_from-to failed = refl

module _ (C : Columns) (Plain : Timestamp → Type 0) (F : IsFaithful C Plain) where
  last_error_lem :
      (e : Option ErrorEnvelope) (t : Option Text)
      → encode_last_error C e ≡ some t
      → transposed (read_json C C.error_from_json) t ≡ good e
  last_error_lem none t h = ground (arith, h)
  last_error_lem (some e) t h = elim (Option-cases (C.error_to_json e)) [
    | inl unencoded ↦ ground (arith, h, unencoded)
    | inr (text, encoded) ↦ ground (arith, h, encoded, F.error e text encoded)
  ]

  -- An empty map is stored as `NULL`, and read back as the empty map.
  metadata_lem :
      (m : JsonMap) (t : Option Text)
      → encode_metadata C m ≡ some t
      → (x : Option JsonMap) × (transposed (read_json C C.map_from_json) t ≡ good x)
        × (or_empty x ≡ m)
  metadata_lem [] t h = (none, ground (arith, h), refl)
  metadata_lem (kv ∷ m) t h = elim (Option-cases (C.map_to_json (kv ∷ m))) [
    | inl unencoded ↦ absurd (ground (arith, h, unencoded))
    | inr (text, encoded) ↦
        (some (kv ∷ m), ground (arith, h, encoded, F.json_map (kv ∷ m) text encoded), refl)
  ]

  -- A parsed path, instants with four-digit years, and a count of attempts that `u32` holds.
  pub record IsStorableOp (op : FileOp) : Type 0 where
    pub path : IsParsed C Plain F op.relative_path
    pub enqueued : Plain op.enqueued_at
    pub started : PlainIfSome C Plain F op.started_at
    pub finished : PlainIfSome C Plain F op.finished_at
    pub attempts : op.attempts < 2 ^ 32

  to_u32_lem : (n : ℕ) → n < 2 ^ 32 → to_u32 n ≡ n
  to_u32_lem n h = ground (arith, h)

  written_lem :
      (op : FileOp) (t u : Option Text)
      → IsStorableOp op
      → encode_last_error C op.last_error ≡ some t
      → encode_metadata C op.metadata ≡ some u
      → row_to_op C (op_row C op t u) ≡ good op
  unfolding row_to_op
  written_lem op t u s e m =
      let (x, decoded, whole) = metadata_lem op.metadata u m in
      rw
        (
          read_id-id_text C Plain F (codes "op") op.id refl,
          read_id-id_text C Plain F (codes "run") op.run_id refl,
          read_id-id_text C Plain F (codes "pair") op.pair_id refl,
          read_rel-as_str C Plain F op.relative_path s.path,
          kind_from-to op.kind,
          status_from-to op.status,
          last_error_lem op.last_error t e,
          decoded,
          parse_timestamp-to_rfc3339 C Plain F op.enqueued_at s.enqueued,
          transposed-to_rfc3339 C Plain F op.started_at s.started,
          transposed-to_rfc3339 C Plain F op.finished_at s.finished,
          to_u32_lem op.attempts s.attempts,
          whole,
        )
        refl

  -- The row that an insertion writes for a storable operation reads back as that operation.
  pub row_to_op-op_row_of :
      (op : FileOp) (row : OpRow)
      → IsStorableOp op
      → op_row_of C op ≡ some row
      → row_to_op C row ≡ good op
  unfolding op_row_of
  row_to_op-op_row_of op row s h = elim (Option-cases (encode_last_error C op.last_error)) [
    | inl unencoded ↦ absurd (ground (arith, h, unencoded))
    | inr (t, e) ↦ elim (Option-cases (encode_metadata C op.metadata)) [
      | inl unencoded ↦ absurd (ground (arith, h, e, unencoded))
      | inr (u, m) ↦
          subst (λ r. row_to_op C r ≡ good op) (ground (arith, h, e, m)) (written_lem op t u s e m)
    ]
  ]
