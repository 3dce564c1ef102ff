-- ===== src/Engine/Conflict.antt =====
-- crates/onesync-core/src/engine/conflict.rs: the winner of a conflict, and the loser's new path.
pub mod LoserPath
use onesync.Prelude.{
  ℕ, zero, suc, ◌+◌, ◌-◌, ◌/◌, ◌%◌, Bool, ◌&&◌, Option, none, some, List, [], ◌∷◌, ◌++◌,
}
use onesync.Prelude.Tests.{if◌then◌else◌, ltb}
use onesync.Prelude.Equality.{◌==◌, nat_eq}
use onesync.Prelude.Text.{Text, codes, split_last, is_empty}
use onesync.Protocol.Enums.{ConflictSide}
use onesync.Protocol.FileSide.{Timestamp}
use onesync.Protocol.Path.{RelPath, Parsed, valid, invalid, slash, parse_rel}
use onesync.Engine.Limits.{conflict_mtime_tolerance_ms, conflict_rename_retries}

-- `(a - b).num_milliseconds().unsigned_abs()`: whole milliseconds of a difference in nanoseconds.
abbrev pub distance_ms : Timestamp → Timestamp → ℕ
distance_ms a b = (if ltb b a then a - b else b - a) / 1000000

unfoldable pub winner : Timestamp → Timestamp → ConflictSide
winner local_mtime remote_mtime =
    if ltb conflict_mtime_tolerance_ms (distance_ms local_mtime remote_mtime)
      && ltb remote_mtime local_mtime
    then ConflictSide.local
    else ConflictSide.remote

abbrev pub dot : ℕ
dot = b'.'

-- A path as its directory and its file name; the directory is empty for a path without a slash.
abbrev pub dir_and_file : Text → Text × Text
dir_and_file s = elim (split_last slash s) [ some (dir, file) ↦ (dir, file) | none ↦ ([], s) ]

-- A file name as its stem and its extension, which keeps the dot.
abbrev pub stem_and_ext : Text → Text × Text
stem_and_ext file = elim (split_last dot file) [
  | some (stem, ext) ↦ (stem, dot ∷ ext)
  | none ↦ (file, [])
]

-- The decimal digits of a number below ten to the number of rounds.
abbrev pub decimal_digits : ℕ → ℕ → Text → Text
decimal_digits zero n digits = digits
decimal_digits (suc rounds) n digits =
    let more = decimal_digits rounds (n / 10) ((48 + n % 10) ∷ digits) in
    if n / 10 == 0 then (48 + n % 10) ∷ digits else more

-- `{attempt}` of a `u32`, which has at most ten digits.
unfoldable pub decimal : ℕ → Text
decimal n = decimal_digits 10 n []

abbrev pub attempt_suffix : ℕ → Text
attempt_suffix attempt = if attempt == 0 then [] else dot ∷ decimal attempt

-- The file name that takes the place of `file`.
unfoldable pub loser_name : Text → Text → Text → ℕ → Text
loser_name file host_name timestamp attempt =
    let (stem, ext) = stem_and_ext file in
    stem
    ++ (codes " (conflict "
        ++ (timestamp
            ++ (codes " from " ++ (host_name ++ (codes ")" ++ (attempt_suffix attempt ++ ext))))))

-- `build_loser_path` up to the final parse. `timestamp` is the detection time as chrono prints it
-- in the format `%Y-%m-%dT%H-%M-%SZ`.
unfoldable pub loser_text : Text → Text → Text → ℕ → Text
unfolding loser_name
loser_text s host_name timestamp attempt =
    let (dir, file) = dir_and_file s in
    let name = loser_name file host_name timestamp attempt in
    if is_empty dir then name else dir ++ (slash ∷ name)

pub record ConflictOutcome : Type 0 where
  pub winning_side : ConflictSide
  pub loser_path : RelPath

module _ (nfc : Text → Text) (format_time : Timestamp → Text) where
  unfoldable pub build_loser_path : RelPath → Text → Timestamp → ℕ → Parsed RelPath
  unfolding loser_text
  build_loser_path original host_name detected_at attempt =
      parse_rel nfc (loser_text original.as_str host_name (format_time detected_at) attempt)

  unfoldable pub pick_winner_and_loser :
      Timestamp → Timestamp → RelPath → Text → Timestamp → ℕ → Parsed ConflictOutcome
  unfolding winner
  pick_winner_and_loser local_mtime remote_mtime relative_path host_name detected_at attempt =
      elim (build_loser_path relative_path host_name detected_at attempt) [
        | invalid e ↦ invalid e
        | valid path ↦
            valid (record { winning_side = winner local_mtime remote_mtime; loser_path = path })
      ]

unfoldable pub rename_retry_limit : ℕ
rename_retry_limit = conflict_rename_retries
