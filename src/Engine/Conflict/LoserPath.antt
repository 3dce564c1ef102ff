-- ===== src/Engine/Conflict/LoserPath.antt =====
-- Where the loser's copy lands: its directory, its extension, and that it is another path.
use mathlib.Core.List.{append_assoc, append-nil}
use onesync.Prelude.{
  ℕ, zero, suc, ◌+◌, ◌/◌, ◌%◌, ◌<◌, ◌≡◌, refl, ◌≢◌, true, false, [], ◌∷◌, ◌++◌, arith, inl, inr, ap,
  sym,
}
use onesync.Prelude.Tests.{Option-cases, if◌then◌else◌}
use onesync.Prelude.Equality.{nat_eq}
use onesync.Prelude.Lists.{length, length-append}
use onesync.Prelude.Text.{Text, codes, has, split_last, is_empty}
use onesync.Prelude.Separators.{
  has-append, has_of_append, split_last-append, split_last_sound, split_last-none,
  split_last_absent,
}
use onesync.Protocol.Path.{slash}
use onesync.Engine.Conflict.{
  dot, dir_and_file, stem_and_ext, decimal_digits, decimal, attempt_suffix, loser_name, loser_text,
}

decimal_digits-has :
    (rounds n : ℕ) (digits : Text)
    → has slash digits ≡ false
    → has slash (decimal_digits rounds n digits) ≡ false
decimal_digits-has zero n digits h = h
decimal_digits-has (suc rounds) n digits h =
    ground (arith, decimal_digits-has rounds (n / 10) ((48 + n % 10) ∷ digits))

attempt_suffix-has : (attempt : ℕ) → has slash (attempt_suffix attempt) ≡ false
unfolding decimal
attempt_suffix-has attempt = ground (arith, decimal_digits-has 10 attempt [] refl)

stem_and_ext_append : (file : Text) → (stem_and_ext file).0 ++ (stem_and_ext file).1 ≡ file
stem_and_ext_append file = elim (Option-cases (split_last dot file)) [
  | inl e ↦ rw (e, stem_and_ext) (append-nil file)
  | inr ((stem, ext), e) ↦ rw (e, stem_and_ext) (sym (split_last_sound dot file stem ext e).0)
]

-- The part of the new name in front of the extension.
abbrev front : Text → Text → Text → ℕ → Text
front stem host_name timestamp attempt =
    stem
    ++ (codes " (conflict "
        ++ (timestamp ++ (codes " from " ++ (host_name ++ (codes ")" ++ attempt_suffix attempt)))))

loser_name-front :
    (file host_name timestamp : Text) (attempt : ℕ)
    → loser_name file host_name timestamp attempt
      ≡ front (stem_and_ext file).0 host_name timestamp attempt ++ (stem_and_ext file).1
unfolding loser_name
loser_name-front file host_name timestamp attempt = simp append_assoc

-- A file name without a slash keeps none under the new name, if host and timestamp have none.
loser_name-has :
    (file host_name timestamp : Text) (attempt : ℕ)
    → has slash host_name ≡ false
    → has slash timestamp ≡ false
    → has slash file ≡ false
    → has slash (loser_name file host_name timestamp attempt) ≡ false
unfolding loser_name
loser_name-has file host_name timestamp attempt h t f =
    let (stem, ext) =
      has_of_append slash (stem_and_ext file).0 (stem_and_ext file).1
        (rw (stem_and_ext_append file) f) in
    simp (has-append, stem, ext, h, t, attempt_suffix-has)

length-loser_name :
    (file host_name timestamp : Text) (attempt : ℕ)
    → length file < length (loser_name file host_name timestamp attempt)
unfolding loser_name
length-loser_name file host_name timestamp attempt =
    omega (arith, ap length (stem_and_ext_append file), length-append {0})

dir_and_file-has : (s : Text) → has slash (dir_and_file s).1 ≡ false
dir_and_file-has s = elim (Option-cases (split_last slash s)) [
  | inl e ↦ rw (e, dir_and_file) (split_last-none slash s e)
  | inr ((dir, file), e) ↦ rw (e, dir_and_file) (split_last_sound slash s dir file e).1
]

dir_and_file-join :
    (dir name : Text)
    → has slash name ≡ false
    → dir_and_file (if is_empty dir then name else dir ++ (slash ∷ name)) ≡ (dir, name)
dir_and_file-join [] name h = rw (split_last_absent slash name h, dir_and_file)
dir_and_file-join (c ∷ dir) name h = rw (split_last-append slash (c ∷ dir) name h, dir_and_file)

-- The loser's path lies in the directory of the original under the new file name, and is not the
-- original, if the host name and the printed time contain no slash.
pub loser_text_beside :
    (s host_name timestamp : Text) (attempt : ℕ)
    → has slash host_name ≡ false
    → has slash timestamp ≡ false
    → (dir_and_file (loser_text s host_name timestamp attempt)
        ≡ ((dir_and_file s).0, loser_name (dir_and_file s).1 host_name timestamp attempt))
      × (loser_text s host_name timestamp attempt ≢ s)
unfolding loser_text
loser_text_beside s host_name timestamp attempt h t =
    let e =
      dir_and_file-join (dir_and_file s).0 _
        (loser_name-has (dir_and_file s).1 host_name timestamp attempt h t (dir_and_file-has s)) in
    (
      e,
      λ same. absurd (
          omega (
            arith,
            ap (λ (x : Text). length (dir_and_file x).1) same,
            ap (λ (x : Text × Text). length x.1) e,
            length-loser_name (dir_and_file s).1 host_name timestamp attempt,
          )),
    )

stem_and_ext-join :
    (stem ext : Text) → has dot ext ≡ false → stem_and_ext (stem ++ (dot ∷ ext)) ≡ (stem, dot ∷ ext)
stem_and_ext-join stem ext h = rw (split_last-append dot stem ext h, stem_and_ext)

-- A file name with a dot keeps its extension, the text from its last dot on.
pub loser_name-ext :
    (file host_name timestamp : Text) (attempt : ℕ)
    → has dot file ≡ true
    → (stem_and_ext (loser_name file host_name timestamp attempt)).1 ≡ (stem_and_ext file).1
loser_name-ext file host_name timestamp attempt h = elim (Option-cases (split_last dot file)) [
  | inl e ↦ cc (h, split_last-none dot file e)
  | inr ((stem, ext), e) ↦
      let parts : stem_and_ext file ≡ (stem, dot ∷ ext) = rw (e, stem_and_ext) in
      rw (loser_name-front file host_name timestamp attempt, parts)
        (ap (λ (x : Text × Text). x.1)
          (stem_and_ext-join (front stem host_name timestamp attempt) ext
            (split_last_sound dot file stem ext e).1))
]
