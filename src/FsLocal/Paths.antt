-- ===== src/FsLocal/Paths.antt =====
-- `absolutise` of crates/onesync-fs-local/src/path.rs.
use onesync.Prelude.{
  ℕ, ◌≤◌, ◌≡◌, refl, sym, ap, ◌∙◌, inl, inr, Bool, true, false, ◌||◌, Option, none, some, List, [],
  ◌∷◌, ◌++◌, arith,
}
use mathlib.Core.List.{append_assoc}
use onesync.Prelude.Tests.{if◌then◌else◌, ltb, Bool-cases}
use onesync.Prelude.Equality.{◌==◌, nat_eq, list_eq, eq_of_beq}
use onesync.Prelude.Lists.{length, any}
use onesync.Prelude.Text.{Text, split, has, is_empty, starts_with_byte, extend_head}
use onesync.Prelude.Separators.{has-append}
use onesync.Protocol.Path.{
  RelPath, AbsPath, valid, slash, is_parent, validate_common, parse_abs, ok,
}

-- `str::ends_with` for one byte.
abbrev pub ends_with : ℕ → Text → Bool
ends_with b [] = false
ends_with b (c ∷ []) = c == b
ends_with b (c ∷ (d ∷ s)) = ends_with b (d ∷ s)

abbrev pub composed : AbsPath → RelPath → Text
composed root rel =
    if ends_with slash root.as_str
    then root.as_str ++ rel.as_str
    else root.as_str ++ (slash ∷ rel.as_str)

-- `none` where the `expect` panics.
unfoldable pub absolutise : AbsPath → RelPath → Option AbsPath
absolutise root rel = ok (parse_abs (composed root rel))

any-append {ℓ} :
    {A : Type ℓ} (p : A → Bool) (xs ys : List A) → any p (xs ++ ys) ≡ (any p xs || any p ys)
any-append p [] ys = refl
any-append p (x ∷ xs) ys = ground (arith, any-append p xs ys)

-- Whether a component of the text is `..`.
abbrev has_parent : Text → Bool
has_parent s = any is_parent (split slash s)

extend_parents :
    (c : ℕ) (parts more : List Text) (first : Text)
    → parts ≡ first ∷ more
    → (rest : List Text) → extend_head c (parts ++ rest) ≡ extend_head c parts ++ rest
extend_parents c [] more first e rest = absurd (ground (arith, e))
extend_parents c (part ∷ parts) more first e rest = refl

split_cons :
    (sep : ℕ) (s : Text) → (first : Text) × (more : List Text) × (split sep s ≡ first ∷ more)
split_cons sep [] = ([], [], refl)
split_cons sep (c ∷ s) =
    let (first, more, e) = split_cons sep s in
    elim (Bool-cases (c == sep)) [
      | inl same ↦ ([], first ∷ more, rw (same, e) refl)
      | inr other ↦ (c ∷ first, more, rw (other, e) refl)
    ]

split-append : (sep : ℕ) (s t : Text) → split sep (s ++ (sep ∷ t)) ≡ split sep s ++ split sep t
split-append sep [] t = ground arith
split-append sep (c ∷ s) t = elim (Bool-cases (c == sep)) [
  | inl same ↦ rw (same, split-append sep s t) refl
  | inr other ↦
      let (first, more, e) = split_cons sep s in
      rw (other, split-append sep s t) (extend_parents c (split sep s) more first e (split sep t))
]

has_parent-append : (s t : Text) → has_parent (s ++ (slash ∷ t)) ≡ (has_parent s || has_parent t)
has_parent-append s t =
    ap (any is_parent) (split-append slash s t)
    ∙ any-append is_parent (split slash s) (split slash t)

-- What a valid path's text has besides its length.
abbrev clean : Text → Bool
clean s = has 0 s || has_parent s

validate_lem :
    (s : Text)
    → validate_common s ≡ none
    → (is_empty s ≡ false) × (length s ≤ 1024) × (clean s ≡ false)
unfolding validate_common
validate_lem s h = ground (arith, h)

clean-append : (s t : Text) → clean s ≡ false → clean t ≡ false → clean (s ++ (slash ∷ t)) ≡ false
clean-append s t h k = ground (arith, has_parent-append s t, has-append 0 s (slash ∷ t), h, k)

ends_lem : (b : ℕ) (s : Text) → ends_with b s ≡ true → (front : Text) × (s ≡ front ++ (b ∷ []))
ends_lem b [] h = absurd (ground arith)
ends_lem b (c ∷ []) h = ([], ground (arith, eq_of_beq {x = c} {y = b} h))
ends_lem b (c ∷ (d ∷ s)) h = let (front, e) = ends_lem b (d ∷ s) h in (c ∷ front, ap (λ t. c ∷ t) e)

clean-front : (front : Text) → clean (front ++ (slash ∷ [])) ≡ false → clean front ≡ false
clean-front front h = ground (arith, has_parent-append front [], has-append 0 front (slash ∷ []), h)

clean-composed :
    (root : AbsPath) (rel : RelPath)
    → clean root.as_str ≡ false
    → clean rel.as_str ≡ false
    → clean (composed root rel) ≡ false
clean-composed root rel h k = elim (Bool-cases (ends_with slash root.as_str)) [
  | inl ends ↦
      let (front, e) = ends_lem slash root.as_str ends in
      let joined : root.as_str ++ rel.as_str ≡ front ++ (slash ∷ rel.as_str) =
        ap (λ t. t ++ rel.as_str) e ∙ append_assoc front (slash ∷ []) rel.as_str in
      rw (ends, joined) (clean-append front rel.as_str (clean-front front (rw (sym e) h)) k)
  | inr not_ended ↦ rw not_ended (clean-append root.as_str rel.as_str h k)
]

starts-append :
    (b : ℕ) (s t : Text) → starts_with_byte b s ≡ true → starts_with_byte b (s ++ t) ≡ true
starts-append b [] t h = absurd (ground arith)
starts-append b (c ∷ s) t h = h

starts-composed :
    (root : AbsPath) (rel : RelPath)
    → starts_with_byte slash root.as_str ≡ true
    → starts_with_byte slash (composed root rel) ≡ true
starts-composed root rel h = elim (Bool-cases (ends_with slash root.as_str)) [
  | inl ends ↦ rw ends (starts-append slash root.as_str rel.as_str h)
  | inr not_ended ↦ rw not_ended (starts-append slash root.as_str (slash ∷ rel.as_str) h)
]

starts_not_empty : (b : ℕ) (s : Text) → starts_with_byte b s ≡ true → is_empty s ≡ false
starts_not_empty b [] h = absurd (ground arith)
starts_not_empty b (c ∷ s) h = refl

parse_text :
    (s : Text)
    → starts_with_byte slash s ≡ true
    → clean s ≡ false
    → ok (parse_abs s) ≡ (if ltb 1024 (length s) then none else some (record { as_str = s }))
unfolding parse_abs validate_common
parse_text s starts h = ground (arith, starts_not_empty slash s starts, starts, h)

parse_abs_starts :
    (s : Text) (p : AbsPath)
    → parse_abs s ≡ valid p
    → (starts_with_byte slash s ≡ true) × (validate_common s ≡ none)
unfolding parse_abs
parse_abs_starts s p h = ground (arith, h)

-- For a root that parses as an absolute path and a relative path whose text is valid, the composition
-- returns the root and the relative path with one slash between them if that is at most 1024 bytes
-- long, and panics if it is longer.
pub absolutise_lem :
    (root : AbsPath) (rel : RelPath)
    → parse_abs root.as_str ≡ valid root
    → validate_common rel.as_str ≡ none
    → absolutise root rel ≡ (
        if ltb 1024 (length (composed root rel))
        then none
        else some (record { as_str = composed root rel }))
unfolding absolutise
absolutise_lem root rel h k =
    let (starts, common) = parse_abs_starts root.as_str root h in
    parse_text (composed root rel) (starts-composed root rel starts)
      (clean-composed root rel (validate_lem root.as_str common).2 (validate_lem rel.as_str k).2)
