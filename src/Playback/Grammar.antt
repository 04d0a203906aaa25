-- ===== src/Playback/Grammar.antt =====
-- service.go: which texts `segmentPathPattern` matches, with the groups that it gives.
use iolink.Base.{
  is_digit, ℕ, zero, suc, ◌≡◌, refl, ap, subst, ◌∙◌, inl, inr, ==_iff, ==_refl, text_eq, nat_eq,
  true, false, Bool-cases, Text, text, is_empty, List, [], ◌∷◌, ◌++◌, length, all, some,
  Option-cases, arith,
}
use mathlib.Core.Option.{some-injective}
use iolink.Playback.Segments.{
  take_digits, span_digits, skip, Groups, field, last_field, match_groups,
}

-- A text of `k` digits.
pub record IsNumeral (k : ℕ) (s : Text) : Type 0 where
  pub numerals : all is_digit s ≡ true
  pub width : length s ≡ k

take_digits-append :
    (k : ℕ) (ds rest : Text) → IsNumeral k ds → take_digits k (ds ++ rest) ≡ some (ds, rest)
unfolding take_digits
take_digits-append zero [] rest v = refl
take_digits-append zero (c ∷ ds) rest v = absurd (ground (arith, v.width))
take_digits-append (suc k) [] rest v = absurd (ground (arith, v.width))
take_digits-append (suc k) (c ∷ ds) rest v = ground (
  arith,
  take_digits-append k ds rest
      (record { numerals = ground (arith, v.numerals); width = ground (arith, v.width) }),
)

take_digits-some :
    (k : ℕ) (s : Text) {ds rest : Text}
    → take_digits k s ≡ some (ds, rest)
    → (s ≡ ds ++ rest) × (all is_digit ds ≡ true) × (length ds ≡ k)
unfolding take_digits
take_digits-some zero s h = ground arith
take_digits-some (suc k) [] h = absurd (ground arith)
take_digits-some (suc k) (c ∷ s) h = elim (Bool-cases (is_digit c)) [
  | inr b ↦ absurd (ground arith)
  | inl b ↦ elim (Option-cases (take_digits k s)) [
    | inl e ↦ absurd (ground arith)
    | inr ((ds, rest), e) ↦ ground (arith, take_digits-some k s e)
  ]
]

skip-some : (sep : ℕ) (s : Text) {rest : Text} → skip sep s ≡ some rest → s ≡ sep ∷ rest
unfolding skip
skip-some sep [] h = absurd (ground arith)
skip-some sep (c ∷ s) h = ground arith

skip-cons : (sep : ℕ) (rest : Text) → skip sep (sep ∷ rest) ≡ some rest
unfolding skip
skip-cons sep rest = ground (arith, ==_refl sep)

field-append :
    (k sep : ℕ) (ds rest : Text) → IsNumeral k ds → field k sep (ds ++ sep ∷ rest) ≡ some (ds, rest)
unfolding field
field-append k sep ds rest v =
    ground (arith, take_digits-append k ds (sep ∷ rest) v, skip-cons sep rest)

field-some :
    (k sep : ℕ) (s : Text) {ds rest : Text}
    → field k sep s ≡ some (ds, rest)
    → (s ≡ ds ++ sep ∷ rest) × (all is_digit ds ≡ true) × (length ds ≡ k)
unfolding field
field-some k sep s h = elim (Option-cases (take_digits k s)) [
  | inl e ↦ absurd (ground arith)
  | inr ((ds, tail), e) ↦ elim (Option-cases (skip sep tail)) [
    | inl f ↦ absurd (ground arith)
    | inr (rest, f) ↦ ground (arith, take_digits-some k s e, skip-some sep tail f)
  ]
]

span_digits-cut :
    (s : Text)
    → (s ≡ (span_digits s).0 ++ (span_digits s).1) × (all is_digit (span_digits s).0 ≡ true)
unfolding span_digits
span_digits-cut [] = (refl, refl)
span_digits-cut (c ∷ s) = elim (Bool-cases (is_digit c)) [
  | inl b ↦ ground (arith, span_digits-cut s)
  | inr b ↦ ground arith
]

span_digits-append :
    (ds : Text) → all is_digit ds ≡ true → span_digits (ds ++ text ".ts") ≡ (ds, text ".ts")
unfolding span_digits
span_digits-append [] h = refl
span_digits-append (c ∷ ds) h = ground (arith, span_digits-append ds (ground arith))

last_field-some :
    (s : Text) {ds : Text}
    → last_field s ≡ some ds
    → (s ≡ ds ++ text ".ts") × (all is_digit ds ≡ true) × (is_empty ds ≡ false)
unfolding last_field
last_field-some s h = ground (arith, span_digits-cut s, ==_iff (span_digits s).1 (text ".ts"))

last_field-append :
    (ds : Text)
    → all is_digit ds ≡ true
    → is_empty ds ≡ false
    → last_field (ds ++ text ".ts") ≡ some ds
unfolding last_field
last_field-append ds h n = ground (arith, span_digits-append ds h, ==_refl (text ".ts"))

-- How groups are written.
abbrev pub render : (fs : List (ℕ × ℕ)) → Groups fs → Text
render [] number = number ++ text ".ts"
render ((k, sep) ∷ fs) (ds, gs) = ds ++ sep ∷ render fs gs

-- The widths of the groups.
abbrev pub IsMatch : (fs : List (ℕ × ℕ)) → Groups fs → Type 0
IsMatch [] number = (all is_digit number ≡ true) × (is_empty number ≡ false)
IsMatch ((k, sep) ∷ fs) (ds, gs) = IsNumeral k ds × IsMatch fs gs

abbrev pub Renders : (fs : List (ℕ × ℕ)) → Text → Groups fs → Type 0
Renders fs s gs = (s ≡ render fs gs) × IsMatch fs gs

pub match_groups-render :
    (fs : List (ℕ × ℕ)) (gs : Groups fs) → IsMatch fs gs → match_groups fs (render fs gs) ≡ some gs
unfolding match_groups
match_groups-render [] number v = last_field-append number v.0 v.1
match_groups-render ((k, sep) ∷ fs) (ds, gs) v =
    ground (arith, field-append k sep ds (render fs gs) v.0, match_groups-render fs gs v.1)

pub match_groups-some :
    (fs : List (ℕ × ℕ)) (s : Text) {gs : Groups fs} → match_groups fs s ≡ some gs → Renders fs s gs
unfolding match_groups
match_groups-some [] s h = let (e, v, n) = last_field-some s h in (e, (v, n))
match_groups-some ((k, sep) ∷ fs) s {gs = gs'} h = elim (Option-cases (field k sep s)) [
  | inl e ↦ absurd (ground arith)
  | inr ((ds, rest), e) ↦ elim (Option-cases (match_groups fs rest)) [
    | inl f ↦ absurd (ground arith)
    | inr (gs, f) ↦
        let (cut, numerals, width) = field-some k sep s e in
        let (written, matches) = match_groups-some fs rest f in
        let found : (ds, gs) ≡ gs' = some-injective (ds, gs) gs' (ground arith) in
        subst (Renders ((k, sep) ∷ fs) s) found (
          cut ∙ ap (λ t. ds ++ sep ∷ t) written,
          (record { numerals = numerals; width = width }, matches),
        )
  ]
]
