-- ===== src/Base/Strings.antt =====
-- What the program uses of Go's `strings` package, on bytes.
use Prim.Native.Nat.{ℕ}
use mathlib.Core.Path.{◌≡◌, refl, subst}
use mathlib.Core.Logic.{inl, inr}
use mathlib.Core.Bool.{Bool, true, false, ◌&&◌, ◌||◌, not}
use native.Mathlib.Omega.{arith}
use mathlib.Core.List.{List, [], ◌∷◌, ◌++◌, reverse}
use iolink.Base.Tests.{Bool-cases, nat_beq_iff, ltb, leb, nat_beq, if◌then◌else◌}
use iolink.Base.Lists.{Text, any, all, All}

-- The tab, line feed, vertical tab, form feed, carriage return and space.
unfoldable pub ascii_space : ℕ → Bool
ascii_space c = (leb 9 c && leb c 13) || nat_beq c 32

-- U+0085 and U+00A0 in UTF-8.
two_byte_space : ℕ → ℕ → Bool
two_byte_space a b = nat_beq a 0xc2 && (nat_beq b 0x85 || nat_beq b 0xa0)

-- U+1680, U+2000 to U+200A, U+2028, U+2029, U+202F, U+205F and U+3000 in UTF-8.
three_byte_space : ℕ → ℕ → ℕ → Bool
three_byte_space a b c =
    (nat_beq a 0xe1 && nat_beq b 0x9a && nat_beq c 0x80)
    || (nat_beq a 0xe2
        && nat_beq b 0x80
        && ((leb 0x80 c && leb c 0x8a) || nat_beq c 0xa8 || nat_beq c 0xa9 || nat_beq c 0xaf))
    || (nat_beq a 0xe2 && nat_beq b 0x81 && nat_beq c 0x9f)
    || (nat_beq a 0xe3 && nat_beq b 0x80 && nat_beq c 0x80)

-- Drops white space from the front of a text, and from its reversal.
unfoldable pub trim_left : Text → Text
unfolding ascii_space two_byte_space three_byte_space
trim_left [] = []
trim_left (a ∷ []) = if ascii_space a then [] else a ∷ []
trim_left (a ∷ b ∷ []) =
    let rest = trim_left (b ∷ []) in
    if ascii_space a then rest else if two_byte_space a b then [] else a ∷ b ∷ []
trim_left (a ∷ b ∷ c ∷ s) =
    let one = trim_left (b ∷ c ∷ s) in
    let two = trim_left (c ∷ s) in
    let three = trim_left s in
    if ascii_space a
    then one
    else if two_byte_space a b
    then two
    else if three_byte_space a b c
    then three
    else a ∷ b ∷ c ∷ s

unfoldable pub trim_left_reversed : Text → Text
unfolding ascii_space two_byte_space three_byte_space
trim_left_reversed [] = []
trim_left_reversed (a ∷ []) = if ascii_space a then [] else a ∷ []
trim_left_reversed (a ∷ b ∷ []) =
    let rest = trim_left_reversed (b ∷ []) in
    if ascii_space a then rest else if two_byte_space b a then [] else a ∷ b ∷ []
trim_left_reversed (a ∷ b ∷ c ∷ s) =
    let one = trim_left_reversed (b ∷ c ∷ s) in
    let two = trim_left_reversed (c ∷ s) in
    let three = trim_left_reversed s in
    if ascii_space a
    then one
    else if two_byte_space b a
    then two
    else if three_byte_space c b a
    then three
    else a ∷ b ∷ c ∷ s

-- `strings.TrimSpace`.
unfoldable pub trim_space : Text → Text
unfolding trim_left trim_left_reversed
trim_space s = reverse (trim_left_reversed (reverse (trim_left s)))

-- The order of strings by their bytes.
unfoldable pub text_ltb : Text → Text → Bool
text_ltb [] [] = false
text_ltb [] (b ∷ t) = true
text_ltb (a ∷ s) [] = false
text_ltb (a ∷ s) (b ∷ t) = ltb a b || (nat_beq a b && text_ltb s t)

-- `strings.ContainsAny` for ASCII characters.
unfoldable pub contains_any : Text → Text → Bool
contains_any s chars = any (λ c. any (λ d. nat_beq c d) chars) s

abbrev extend_first : ℕ → List Text → List Text
extend_first c [] = (c ∷ []) ∷ []
extend_first c (part ∷ parts) = (c ∷ part) ∷ parts

-- `strings.Split` at a separator of one byte.
unfoldable pub split : ℕ → Text → List Text
split sep [] = [] ∷ []
split sep (c ∷ s) =
    let parts = split sep s in if nat_beq c sep then [] ∷ parts else extend_first c parts

-- A text that does not hold the separator.
abbrev pub lacks : ℕ → Text → Bool
lacks sep s = all (λ c. not (nat_beq c sep)) s

abbrev pub join_from : ℕ → Text → List Text → Text
join_from sep part [] = part
join_from sep part (next ∷ parts) = part ++ sep ∷ join_from sep next parts

-- `strings.Join`.
abbrev pub join : ℕ → List Text → Text
join sep [] = []
join sep (part ∷ parts) = join_from sep part parts

split-cons : (sep : ℕ) (s : Text) → (p : Text) × (ps : List Text) × (split sep s ≡ p ∷ ps)
unfolding split
split-cons sep [] = ([], [], refl)
split-cons sep (c ∷ s) =
    let (p, ps, e) = split-cons sep s in
    elim (Bool-cases (nat_beq c sep)) [
      | inl b ↦ ([], p ∷ ps, rw (b, e) refl)
      | inr b ↦ (c ∷ p, ps, rw (b, e) refl)
    ]

join_from-cons :
    (sep c : ℕ) (p : Text) (ps : List Text) → join_from sep (c ∷ p) ps ≡ c ∷ join_from sep p ps
join_from-cons sep c p [] = refl
join_from-cons sep c p (q ∷ ps) = refl

pub join-split : (sep : ℕ) (s : Text) → join sep (split sep s) ≡ s
unfolding split
join-split sep [] = refl
join-split sep (c ∷ s) =
    let (p, ps, e) = split-cons sep s in
    let ih : join_from sep p ps ≡ s = subst (λ x. join sep x ≡ s) e (join-split sep s) in
    elim (Bool-cases (nat_beq c sep)) [
      | inl b ↦ rw (b, e) (ground (arith, b, ih, nat_beq_iff c sep))
      | inr b ↦ rw (b, e) (ground (arith, join_from-cons sep c p ps, ih))
    ]

pub split-lacks : (sep : ℕ) (s : Text) → All (λ part. lacks sep part ≡ true) (split sep s)
unfolding split
split-lacks sep [] = (refl, tt)
split-lacks sep (c ∷ s) =
    let (p, ps, e) = split-cons sep s in
    let ih = subst (λ x. All (λ part. lacks sep part ≡ true) x) e (split-lacks sep s) in
    elim (Bool-cases (nat_beq c sep)) [
      | inl b ↦ rw (b, e) (refl, ih)
      | inr b ↦ rw (b, e) (ground (arith, b, ih.0), ih.1)
    ]

pub split-append :
    (sep : ℕ) (part rest : Text)
    → lacks sep part ≡ true
    → split sep (part ++ sep ∷ rest) ≡ part ∷ split sep rest
unfolding split
split-append sep [] rest h = rw ((nat_beq_iff sep sep).1 refl) refl
split-append sep (c ∷ part) rest h = ground (arith, split-append sep part rest (ground arith))

pub split-whole : (sep : ℕ) (part : Text) → lacks sep part ≡ true → split sep part ≡ part ∷ []
unfolding split
split-whole sep [] h = refl
split-whole sep (c ∷ part) h = ground (arith, split-whole sep part (ground arith))
