-- ===== src/Base/Runes.antt =====
-- What the program uses of Go's `unicode` and `utf8` packages, on bytes.
use Prim.Native.Nat.{ℕ, suc}
use mathlib.Core.Bool.{Bool, true, false, ◌&&◌, ◌||◌, not}
use mathlib.Core.List.{[], ◌∷◌}
use iolink.Base.Tests.{ltb, leb, nat_beq, if◌then◌else◌}
use iolink.Base.Lists.{Text}

-- One byte of a rune's tail.
abbrev continues : ℕ → Bool
continues c = leb 0x80 c && leb c 0xbf

-- The second byte after the first of three, and of four.
abbrev second_of_three : ℕ → ℕ → Bool
second_of_three a b =
    continues b && not (nat_beq a 0xe0 && ltb b 0xa0) && not (nat_beq a 0xed && leb 0xa0 b)

abbrev second_of_four : ℕ → ℕ → Bool
second_of_four a b =
    continues b && not (nat_beq a 0xf0 && ltb b 0x90) && not (nat_beq a 0xf4 && leb 0x90 b)

-- `utf8.ValidString`.
unfoldable pub valid_utf8 : Text → Bool
valid_utf8 [] = true
valid_utf8 (a ∷ []) = ltb a 0x80
valid_utf8 (a ∷ b ∷ []) = if ltb a 0x80 then ltb b 0x80 else leb 0xc2 a && leb a 0xdf && continues b
valid_utf8 (a ∷ b ∷ c ∷ []) =
    let one = valid_utf8 (b ∷ c ∷ []) in
    if ltb a 0x80
    then one
    else if leb 0xc2 a && leb a 0xdf
    then continues b && ltb c 0x80
    else leb 0xe0 a && leb a 0xef && second_of_three a b && continues c
valid_utf8 (a ∷ b ∷ c ∷ d ∷ s) =
    let one = valid_utf8 (b ∷ c ∷ d ∷ s) in
    let two = valid_utf8 (c ∷ d ∷ s) in
    let three = valid_utf8 (d ∷ s) in
    let four = valid_utf8 s in
    if ltb a 0x80
    then one
    else if leb 0xc2 a && leb a 0xdf
    then continues b && two
    else if leb 0xe0 a && leb a 0xef
    then second_of_three a b && continues c && three
    else leb 0xf0 a && leb a 0xf4 && second_of_four a b && continues c && continues d && four

-- `utf8.RuneCountInString` of a valid text: the bytes that begin a rune.
unfoldable pub rune_count : Text → ℕ
rune_count [] = 0
rune_count (c ∷ s) = if continues c then rune_count s else suc (rune_count s)

-- `strings.ContainsFunc(s, unicode.IsControl)`: a byte below 0x20 or 0x7f, or U+0080 to U+009F; the
-- first byte of these two begins a rune wherever it stands.
unfoldable pub has_control : Text → Bool
has_control [] = false
has_control (a ∷ []) = ltb a 0x20 || nat_beq a 0x7f
has_control (a ∷ b ∷ s) =
    ltb a 0x20
    || nat_beq a 0x7f
    || (nat_beq a 0xc2 && leb 0x80 b && leb b 0x9f)
    || has_control (b ∷ s)
