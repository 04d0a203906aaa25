-- ===== src/Base/Substrings.antt =====
-- What the program uses of Go's `strings` package on parts of a text.
use Prim.Native.Nat.{ℕ}
use mathlib.Core.Path.{◌≡◌, ap, ◌∙◌}
use mathlib.Core.Bool.{Bool, true, false, ◌&&◌, ◌||◌}
use native.Mathlib.Omega.{arith}
use mathlib.Core.List.{List, [], ◌∷◌, ◌++◌, append_assoc}
use iolink.Base.Tests.{nat_beq, if◌then◌else◌}
use iolink.Base.Lists.{Text, All}
use iolink.Base.Strings.{lacks, join, join_from, split, split-append}

-- `strings.HasPrefix`, with the text first.
unfoldable pub has_prefix : Text → Text → Bool
has_prefix s [] = true
has_prefix [] (c ∷ p) = false
has_prefix (a ∷ s) (c ∷ p) = nat_beq a c && has_prefix s p

-- `strings.Contains`.
unfoldable pub contains : Text → Text → Bool
unfolding has_prefix
contains [] p = has_prefix [] p
contains (a ∷ s) p = has_prefix (a ∷ s) p || contains s p

-- `strings.ReplaceAll(s, "\r\n", "\n")`.
unfoldable pub replace_crlf : Text → Text
replace_crlf [] = []
replace_crlf (a ∷ []) = a ∷ []
replace_crlf (a ∷ b ∷ s) =
    let after_both = replace_crlf s in
    let after_one = replace_crlf (b ∷ s) in
    if nat_beq a 13 && nat_beq b 10 then 10 ∷ after_both else a ∷ after_one

-- `strings.TrimSuffix(s, "\n")`.
unfoldable pub trim_newline : Text → Text
trim_newline [] = []
trim_newline (c ∷ []) = if nat_beq c 10 then [] else c ∷ []
trim_newline (c ∷ d ∷ s) = c ∷ trim_newline (d ∷ s)

pub lacks-append :
    (sep : ℕ) (s t : Text) → lacks sep s ≡ true → lacks sep t ≡ true → lacks sep (s ++ t) ≡ true
lacks-append sep [] t h k = k
lacks-append sep (c ∷ s) t h k = ground (arith, lacks-append sep s t (ground arith) k)

-- Splitting undoes joining, and a separator at the end gives an empty last part.
split-join_from :
    (sep : ℕ) (p : Text) (ps : List Text)
    → lacks sep p ≡ true
    → All (λ part. lacks sep part ≡ true) ps
    → split sep (join_from sep p ps ++ sep ∷ []) ≡ p ∷ ps ++ [] ∷ []
unfolding split
split-join_from sep p [] h v = split-append sep p [] h
split-join_from sep p (q ∷ ps) h v =
    ap (split sep) (append_assoc p (sep ∷ join_from sep q ps) (sep ∷ []))
    ∙ split-append sep p (join_from sep q ps ++ sep ∷ []) h
    ∙ ap (λ parts. p ∷ parts) (split-join_from sep q ps v.0 v.1)

pub split-join :
    (sep : ℕ) (p : Text) (ps : List Text)
    → All (λ part. lacks sep part ≡ true) (p ∷ ps)
    → split sep (join sep (p ∷ ps) ++ sep ∷ []) ≡ p ∷ ps ++ [] ∷ []
split-join sep p ps v = split-join_from sep p ps v.0 v.1
