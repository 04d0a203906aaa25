-- ===== src/Playback/Lines.antt =====
-- service.go: the lines of a rewritten manifest.
use iolink.Base.{
  nat_beq, nat_beq_iff, ltb, ◌/◌, ◌%◌, ℕ, ◌≡◌, refl, sym, subst, ◌⊎◌, inl, inr, text_eq, int_eq,
  nat_eq, true, false, Bool-cases, Text, text, List, [], ◌∷◌, ◌++◌, All, get_elem?, some,
  Option-cases, arith, lacks, lacks-append, split, split-lacks, trim_newline, replace_crlf,
}
use mathlib.Core.Option.{some-injective}
use iolink.Media.{MediaAccess, SegmentMapping}
use iolink.Playback.Checks.{unescaped, hex_digit, path_escape}
use iolink.Playback.Segments.{valid_segment_path}
use iolink.Playback.Manifest.{
  Line, tag, segment, allowed_manifest_tag, parse_line, parse_lines, from_header, parse_manifest,
  segment_url,
}

-- A mapping that belongs to an access, and leads to a segment.
pub record IsOwn (a : MediaAccess) (m : SegmentMapping) : Type 0 where
  pub same_session : m.session_id ≡ a.session_id
  pub same_stream : m.stream_id ≡ a.stream_id
  pub same_source : m.source_version ≡ a.source_version
  pub in_archive : valid_segment_path m.path ≡ true

-- What stands in a line of an answered manifest: an allowed tag, or the service's own address of one
-- of the mappings.
abbrev pub IsShown : MediaAccess → Text → List SegmentMapping → Text → Type 0
IsShown a raw_token ms line =
    (allowed_manifest_tag line ≡ true)
    ⊎ ((i : ℕ) × (m : SegmentMapping) × (get_elem? ms i ≡ some m)
        × (line ≡ segment_url raw_token a.session_id m.id))

unescaped-newline : (c : ℕ) → unescaped c ≡ true → nat_beq c b'\n' ≡ false
unfolding unescaped
unescaped-newline c h = elim (Bool-cases (nat_beq c b'\n')) [
  | inr b ↦ b
  | inl b ↦
      let e : unescaped b'\n' ≡ true =
        subst (λ x. unescaped x ≡ true) ((nat_beq_iff c b'\n').0 b) h in
      absurd (ground arith)
]

hex_digit-newline : (n : ℕ) → nat_beq (hex_digit n) b'\n' ≡ false
unfolding hex_digit
hex_digit-newline n = elim (Bool-cases (ltb n 10)) [ inl b ↦ ground arith | inr b ↦ ground arith ]

path_escape-lacks : (s : Text) → lacks b'\n' (path_escape s) ≡ true
unfolding path_escape
path_escape-lacks [] = refl
path_escape-lacks (c ∷ s) = elim (Bool-cases (unescaped c)) [
  | inl b ↦ ground (arith, unescaped-newline c b, path_escape-lacks s)
  | inr b ↦
      ground (arith, hex_digit-newline (c / 16), hex_digit-newline (c % 16), path_escape-lacks s)
]

pub segment_url-lacks :
    (raw_token session_id id : Text) → lacks b'\n' (segment_url raw_token session_id id) ≡ true
unfolding segment_url
segment_url-lacks raw_token session_id id =
    lacks-append b'\n' (path_escape raw_token)
      (text "/" ++ (path_escape session_id ++ (text "/segments/" ++ path_escape id)))
      (path_escape-lacks raw_token)
      (lacks-append b'\n' (path_escape session_id) (text "/segments/" ++ path_escape id)
        (path_escape-lacks session_id) (path_escape-lacks id))

-- Lines that the loop lets through.
abbrev pub IsLet : Line → Type 0
IsLet (tag line) = (allowed_manifest_tag line ≡ true) × (lacks b'\n' line ≡ true)
IsLet (segment path) = valid_segment_path path ≡ true

parse_line-IsLet :
    (line : Text) {l : Line} → lacks b'\n' line ≡ true → parse_line line ≡ some l → IsLet l
unfolding parse_line
parse_line-IsLet line h e = ground arith

parse_lines-IsLet :
    (lines : List Text) {ls : List Line}
    → All (λ line. lacks b'\n' line ≡ true) lines
    → parse_lines lines ≡ some ls
    → All IsLet ls
unfolding parse_lines
parse_lines-IsLet [] v e = subst (All IsLet) (some-injective [] _ e) tt
parse_lines-IsLet (line ∷ lines) v e = elim (Option-cases (parse_line line)) [
  | inl f ↦ absurd (ground arith)
  | inr (l, f) ↦ elim (Option-cases (parse_lines lines)) [
    | inl g ↦ absurd (ground arith)
    | inr (rest, g) ↦
        subst (All IsLet) (some-injective (l ∷ rest) _ (ground arith))
          (parse_line-IsLet line v.0 f, parse_lines-IsLet lines v.1 g)
  ]
]

parse_lines-cons :
    (line : Text) (lines : List Text) {ls : List Line}
    → parse_lines (line ∷ lines) ≡ some ls
    → (l : Line) × (rest : List Line) × (ls ≡ l ∷ rest)
unfolding parse_lines
parse_lines-cons line lines {ls} e = elim (Option-cases (parse_line line)) [
  | inl f ↦ absurd (ground arith)
  | inr (l, f) ↦ elim (Option-cases (parse_lines lines)) [
    | inl g ↦ absurd (ground arith)
    | inr (rest, g) ↦ (l, rest, sym (some-injective (l ∷ rest) ls (ground arith)))
  ]
]

from_header-IsLet :
    (lines : List Text) {ls : List Line}
    → All (λ line. lacks b'\n' line ≡ true) lines
    → from_header lines ≡ some ls
    → ((l : Line) × (rest : List Line) × (ls ≡ l ∷ rest)) × All IsLet ls
from_header-IsLet [] v e = absurd (ground arith)
from_header-IsLet (first ∷ lines) {ls} v e =
    let parsed : parse_lines (first ∷ lines) ≡ some ls = ground arith in
    (parse_lines-cons first lines parsed, parse_lines-IsLet (first ∷ lines) v parsed)

-- A manifest that is let through begins with its header.
pub parse_manifest-IsLet :
    (manifest : Text) {ls : List Line}
    → parse_manifest manifest ≡ some ls
    → ((l : Line) × (rest : List Line) × (ls ≡ l ∷ rest)) × All IsLet ls
unfolding parse_manifest
parse_manifest-IsLet manifest e =
    from_header-IsLet (split b'\n' (trim_newline (replace_crlf manifest)))
      (split-lacks b'\n' (trim_newline (replace_crlf manifest))) e
