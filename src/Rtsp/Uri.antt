-- ===== src/Rtsp/Uri.antt =====
-- internal/media/rtsp/admission.go: `parseURI` and `validatePath`. The parser of net/url is a
-- parameter: what `url.Parse` returns, with the answers of the URL's methods.
use iolink.Base.{
  ℕ, ◌+◌, ◌-◌, ◌*◌, ◌^◌, ◌==◌, nat_eq, text_eq, Bool, false, ◌&&◌, ◌||◌, not, if◌then◌else◌, ltb,
  leb, Text, text, is_empty, is_digit, value, [], ◌∷◌, all, length, Option, none, some, contains,
  contains_any, split, has_control, plain, rtsp, invalid_uri, Result, ok, err,
}

pub record Url : Type 0 where
  pub scheme : Text
  pub opaque_part : Text
  pub has_user : Bool
  pub host : Text
  pub hostname : Text
  pub port : Text
  pub path : Text
  pub escaped_path : Text

abbrev pub default_port : ℕ
default_port = 554

abbrev is_hex : ℕ → Bool
is_hex c = is_digit c || (leb 65 c && leb c 70) || (leb 97 c && leb c 102)

abbrev hex_value : ℕ → ℕ
hex_value c = if is_digit c then c - 48 else if leb 97 c then c - 87 else c - 55

abbrev after : ℕ → Option Text → Option Text
after c none = none
after c (some s) = some (c ∷ s)

-- `url.PathUnescape`.
unfoldable pub path_unescape : Text → Option Text
path_unescape [] = some []
path_unescape (a ∷ []) = if a == b'%' then none else some (a ∷ [])
path_unescape (a ∷ b ∷ []) =
    let rest = path_unescape (b ∷ []) in if a == b'%' then none else after a rest
path_unescape (a ∷ b ∷ c ∷ s) =
    let next = path_unescape (b ∷ c ∷ s) in
    let rest = path_unescape s in
    if not (a == b'%')
    then after a next
    else if is_hex b && is_hex c
    then after (16 * hex_value b + hex_value c) rest
    else none

-- `strings.ToLower`, as far as a search for ASCII text tells: no other rune becomes the letters sought.
unfoldable pub to_lower : Text → Text
to_lower [] = []
to_lower (c ∷ s) = (if leb 65 c && leb c 90 then c + 32 else c) ∷ to_lower s

unfoldable pub valid_decoded : Text → Bool
unfolding to_lower
valid_decoded decoded =
    not (has_control decoded)
    && not (contains decoded (text "\\"))
    && not (contains (to_lower decoded) (text "%2e"))
    && not (contains (to_lower decoded) (text "%5c"))
    && all (λ segment. not (segment == text "..")) (split b'/' decoded)

unfoldable pub validate_path : Text → Bool
unfolding path_unescape valid_decoded
validate_path path = elim (path_unescape path) [
  | none ↦ false
  | some decoded ↦ valid_decoded decoded
]

-- `strings.HasSuffix(host, ":")`.
unfoldable pub ends_with_colon : Text → Bool
ends_with_colon [] = false
ends_with_colon (c ∷ []) = c == b':'
ends_with_colon (c ∷ d ∷ s) = ends_with_colon (d ∷ s)

-- `strconv.ParseUint(raw, 10, 16)`, and not 0.
unfoldable pub parse_port : Text → Option ℕ
unfolding value
parse_port raw =
    if is_empty raw
    then some default_port
    else if all is_digit raw && ltb (value raw) (2 ^ 16) && not (value raw == 0)
    then some (value raw)
    else none

unfoldable pub valid_raw : Text → Bool
valid_raw raw =
    not (is_empty raw)
    && leb (length raw) 2048
    && not (contains_any raw (text "?#\\"))
    && not (has_control raw)

unfoldable pub valid_origin : Url → Bool
valid_origin u =
    u.scheme == text "rtsp"
    && is_empty u.opaque_part
    && not u.has_user
    && not (is_empty u.host)
    && not (is_empty u.hostname)
    && not (contains_any u.hostname (text "% \t\r\n"))
    && not (ends_with_colon u.host)

unfoldable pub parse_uri : (Text → Option Url) → Text → Result (Url × ℕ)
unfolding valid_raw valid_origin parse_port validate_path
parse_uri parse raw =
    if not (valid_raw raw) then err (plain (rtsp invalid_uri)) else elim (parse raw) [
      | none ↦ err (plain (rtsp invalid_uri))
      | some u ↦
          if not (valid_origin u)
          then err (plain (rtsp invalid_uri))
          else elim (parse_port u.port) [
            | none ↦ err (plain (rtsp invalid_uri))
            | some port ↦
                if validate_path u.escaped_path
                then ok (u, port)
                else err (plain (rtsp invalid_uri))
          ]
    ]
