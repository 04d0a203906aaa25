-- ===== src/Camera/Source.antt =====
-- internal/domain/video_source.go. The parsers of net/url and net/netip are parameters.
use iolink.Base.{
  ◌==◌, text_eq, Bool, true, false, ◌&&◌, ◌||◌, not, if◌then◌else◌, leb, Text, text, is_empty,
  is_digit, value, [], ◌∷◌, all, length, ℤ, pos, ltb_ℤ, Option, none, some, contains, contains_any,
  has_prefix, split, has_control, plain, camera, invalid_video_source, Result, ok, err,
}
use iolink.Gb.Peers.{Addr, no_addr, ipv4, ipv6}
use iolink.Rtsp.Uri.{Url, ends_with_colon}

pub data VideoSourceKind : Type 0 where
  video_rtsp video_gb28181 : VideoSourceKind
  other_kind : Text → VideoSourceKind

pub data VideoSource : Type 0 where
  rtsp_source : Text → VideoSource
  gb_source : ℤ → Text → VideoSource

abbrev pub kind : VideoSource → VideoSourceKind
kind (rtsp_source uri) = video_rtsp
kind (gb_source device_id channel_id) = video_gb28181

pub record Parsers : Type 0 where
  pub parse_url : Text → Option Url
  pub parse_addr : Text → Option Addr

abbrev invalid_source : Result VideoSource
invalid_source = err (plain (camera invalid_video_source))

abbrev is_6 : Option Addr → Bool
is_6 (some (ipv6 a zone)) = true
is_6 (some (ipv4 a)) = false
is_6 (some no_addr) = false
is_6 none = false

-- `strconv.Atoi`, as far as a port from 1 to 65535 tells: a sign `-` gives none of these.
abbrev unsigned : Text → Text
unsigned [] = []
unsigned (c ∷ s) = if (c ∷ []) == text "+" then s else c ∷ s

unfoldable pub valid_port : Text → Bool
unfolding value
valid_port raw =
    let digits = unsigned raw in
    is_empty raw
    || (not (is_empty digits)
        && all is_digit digits
        && leb 1 (value digits)
        && leb (value digits) 65535)

unfoldable pub valid_host : Parsers → Url → Bool
valid_host p u =
    not (is_empty u.hostname)
    && not (contains_any u.hostname (text "% "))
    && not (ends_with_colon u.host)
    && (if has_prefix u.host (text "[")
        then is_6 (p.parse_addr u.hostname)
        else not (contains u.hostname (text ":")))

unfoldable pub valid_path : Text → Bool
valid_path path =
    not (has_control path)
    && not (contains_any path (text "\\%"))
    && all (λ segment. not (segment == text "..")) (split b'/' path)

unfoldable pub valid_url : Parsers → Url → Bool
unfolding valid_host valid_port valid_path
valid_url p u =
    u.scheme == text "rtsp"
    && is_empty u.opaque_part
    && not u.has_user
    && valid_host p u
    && valid_port u.port
    && valid_path u.path

unfoldable pub valid_uri : Text → Bool
valid_uri raw =
    leb 8 (length raw)
    && leb (length raw) 2048
    && not (contains_any raw (text "?#\\"))
    && not (has_control raw)

unfoldable pub new_rtsp_video_source : Parsers → Text → Result VideoSource
unfolding valid_uri valid_url
new_rtsp_video_source p raw =
    if not (valid_uri raw) then invalid_source else elim (p.parse_url raw) [
      | none ↦ invalid_source
      | some u ↦ if valid_url p u then ok (rtsp_source raw) else invalid_source
    ]

unfoldable pub new_gb_video_source : ℤ → Text → Result VideoSource
new_gb_video_source device_id channel_id =
    if ltb_ℤ (pos 0) device_id
      && leb (length channel_id) 20
      && leb 20 (length channel_id)
      && all is_digit channel_id
    then ok (gb_source device_id channel_id)
    else invalid_source
