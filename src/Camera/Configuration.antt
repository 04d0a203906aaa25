-- ===== src/Camera/Configuration.antt =====
-- internal/camera/configuration.go: `ParseConfiguration`. The encoding of the credentials by
-- encoding/json is a parameter.
use iolink.Base.{
  Bool, true, false, ◌&&◌, not, if◌then◌else◌, leb, Text, is_empty, [], ℤ, pos, negsuc, ◌==◌,
  nat_eq, ltb_ℤ, Option, none, some, trim_space, valid_utf8, rune_count, has_control, GoError,
  plain, camera, Result, ok, err, ◌>>=◌, ◌>>◌, guard, map_err, CameraError,
}
use iolink.Camera.Source.{
  VideoSourceKind, video_rtsp, video_gb28181, other_kind, VideoSource, Parsers,
  new_rtsp_video_source, new_gb_video_source,
}

pub record Credentials : Type 0 where
  pub username : Text
  pub password : Text

pub record SourceInput : Type 0 where
  pub kind : VideoSourceKind
  pub uri : Text
  pub credentials : Option Credentials
  pub device_id : ℤ
  pub channel_id : Text

-- No source is the zero configuration's.
pub record Configuration : Type 0 where
  pub pond_id : ℤ
  pub name : Text
  pub source : Option VideoSource
  pub credential : Text

abbrev pub invalid_camera : GoError
invalid_camera = plain (camera CameraError.invalid)

-- Valid text of 1 to 128 runes, none of them a control character.
unfoldable pub valid_label : Text → Bool
valid_label s =
    valid_utf8 s && leb 1 (rune_count s) && leb (rune_count s) 128 && not (has_control s)

unfoldable pub valid_name : Text → Bool
unfolding valid_label
valid_name name = valid_label name && not (is_empty (trim_space name))

abbrev pub is_zero : ℤ → Bool
is_zero (pos n) = n == 0
is_zero (negsuc n) = false

abbrev is_absent : Option Credentials → Bool
is_absent none = true
is_absent (some c) = false

abbrev encoded : Option Text → Result Text
encoded none = err invalid_camera
encoded (some s) = ok s

-- The credential of an RTSP source; a source without credentials has none.
unfoldable pub parse_credentials : (Credentials → Option Text) → Option Credentials → Result Text
unfolding valid_label
parse_credentials marshal none = ok []
parse_credentials marshal (some c) =
    if valid_label c.username && valid_label c.password
    then encoded (marshal c)
    else err invalid_camera

abbrev pub configuration : ℤ → Text → VideoSource → Text → Configuration
configuration pond_id name source credential = record {
  pond_id = pond_id;
  name = name;
  source = some source;
  credential = credential;
}

unfoldable pub parse_source :
    Parsers → (Credentials → Option Text) → SourceInput → Result (VideoSource × Text)
unfolding new_rtsp_video_source new_gb_video_source parse_credentials
parse_source p marshal input = elim input.kind [
  | video_rtsp ↦ do
    guard (is_zero input.device_id && is_empty input.channel_id) invalid_camera
    source ← map_err (λ e. invalid_camera) (new_rtsp_video_source p input.uri)
    credential ← parse_credentials marshal input.credentials
    ok (source, credential)
  | video_gb28181 ↦
      if is_empty input.uri && is_absent input.credentials
      then (do
        source ←
            map_err (λ e. invalid_camera) (new_gb_video_source input.device_id input.channel_id)
        ok (source, []))
      else err invalid_camera
  | other_kind t ↦ err invalid_camera
]

unfoldable pub parse_configuration :
    Parsers → (Credentials → Option Text) → ℤ → Text → SourceInput → Result Configuration
unfolding valid_name parse_source
parse_configuration p marshal pond_id name input = do
  guard (ltb_ℤ (pos 0) pond_id && valid_name name) invalid_camera
  parsed ← parse_source p marshal input
  ok (configuration pond_id name parsed.0 parsed.1)
