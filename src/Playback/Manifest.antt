-- ===== src/Playback/Manifest.antt =====
-- service.go: `ReadManifest`, `rewriteManifest`, `allowedManifestTag` and `ReadSegment`.
use iolink.Base.{
  ◌==◌, text_eq, int_eq, Bool, true, false, ◌&&◌, ◌||◌, not, if◌then◌else◌, leb, nat_eq, Text, text,
  is_empty, List, [], ◌∷◌, ◌++◌, length, Option, none, some, GoError, plain, media, MediaError,
  contains_any, has_prefix, contains, replace_crlf, trim_newline, split, join,
}
use iolink.Media.{Context, MediaAccess, SegmentMapping, max_manifest_bytes, max_segment_bytes}
use iolink.Playback.Effects.{M, ◌>>=◌, ◌>>◌, return, require, need, on_err, Config}
use iolink.Playback.Checks.{path_escape, normalize_media_store_error, normalize_media_source_error}
use iolink.Playback.Segments.{valid_segment_path}
use iolink.Playback.Service.{forbidden, not_found, unavailable, authorize_media}

abbrev pub bad_media : GoError
bad_media = plain (media MediaError.bad_media)

unfoldable pub allowed_manifest_tag : Text → Bool
allowed_manifest_tag line =
    not (contains line (text "URI=") || contains line (text "../") || contains line (text "\\"))
    && (line == text "#EXTM3U"
        || has_prefix line (text "#EXTINF:")
        || has_prefix line (text "#EXT-X-VERSION:")
        || has_prefix line (text "#EXT-X-TARGETDURATION:")
        || has_prefix line (text "#EXT-X-MEDIA-SEQUENCE:")
        || has_prefix line (text "#EXT-X-DISCONTINUITY-SEQUENCE:")
        || line == text "#EXT-X-DISCONTINUITY"
        || has_prefix line (text "#EXT-X-PROGRAM-DATE-TIME:")
        || line == text "#EXT-X-GAP"
        || line == text "#EXT-X-INDEPENDENT-SEGMENTS"
        || line == text "#EXT-X-ENDLIST"
        || line == text "#EXT-X-PLAYLIST-TYPE:EVENT")

-- A line of a manifest that is let through.
pub data Line : Type 0 where
  tag segment : Text → Line

unfoldable pub parse_line : Text → Option Line
parse_line line =
    if contains_any line (0 ∷ 13 ∷ [])
    then none
    else if has_prefix line (text "#")
    then if allowed_manifest_tag line then some (tag line) else none
    else if is_empty line || not (valid_segment_path line)
    then none
    else some (segment line)

abbrev more_lines : Option Line → Option (List Line) → Option (List Line)
more_lines (some l) (some ls) = some (l ∷ ls)
more_lines none _ = none
more_lines (some l) none = none

unfoldable pub parse_lines : List Text → Option (List Line)
unfolding parse_line
parse_lines [] = some []
parse_lines (line ∷ lines) = more_lines (parse_line line) (parse_lines lines)

abbrev pub from_header : List Text → Option (List Line)
from_header [] = none
from_header (first ∷ lines) = if first == text "#EXTM3U" then parse_lines (first ∷ lines) else none

-- The lines of a manifest, where the loop over them lets them through. The first one has to be the
-- header, so that a segment never stands in its place.
unfoldable pub parse_manifest : Text → Option (List Line)
unfolding parse_lines
parse_manifest manifest = from_header (split b'\n' (trim_newline (replace_crlf manifest)))

unfoldable pub segment_url : Text → Text → Text → Text
segment_url raw_token session_id id =
    text "/media/v1/"
    ++ (path_escape raw_token
        ++ (text "/" ++ (path_escape session_id ++ (text "/segments/" ++ path_escape id))))

unfoldable pub new_mapping : MediaAccess → Text → Text → SegmentMapping
new_mapping a id path = record {
  id = id;
  session_id = a.session_id;
  stream_id = a.stream_id;
  source_version = a.source_version;
  path = path;
}

-- One round of the loop over the mappings that the store created.
unfoldable pub confirms : MediaAccess → SegmentMapping → SegmentMapping → Bool
confirms a got want =
    not (is_empty got.id)
    && got.id == want.id
    && got.session_id == a.session_id
    && got.stream_id == a.stream_id
    && got.source_version == a.source_version
    && got.path == want.path
    && valid_segment_path got.path

unfoldable pub confirm_all : MediaAccess → List SegmentMapping → List SegmentMapping → Bool
unfolding confirms
confirm_all a [] _ = true
confirm_all a (got ∷ gots) [] = false
confirm_all a (got ∷ gots) (want ∷ wants) = confirms a got want && confirm_all a gots wants

-- `ReadSegment` on the mapping that the store resolved.
unfoldable pub serves : MediaAccess → Text → Text → SegmentMapping → Bool
serves a session_id segment_id m =
    m.id == segment_id
    && m.session_id == session_id
    && m.stream_id == a.stream_id
    && m.source_version == a.source_version
    && valid_segment_path m.path

-- The end of `rewriteManifest`: the store has to create what it is asked for.
unfoldable pub store_mappings :
    {W : Type 0}
    → MediaAccess
    → (List SegmentMapping → M W (List SegmentMapping))
    → List SegmentMapping
    → M W (Unit {0})
unfolding confirm_all
store_mappings a create_mappings mappings = do
  created ← on_err normalize_media_store_error (create_mappings mappings)
  require (length created == length mappings) unavailable
  require (confirm_all a created mappings) bad_media

-- The end of `ReadSegment`.
unfoldable pub fetch_mapped :
    {W : Type 0}
    → (Text → Text → M W SegmentMapping)
    → (MediaAccess → Text → M W Text)
    → MediaAccess
    → Text
    → Text
    → M W Text
unfolding serves
fetch_mapped resolve fetch access session_id segment_id = do
  mapping ← on_err normalize_media_store_error (resolve session_id segment_id)
  require (serves access session_id segment_id mapping) not_found
  content ← on_err normalize_media_source_error (fetch access mapping.path)
  require (not (is_empty content) && leb (length content) max_segment_bytes) bad_media
  return content

module _ {W : Type 0} (d : Config W) where
  -- The loop that gives every segment an identifier: the mappings and the lines.
  unfoldable pub rewrite_lines :
      MediaAccess → Text → List Line → M W (List SegmentMapping × List Text)
  unfolding new_mapping segment_url
  rewrite_lines a raw_token [] = return ([], [])
  rewrite_lines a raw_token (tag line ∷ lines) = do
    rest ← rewrite_lines a raw_token lines
    return (rest.0, line ∷ rest.1)
  rewrite_lines a raw_token (segment path ∷ lines) = do
    id ← d.new_uuid
    rest ← rewrite_lines a raw_token lines
    return (new_mapping a id path ∷ rest.0, segment_url raw_token a.session_id id ∷ rest.1)

  unfoldable pub rewrite_manifest : MediaAccess → Text → Text → M W Text
  unfolding parse_manifest rewrite_lines store_mappings
  rewrite_manifest a raw_token manifest = do
    create_mappings ← need d.create_mappings bad_media
    lines ← need (parse_manifest manifest) bad_media
    rewritten ← rewrite_lines a raw_token lines
    let output = join b'\n' rewritten.1 ++ text "\n"
    require (leb (length output) max_manifest_bytes) bad_media
    store_mappings a create_mappings rewritten.0
    return output

  unfoldable pub read_manifest : Context → Text → Text → M W Text
  unfolding rewrite_manifest
  read_manifest ctx raw_token session_id = do
    live ← need ctx forbidden
    access ← authorize_media d raw_token session_id
    fetch ← need d.manifest unavailable
    manifest ← on_err normalize_media_source_error (fetch access)
    require (not (is_empty manifest) && leb (length manifest) max_manifest_bytes) bad_media
    rewrite_manifest access raw_token manifest

  unfoldable pub read_segment : Context → Text → Text → Text → M W Text
  unfolding fetch_mapped
  read_segment ctx raw_token session_id segment_id = do
    live ← need ctx forbidden
    access ← authorize_media d raw_token session_id
    fetch ← need d.segments unavailable
    resolve ← need d.resolve_mapping unavailable
    require (not (is_empty segment_id)) unavailable
    fetch_mapped resolve fetch access session_id segment_id
