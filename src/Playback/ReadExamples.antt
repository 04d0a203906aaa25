-- ===== src/Playback/ReadExamples.antt =====
-- The theorems on manifests and segments, at a manifest of one segment.
use iolink.Base.{
  value, ℕ, ◌≡◌, ◌↔◌, refl, true, Text, text, none, some, ok, has_prefix, contains, contains_any,
  replace_crlf, trim_newline, split, text_beq,
}
use iolink.Media.{Context, MediaAccess, SegmentMapping}
use iolink.Playback.Effects.{Config}
use iolink.Playback.Checks.{validate_claims, claims_fit, path_escape}
use iolink.Playback.Service.{new_claims, check_access, authorize_media}
use iolink.Playback.Segments.{
  find_submatch, match_groups, field, take_digits, skip, last_field, span_digits, valid_parts,
  valid_date, days_in, valid_segment_path,
}
use iolink.Playback.Paths.{SegmentAt, valid_segment_path_iff}
use iolink.Playback.Manifest.{
  allowed_manifest_tag, parse_line, parse_lines, parse_manifest, segment_url, new_mapping, confirms,
  confirm_all, store_mappings, serves, fetch_mapped, rewrite_lines, rewrite_manifest, read_manifest,
  read_segment,
}
use iolink.Playback.Access.{Authorized}
use iolink.Playback.Rewrites.{Published}
use iolink.Playback.Reads.{Served, read_manifest-Published, read_segment-Served}
use iolink.Playback.Examples.{access, returns, config}

abbrev path : Text
path = text "2024-02-29/23/05-59_7.ts"

valid_segment_path_iff_example : (valid_segment_path path ≡ true) ↔ SegmentAt path
valid_segment_path_iff_example = valid_segment_path_iff path

abbrev mapping : SegmentMapping
mapping = record {
  id = text "v";
  session_id = text "v";
  stream_id = access.stream_id;
  source_version = access.source_version;
  path = path;
}

abbrev source : Text
source = text "#EXTM3U\r\n#EXTINF:4,\n2024-02-29/23/05-59_7.ts\n#EXT-X-ENDLIST\n"

abbrev recorded : Config ℕ
recorded = record (config true) {
  manifest = some (λ a. returns source);
  segments = some (λ a p. returns p);
  create_mappings = some (λ ms. returns ms);
  resolve_mapping = some (λ s id. returns mapping);
}

abbrev live : Context
live = some none

abbrev answered : Text
answered = text "#EXTM3U\n#EXTINF:4,\n/media/v1/raw/v/segments/v\n#EXT-X-ENDLIST\n"

manifest_read : read_manifest recorded live (text "raw") (text "v") 0 ≡ (5, ok answered)
unfolding read_manifest rewrite_manifest parse_manifest parse_lines parse_line allowed_manifest_tag
    valid_segment_path find_submatch match_groups field take_digits skip last_field span_digits
    valid_parts valid_date days_in value has_prefix contains contains_any replace_crlf trim_newline
    split text_beq rewrite_lines new_mapping segment_url path_escape store_mappings confirm_all
    confirms authorize_media validate_claims claims_fit check_access new_claims
manifest_read = refl

read_manifest-Published_example :
    (w1 : ℕ) × (a : MediaAccess) × Authorized recorded (text "raw") (text "v") 0 w1 a
    × Published recorded a (text "raw") 5 answered
read_manifest-Published_example =
    read_manifest-Published recorded live (text "raw") (text "v") 0 manifest_read

segment_read : read_segment recorded live (text "raw") (text "v") (text "v") 0 ≡ (4, ok path)
unfolding read_segment fetch_mapped serves valid_segment_path find_submatch match_groups field
    take_digits skip last_field span_digits valid_parts valid_date days_in value has_prefix contains
    contains_any text_beq authorize_media validate_claims claims_fit check_access new_claims
segment_read = refl

read_segment-Served_example : Served recorded (text "raw") (text "v") (text "v") 0 4 path
read_segment-Served_example =
    read_segment-Served recorded live (text "raw") (text "v") (text "v") 0 segment_read
