-- ===== src/Playback/Checks.antt =====
-- service.go: the pure checks and the translations of errors.
use iolink.Base.{
  ℕ, zero, suc, ◌+◌, ◌-◌, ◌*◌, ◌/◌, ◌%◌, ◌==◌, text_eq, int_eq, nat_eq, Bool, false, ◌&&◌, ◌||◌,
  not, if◌then◌else◌, ltb, leb, Text, text, is_empty, ℤ, pos, negsuc, is_positive, [], ◌∷◌, ◌++◌,
  map, Option, none, some, GoError, plain, is_err, media, domain, MediaError, DomainError, Result,
  ok, err, guard,
}
use iolink.Media.{Time, second, before, after, is_zero_time, MediaClaims}
use iolink.Playback.Effects.{ParsedUrl}

-- domain/video_playback.go.
abbrev pub max_video_playback_ttl : ℕ
max_video_playback_ttl = 300 * second

abbrev pub media_audience : Text
media_audience = text "iolink-media-v1"

-- The tenant scope that a context carries (domain/tenant_context.go).
pub record Actor : Type 0 where
  pub tenant_value : Option ℤ
  pub user_value : Option ℤ
  pub role : Text

-- `TenantID` and `TenantUserID`: the value, and whether it is there and positive.
unfoldable pub scope_id : Option ℤ → ℤ × Bool
scope_id none = (pos 0, false)
scope_id (some id) = (id, is_positive id)

unfoldable pub tenant_id : Actor → ℤ × Bool
unfolding scope_id
tenant_id a = scope_id a.tenant_value

unfoldable pub tenant_user_id : Actor → ℤ × Bool
unfolding scope_id
tenant_user_id a = scope_id a.user_value

abbrev forbidden : GoError
forbidden = plain (media MediaError.forbidden)

unfoldable pub require_actor : Option Actor → Result Actor
unfolding tenant_id tenant_user_id
require_actor none = err forbidden
require_actor (some a) =
    if (tenant_id a).1
      && (tenant_user_id a).1
      && is_positive (tenant_id a).0
      && is_positive (tenant_user_id a).0
      && not (is_empty a.role)
    then ok a
    else err forbidden

unfoldable pub normalize_store_error : GoError → GoError
unfolding is_err
normalize_store_error e =
    if is_err e (domain DomainError.not_found)
    then plain (media MediaError.not_found)
    else if is_err e (domain DomainError.forbidden)
    then forbidden
    else if is_err e (domain DomainError.conflict)
    then plain (media MediaError.conflict)
    else e

-- The `switch` compares the error value itself.
abbrev only_shown : GoError → GoError
only_shown (plain (media MediaError.not_found)) = plain (media MediaError.not_found)
only_shown (plain (media MediaError.forbidden)) = plain (media MediaError.forbidden)
only_shown (plain (media MediaError.conflict)) = plain (media MediaError.conflict)
only_shown _ = plain (media MediaError.unavailable)

unfoldable pub normalize_media_store_error : GoError → GoError
unfolding normalize_store_error
normalize_media_store_error e = only_shown (normalize_store_error e)

unfoldable pub normalize_license_error : GoError → GoError
unfolding is_err
normalize_license_error e =
    if is_err e (media MediaError.license_required) || is_err e (domain DomainError.forbidden)
    then plain (media MediaError.license_required)
    else plain (media MediaError.license_unavailable)

unfoldable pub normalize_media_source_error : GoError → GoError
unfolding is_err
normalize_media_source_error e =
    if is_err e (media MediaError.unavailable)
      || is_err e (media MediaError.not_found)
      || is_err e (media MediaError.forbidden)
    then e
    else plain (media MediaError.bad_media)

unfoldable pub claims_fit : MediaClaims → MediaClaims → Time → Bool
claims_fit got want now =
    got.session_id == want.session_id
    && got.tenant_id == want.tenant_id
    && got.camera_id == want.camera_id
    && got.user_id == want.user_id
    && got.source_version == want.source_version
    && got.audience == media_audience
    && not (is_empty got.jti)
    && not (is_zero_time got.expires_at)
    && not (is_zero_time got.issued_at)
    && leb (got.expires_at - got.issued_at) max_video_playback_ttl
    && not (after got.issued_at now)
    && before now got.expires_at

unfoldable pub validate_claims : MediaClaims → MediaClaims → Time → Result (Unit {0})
validate_claims got want now =
    guard (claims_fit got want now) (plain (media MediaError.unauthorized))

-- `strings.EqualFold(s, "https")` on a scheme, whose letters are ASCII.
unfoldable pub lower_ascii : ℕ → ℕ
lower_ascii c = if leb 65 c && leb c 90 then c + 32 else c

unfoldable pub valid_parsed_url : Option ParsedUrl → Bool
unfolding lower_ascii
valid_parsed_url none = false
valid_parsed_url (some u) =
    u.is_abs
    && map lower_ascii u.scheme == text "https"
    && not (is_empty u.host)
    && not (is_empty u.hostname)
    && not u.has_user
    && is_empty u.raw_query
    && is_empty u.fragment
    && is_empty u.opaque_part

-- `url.PathEscape`: the bytes that it leaves as they are.
unfoldable pub unescaped : ℕ → Bool
unescaped c =
    (leb 97 c && leb c 122)
    || (leb 65 c && leb c 90)
    || (leb 48 c && leb c 57)
    || c == b'-'
    || c == b'_'
    || c == b'.'
    || c == b'~'
    || c == b'$'
    || c == b'&'
    || c == b'+'
    || c == b':'
    || c == b'='
    || c == b'@'

unfoldable pub hex_digit : ℕ → ℕ
hex_digit n = if ltb n 10 then 48 + n else 55 + n

unfoldable pub path_escape : Text → Text
unfolding unescaped hex_digit
path_escape [] = []
path_escape (c ∷ s) =
    let rest = path_escape s in
    if unescaped c then c ∷ rest else b'%' ∷ hex_digit (c / 16) ∷ hex_digit (c % 16) ∷ rest

drop_slash : ℕ → Text → Text
drop_slash c [] = if c == b'/' then [] else c ∷ []
drop_slash c (d ∷ t) = c ∷ d ∷ t

-- `strings.TrimRight(base, "/")`.
unfoldable pub trim_slashes : Text → Text
unfolding drop_slash
trim_slashes [] = []
trim_slashes (c ∷ s) = drop_slash c (trim_slashes s)

unfoldable pub manifest_url : Text → Text → Text → Text
unfolding trim_slashes path_escape
manifest_url base token session_id =
    trim_slashes base
    ++ text "/"
    ++ path_escape token
    ++ text "/"
    ++ path_escape session_id
    ++ text "/index.m3u8"

-- The decimal digits of a number, with fuel for as many divisions.
unfoldable pub decimal_from : ℕ → ℕ → Text
decimal_from zero n = []
decimal_from (suc f) n =
    let rest = decimal_from f (n / 10) ++ (48 + n % 10) ∷ [] in
    if ltb n 10 then (48 + n) ∷ [] else rest

-- `%d` of an int64.
unfoldable pub decimal : ℤ → Text
unfolding decimal_from
decimal (pos n) = decimal_from (suc n) n
decimal (negsuc n) = b'-' ∷ decimal_from (suc (suc n)) (suc n)

unfoldable pub start_job_key : ℤ → ℤ → Text
unfolding decimal
start_job_key camera_id source_version =
    text "start:" ++ decimal camera_id ++ text ":" ++ decimal source_version
