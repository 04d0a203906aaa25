-- ===== src/License/Files.antt =====
-- internal/license/parsing.go and signature.go: `ValidatePayload`, `ParsePayload` and `Verify`. The
-- decoding of JSON and base64, SHA-256, RSA and the parsing of a time are parameters; a time that
-- the decoder gives is a number, and whether all of them are in UTC is told beside the payload.
use iolink.Base.{
  ℕ, ◌*◌, ◌^◌, ◌==◌, nat_eq, text_eq, Bool, true, false, ◌&&◌, ◌||◌, not, if◌then◌else◌, ltb, leb,
  Text, text, is_empty, is_digit, value, List, [], ◌∷◌, all, any, length, pos, leb_ℤ, Option, none,
  some, trim_space, valid_utf8, GoError, plain, wrap_err, license, invalid_envelope,
  invalid_payload, invalid_signature, Result, ok, err, ◌>>=◌, ◌>>◌, guard,
}
use iolink.Media.{Time, is_zero_time, after}
use iolink.License.Status.{Payload}
use iolink.License.Json.{
  Json, json_null, json_number, json_string, json_object, names, has_duplicates, field,
}

pub record LicensePayload : Type 0 where
  pub license_id : Text
  pub issued_at : Time
  pub key_id : Text
  pub checked : Payload

pub record Decoded : Type 0 where
  pub payload : LicensePayload
  pub all_utc : Bool

pub record Envelope : Type 0 where
  pub payload_b64 : Text
  pub signature_b64 : Text

pub record Verified : Type 0 where
  pub payload : LicensePayload
  pub payload_raw : Text
  pub signature : Text
  pub sha256 : Text

-- The standard library: `decode` refuses unknown fields and what follows the first value.
pub record Codec : Type 0 where
  pub parse_json : Text → Option Json
  pub decode : Text → Option Decoded
  pub parses_time : Text → Bool
  pub base64 : Text → Option Text
  pub sum256 : Text → Text
  pub hex : Text → Text

abbrev pub max_payload_bytes : ℕ
max_payload_bytes = 45 * 1024

abbrev pub max_payload_b64_chars : ℕ
max_payload_b64_chars = 62000

abbrev pub max_signature_b64_chars : ℕ
max_signature_b64_chars = 1500

abbrev pub known_features : List Text
known_features = text "video" ∷ text "openapi" ∷ text "automation" ∷ text "reports" ∷ []

abbrev pub bad_payload : GoError
bad_payload = wrap_err (plain (license invalid_payload))

unfoldable pub valid_identifier : Text → Bool
valid_identifier s = not (is_empty s) && leb (length s) 128 && trim_space s == s

-- The loop over the features, with those seen.
unfoldable pub valid_features : List Text → List Text → Bool
valid_features seen [] = true
valid_features seen (f ∷ rest) =
    any (λ k. k == f) known_features
    && not (any (λ s. s == f) seen)
    && valid_features (f ∷ seen) rest

abbrev pub ends_late : Time → Option Time → Bool
ends_late start none = true
ends_late start (some end) = after end start

unfoldable pub validate_payload : LicensePayload → Bool
unfolding valid_identifier valid_features
validate_payload p =
    valid_identifier p.license_id
    && valid_identifier p.checked.deployment_id
    && valid_identifier p.key_id
    && not (is_zero_time p.issued_at)
    && not (is_zero_time p.checked.not_before)
    && leb_ℤ (pos 0) p.checked.max_devices
    && not (after p.issued_at p.checked.not_before)
    && ends_late p.checked.not_before p.checked.expires_at
    && valid_features [] p.checked.features

abbrev ends_with_z : Text → Bool
ends_with_z [] = false
ends_with_z (c ∷ []) = c == b'Z'
ends_with_z (c ∷ d ∷ s) = ends_with_z (d ∷ s)

-- A field that is absent is the empty text, which none of these accepts.
abbrev is_utc_timestamp : Codec → Option Json → Bool
is_utc_timestamp c (some (json_string s)) = ends_with_z s && c.parses_time s
is_utc_timestamp c _ = false

abbrev is_null : Option Json → Bool
is_null (some json_null) = true
is_null _ = false

-- `strconv.ParseInt` of a literal, in 64 bits.
abbrev fits_int64 : Text → Bool
fits_int64 [] = false
fits_int64 (c ∷ s) =
    if c == b'-'
    then not (is_empty s) && all is_digit s && leb (value s) (2 ^ 63)
    else all is_digit (c ∷ s) && ltb (value (c ∷ s)) (2 ^ 63)

abbrev is_int64 : Option Json → Bool
is_int64 (some (json_number s)) = fits_int64 s
is_int64 _ = false

abbrev pub field_names : List Text
field_names =
    text "license_id"
    ∷ text "deployment_id"
    ∷ text "issued_at"
    ∷ text "not_before"
    ∷ text "expires_at"
    ∷ text "max_devices"
    ∷ text "features"
    ∷ text "key_id"
    ∷ []

-- The checks of the raw fields, in any order: all give the same sentinel.
unfoldable pub valid_fields : Codec → Json → Bool
unfolding value
valid_fields c (json_object ms) =
    length (names ms) == 8
    && all (λ name. any (λ k. k == name) (names ms)) field_names
    && not (is_null (field (text "features") ms))
    && is_int64 (field (text "max_devices") ms)
    && is_utc_timestamp c (field (text "issued_at") ms)
    && is_utc_timestamp c (field (text "not_before") ms)
    && (is_null (field (text "expires_at") ms) || is_utc_timestamp c (field (text "expires_at") ms))
valid_fields c _ = false

unfoldable pub fits_payload : Text → Bool
fits_payload raw = not (is_empty raw) && leb (length raw) max_payload_bytes && valid_utf8 raw

-- `ParsePayload`. Every error holds the one sentinel, whatever its text.
unfoldable pub parse_payload : Codec → Text → Result LicensePayload
unfolding fits_payload has_duplicates valid_fields validate_payload
parse_payload c raw = if not (fits_payload raw) then err bad_payload else elim (c.parse_json raw) [
  | none ↦ err bad_payload
  | some json ↦ if has_duplicates json then err bad_payload else elim (c.decode raw) [
    | none ↦ err bad_payload
    | some d ↦
        if valid_fields c json && d.all_utc && validate_payload d.payload
        then ok d.payload
        else err bad_payload
  ]
]

unfoldable pub fits_envelope : Envelope → Bool
fits_envelope e =
    not (is_empty (trim_space e.payload_b64))
    && not (is_empty (trim_space e.signature_b64))
    && leb (length e.payload_b64) max_payload_b64_chars
    && leb (length e.signature_b64) max_signature_b64_chars

abbrev pub bad_envelope : GoError
bad_envelope = wrap_err (plain (license invalid_envelope))

abbrev pub decoded : Option Text → Result Text
decoded none = err bad_envelope
decoded (some s) = ok s

abbrev pub is_json : Option Json → Bool
is_json none = false
is_json (some j) = true

-- A public key is its test of a digest and a signature by RSA-PSS.
unfoldable pub verify : Codec → Envelope → Option (Text → Text → Bool) → Result Verified
unfolding fits_envelope fits_payload parse_payload
verify c e none = err (plain (license invalid_envelope))
verify c e (some accepts) = do
  guard (fits_envelope e) (plain (license invalid_envelope))
  raw ← decoded (c.base64 e.payload_b64)
  guard (fits_payload raw && is_json (c.parse_json raw)) bad_envelope
  signature ← decoded (c.base64 e.signature_b64)
  guard (not (is_empty signature)) bad_envelope
  guard (accepts (c.sum256 raw) signature) (plain (license invalid_signature))
  payload ← parse_payload c raw
  ok (record {
    payload = payload;
    payload_raw = raw;
    signature = signature;
    sha256 = c.hex (c.sum256 raw);
  })
