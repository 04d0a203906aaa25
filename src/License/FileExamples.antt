-- ===== src/License/FileExamples.antt =====
-- The theorems on license files and on the admission of a device and the guard of a feature, at a license without an end.
use iolink.Base.{
  ℕ, suc, false, ◌≡◌, refl, true, ◌==◌, text_eq, Bool, Text, text, text_beq, value, [], ◌∷◌, length,
  pos, none, some, ok, valid_utf8, trim_space, trim_left, trim_left_reversed, ascii_space,
}
use iolink.World.{M}
use iolink.License.Status.{evaluate}
use iolink.License.Features.{StatusService}
use iolink.License.Featured.{Featured}
use iolink.License.Admission.{
  Service, lock_license_state, fits_clock, check_license_clock, check_quota, check_validity,
  check_stored, check_license, check_device_admission,
}
use iolink.License.Admitted.{Admitted, check_device_admission-Admitted}
use iolink.License.Json.{
  Json, json_null, json_number, json_string, json_array, json_object, no_element, element,
  no_member, member, has_duplicates,
}
use iolink.License.Files.{
  LicensePayload, Envelope, Verified, Codec, valid_identifier, valid_features, validate_payload,
  valid_fields, fits_payload, parse_payload, fits_envelope, verify,
}
use iolink.License.Verified.{IsVerified, verify-IsVerified}

abbrev stamp : Json
stamp = json_string (text "2026Z")

abbrev json : Json
json = json_object (
    member (text "license_id") (json_string (text "l")) (
      member (text "deployment_id") (json_string (text "d")) (
        member (text "issued_at") stamp (
          member (text "not_before") stamp (
            member (text "expires_at") json_null (
              member (text "max_devices") (json_number (text "5")) (
                member (text "features")
                  (json_array (element (json_string (text "video")) no_element))
                  (member (text "key_id") (json_string (text "k")) no_member))))))))

abbrev payload : LicensePayload
payload = record {
  license_id = text "l";
  issued_at = 7;
  key_id = text "k";
  checked = record {
    deployment_id = text "d";
    not_before = 7;
    expires_at = none;
    max_devices = pos 5;
    features = text "video" ∷ [];
  };
}

abbrev codec : Codec
codec = record {
  parse_json = λ raw. some json;
  decode = λ raw. some (record { payload = payload; all_utc = true });
  parses_time = λ s. true;
  base64 = λ s. some s;
  sum256 = λ s. length s ∷ [];
  hex = λ s. s;
}

abbrev envelope : Envelope
envelope = record { payload_b64 = text "{}"; signature_b64 = text "s" }

-- A key that accepts the digests of two bytes.
abbrev accepts : Text → Text → Bool
accepts digest signature = digest == 2 ∷ []

abbrev license : Verified
license = record {
  payload = payload;
  payload_raw = text "{}";
  signature = text "s";
  sha256 = 2 ∷ [];
}

verifying : verify codec envelope (some accepts) ≡ ok license
unfolding verify fits_envelope fits_payload parse_payload has_duplicates valid_fields
    validate_payload valid_identifier valid_features value valid_utf8 trim_space trim_left
    trim_left_reversed ascii_space text_beq
verifying = refl

verify-IsVerified_example :
    (accepts' : Text → Text → Bool) × (some accepts ≡ some accepts')
    × IsVerified codec envelope accepts' license
verify-IsVerified_example = verify-IsVerified codec envelope (some accepts) verifying

abbrev returns : {A : Type 0} → A → M ℕ A
returns a w = (suc w, ok a)

-- A world is the number of reads so far; the clock stands at 50, and was seen at 60.
abbrev service : Service ℕ
service = record {
  runtime = some (record { public_key = some accepts; key_id = text "k" });
  codec = codec;
  encode = λ s. s;
  now = λ w. 50;
  lock_license = returns tt;
  license_clock = returns (some 60, false);
  deployment_id = returns (text "d");
  license_state =
      returns
        (some (record { payload_raw = text "{}"; signature = text "s"; payload_sha256 = 2 ∷ [] }));
  count_devices = returns (pos 4);
}

admitted : check_device_admission service 0 ≡ (5, ok tt)
unfolding check_device_admission check_license lock_license_state check_license_clock fits_clock
    check_stored check_validity check_quota evaluate verify fits_envelope fits_payload parse_payload
    has_duplicates valid_fields validate_payload valid_identifier valid_features value valid_utf8
    trim_space trim_left trim_left_reversed ascii_space text_beq
admitted = refl

check_device_admission-Admitted_example : Admitted service 0 5
check_device_admission-Admitted_example = check_device_admission-Admitted service 0 admitted

abbrev shop : StatusService ℕ
shop = record {
  service = service;
  observe_clock = returns tt;
  begin = returns tt;
  rollback = λ w. w;
  actor = some (record { id = pos 1; token_version = pos 3 });
  current_version = λ id. returns (some (pos 3));
}
