-- ===== src/Camera/Credentials.antt =====
-- internal/domain/video_credentials.go: what a sealed credential is bound to. An int64 is read as the
-- uint64 of its bits; those of a binding are positive.
use iolink.Base.{
  ℕ, zero, suc, ◌-◌, ◌/◌, ◌%◌, ◌^◌, Bool, true, false, ◌&&◌, if◌then◌else◌, Text, text, [], ◌∷◌,
  ◌++◌, ℤ, pos, negsuc, ltb_ℤ, plain, camera, invalid_video_credential, Result, ok, err,
}

pub data Purpose : Type 0 where
  camera_credential gb_device_credential : Purpose
  other_purpose : Text → Purpose

pub record CredentialBinding : Type 0 where
  pub purpose : Purpose
  pub tenant_id : ℤ
  pub entity_id : ℤ
  pub version : ℤ

abbrev pub is_known : Purpose → Bool
is_known (other_purpose t) = false
is_known _ = true

abbrev pub is_positive : ℤ → Bool
is_positive n = ltb_ℤ (pos 0) n

-- `Valid`, which `NewVideoCredentialBinding` tests too.
unfoldable pub is_valid : CredentialBinding → Bool
is_valid b =
    is_known b.purpose
    && is_positive b.tenant_id
    && is_positive b.entity_id
    && is_positive b.version

unfoldable pub new_video_credential_binding : Purpose → ℤ → ℤ → ℤ → Result CredentialBinding
unfolding is_valid
new_video_credential_binding purpose tenant_id entity_id version =
    let b : CredentialBinding = record {
      purpose = purpose;
      tenant_id = tenant_id;
      entity_id = entity_id;
      version = version;
    } in
    if is_valid b then ok b else err (plain (camera invalid_video_credential))

abbrev pub purpose_text : Purpose → Text
purpose_text camera_credential = text "camera"
purpose_text gb_device_credential = text "gb_device"
purpose_text (other_purpose t) = t

-- `uint64(value)`.
abbrev to_uint64 : ℤ → ℕ
to_uint64 (pos n) = n % 2 ^ 64
to_uint64 (negsuc n) = (2 ^ 64 - suc (n % 2 ^ 64)) % 2 ^ 64

-- `binary.BigEndian.AppendUint64`, the lowest byte last.
unfoldable pub big_endian : ℕ → ℕ → Text → Text
big_endian zero n rest = rest
big_endian (suc k) n rest = big_endian k (n / 256) (n % 256 ∷ rest)

unfoldable pub append_uint64 : ℤ → Text → Text
unfolding big_endian
append_uint64 v rest = big_endian 8 (to_uint64 v) rest

unfoldable pub associated_data : CredentialBinding → Text
unfolding append_uint64
associated_data b =
    text "iolink-camera-credential-v1:"
    ++ (purpose_text b.purpose
        ++ b':'
          ∷ append_uint64 b.tenant_id (append_uint64 b.entity_id (append_uint64 b.version [])))
