-- ===== src/License/Status.antt =====
-- internal/license/license.go: the state of a license and what it allows.
use iolink.Base.{
  ℕ, ◌+◌, ◌*◌, ◌==◌, text_eq, Bool, true, false, ◌&&◌, ◌||◌, not, if◌then◌else◌, Text, List, any, ℤ,
  pos, leb_ℤ, ltb_ℤ, ◌-ℤ◌, Option, none, some, GoError, plain, license, quota_exceeded,
  feature_denied, required,
}
use iolink.Media.{Time, second, before, is_zero_time}

pub data State : Type 0 where
  missing valid permanent not_before expired invalid instance_mismatch clock_error overage : State
  other_state : Text → State

-- The fields of `Payload` and `Status` that the checks read.
pub record Payload : Type 0 where
  pub deployment_id : Text
  pub not_before : Time
  pub expires_at : Option Time
  pub max_devices : ℤ
  pub features : List Text

pub record LicenseStatus : Type 0 where
  pub state : State
  pub max_devices : ℤ
  pub features : List Text
  pub used_devices : ℤ
  pub overage : ℤ

abbrev pub is_current : State → Bool
is_current valid = true
is_current permanent = true
is_current _ = false

abbrev pub is_overage : State → Bool
is_overage overage = true
is_overage _ = false

unfoldable pub allows_existing : LicenseStatus → Bool
allows_existing s = elim s.state [ other_state t ↦ false | _ ↦ true ]

unfoldable pub allows_device_admission : LicenseStatus → Option GoError
allows_device_admission s =
    if is_overage s.state
    then some (plain (license quota_exceeded))
    else if not (is_current s.state)
    then some (plain (license required))
    else if ltb_ℤ (pos 0) s.overage || leb_ℤ s.max_devices s.used_devices
    then some (plain (license quota_exceeded))
    else none

unfoldable pub allows_feature : LicenseStatus → Text → Option GoError
allows_feature s feature =
    if not (is_current s.state) && not (is_overage s.state)
    then some (plain (license feature_denied))
    else if any (λ f. f == feature) s.features
    then none
    else some (plain (license feature_denied))

-- How far the clock may run back.
abbrev pub clock_slack : ℕ
clock_slack = 5 * 60 * second

unfoldable pub evaluate : Payload → Text → Time → Time → Bool → State
evaluate p deployment_id now max_seen latched =
    if latched || (not (is_zero_time max_seen) && before (now + clock_slack) max_seen)
    then clock_error
    else if not (p.deployment_id == deployment_id)
    then instance_mismatch
    else if before now p.not_before
    then not_before
    else elim p.expires_at [ none ↦ permanent | some at ↦ if before now at then valid else expired ]

-- The end of `LicenseStatus` in internal/core/license_runtime.go: the quota against the devices in
-- use.
unfoldable pub with_usage : LicenseStatus → ℤ → LicenseStatus
with_usage s used = record s {
  used_devices = used;
  overage = if ltb_ℤ s.max_devices used then used -ℤ s.max_devices else s.overage;
  state = if ltb_ℤ s.max_devices used && is_current s.state then overage else s.state;
}

-- The status of a verified license, from its payload.
unfoldable pub verified_status : Payload → Text → Time → Time → Bool → ℤ → LicenseStatus
unfolding evaluate with_usage
verified_status p deployment_id now max_seen latched used =
    with_usage
      (record {
        state = evaluate p deployment_id now max_seen latched;
        max_devices = p.max_devices;
        features = p.features;
        used_devices = pos 0;
        overage = pos 0;
      })
      used
