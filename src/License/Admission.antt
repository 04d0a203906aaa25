-- ===== src/License/Admission.antt =====
-- internal/core/license_runtime.go: `checkDeviceAdmission`, which a transaction that adds a device
-- runs, with `lockLicenseState` and `checkLicenseClock`. The rows of the database are parameters that
-- take the world, as is the clock; the record of the outcome in the log is left out.
use iolink.Base.{
  ◌==◌, text_eq, Bool, false, ◌&&◌, ◌||◌, not, Text, is_empty, ℤ, ltb_ℤ, Option, some, GoError,
  plain, wrap_err, license, unavailable, required, quota_exceeded, ok, err, LicenseError,
}
use iolink.World.{M, ◌>>=◌, ◌>>◌, lift, require, need, on_err}
use iolink.Media.{Time}
use iolink.License.Status.{Payload, is_current, evaluate}
use iolink.License.Files.{Envelope, Codec, verify}
use iolink.License.Clock.{runs_back, clock_failure}

-- A public key is its test of a digest and a signature.
pub record LicenseRuntime : Type 0 where
  pub public_key : Option (Text → Text → Bool)
  pub key_id : Text

-- The row of the imported license.
pub record StoredLicense : Type 0 where
  pub payload_raw : Text
  pub signature : Text
  pub payload_sha256 : Text

-- A service in a transaction: `now` is `time.Now`, `encode` the standard encoding in base64, and each
-- other call reads a row; `license_state` gives none where `pgx` tells that there is no row.
pub record Service (W : Type 0) : Type 0 where
  pub runtime : Option LicenseRuntime
  pub codec : Codec
  pub encode : Text → Text
  pub now : W → Time
  pub lock_license : M W (Unit {0})
  pub license_clock : M W (Option Time × Bool)
  pub deployment_id : M W Text
  pub license_state : M W (Option StoredLicense)
  pub count_devices : M W ℤ

abbrev pub license_error : LicenseError → GoError
license_error e = plain (license e)

unfoldable pub lock_license_state : {W : Type 0} → Service W → M W (Unit {0})
lock_license_state s = on_err wrap_err s.lock_license

unfoldable pub fits_clock : {W : Type 0} → Service W → Option Time × Bool → M W (Unit {0})
fits_clock s (max_seen, latched) w =
    require (not (latched || runs_back max_seen (s.now w))) clock_failure w

unfoldable pub check_license_clock : {W : Type 0} → Service W → M W (Unit {0})
unfolding fits_clock
check_license_clock s = on_err wrap_err s.license_clock >>= fits_clock s

unfoldable pub check_quota : {W : Type 0} → Service W → Payload → M W (Unit {0})
check_quota s p = on_err wrap_err s.count_devices >>= λ used.
    require (ltb_ℤ used p.max_devices) (license_error quota_exceeded)

unfoldable pub check_validity : {W : Type 0} → Service W → Text → Payload → M W (Unit {0})
unfolding evaluate check_quota
check_validity s deployment p w =
    (require (is_current (evaluate p deployment (s.now w) 0 false)) (license_error required)
        >> check_quota s p)
      w

abbrev pub stored_envelope : {W : Type 0} → Service W → StoredLicense → Envelope
stored_envelope s l = record {
  payload_b64 = s.encode l.payload_raw;
  signature_b64 = s.encode l.signature;
}

unfoldable pub check_stored :
    {W : Type 0} → Service W → (Text → Text → Bool) → Text → Text → StoredLicense → M W (Unit {0})
unfolding verify check_validity
check_stored s key key_id deployment l = elim (verify s.codec (stored_envelope s l) (some key)) [
  | err e ↦ lift (err (license_error required))
  | ok v ↦
      require (v.sha256 == l.payload_sha256 && v.payload.key_id == key_id) (license_error required)
      >> check_validity s deployment v.payload.checked
]

unfoldable pub check_license :
    {W : Type 0} → Service W → (Text → Text → Bool) → Text → M W (Unit {0})
unfolding lock_license_state check_license_clock check_stored
check_license s key key_id =
    lock_license_state s
    >> check_license_clock s
    >> on_err wrap_err s.deployment_id
    >>= λ deployment. on_err wrap_err s.license_state >>= λ row.
        need row (license_error required) >>= check_stored s key key_id deployment

unfoldable pub check_device_admission : {W : Type 0} → Service W → M W (Unit {0})
unfolding check_license
check_device_admission s = need s.runtime (license_error unavailable) >>= λ r.
    need r.public_key (license_error unavailable) >>= λ key.
    require (not (is_empty r.key_id)) (license_error unavailable) >> check_license s key r.key_id
