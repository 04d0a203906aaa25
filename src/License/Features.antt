-- ===== src/License/Features.antt =====
-- internal/core/license_runtime.go: `LicenseStatus`, and `RequireLicenseFeature`, which guards a
-- feature with it. Of the status, the fields are kept that the checks read. The database is a
-- parameter, as is the observation of the clock, which is a transaction of its own.
use iolink.Base.{
  ◌==◌, text_eq, int_eq, Bool, false, ◌&&◌, ◌||◌, not, if◌then◌else◌, Text, is_empty, [], ℤ, pos,
  Option, none, some, GoError, plain, wrap_err, wrapping, is_err, domain, DomainError, license,
  unavailable, LicenseError, Result, ok, err,
}
use iolink.World.{M, ◌>>=◌, ◌>>◌, return, lift, require, need, on_err}
use iolink.Media.{Time}
use iolink.License.Status.{
  State, missing, invalid, clock_error, LicenseStatus, allows_feature, with_usage, verified_status,
}
use iolink.License.Files.{verify}
use iolink.License.Admission.{StoredLicense, Service, stored_envelope, license_error}

pub record PlatformActor : Type 0 where
  pub id : ℤ
  pub token_version : ℤ

-- What `LicenseStatus` reads beside the rows: none of `current_version` stands for no such user.
pub record StatusService (W : Type 0) : Type 0 where
  pub service : Service W
  pub observe_clock : M W (Unit {0})
  pub begin : M W (Unit {0})
  pub rollback : W → W
  pub actor : Option PlatformActor
  pub current_version : ℤ → M W (Option ℤ)

-- An error of the clock does not end the call.
tolerate_clock : {W : Type 0} → W × Result (Unit {0}) → W × Result (Unit {0})
tolerate_clock (w, ok u) = (w, ok tt)
tolerate_clock (w, err e) =
    if is_err e (license LicenseError.clock_error) then (w, ok tt) else (w, err e)

unfoldable pub observe_for_status : {W : Type 0} → StatusService W → M W (Unit {0})
unfolding tolerate_clock
observe_for_status d w = tolerate_clock (d.observe_clock w)

abbrev pub has_version : PlatformActor → Option ℤ → Bool
has_version a none = false
has_version a (some v) = v == a.token_version

unfoldable pub check_actor : {W : Type 0} → StatusService W → M W (Unit {0})
check_actor d = elim d.actor [
  | none ↦ return tt
  | some a ↦ on_err wrap_err (d.current_version a.id) >>= λ found.
      require (has_version a found) (plain (domain DomainError.forbidden))
]

abbrev pub bare_status : State → LicenseStatus
bare_status state = record {
  state = state;
  max_devices = pos 0;
  features = [];
  used_devices = pos 0;
  overage = pos 0;
}

-- `lastSeen`, the zero time without a mark.
abbrev pub last_seen : Option Time → Time
last_seen none = 0
last_seen (some seen) = seen

-- The status of a stored license, under a key, with the devices in use.
unfoldable pub keyed_status :
    {W : Type 0}
    → Service W
    → (Text → Text → Bool)
    → Text
    → Text
    → Option Time × Bool
    → StoredLicense
    → Time
    → ℤ
    → LicenseStatus
unfolding verify verified_status with_usage
keyed_status s key key_id deployment (max_seen, latched) l now used =
    let failed = with_usage (bare_status (if latched then clock_error else invalid)) used in
    elim (verify s.codec (stored_envelope s l) (some key)) [
      | err e ↦ failed
      | ok v ↦
          if v.sha256 == l.payload_sha256 && v.payload.key_id == key_id
          then verified_status v.payload.checked deployment now (last_seen max_seen) latched used
          else failed
    ]

-- The status of the row of the license.
unfoldable pub row_status :
    {W : Type 0} → Service W → Text → Option Time × Bool → StoredLicense → Time → ℤ → LicenseStatus
unfolding keyed_status with_usage
row_status s deployment clock l now used =
    if is_empty l.payload_raw && is_empty l.signature
    then with_usage (bare_status (if clock.1 then clock_error else missing)) used
    else elim s.runtime [
      | none ↦ with_usage (bare_status invalid) used
      | some r ↦ elim r.public_key [
        | none ↦ with_usage (bare_status invalid) used
        | some key ↦
            if is_empty l.payload_raw || is_empty l.signature
            then with_usage (bare_status invalid) used
            else keyed_status s key r.key_id deployment clock l now used
      ]
    ]

-- The clock is read for the status before the devices are counted.
unfoldable pub count_status :
    {W : Type 0} → Service W → Text → Option Time × Bool → StoredLicense → M W LicenseStatus
unfolding row_status
count_status s deployment clock l w =
    (on_err wrap_err s.count_devices >>= λ used.
    return (row_status s deployment clock l (s.now w) used))
      w

unfoldable pub read_status : {W : Type 0} → StatusService W → M W LicenseStatus
unfolding check_actor count_status
read_status d = check_actor d >> on_err wrap_err d.service.deployment_id >>= λ deployment.
    on_err wrap_err d.service.license_clock >>= λ clock.
    on_err wrap_err d.service.license_state >>= λ row.
    need row (wrapping []) >>= count_status d.service deployment clock

-- `defer tx.Rollback`.
rolled_back : {W A : Type 0} → (W → W) → W × Result A → W × Result A
rolled_back rollback (w, r) = (rollback w, r)

unfoldable pub license_status : {W : Type 0} → StatusService W → M W LicenseStatus
unfolding observe_for_status read_status rolled_back
license_status d =
    observe_for_status d
    >> on_err wrap_err d.begin
    >> (λ w. rolled_back d.rollback (read_status d w))

abbrev answer_of : Option GoError → Result (Unit {0})
answer_of none = ok tt
answer_of (some e) = err e

unfoldable pub require_license_feature : {W : Type 0} → StatusService W → Text → M W (Unit {0})
unfolding license_status allows_feature
require_license_feature d feature = need d.service.runtime (license_error unavailable) >>= λ r.
    need r.public_key (license_error unavailable) >>= λ key.
    require (not (is_empty r.key_id)) (license_error unavailable) >> license_status d >>= λ status.
    lift (answer_of (allows_feature status feature))
