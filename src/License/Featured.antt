-- ===== src/License/Featured.antt =====
-- internal/core/license_runtime.go: what the guard of a feature has checked.
use iolink.Base.{Bool, ◌≡◌, text_eq, int_eq, false, Text, is_empty, ℤ, Option, some, ok}
use iolink.Media.{Time}
use iolink.License.Admission.{LicenseRuntime, StoredLicense}
use iolink.License.Features.{StatusService, PlatformActor}
use iolink.License.Named.{Names}

-- Why a feature was allowed.
pub record Featured {W : Type 0} (d : StatusService W) (feature : Text) (w w' : W) : Type 0 where
  pub service : LicenseRuntime
  pub accepts : Text → Text → Bool
  pub deployment : Text
  pub clock : Option Time × Bool
  pub stored : StoredLicense
  pub used : ℤ
  pub observed_world : W
  pub begun_world : W
  pub actor_world : W
  pub deployment_world : W
  pub clock_world : W
  pub stored_world : W
  pub counted_world : W
  pub configured : d.service.runtime ≡ some service
  pub has_key : service.public_key ≡ some accepts
  pub has_key_id : is_empty service.key_id ≡ false
  pub observes : (d.observe_clock w).0 ≡ observed_world
  pub begins : d.begin observed_world ≡ (begun_world, ok tt)
  pub actor :
      (a : PlatformActor)
      → d.actor ≡ some a
      → d.current_version a.id begun_world ≡ (actor_world, ok (some a.token_version))
  pub deploys : d.service.deployment_id actor_world ≡ (deployment_world, ok deployment)
  pub reads_clock : d.service.license_clock deployment_world ≡ (clock_world, ok clock)
  pub reads : d.service.license_state clock_world ≡ (stored_world, ok (some stored))
  pub counts : d.service.count_devices stored_world ≡ (counted_world, ok used)
  pub left : w' ≡ d.rollback counted_world
  pub names :
      Names d.service service accepts deployment clock stored (d.service.now stored_world) feature
