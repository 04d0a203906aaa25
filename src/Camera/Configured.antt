-- ===== src/Camera/Configured.antt =====
-- internal/camera/service.go: what a configured camera has passed.
use iolink.Base.{◌≡◌, true, ℤ, some, ok}
use iolink.World.{M}
use iolink.Camera.Source.{VideoSource}
use iolink.Camera.Credentials.{is_positive}
use iolink.Camera.Configuration.{Configuration}
use iolink.Camera.Store.{Camera, Store}
use iolink.Camera.Service.{Dependencies, target, prepare_write}
use iolink.Camera.Transactions.{Committed}
use iolink.Camera.Written.{Written}

-- Why a camera was configured.
pub record Configured {W : Type 0} (d : Dependencies W) (id : ℤ) (cfg : Configuration) (w w' : W)
    (result : Camera) : Type 0 where
  pub store : Store W
  pub source : VideoSource
  pub observe : M W (Unit {0})
  pub checked_world : W
  pub clock_world : W
  pub pond : is_positive cfg.pond_id ≡ true
  pub has_source : cfg.source ≡ some source
  pub has_store : d.store ≡ some store
  pub checked : Committed store true (store.check_target (target d id cfg)) w checked_world tt
  pub has_clock : d.observe_license_clock ≡ some observe
  pub observed : observe checked_world ≡ (clock_world, ok tt)
  pub committed : Committed store true (prepare_write d id cfg source store) clock_world w' result
  pub written : Written d cfg source store id committed.admitted committed.done result
