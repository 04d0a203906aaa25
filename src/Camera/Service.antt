-- ===== src/Camera/Service.antt =====
-- internal/camera/service.go. The license, the cipher, the availability and the clock are interfaces,
-- none where they are nil; the tenant is what `domain.TenantID` finds in the context.
use iolink.Base.{
  Bool, true, false, ◌&&◌, ◌||◌, if◌then◌else◌, leb, Text, is_empty, [], length, ℤ, pos, leb_ℤ,
  Option, GoError, plain, is_err, domain, camera, license, clock_error, DomainError, internal,
}
use iolink.World.{M, ◌>>=◌, ◌>>◌, lift, return, require, need, on_err}
use iolink.Camera.Source.{VideoSourceKind, VideoSource, kind}
use iolink.Camera.Credentials.{
  camera_credential, CredentialBinding, is_positive, new_video_credential_binding,
}
use iolink.Camera.Configuration.{Configuration, invalid_camera}
use iolink.Camera.Store.{
  Camera, CameraList, Page, Target, Binding, LicenseSnapshot, Store, unavailable_camera,
  run_transaction,
}

pub record Dependencies (W : Type 0) : Type 0 where
  pub store : Option (Store W)
  pub require_video : Option (LicenseSnapshot → M W (Unit {0}))
  pub seal : Option (CredentialBinding → Text → M W Text)
  pub require_configuration : Option (VideoSourceKind → M W (Unit {0}))
  pub observe_license_clock : Option (M W (Unit {0}))
  pub tenant : ℤ

abbrev pub forbidden_camera : GoError
forbidden_camera = plain (domain DomainError.forbidden)

-- What becomes of an error of the clock, and of the license.
unfoldable pub clock_failure : GoError → GoError
clock_failure e =
    if is_err e (license clock_error) || is_err e (domain DomainError.forbidden)
    then forbidden_camera
    else unavailable_camera

unfoldable pub license_failure : GoError → GoError
license_failure e =
    if is_err e (domain DomainError.forbidden) then forbidden_camera else unavailable_camera

abbrev default_limit : ℤ → ℤ
default_limit (pos n) = if leb n 0 then pos 50 else pos n
default_limit n = n

-- A page with the default limit, and its bounds.
abbrev pub bounded : Page → Page
bounded page = record { limit = default_limit page.limit; after_id = page.after_id }

abbrev pub fits : Page → Bool
fits page =
    leb_ℤ (pos 1) (default_limit page.limit)
    && leb_ℤ (default_limit page.limit) (pos 100)
    && leb_ℤ (pos 0) page.after_id

module _ {W : Type 0} (d : Dependencies W) where
  -- What runs in a transaction, behind its check of the authority.
  abbrev pub authorized : {A : Type 0} → Store W → Bool → (Store W → M W A) → M W A
  authorized store write operation = do store.authorize write; operation store

  unfoldable pub run : {A : Type 0} → Bool → (Store W → M W A) → M W A
  unfolding run_transaction
  run write operation = do
    store ← need d.store unavailable_camera
    run_transaction store (authorized store write operation)

  unfoldable pub list : Page → M W CameraList
  unfolding run
  list page = do require (fits page) invalid_camera; run false (λ tx. tx.list (bounded page))

  unfoldable pub get : ℤ → M W Camera
  unfolding run
  get id = do require (is_positive id) invalid_camera; run false (λ tx. tx.read id)

  -- The cipher text of a configuration, empty if it has no credential.
  unfoldable pub sealed : Configuration → Binding → (CredentialBinding → Text → M W Text) → M W Text
  sealed cfg binding seal = if is_empty cfg.credential then return [] else (do
    aad ←
        on_err (λ e. plain (camera internal))
          (lift (
            new_video_credential_binding camera_credential d.tenant binding.id
              binding.source_version))
    cipher ← on_err (λ e. unavailable_camera) (seal aad cfg.credential)
    require (leb 29 (length cipher)) unavailable_camera
    return cipher)

  -- The mutation behind the license.
  unfoldable pub mutate : Configuration → VideoSource → Binding → Store W → M W Camera
  unfolding sealed
  mutate cfg source binding tx = do
    require_configuration ← need d.require_configuration unavailable_camera
    seal ← need d.seal unavailable_camera
    on_err (λ e. unavailable_camera) (require_configuration (kind source))
    cipher ← sealed cfg binding seal
    tx.write (record { binding = binding; configuration = cfg; credential_cipher = cipher })

  unfoldable pub licensed : Store W → M W (Unit {0})
  unfolding license_failure
  licensed tx = do
    require_video ← need d.require_video unavailable_camera
    snapshot ← tx.license_snapshot
    on_err license_failure (require_video snapshot)

  -- The second transaction of `configure`.
  unfoldable pub prepare_write : ℤ → Configuration → VideoSource → Store W → M W Camera
  unfolding licensed mutate
  prepare_write id cfg source tx = do
    binding ← tx.prepare (record { camera_id = id; pond_id = cfg.pond_id })
    licensed tx
    mutate cfg source binding tx

  unfoldable pub observe_clock : M W (Unit {0})
  unfolding clock_failure
  observe_clock = do
    observe ← need d.observe_license_clock unavailable_camera
    on_err clock_failure observe

  abbrev pub target : ℤ → Configuration → Target
  target id cfg = record { camera_id = id; pond_id = cfg.pond_id }

  -- `configure` behind its first test.
  unfoldable pub configure_source : ℤ → Configuration → VideoSource → M W Camera
  unfolding run observe_clock prepare_write
  configure_source id cfg source = do
    run true (λ tx. tx.check_target (target id cfg))
    observe_clock
    run true (prepare_write id cfg source)

  unfoldable pub configure : ℤ → Configuration → M W Camera
  unfolding configure_source
  configure id cfg = do
    require (is_positive cfg.pond_id) invalid_camera
    source ← need cfg.source invalid_camera
    configure_source id cfg source

  unfoldable pub create : Configuration → M W Camera
  unfolding configure
  create cfg = configure (pos 0) cfg

  unfoldable pub replace : ℤ → Configuration → M W Camera
  unfolding configure
  replace id cfg = do require (is_positive id) invalid_camera; configure id cfg

  abbrev pub disable_in : ℤ → Store W → M W (Unit {0})
  disable_in id tx = do
    binding ← tx.prepare (record { camera_id = id; pond_id = pos 0 })
    tx.disable binding

  unfoldable pub disable : ℤ → M W (Unit {0})
  unfolding run
  disable id = do require (is_positive id) invalid_camera; run true (disable_in id)
