-- ===== src/Camera/Store.antt =====
-- internal/camera/ports.go and internal/camerapg/store.go: the store and its transactions. The
-- statements of a transaction, and what pgx does to begin and end one, are calls of the outside world.
use iolink.Base.{
  Bool, if◌then◌else◌, Text, List, [], ◌∷◌, ℤ, Option, none, some, GoError, plain, is_err, Sentinel,
  domain, context, camera, DomainError, canceled, deadline_exceeded, internal, CameraError, Result,
  ok, err,
}
use iolink.Media.{Time}
use iolink.World.{M}
use iolink.Camera.Source.{VideoSourceKind}
use iolink.Camera.Configuration.{Configuration}

pub record Camera : Type 0 where
  pub id : ℤ
  pub pond_id : ℤ
  pub name : Text
  pub source_kind : VideoSourceKind
  pub source_version : ℤ
  pub gb_device_id : Option ℤ
  pub gb_channel_id : Option Text
  pub status : Text
  pub error_code : Option Text

pub record CameraList : Type 0 where
  pub items : List Camera
  pub next_after_id : Option ℤ

pub record Page : Type 0 where
  pub limit : ℤ
  pub after_id : ℤ

pub record Target : Type 0 where
  pub camera_id : ℤ
  pub pond_id : ℤ

pub record Binding : Type 0 where
  pub id : ℤ
  pub farm_id : ℤ
  pub source_version : ℤ
  pub enabled : Bool

pub record Mutation : Type 0 where
  pub binding : Binding
  pub configuration : Configuration
  pub credential_cipher : Text

pub record LicenseSnapshot : Type 0 where
  pub deployment_id : Text
  pub payload : Text
  pub signature : Text
  pub sha256 : Text
  pub max_seen_at : Time
  pub clock_error : Bool
  pub now : Time

-- A connection pool with the statements of a transaction; `is_no_rows` tests for pgx.ErrNoRows.
pub record Store (W : Type 0) : Type 0 where
  pub begin : M W (Unit {0})
  pub commit : M W (Unit {0})
  pub rollback : W → W
  pub is_no_rows : GoError → Bool
  pub authorize : Bool → M W (Unit {0})
  pub license_snapshot : M W LicenseSnapshot
  pub list : Page → M W CameraList
  pub read : ℤ → M W Camera
  pub check_target : Target → M W (Unit {0})
  pub prepare : Target → M W Binding
  pub write : Mutation → M W Camera
  pub disable : Binding → M W (Unit {0})

abbrev pub unavailable_camera : GoError
unavailable_camera = plain (camera CameraError.unavailable)

abbrev pub safe_errors : List Sentinel
safe_errors =
    domain DomainError.forbidden
    ∷ domain DomainError.not_found
    ∷ camera CameraError.invalid
    ∷ camera CameraError.unavailable
    ∷ camera internal
    ∷ context canceled
    ∷ context deadline_exceeded
    ∷ []

-- The first of the errors that is in the tree of `e`.
unfoldable pub first_safe : List Sentinel → GoError → Option Sentinel
first_safe [] e = none
first_safe (s ∷ rest) e = let later = first_safe rest e in if is_err e s then some s else later

abbrev pub shown : Bool → Option Sentinel → GoError
shown no_rows (some s) = plain s
shown no_rows none =
    if no_rows then plain (domain DomainError.not_found) else plain (camera internal)

unfoldable pub safe_error : (GoError → Bool) → GoError → GoError
unfolding first_safe
safe_error is_no_rows e = shown (is_no_rows e) (first_safe safe_errors e)

-- The end of a transaction whose operation succeeded.
abbrev ended : {W A : Type 0} → A → W × Result (Unit {0}) → W × Result A
ended a (w, ok done) = (w, ok a)
ended a (w, err e) = (w, err unavailable_camera)

module _ {W : Type 0} (s : Store W) where
  abbrev committed : {A : Type 0} → W × Result A → W × Result A
  committed (w, err e) = (w, err (safe_error s.is_no_rows e))
  committed (w, ok a) = ended a (s.commit w)

  abbrev rolled_back : {A : Type 0} → W × Result A → W × Result A
  rolled_back (w, r) = (s.rollback w, r)

  abbrev begun : {A : Type 0} → M W A → W × Result (Unit {0}) → W × Result A
  begun operation (w, err e) = (w, err unavailable_camera)
  begun operation (w, ok done) = rolled_back (committed (operation w))

  -- `Store.Run`.
  unfoldable pub run_transaction : {A : Type 0} → M W A → M W A
  unfolding safe_error
  run_transaction operation w = begun operation (s.begin w)
