-- ===== src/Base/Errors.antt =====
-- Go errors. An `error` is either a sentinel value itself or another error in whose tree
-- `errors.Is` finds certain sentinels; that is all the modelled code reads of an error.
-- Each package's sentinels are an enum, numbered so that they can be compared.
use Prim.Native.Nat.{ℕ}
use mathlib.Core.Bool.{Bool, true, false}
use mathlib.Core.Option.{Option, none, some}
use mathlib.Core.List.{List, [], ◌∷◌, ◌++◌}
use mathlib.Core.Path.{◌≡◌, refl}
use mathlib.Core.Logic.{◌⊎◌, inl, inr}
use iolink.Base.Tests.{nat_beq}
use iolink.Base.Lists.{any}

-- internal/media/contracts.go, the `Err…` variables.
pub data MediaError : Type 0 where
  invalid unavailable unauthorized forbidden not_found conflict pending disabled : MediaError
  unsupported retryable unknown lease_lost persistence_unknown : MediaError
  license_required license_unavailable bad_media : MediaError

-- internal/domain: the three that the modelled code tests.
pub data DomainError : Type 0 where
  not_found forbidden conflict : DomainError

-- The standard library's context package.
pub data ContextError : Type 0 where
  canceled deadline_exceeded : ContextError

-- internal/media/rtp/ports.go.
pub data RtpError : Type 0 where
  exhausted invalid_pair invalid_context not_allocated : RtpError

-- internal/mediajobs/validation.go.
pub data JobsError : Type 0 where
  invalid_job not_found : JobsError

-- internal/license/license.go: those that the modelled code returns or tests.
pub data LicenseError : Type 0 where
  unavailable required quota_exceeded feature_denied clock_error : LicenseError
  invalid_envelope invalid_payload invalid_signature : LicenseError

-- internal/gb/contracts.go.
pub data GbError : Type 0 where
  invalid_request unknown_device peer_not_allowed peer_not_found : GbError
  digest_required digest_invalid nonce_invalid nonce_replay registration_conflict : GbError
  xml_invalid xml_too_large xml_depth : GbError

-- internal/gbcatalog/contracts.go.
pub data CatalogError : Type 0 where
  invalid deadline duplicate_conflict store : CatalogError

-- internal/notifications/worker.go.
pub data NotifyError : Type 0 where
  disabled permanent unknown retryable lease_lost : NotifyError

-- internal/access/auth.go.
pub data AccessError : Type 0 where
  bad_topic : AccessError

-- internal/media/rtsp/admission.go.
pub data RtspError : Type 0 where
  invalid_config invalid_uri port_not_allowed resolution_failed address_not_allowed : RtspError

-- internal/camera/ports.go and configuration.go, and the errors of internal/domain on sources
-- and credentials.
pub data CameraError : Type 0 where
  invalid unavailable internal invalid_video_source invalid_video_credential : CameraError

pub data Sentinel : Type 0 where
  media : MediaError → Sentinel
  domain : DomainError → Sentinel
  context : ContextError → Sentinel
  rtp : RtpError → Sentinel
  jobs : JobsError → Sentinel
  license : LicenseError → Sentinel
  gb : GbError → Sentinel
  catalog : CatalogError → Sentinel
  notify : NotifyError → Sentinel
  access : AccessError → Sentinel
  rtsp : RtspError → Sentinel
  camera : CameraError → Sentinel

abbrev media_number : MediaError → ℕ
media_number MediaError.invalid = 0
media_number MediaError.unavailable = 1
media_number MediaError.unauthorized = 2
media_number MediaError.forbidden = 3
media_number MediaError.not_found = 4
media_number MediaError.conflict = 5
media_number MediaError.pending = 6
media_number MediaError.disabled = 7
media_number MediaError.unsupported = 8
media_number MediaError.retryable = 9
media_number MediaError.unknown = 10
media_number MediaError.lease_lost = 11
media_number MediaError.persistence_unknown = 12
media_number MediaError.license_required = 13
media_number MediaError.license_unavailable = 14
media_number MediaError.bad_media = 15

abbrev domain_number : DomainError → ℕ
domain_number DomainError.not_found = 20
domain_number DomainError.forbidden = 21
domain_number DomainError.conflict = 22

abbrev context_number : ContextError → ℕ
context_number canceled = 30
context_number deadline_exceeded = 31

abbrev rtp_number : RtpError → ℕ
rtp_number exhausted = 40
rtp_number invalid_pair = 41
rtp_number invalid_context = 42
rtp_number not_allocated = 43

abbrev jobs_number : JobsError → ℕ
jobs_number invalid_job = 50
jobs_number JobsError.not_found = 51

abbrev license_number : LicenseError → ℕ
license_number LicenseError.unavailable = 60
license_number required = 61
license_number quota_exceeded = 62
license_number feature_denied = 63
license_number clock_error = 64
license_number invalid_envelope = 65
license_number invalid_payload = 66
license_number invalid_signature = 67

abbrev gb_number : GbError → ℕ
gb_number invalid_request = 70
gb_number unknown_device = 71
gb_number peer_not_allowed = 72
gb_number peer_not_found = 73
gb_number digest_required = 74
gb_number digest_invalid = 75
gb_number nonce_invalid = 76
gb_number nonce_replay = 77
gb_number registration_conflict = 78
gb_number xml_invalid = 105
gb_number xml_too_large = 106
gb_number xml_depth = 107

abbrev catalog_number : CatalogError → ℕ
catalog_number CatalogError.invalid = 80
catalog_number deadline = 81
catalog_number duplicate_conflict = 82
catalog_number store = 83

abbrev notify_number : NotifyError → ℕ
notify_number NotifyError.disabled = 90
notify_number permanent = 91
notify_number NotifyError.unknown = 92
notify_number NotifyError.retryable = 93
notify_number NotifyError.lease_lost = 94

abbrev rtsp_number : RtspError → ℕ
rtsp_number invalid_config = 110
rtsp_number invalid_uri = 111
rtsp_number port_not_allowed = 112
rtsp_number resolution_failed = 113
rtsp_number address_not_allowed = 114

abbrev camera_number : CameraError → ℕ
camera_number CameraError.invalid = 120
camera_number CameraError.unavailable = 121
camera_number internal = 122
camera_number invalid_video_source = 123
camera_number invalid_video_credential = 124

abbrev pub sentinel_number : Sentinel → ℕ
sentinel_number (media e) = media_number e
sentinel_number (domain e) = domain_number e
sentinel_number (context e) = context_number e
sentinel_number (rtp e) = rtp_number e
sentinel_number (jobs e) = jobs_number e
sentinel_number (license e) = license_number e
sentinel_number (gb e) = gb_number e
sentinel_number (catalog e) = catalog_number e
sentinel_number (notify e) = notify_number e
sentinel_number (access bad_topic) = 100
sentinel_number (rtsp e) = rtsp_number e
sentinel_number (camera e) = camera_number e

abbrev sentinel_beq : Sentinel → Sentinel → Bool
sentinel_beq s t = nat_beq (sentinel_number s) (sentinel_number t)

pub data GoError : Type 0 where
  plain : Sentinel → GoError
  wrapping : List Sentinel → GoError

-- `errors.Is(err, s)`.
unfoldable pub is_err : GoError → Sentinel → Bool
is_err (plain t) s = sentinel_beq t s
is_err (wrapping ts) s = any (λ t. sentinel_beq t s) ts

abbrev sentinels : GoError → List Sentinel
sentinels (plain t) = t ∷ []
sentinels (wrapping ts) = ts

-- `fmt.Errorf` with the verb `%w`.
abbrev pub wrap_err : GoError → GoError
wrap_err e = wrapping (sentinels e)

-- `errors.Join(e, e')`.
unfoldable pub join_err : GoError → GoError → GoError
join_err e e' = wrapping (sentinels e ++ sentinels e')

pub data Result {ℓ} (A : Type ℓ) : Type ℓ where
  ok : A → Result A
  err : GoError → Result A

-- The early return: what follows a failed call is not run.
infixl 5 ◌>>=◌
abbrev pub ◌>>=◌ {ℓ κ} : {X : Type ℓ} {Y : Type κ} → Result X → (X → Result Y) → Result Y
err failure >>= next = err failure
ok value >>= next = next value

infixl 5 ◌>>◌
abbrev pub ◌>>◌ {ℓ} : {Y : Type ℓ} → Result (Unit {0}) → Result Y → Result Y
err failure >> next = err failure
ok done >> next = next

-- `if !b { return e }`.
abbrev pub guard : Bool → GoError → Result (Unit {0})
guard false failure = err failure
guard true failure = ok tt

-- `if err != nil { return err }` on a call that returns an error alone.
abbrev pub check : Option GoError → Result (Unit {0})
check none = ok tt
check (some e) = err e

-- A call's error through a translation, such as `normalizeStoreError`.
abbrev pub map_err {ℓ} : {A : Type ℓ} → (GoError → GoError) → Result A → Result A
map_err f (ok a) = ok a
map_err f (err e) = err (f e)

pub Result-cases {ℓ} :
    {A : Type ℓ} (r : Result A) → ((a : A) × (r ≡ ok a)) ⊎ ((e : GoError) × (r ≡ err e))
Result-cases (ok a) = inl (a, refl)
Result-cases (err e) = inr (e, refl)

-- Inversions of a guard and of a check that passed.
pub guard-ok {ℓ} :
    {B : Type ℓ} (b : Bool) (e : GoError) (k : Result B) {y : B}
    → (guard b e >> k) ≡ ok y
    → (b ≡ true) × (k ≡ ok y)
guard-ok true e k h = (refl, h)
guard-ok false e k h = cc

pub guard-true : (b : Bool) (e : GoError) {u : Unit {0}} → guard b e ≡ ok u → b ≡ true
guard-true true e h = refl
guard-true false e h = cc

pub check-ok {ℓ} :
    {B : Type ℓ} (c : Option GoError) (k : Result B) {y : B}
    → (check c >> k) ≡ ok y
    → (c ≡ none) × (k ≡ ok y)
check-ok none k h = (refl, h)
check-ok (some e) k h = cc
