-- ===== src/Playback/Effects.antt =====
-- What the service is configured with (`Config` of service.go, the interfaces of
-- media/contracts.go), as a parameter; an interface that may be nil is an option.
use iolink.Base.{ℤ, Bool, Text, Option, List}
use iolink.Media.{
  Time, LicenseSnapshot, PlaybackTarget, Session, CreateSession, Lease, JobAuthorization, JobResult,
  MediaClaims, IssuedToken, MediaAccess, SegmentMapping, StreamRequest,
}
pub use iolink.World.{M, ◌>>=◌, ◌>>◌, lift, return, require, need, on_err, Run-cases}

pub record Tokens (W : Type 0) : Type 0 where
  pub issue : MediaClaims → M W IssuedToken
  pub verify : Text → M W MediaClaims

pub record Provider (W : Type 0) : Type 0 where
  pub start_stream : StreamRequest → M W (Unit {0})
  pub stop_stream : StreamRequest → M W (Unit {0})

-- `url.Parse` on the manifest's base URL, as far as `validManifestBaseURL` reads it.
pub record ParsedUrl : Type 0 where
  pub is_abs : Bool
  pub scheme : Text
  pub host : Text
  pub hostname : Text
  pub has_user : Bool
  pub raw_query : Text
  pub fragment : Text
  pub opaque_part : Text

pub record Config (W : Type 0) : Type 0 where
  pub prepare_playback : ℤ → M W PlaybackTarget
  pub create_playback : CreateSession → M W Session
  pub read_owned_playback : Text → M W Session
  pub stop_owned_playback : Text → Time → M W (Unit {0})
  pub claim_job : Time → ℤ → Text → M W (Option Lease)
  pub revalidate_job : Lease → M W JobAuthorization
  pub finish_job : Lease → JobResult → Time → M W (Unit {0})
  pub authorize_token : MediaClaims → Text → Time → M W MediaAccess
  pub license : Option (LicenseSnapshot → M W (Unit {0}))
  pub tokens : Option (Tokens W)
  pub provider : Option (Provider W)
  pub manifest : Option (MediaAccess → M W Text)
  pub segments : Option (MediaAccess → Text → M W Text)
  pub create_mappings : Option (List SegmentMapping → M W (List SegmentMapping))
  pub resolve_mapping : Option (Text → Text → M W SegmentMapping)
  pub enabled : Bool
  pub manifest_base_url : Text
  pub lease_duration : ℤ
  pub now : W → Time
  pub new_uuid : M W Text
  pub hash_token : Text → Text
  pub parse_url : Text → Option ParsedUrl
