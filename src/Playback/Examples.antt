-- ===== src/Playback/Examples.antt =====
-- The playback service's theorems at a small configuration: a world is the number of calls so far,
-- and the clock stands at 1000.
use iolink.Base.{
  ℕ, suc, ◌+◌, ◌*◌, ◌≤◌, ◌≡◌, refl, ◌≢◌, ◌⊎◌, Bool, true, false, text, [], pos, ◌<ℤ◌, none, some,
  GoError, plain, media, MediaError, ok, text_beq,
}
use iolink.Media.{
  second, Session, SessionState, pending, ready, PlaybackTarget, MediaClaims, MediaAccess, Lease,
  start, retryable, JobAuthorization, LicenseSnapshot,
}
use iolink.Jobs.Store.{max_attempts}
use iolink.Playback.Effects.{M, Tokens, Provider, Config, ParsedUrl}
use iolink.Playback.Checks.{
  Actor, max_video_playback_ttl, require_actor, validate_claims, claims_fit, valid_parsed_url,
  manifest_url,
}
use iolink.Playback.Results.{failure_result, job_result}
use iolink.Playback.Outcomes.{failure_retry}
use iolink.Playback.Service.{
  Grant, valid_target, new_claims, new_session, check_access, grant_playback, request_playback,
  authorize_media,
}
use iolink.Playback.Worker.{perform, process_media_job}
use iolink.Playback.Access.{Authorized, authorize_media-Authorized}
use iolink.Playback.Grants.{Requested, request_playback-Requested}
use iolink.Playback.Rounds.{Processed, process_media_job-Processed}

abbrev unreachable : GoError
unreachable = plain (media MediaError.retryable)

failure_retry_example :
    let r = failure_result unreachable (pos 3) 1000 in
    ((r.status ≡ retryable)
      × (pos 3 <ℤ pos max_attempts)
      × (1000 + second ≤ r.next_at)
      × (r.next_at ≤ 1000 + 30 * second))
    ⊎ ((r.status ≢ retryable) × (r.next_at ≡ 1000))
failure_retry_example = failure_retry unreachable (pos 3) 1000

abbrev viewer : Actor
viewer = record { tenant_value = some (pos 1); user_value = some (pos 3); role = text "owner" }

abbrev license : LicenseSnapshot
license = record {
  deployment_id = [];
  payload = [];
  signature = [];
  sha256 = [];
  max_seen_at = 0;
  clock_error = false;
  now = 0;
}

abbrev target : PlaybackTarget
target = record {
  tenant_id = pos 1;
  camera_id = pos 7;
  source_version = pos 2;
  stream_id = text "s";
  user_id = pos 3;
  user_token_version = pos 1;
  tenant_permission_version = pos 1;
  member_permission_version = pos 1;
  license = license;
}

abbrev session : SessionState → Session
session state = record (new_session target (pos 7) 900 (text "v")) {
  state = state;
  expires_at = 950;
}

abbrev pub claims : MediaClaims
claims = new_claims target (pos 7) 900 (text "v") (text "j")

abbrev pub access : MediaAccess
access = record {
  session_id = text "v";
  stream_id = text "s";
  tenant_id = pos 1;
  camera_id = pos 7;
  source_version = pos 2;
  state = ready;
  expires_at = 2000;
}

abbrev lease : Lease
lease = record {
  job = record {
    id = text "a";
    kind = start;
    camera_id = pos 7;
    source_version = pos 2;
    stream_id = text "s";
    session_id = text "v";
    attempts = pos 1;
  };
  lease_token = text "t";
  leased_until = 5000;
}

abbrev authorization : Bool → JobAuthorization
authorization active = record {
  target = target;
  active = active;
  source_current = true;
  stop_superseded = false;
}

abbrev pub returns : {A : Type 0} → A → M ℕ A
returns a w = (suc w, ok a)

abbrev tokens : Tokens ℕ
tokens = record {
  issue = λ c. returns (record { raw = text "raw"; claims = c });
  verify = λ raw. returns claims;
}

abbrev provider : Provider ℕ
provider = record { start_stream = λ r. returns tt; stop_stream = λ r. returns tt }

abbrev base_url : ParsedUrl
base_url = record {
  is_abs = true;
  scheme = text "HTTPS";
  host = text "m";
  hostname = text "m";
  has_user = false;
  raw_query = [];
  fragment = [];
  opaque_part = [];
}

abbrev guarded : (LicenseSnapshot → M ℕ (Unit {0})) → Bool → Config ℕ
guarded require_video active = record {
  prepare_playback = λ camera. returns target;
  create_playback = λ c. returns c.session;
  read_owned_playback = λ id. returns (session pending);
  stop_owned_playback = λ id at. returns tt;
  claim_job = λ at d worker. returns (some lease);
  revalidate_job = λ l. returns (authorization active);
  finish_job = λ l r at. returns tt;
  authorize_token = λ c h at. returns access;
  license = some require_video;
  tokens = some tokens;
  provider = some provider;
  manifest = none;
  segments = none;
  create_mappings = none;
  resolve_mapping = none;
  enabled = true;
  manifest_base_url = text "https://m/";
  lease_duration = pos 30;
  now = λ w. 1000;
  new_uuid = returns (text "v");
  hash_token = λ t. t;
  parse_url = λ t. some base_url;
}

abbrev pub config : Bool → Config ℕ
config = guarded (λ l. returns tt)

authorized : authorize_media (config true) (text "raw") (text "v") 0 ≡ (2, ok access)
unfolding authorize_media validate_claims claims_fit check_access text_beq new_claims
authorized = refl

authorize_media-Authorized_example : Authorized (config true) (text "raw") (text "v") 0 2 access
authorize_media-Authorized_example =
    authorize_media-Authorized (config true) (text "raw") (text "v") 0 authorized

abbrev grant : Grant
grant = record {
  session_id = text "v";
  expires_at = 1000 + max_video_playback_ttl;
  manifest_url = text "https://m/raw/v/index.m3u8";
}

requested : request_playback (config true) (some viewer) (pos 7) 0 ≡ (6, ok grant)
unfolding request_playback grant_playback require_actor valid_parsed_url valid_target
    validate_claims claims_fit new_claims manifest_url text_beq
requested = refl

request_playback-Requested_example : Requested (config true) (some viewer) (pos 7) 0 6 grant
request_playback-Requested_example =
    request_playback-Requested (config true) (some viewer) (pos 7) 0 requested

processed : process_media_job (config true) (text "w") 0 ≡ (5, (true, none))
unfolding process_media_job perform job_result
processed = refl

process_media_job-Processed_example : Processed (config true) (text "w") 0 5
process_media_job-Processed_example =
    process_media_job-Processed (config true) (text "w") 0 processed

-- The round that starts a camera which is no longer active makes three calls: no guard, no provider.
skipping : process_media_job (config false) (text "w") 0 ≡ (3, (true, none))
unfolding process_media_job perform
skipping = refl
