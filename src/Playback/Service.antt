-- ===== src/Playback/Service.antt =====
-- service.go: `RequestPlayback`, `ReadPlayback`, `StopPlayback` and `AuthorizeMedia`, over the
-- configuration of Effects.antt.
use iolink.Base.{
  ◌+◌, ◌==◌, text_eq, int_eq, Bool, true, false, ◌&&◌, ◌||◌, not, if◌then◌else◌, Text, is_empty, ℤ,
  is_positive, [], Option, GoError, plain, media, MediaError, Result, ok, err,
}
use iolink.Media.{
  Time, before, PlaybackTarget, Session, SessionState, pending, ready, expired, MediaClaims,
  MediaAccess,
}
use iolink.Playback.Effects.{M, ◌>>=◌, ◌>>◌, lift, return, require, need, on_err, Tokens, Config}
use iolink.Playback.Checks.{
  max_video_playback_ttl, media_audience, Actor, tenant_id, tenant_user_id, require_actor,
  normalize_store_error, normalize_media_store_error, normalize_license_error, validate_claims,
  valid_parsed_url, manifest_url, start_job_key,
}

pub record Grant : Type 0 where
  pub session_id : Text
  pub expires_at : Time
  pub manifest_url : Text

abbrev pub invalid : GoError
invalid = plain (media MediaError.invalid)

abbrev pub unavailable : GoError
unavailable = plain (media MediaError.unavailable)

abbrev pub unauthorized : GoError
unauthorized = plain (media MediaError.unauthorized)

abbrev pub forbidden : GoError
forbidden = plain (media MediaError.forbidden)

abbrev pub not_found : GoError
not_found = plain (media MediaError.not_found)

abbrev pub is_pending : SessionState → Bool
is_pending pending = true
is_pending _ = false

abbrev pub is_ready : SessionState → Bool
is_ready ready = true
is_ready _ = false

unfoldable pub valid_target : PlaybackTarget → ℤ → Bool
valid_target t camera_id =
    is_positive t.tenant_id
    && t.camera_id == camera_id
    && is_positive t.source_version
    && not (is_empty t.stream_id)

unfoldable pub new_claims : PlaybackTarget → ℤ → Time → Text → Text → MediaClaims
new_claims t camera_id now session_id jti = record {
  session_id = session_id;
  tenant_id = t.tenant_id;
  camera_id = camera_id;
  user_id = t.user_id;
  source_version = t.source_version;
  audience = media_audience;
  issued_at = now;
  expires_at = now + max_video_playback_ttl;
  jti = jti;
}

unfoldable pub new_session : PlaybackTarget → ℤ → Time → Text → Session
new_session t camera_id now session_id = record {
  id = session_id;
  stream_id = t.stream_id;
  tenant_id = t.tenant_id;
  camera_id = camera_id;
  source_version = t.source_version;
  user_id = t.user_id;
  user_token_version = t.user_token_version;
  tenant_permission_version = t.tenant_permission_version;
  member_permission_version = t.member_permission_version;
  state = pending;
  error_code = [];
  created_at = now;
  expires_at = now + max_video_playback_ttl;
}

-- `ReadPlayback` on the session that the store returned.
unfoldable pub shown_session : Session → Actor → Time → Result Session
shown_session s actor now =
    if not (s.tenant_id == (tenant_id actor).0 && s.user_id == (tenant_user_id actor).0)
    then err not_found
    else if (is_pending s.state || is_ready s.state) && not (before now s.expires_at)
    then ok (record s { state = expired })
    else ok s

-- `AuthorizeMedia` on the access that the store returned. Its first result is returned with
-- `ErrPending` too, where no caller reads it.
unfoldable pub check_access : MediaAccess → MediaClaims → Text → Time → Result MediaAccess
check_access a c session_id now =
    if not (
      a.session_id == session_id
      && a.tenant_id == c.tenant_id
      && a.camera_id == c.camera_id
      && a.source_version == c.source_version)
    then err unauthorized
    else if is_pending a.state
    then err (plain (media MediaError.pending))
    else if not (is_ready a.state) || not (before now a.expires_at)
    then err forbidden
    else ok a

module _ {W : Type 0} (d : Config W) where
  -- `s.cfg.Now()`.
  abbrev pub read_clock : M W Time
  read_clock w = (w, ok (d.now w))

  -- The part of `RequestPlayback` behind its checks of the configuration.
  unfoldable pub grant_playback : Tokens W → (PlaybackTarget → M W (Unit {0})) → ℤ → M W Grant
  grant_playback tokens require_video camera_id = do
    now ← read_clock
    target ← on_err normalize_store_error (d.prepare_playback camera_id)
    require (valid_target target camera_id) unavailable
    on_err normalize_license_error (require_video target)
    session_id ← d.new_uuid
    jti ← d.new_uuid
    issued ←
        on_err (λ _. unavailable) (tokens.issue (new_claims target camera_id now session_id jti))
    require (not (is_empty issued.raw)) unavailable
    on_err (λ _. unavailable)
        (lift (validate_claims issued.claims (new_claims target camera_id now session_id jti) now))
    stored ← on_err normalize_store_error (
        d.create_playback (record {
          session = new_session target camera_id now session_id;
          target = target;
          token_hash = d.hash_token issued.raw;
          start_job_key = start_job_key camera_id target.source_version;
        }))
    return (record {
      session_id = session_id;
      expires_at = now + max_video_playback_ttl;
      manifest_url = manifest_url d.manifest_base_url issued.raw session_id;
    })

  unfoldable pub request_playback : Option Actor → ℤ → M W Grant
  request_playback ctx camera_id = do
    actor ← lift (require_actor ctx)
    require d.enabled unavailable
    require_video ← need d.license unavailable
    provider ← need d.provider unavailable
    tokens ← need d.tokens unavailable
    require (valid_parsed_url (d.parse_url d.manifest_base_url)) unavailable
    require (is_positive camera_id) invalid
    grant_playback tokens (λ t. require_video t.license) camera_id

  unfoldable pub read_playback : Option Actor → Text → M W Session
  read_playback ctx session_id = do
    actor ← lift (require_actor ctx)
    require (not (is_empty session_id)) invalid
    session ← on_err normalize_store_error (d.read_owned_playback session_id)
    now ← read_clock
    lift (shown_session session actor now)

  unfoldable pub stop_playback : Option Actor → Text → M W (Unit {0})
  stop_playback ctx session_id = do
    actor ← lift (require_actor ctx)
    require (not (is_empty session_id)) invalid
    now ← read_clock
    on_err normalize_store_error (d.stop_owned_playback session_id now)

  unfoldable pub authorize_media : Text → Text → M W MediaAccess
  authorize_media raw_token session_id = do
    require (not (is_empty raw_token) && not (is_empty session_id)) unauthorized
    require d.enabled unavailable
    tokens ← need d.tokens unavailable
    now ← read_clock
    claims ← on_err (λ _. unauthorized) (tokens.verify raw_token)
    require (claims.session_id == session_id && claims.audience == media_audience) unauthorized
    on_err (λ _. unauthorized) (lift (validate_claims claims claims now))
    access ←
        on_err normalize_media_store_error (d.authorize_token claims (d.hash_token raw_token) now)
    lift (check_access access claims session_id now)
