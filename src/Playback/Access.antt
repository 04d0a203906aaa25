-- ===== src/Playback/Access.antt =====
-- What a granted access to media, a new session and a shown session guarantee.
use iolink.Base.{
  ◌+◌, ◌≤◌, ◌<◌, ◌≡◌, ◌⊎◌, inl, inr, ==_iff, text_eq, int_eq, true, false, ◌||◌, Text, is_empty,
  some, ok, arith, Option-cases, Result-cases, guard-true,
}
use iolink.Media.{Time, Session, ready, expired, MediaClaims, MediaAccess}
use iolink.Playback.Effects.{Tokens, Config, Run-cases}
use iolink.Playback.Checks.{
  max_video_playback_ttl, media_audience, Actor, tenant_id, tenant_user_id, claims_fit,
  validate_claims,
}
use iolink.Playback.Service.{is_pending, is_ready, shown_session, check_access, authorize_media}

validate_claims-ok :
    (got want : MediaClaims) (now : Time) {u : Unit {0}}
    → validate_claims got want now ≡ ok u
    → claims_fit got want now ≡ true
unfolding validate_claims
validate_claims-ok got want now h = guard-true (claims_fit got want now) _ h

-- Claims that fit are for this audience and are in force: issued at most `max_video_playback_ttl`
-- before they run out, not in the future, and not run out yet.
claims_fit-IsInForce :
    (got want : MediaClaims) (now : Time)
    → claims_fit got want now ≡ true
    → (got.audience ≡ media_audience)
      × (got.issued_at ≤ now)
      × (now < got.expires_at)
      × (got.expires_at ≤ got.issued_at + max_video_playback_ttl)
      × (is_empty got.jti ≡ false)
unfolding claims_fit
claims_fit-IsInForce got want now h = ground (arith, ==_iff got.audience media_audience)

check_access-ok :
    (a : MediaAccess) (c : MediaClaims) (session_id : Text) (now : Time) {b : MediaAccess}
    → check_access a c session_id now ≡ ok b
    → (b ≡ a)
      × (a.session_id ≡ session_id)
      × (a.tenant_id ≡ c.tenant_id)
      × (a.camera_id ≡ c.camera_id)
      × (a.source_version ≡ c.source_version)
      × (a.state ≡ ready)
      × (now < a.expires_at)
unfolding check_access
check_access-ok a c session_id now h = ground (arith, ==_iff a.session_id session_id)

-- Why an access to media was granted: the issuer verified the token, its claims name the session and
-- the audience and are in force, and the store's record of the session agrees with them.
pub record Authorized {W : Type 0} (d : Config W) (raw_token session_id : Text) (w w' : W)
    (a : MediaAccess) : Type 0 where
  pub issuer : Tokens W
  pub claims : MediaClaims
  pub verified_world : W
  pub configured : (d.enabled ≡ true) × (d.tokens ≡ some issuer)
  pub verified : issuer.verify raw_token w ≡ (verified_world, ok claims)
  pub looked_up :
      d.authorize_token claims (d.hash_token raw_token) (d.now w) verified_world ≡ (w', ok a)
  pub addressed : (claims.session_id ≡ session_id) × (claims.audience ≡ media_audience)
  pub issued_before : claims.issued_at ≤ d.now w
  pub claims_live : d.now w < claims.expires_at
  pub claims_short : claims.expires_at ≤ claims.issued_at + max_video_playback_ttl
  pub same_session : a.session_id ≡ session_id
  pub same_tenant : a.tenant_id ≡ claims.tenant_id
  pub same_camera : a.camera_id ≡ claims.camera_id
  pub same_source : a.source_version ≡ claims.source_version
  pub session_ready : a.state ≡ ready
  pub session_live : d.now w < a.expires_at

module _ {W : Type 0} (d : Config W) where
  -- Media is handed out only on a token that the issuer verifies, whose claims name this session and
  -- audience and are in force for at most five minutes, and only where the store's own record of the
  -- session agrees with the claims, is ready and has not run out.
  pub authorize_media-Authorized :
      (raw_token session_id : Text) (w : W) {w' : W} {a : MediaAccess}
      → authorize_media d raw_token session_id w ≡ (w', ok a)
      → Authorized d raw_token session_id w w' a
  unfolding authorize_media
  authorize_media-Authorized raw_token session_id w {w'} {a} h = elim (Option-cases d.tokens) [
    | inl t ↦ absurd (ground arith)
    | inr (tokens, t) ↦ elim (Run-cases (tokens.verify raw_token w)) [
      | inr (w1, e, v) ↦ absurd (ground arith)
      | inl (w1, c, v) ↦ elim (Result-cases (validate_claims c c (d.now w))) [
        | inr (e, f) ↦ absurd (ground arith)
        | inl (u, f) ↦
            elim (Run-cases (d.authorize_token c (d.hash_token raw_token) (d.now w) w1)) [
              | inr (w2, e, q) ↦ absurd (ground arith)
              | inl (w2, b, q) ↦
                  let k : check_access b c session_id (d.now w) ≡ ok a = ground arith in
                  let (same, id, tenant, camera, source, state, live) =
                    check_access-ok b c session_id (d.now w) k in
                  let (aud, from, until, span, jti) =
                    claims_fit-IsInForce c c (d.now w) (validate_claims-ok c c (d.now w) f) in
                  record {
                    issuer = tokens;
                    claims = c;
                    verified_world = w1;
                    configured = (ground arith, t);
                    verified = v;
                    looked_up = ground arith;
                    addressed = (ground (arith, ==_iff c.session_id session_id), aud);
                    issued_before = from;
                    claims_live = until;
                    claims_short = span;
                    same_session = rw same id;
                    same_tenant = rw same tenant;
                    same_camera = rw same camera;
                    same_source = rw same source;
                    session_ready = rw same state;
                    session_live = rw same live;
                  }
            ]
      ]
    ]
  ]

-- A session is shown to its owner only: the tenant and the user are the actor's. One that has run
-- out is shown as expired, never as pending or ready, and nothing else of it changes.
shown_session-own :
    (s : Session) (actor : Actor) (now : Time) {t : Session}
    → shown_session s actor now ≡ ok t
    → (t.tenant_id ≡ (tenant_id actor).0)
      × (t.user_id ≡ (tenant_user_id actor).0)
      × (t ≡ record s { state = t.state })
      × ((t.state ≡ s.state) ⊎ ((t.state ≡ expired) × (s.expires_at ≤ now)))
      × (is_pending t.state || is_ready t.state ≡ true → now < t.expires_at)
unfolding shown_session
shown_session-own s actor now h = ground arith
