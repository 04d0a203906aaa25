-- ===== src/Playback/Grants.antt =====
-- What `RequestPlayback` has checked and stored when it grants a session.
use iolink.Base.{
  ◌+◌, ◌*◌, ◌≤◌, ◌<◌, ◌≡◌, refl, ap, subst, inl, inr, ==_iff, text_eq, int_eq, true, false, Text,
  text, is_empty, [], ◌∷◌, map, ℤ, pos, ◌<ℤ◌, is_positive, Option, none, some, ok, guard-true,
  arith, Option-cases, Result-cases,
}
use iolink.Media.{
  MediaClaims, second, pending, LicenseSnapshot, Time, PlaybackTarget, Session, CreateSession,
  IssuedToken,
}
use iolink.Playback.Effects.{M, Tokens, Provider, ParsedUrl, Config, Run-cases}
use iolink.Playback.Checks.{
  Actor, scope_id, tenant_id, tenant_user_id, require_actor, claims_fit, validate_claims,
  lower_ascii, valid_parsed_url, manifest_url, start_job_key,
}
use iolink.Playback.Service.{
  Grant, valid_target, new_claims, new_session, grant_playback, request_playback,
}

-- The claims that the issuer is asked to sign, and the session that the store is asked for: both are for
-- the target's tenant and user, and end the same time after the request.
abbrev pub asked_claims : PlaybackTarget → ℤ → Time → Text → Text → MediaClaims
asked_claims target camera_id now session_id jti = record {
  session_id = session_id;
  tenant_id = target.tenant_id;
  camera_id = camera_id;
  user_id = target.user_id;
  source_version = target.source_version;
  audience = text "iolink-media-v1";
  issued_at = now;
  expires_at = now + 300 * second;
  jti = jti;
}

abbrev pub stored_input :
    {W : Type 0} → Config W → PlaybackTarget → ℤ → Time → Text → Text → CreateSession
stored_input d target camera_id now session_id raw = record {
  session = record {
    id = session_id;
    stream_id = target.stream_id;
    tenant_id = target.tenant_id;
    camera_id = camera_id;
    source_version = target.source_version;
    user_id = target.user_id;
    user_token_version = target.user_token_version;
    tenant_permission_version = target.tenant_permission_version;
    member_permission_version = target.member_permission_version;
    state = pending;
    error_code = [];
    created_at = now;
    expires_at = now + 300 * second;
  };
  target = target;
  token_hash = d.hash_token raw;
  start_job_key = start_job_key camera_id target.source_version;
}

-- A target of the camera that was asked for.
pub record FitsCamera (t : PlaybackTarget) (camera_id : ℤ) : Type 0 where
  pub tenant : pos 0 <ℤ t.tenant_id
  pub camera : t.camera_id ≡ camera_id
  pub source : pos 0 <ℤ t.source_version
  pub stream : is_empty t.stream_id ≡ false

-- Claims that say what was asked for and are in force.
pub record FitClaims (got want : MediaClaims) (now : Time) : Type 0 where
  pub session : got.session_id ≡ want.session_id
  pub tenant : got.tenant_id ≡ want.tenant_id
  pub camera : got.camera_id ≡ want.camera_id
  pub user : got.user_id ≡ want.user_id
  pub source : got.source_version ≡ want.source_version
  pub audience : got.audience ≡ text "iolink-media-v1"
  pub numbered : is_empty got.jti ≡ false
  pub issued : (0 < got.issued_at) × (got.issued_at ≤ now)
  pub ends : (now < got.expires_at) × (got.expires_at ≤ got.issued_at + 300 * second)

-- An actor with a tenant, a user and a role.
pub record IsScoped (a : Actor) : Type 0 where
  pub tenant : ℤ
  pub user : ℤ
  pub tenant_given : a.tenant_value ≡ some tenant
  pub tenant_positive : pos 0 <ℤ tenant
  pub user_given : a.user_value ≡ some user
  pub user_positive : pos 0 <ℤ user
  pub role : is_empty a.role ≡ false

-- The base of the manifests' addresses: absolute, over HTTPS, with a host and nothing behind the path.
pub record IsManifestBase (parsed : Option ParsedUrl) : Type 0 where
  pub url : ParsedUrl
  pub read : parsed ≡ some url
  pub absolute : url.is_abs ≡ true
  pub host : (is_empty url.host ≡ false) × (is_empty url.hostname ≡ false)
  pub scheme : map lower_ascii url.scheme ≡ text "https"
  pub no_user : url.has_user ≡ false
  pub path_only : (url.raw_query ≡ []) × (url.fragment ≡ []) × (url.opaque_part ≡ [])

-- The steps of a granted request, in their order, from the world in which it began to its end.
pub record Granted {W : Type 0} (d : Config W) (tokens : Tokens W)
    (require_video : PlaybackTarget → M W (Unit {0})) (camera_id : ℤ) (w w' : W) (g : Grant)
    : Type 0 where
  pub target : PlaybackTarget
  pub issued : IssuedToken
  pub stored : Session
  pub jti : Text
  pub prepared_world : W
  pub licensed_world : W
  pub named_world : W
  pub claims_world : W
  pub issued_world : W
  pub prepared : d.prepare_playback camera_id w ≡ (prepared_world, ok target)
  pub fits : FitsCamera target camera_id
  pub licensed : require_video target prepared_world ≡ (licensed_world, ok tt)
  pub named : d.new_uuid licensed_world ≡ (named_world, ok g.session_id)
  pub numbered : d.new_uuid named_world ≡ (claims_world, ok jti)
  pub issues :
      tokens.issue (asked_claims target camera_id (d.now w) g.session_id jti) claims_world
      ≡ (issued_world, ok issued)
  pub raw_given : is_empty issued.raw ≡ false
  pub checked :
      FitClaims issued.claims (asked_claims target camera_id (d.now w) g.session_id jti) (d.now w)
  pub creates :
      d.create_playback
        (stored_input d target camera_id (d.now w) g.session_id issued.raw)
        issued_world
      ≡ (w', ok stored)
  pub bounded : g.expires_at ≡ d.now w + 300 * second
  pub shown : g.manifest_url ≡ manifest_url d.manifest_base_url issued.raw g.session_id

-- The request behind a grant.
pub record Requested {W : Type 0} (d : Config W) (ctx : Option Actor) (camera_id : ℤ) (w w' : W)
    (g : Grant) : Type 0 where
  pub actor : Actor
  pub require_video : LicenseSnapshot → M W (Unit {0})
  pub provider : Provider W
  pub tokens : Tokens W
  pub given : ctx ≡ some actor
  pub scoped : IsScoped actor
  pub enabled : d.enabled ≡ true
  pub guarded : d.license ≡ some require_video
  pub provided : d.provider ≡ some provider
  pub issues : d.tokens ≡ some tokens
  pub manifest_base : IsManifestBase (d.parse_url d.manifest_base_url)
  pub numbered : pos 0 <ℤ camera_id
  pub granted : Granted d tokens (λ t. require_video t.license) camera_id w w' g

positive-lt : (n : ℤ) → is_positive n ≡ true → pos 0 <ℤ n
positive-lt n h = ground arith

valid_target-FitsCamera :
    (t : PlaybackTarget) (camera_id : ℤ) → valid_target t camera_id ≡ true → FitsCamera t camera_id
unfolding valid_target
valid_target-FitsCamera t camera_id h = record {
  tenant = positive-lt t.tenant_id (ground arith);
  camera = (==_iff t.camera_id camera_id).0 (ground arith);
  source = positive-lt t.source_version (ground arith);
  stream = ground arith;
}

empty-eq : (s : Text) → is_empty s ≡ true → s ≡ []
empty-eq [] h = refl
empty-eq (c ∷ s) h = absurd cc

claims-FitClaims :
    (got want : MediaClaims) (now : Time) {u : Unit {0}}
    → validate_claims got want now ≡ ok u
    → FitClaims got want now
unfolding validate_claims claims_fit
claims-FitClaims got want now h =
    let fit = guard-true (claims_fit got want now) _ h in
    record {
      session = (==_iff got.session_id want.session_id).0 (ground arith);
      tenant = (==_iff got.tenant_id want.tenant_id).0 (ground arith);
      camera = (==_iff got.camera_id want.camera_id).0 (ground arith);
      user = (==_iff got.user_id want.user_id).0 (ground arith);
      source = (==_iff got.source_version want.source_version).0 (ground arith);
      audience = (==_iff got.audience (text "iolink-media-v1")).0 (ground arith);
      numbered = ground arith;
      issued = (ground arith, ground arith);
      ends = (ground arith, ground arith);
    }

scope-given : (v : Option ℤ) → (scope_id v).1 ≡ true → (n : ℤ) × (v ≡ some n) × (pos 0 <ℤ n)
unfolding scope_id
scope-given none h = absurd cc
scope-given (some n) h = (n, refl, positive-lt n h)

require_actor-IsScoped :
    (ctx : Option Actor) {a : Actor} → require_actor ctx ≡ ok a → (ctx ≡ some a) × IsScoped a
unfolding require_actor tenant_id tenant_user_id
require_actor-IsScoped none h = absurd cc
require_actor-IsScoped (some b) {a} h =
    let (tenant, tenant_given, tenant_positive) = scope-given b.tenant_value (ground arith) in
    let (user, user_given, user_positive) = scope-given b.user_value (ground arith) in
    let same : b ≡ a = ground arith in
    (
      ap some same,
      subst IsScoped same (record {
        tenant = tenant;
        user = user;
        tenant_given = tenant_given;
        tenant_positive = tenant_positive;
        user_given = user_given;
        user_positive = user_positive;
        role = ground arith;
      }),
    )

manifest-IsManifestBase :
    (parsed : Option ParsedUrl) → valid_parsed_url parsed ≡ true → IsManifestBase parsed
unfolding valid_parsed_url
manifest-IsManifestBase none h = absurd cc
manifest-IsManifestBase (some u) h = record {
  url = u;
  read = refl;
  absolute = ground arith;
  host = (ground arith, ground arith);
  scheme = (==_iff (map lower_ascii u.scheme) (text "https")).0 (ground arith);
  no_user = ground arith;
  path_only = (
    empty-eq u.raw_query (ground arith),
    empty-eq u.fragment (ground arith),
    empty-eq u.opaque_part (ground arith),
  );
}

module _ {W : Type 0} (d : Config W) where
  grant_playback-Granted :
      (tokens : Tokens W) (require_video : PlaybackTarget → M W (Unit {0})) (camera_id : ℤ) (w : W)
      {w' : W} {g : Grant}
      → grant_playback d tokens require_video camera_id w ≡ (w', ok g)
      → Granted d tokens require_video camera_id w w' g
  unfolding grant_playback new_claims new_session
  grant_playback-Granted tokens require_video camera_id w {w'} {g} h =
      elim (Run-cases (d.prepare_playback camera_id w)) [
        | inr (w1, e, p) ↦ absurd (ground arith)
        | inl (w1, target, p) ↦ elim (Run-cases (require_video target w1)) [
          | inr (w2, e, l) ↦ absurd (ground arith)
          | inl (w2, u, l) ↦ elim (Run-cases (d.new_uuid w2)) [
            | inr (w3, e, n) ↦ absurd (ground arith)
            | inl (w3, id, n) ↦ elim (Run-cases (d.new_uuid w3)) [
              | inr (w4, e, j) ↦ absurd (ground arith)
              | inl (w4, jti, j) ↦
                  elim (Run-cases
                    (tokens.issue (new_claims target camera_id (d.now w) id jti) w4)) [
                      | inr (w5, e, i) ↦ absurd (ground arith)
                      | inl (w5, issued, i) ↦
                          elim (Run-cases (
                            d.create_playback
                              (stored_input d target camera_id (d.now w) id issued.raw) w5)) [
                                | inr (w6, e, c) ↦ absurd (ground arith)
                                | inl (w6, stored, c) ↦ record {
                                  target = target;
                                  issued = issued;
                                  stored = stored;
                                  jti = jti;
                                  prepared_world = w1;
                                  licensed_world = w2;
                                  named_world = w3;
                                  claims_world = w4;
                                  issued_world = w5;
                                  prepared = p;
                                  fits = valid_target-FitsCamera target camera_id (ground arith);
                                  licensed = l;
                                  named = ground arith;
                                  numbered = j;
                                  issues = ground arith;
                                  raw_given = ground arith;
                                  checked =
                                      let same : id ≡ g.session_id = ground arith in
                                      subst
                                        (λ x.
                                          FitClaims issued.claims
                                            (asked_claims target camera_id (d.now w) x jti)
                                            (d.now w))
                                        same
                                        (claims-FitClaims issued.claims
                                          (new_claims target camera_id (d.now w) id jti) (d.now w)
                                          (ground arith));
                                  creates = ground arith;
                                  bounded = ground arith;
                                  shown = ground arith;
                                }
                              ]
                    ]
            ]
          ]
        ]
      ]

  -- A playback is granted only to an actor with a tenant, a user and a role, with the service
  -- enabled, a license guard, a provider, an issuer and an HTTPS base for manifests, for a positive
  -- camera; and only after the store prepared a target of that very camera, the license guard
  -- admitted its license, the issuer signed claims that say what was asked and are in force, and the
  -- store took a pending session that ends exactly 300 seconds after the request, as the grant does.
  pub request_playback-Requested :
      (ctx : Option Actor) (camera_id : ℤ) (w : W) {w' : W} {g : Grant}
      → request_playback d ctx camera_id w ≡ (w', ok g)
      → Requested d ctx camera_id w w' g
  unfolding request_playback
  request_playback-Requested ctx camera_id w {w'} {g} h = elim (Result-cases (require_actor ctx)) [
    | inr (e, a) ↦ absurd (ground arith)
    | inl (actor, a) ↦ elim (Option-cases d.license) [
      | inl l ↦ absurd (ground arith)
      | inr (require_video, l) ↦ elim (Option-cases d.provider) [
        | inl p ↦ absurd (ground arith)
        | inr (provider, p) ↦ elim (Option-cases d.tokens) [
          | inl t ↦ absurd (ground arith)
          | inr (tokens, t) ↦
              let rest : grant_playback d tokens (λ x. require_video x.license) camera_id w
                  ≡ (w', ok g) =
                ground arith in
              let (given, scoped) = require_actor-IsScoped ctx a in
              record {
                actor = actor;
                require_video = require_video;
                provider = provider;
                tokens = tokens;
                given = given;
                scoped = scoped;
                enabled = ground arith;
                guarded = l;
                provided = p;
                issues = t;
                manifest_base =
                    manifest-IsManifestBase (d.parse_url d.manifest_base_url) (ground arith);
                numbered = positive-lt camera_id (ground arith);
                granted =
                    grant_playback-Granted tokens (λ x. require_video x.license) camera_id w rest;
              }
        ]
      ]
    ]
  ]
