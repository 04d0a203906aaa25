-- ===== src/License/Named.antt =====
-- internal/core/license_runtime.go: the stored license behind a status that allows a feature.
use iolink.Base.{
  ◌==◌, ◌&&◌, ◌||◌, Bool, ◌+◌, ◌≤◌, ◌≡◌, refl, subst, ◌⊎◌, inl, inr, ==_iff, text_eq, text_beq,
  trim_space, int_eq, true, false, Text, is_empty, ℤ, if◌then◌else◌, any, Option, none, some,
  Result-cases, Bool-cases, arith,
}
use iolink.Media.{Time}
use iolink.License.Status.{
  Payload, LicenseStatus, is_current, is_overage, evaluate, with_usage, verified_status,
  allows_feature, clock_slack, invalid, missing, clock_error,
}
use iolink.License.Files.{Verified, verify}
use iolink.License.Verified.{IsVerified, verify-accepts}
use iolink.License.Laws.{NotRunOut, evaluate-current}
use iolink.License.Admission.{LicenseRuntime, StoredLicense, Service, stored_envelope}
use iolink.License.Features.{bare_status, last_seen, keyed_status, row_status}

evaluate-not_overage :
    (p : Payload) (deployment : Text) (now max_seen : Time) (latched : Bool)
    → is_overage (evaluate p deployment now max_seen latched) ≡ false
unfolding evaluate
evaluate-not_overage p deployment now max_seen latched = ground arith

-- A status allows no feature that it does not name.
bare-denied :
    (s : LicenseStatus) (used : ℤ) (feature : Text)
    → any (λ f. f == feature) s.features ≡ false
    → allows_feature (with_usage s used) feature ≡ none
    → ⊥
unfolding allows_feature with_usage
bare-denied s used feature h k = ground arith

-- A status allows a feature of a license only while that is current, though for fewer devices.
verified-allowed :
    (p : Payload) (deployment : Text) (now max_seen : Time) (latched : Bool) (used : ℤ)
    (feature : Text)
    → allows_feature (verified_status p deployment now max_seen latched used) feature ≡ none
    → (is_current (evaluate p deployment now max_seen latched) ≡ true)
      × (any (λ f. f == feature) p.features ≡ true)
unfolding allows_feature verified_status with_usage
verified-allowed p deployment now max_seen latched used feature h =
    let z = evaluate-not_overage p deployment now max_seen latched in
    elim (Bool-cases (is_current (evaluate p deployment now max_seen latched))) [
      | inl b ↦ (b, ground (arith, z, b))
      | inr b ↦ absurd (ground (arith, z, b))
    ]

-- A stored license that names a feature, and is in force at the time `now`.
pub record Names {W : Type 0} (s : Service W) (r : LicenseRuntime) (accepts : Text → Text → Bool)
    (deployment : Text) (clock : Option Time × Bool) (stored : StoredLicense) (now : Time)
    (feature : Text) : Type 0 where
  pub license : Verified
  pub verified : IsVerified s.codec (stored_envelope s stored) accepts license
  pub same_digest : license.sha256 ≡ stored.payload_sha256
  pub same_key : license.payload.key_id ≡ r.key_id
  pub not_latched : clock.1 ≡ false
  pub not_back : (seen : Time) → clock.0 ≡ some seen → seen ≤ now + clock_slack
  pub ours : license.payload.checked.deployment_id ≡ deployment
  pub started : license.payload.checked.not_before ≤ now
  pub not_over : NotRunOut license.payload.checked.expires_at now
  pub named : any (λ f. f == feature) license.payload.checked.features ≡ true

last_seen-le :
    (o : Option Time) (bound : Time)
    → (last_seen o ≡ 0) ⊎ (last_seen o ≤ bound)
    → (seen : Time) → o ≡ some seen
    → seen ≤ bound
last_seen-le none bound h seen e = absurd cc
last_seen-le (some at) bound h seen e = ground arith

keyed_status-Names :
    {W : Type 0} (s : Service W) (r : LicenseRuntime) (accepts : Text → Text → Bool)
    (deployment : Text) (clock : Option Time × Bool) (stored : StoredLicense) (now : Time)
    (used : ℤ) (feature : Text)
    → allows_feature (keyed_status s accepts r.key_id deployment clock stored now used) feature
      ≡ none
    → Names s r accepts deployment clock stored now feature
unfolding keyed_status trim_space text_beq
keyed_status-Names s r accepts deployment (max_seen, latched) stored now used feature h =
    let failed = bare_status (if latched then clock_error else invalid) in
    let status : LicenseStatus =
      keyed_status s accepts r.key_id deployment (max_seen, latched) stored now used in
    let shows : LicenseStatus → Type 0 = λ x. allows_feature x feature ≡ none in
    elim (Result-cases (verify s.codec (stored_envelope s stored) (some accepts))) [
      | inr (e, v) ↦
          let e : status ≡ with_usage failed used = rw v refl in
          absurd (bare-denied failed used feature refl (subst shows e h))
      | inl (l, v) ↦
          elim (Bool-cases (l.sha256 == stored.payload_sha256 && l.payload.key_id == r.key_id)) [
            | inr b ↦
                let e : status ≡ with_usage failed used = rw (v, b) refl in
                absurd (bare-denied failed used feature refl (subst shows e h))
            | inl b ↦
                let e : status
                    ≡ verified_status l.payload.checked deployment now (last_seen max_seen) latched
                        used =
                  rw (v, b) refl in
                let (current, named) =
                  verified-allowed l.payload.checked deployment now (last_seen max_seen) latched
                    used feature (subst shows e h) in
                let (latch, back, ours, started, not_over) =
                  (evaluate-current l.payload.checked deployment now (last_seen max_seen) latched).0
                    current in
                record {
                  license = l;
                  verified = verify-accepts s.codec (stored_envelope s stored) accepts v;
                  same_digest = (==_iff l.sha256 stored.payload_sha256).0 (ground arith);
                  same_key = (==_iff l.payload.key_id r.key_id).0 (ground arith);
                  not_latched = latch;
                  not_back = last_seen-le max_seen (now + clock_slack) back;
                  ours = ours;
                  started = started;
                  not_over = not_over;
                  named = named;
                }
          ]
    ]

pub row_status-Names :
    {W : Type 0} (s : Service W) (r : LicenseRuntime) (accepts : Text → Text → Bool)
    (deployment : Text) (clock : Option Time × Bool) (stored : StoredLicense) (now : Time)
    (used : ℤ) (feature : Text)
    → s.runtime ≡ some r
    → r.public_key ≡ some accepts
    → allows_feature (row_status s deployment clock stored now used) feature ≡ none
    → Names s r accepts deployment clock stored now feature
unfolding row_status
row_status-Names s r accepts deployment clock stored now used feature given key h =
    let status : LicenseStatus = row_status s deployment clock stored now used in
    let shows : LicenseStatus → Type 0 = λ x. allows_feature x feature ≡ none in
    elim (Bool-cases (is_empty stored.payload_raw && is_empty stored.signature)) [
      | inl b ↦
          let bare = bare_status (if clock.1 then clock_error else missing) in
          let e : status ≡ with_usage bare used = rw b refl in
          absurd (bare-denied bare used feature refl (subst shows e h))
      | inr b ↦ elim (Bool-cases (is_empty stored.payload_raw || is_empty stored.signature)) [
        | inl c ↦
            let e : status ≡ with_usage (bare_status invalid) used = rw (b, given, key, c) refl in
            absurd (bare-denied (bare_status invalid) used feature refl (subst shows e h))
        | inr c ↦
            let e : status ≡ keyed_status s accepts r.key_id deployment clock stored now used =
              rw (b, given, key, c) refl in
            keyed_status-Names s r accepts deployment clock stored now used feature
              (subst shows e h)
      ]
    ]
