-- ===== src/License/Admitted.antt =====
-- internal/core/license_runtime.go: what the admission of a device has checked.
use iolink.Base.{
  ◌==◌, ◌&&◌, Bool, required, ◌+◌, ◌≤◌, ◌≡◌, refl, inl, inr, ==_iff, text_eq, false, Text, is_empty,
  ℤ, ◌<ℤ◌, Option, some, Option-cases, ok, Result-cases, Bool-cases, arith,
}
use iolink.World.{◌>>◌, require, Run-cases}
use iolink.Media.{Time}
use iolink.License.Status.{Payload, is_current, evaluate, clock_slack}
use iolink.License.Files.{Verified, verify}
use iolink.License.Verified.{IsVerified, verify-accepts}
use iolink.License.Laws.{NotRunOut, evaluate-current}
use iolink.License.Admission.{
  LicenseRuntime, StoredLicense, Service, license_error, stored_envelope, lock_license_state,
  fits_clock, check_license_clock, check_quota, check_validity, check_stored, check_license,
  check_device_admission,
}

module _ {W : Type 0} (s : Service W) where
  -- The clock's row was read, is not latched, and the clock does not run back behind its mark.
  pub record ClockFits (w w' : W) : Type 0 where
    pub max_seen : Option Time
    pub reads : s.license_clock w ≡ (w', ok (max_seen, false))
    pub not_back : (seen : Time) → max_seen ≡ some seen → seen ≤ s.now w' + clock_slack

  -- A license that is this deployment's, in force, and for more devices than are in use.
  pub record IsOpen (p : Payload) (deployment : Text) (w w' : W) : Type 0 where
    pub used : ℤ
    pub ours : p.deployment_id ≡ deployment
    pub started : p.not_before ≤ s.now w
    pub not_over : NotRunOut p.expires_at (s.now w)
    pub counts : s.count_devices w ≡ (w', ok used)
    pub quota : used <ℤ p.max_devices

  -- Why a device was admitted.
  pub record Admitted (w w' : W) : Type 0 where
    pub service : LicenseRuntime
    pub accepts : Text → Text → Bool
    pub deployment : Text
    pub stored : StoredLicense
    pub license : Verified
    pub locked_world : W
    pub clock_world : W
    pub deployment_world : W
    pub stored_world : W
    pub configured : s.runtime ≡ some service
    pub has_key : service.public_key ≡ some accepts
    pub has_key_id : is_empty service.key_id ≡ false
    pub locks : s.lock_license w ≡ (locked_world, ok tt)
    pub clock : ClockFits locked_world clock_world
    pub deploys : s.deployment_id clock_world ≡ (deployment_world, ok deployment)
    pub reads : s.license_state deployment_world ≡ (stored_world, ok (some stored))
    pub verified : IsVerified s.codec (stored_envelope s stored) accepts license
    pub same_digest : license.sha256 ≡ stored.payload_sha256
    pub same_key : license.payload.key_id ≡ service.key_id
    pub in_force : IsOpen license.payload.checked deployment stored_world w'

  check_license_clock-ClockFits :
      (w : W) {w' : W} → check_license_clock s w ≡ (w', ok tt) → ClockFits w w'
  unfolding check_license_clock fits_clock
  check_license_clock-ClockFits w {w'} h = elim (Run-cases (s.license_clock w)) [
    | inr (w1, e, k) ↦ absurd (ground arith)
    | inl (w1, (max_seen, latched), k) ↦ elim (Bool-cases latched) [
      | inl b ↦ absurd (ground arith)
      | inr b ↦
          let same : w1 ≡ w' = ground arith in
          record { max_seen = max_seen; reads = ground arith; not_back = λ seen e. ground arith }
    ]
  ]

  check_validity-IsOpen :
      (deployment : Text) (p : Payload) (w : W) {w' : W}
      → check_validity s deployment p w ≡ (w', ok tt)
      → IsOpen p deployment w w'
  unfolding check_validity check_quota
  check_validity-IsOpen deployment p w {w'} h =
      elim (Bool-cases (is_current (evaluate p deployment (s.now w) 0 false))) [
        | inr b ↦ absurd (ground arith)
        | inl b ↦ elim (Run-cases (s.count_devices w)) [
          | inr (w1, e, k) ↦ absurd (ground arith)
          | inl (w1, used, k) ↦
              let (latch, back, ours, started, not_over) =
                (evaluate-current p deployment (s.now w) 0 false).0 b in
              record {
                used = used;
                ours = ours;
                started = started;
                not_over = not_over;
                counts = ground arith;
                quota = ground arith;
              }
        ]
      ]

  fits_stored :
      (r : LicenseRuntime) (license : Verified) (stored : StoredLicense) (deployment : Text) (w : W)
      {w' : W}
      → (require
              (license.sha256 == stored.payload_sha256 && license.payload.key_id == r.key_id)
              (license_error required)
            >> check_validity s deployment license.payload.checked)
          w
        ≡ (w', ok tt)
      → (license.sha256 ≡ stored.payload_sha256)
        × (license.payload.key_id ≡ r.key_id)
        × (check_validity s deployment license.payload.checked w ≡ (w', ok tt))
  fits_stored r license stored deployment w h =
      elim (Bool-cases
        (license.sha256 == stored.payload_sha256 && license.payload.key_id == r.key_id)) [
          | inr b ↦ absurd (ground arith)
          | inl b ↦ (
            (==_iff license.sha256 stored.payload_sha256).0 (ground arith),
            (==_iff license.payload.key_id r.key_id).0 (ground arith),
            ground arith,
          )
        ]

  check_license-Admitted :
      (r : LicenseRuntime) (accepts : Text → Text → Bool) (w : W) {w' : W}
      → s.runtime ≡ some r
      → r.public_key ≡ some accepts
      → is_empty r.key_id ≡ false
      → check_license s accepts r.key_id w ≡ (w', ok tt)
      → Admitted w w'
  unfolding check_license lock_license_state check_stored
  check_license-Admitted r accepts w {w'} configured has_key has_key_id h =
      elim (Run-cases (s.lock_license w)) [
        | inr (w1, e, k) ↦ absurd (ground arith)
        | inl (w1, u, k) ↦ elim (Run-cases (check_license_clock s w1)) [
          | inr (w2, e, c) ↦ absurd (ground arith)
          | inl (w2, u2, c) ↦ elim (Run-cases (s.deployment_id w2)) [
            | inr (w3, e, p) ↦ absurd (ground arith)
            | inl (w3, deployment, p) ↦ elim (Run-cases (s.license_state w3)) [
              | inr (w4, e, l) ↦ absurd (ground arith)
              | inl (w4, row, l) ↦ elim (Option-cases row) [
                | inl n ↦ absurd (ground arith)
                | inr (stored, n) ↦
                    elim (Result-cases (verify s.codec (stored_envelope s stored) (some accepts))) [
                      | inr (e, v) ↦ absurd (ground arith)
                      | inl (license, v) ↦
                          let (sha, key, run) =
                            fits_stored r license stored deployment w4 (ground arith) in
                          record {
                            service = r;
                            accepts = accepts;
                            deployment = deployment;
                            stored = stored;
                            license = license;
                            locked_world = w1;
                            clock_world = w2;
                            deployment_world = w3;
                            stored_world = w4;
                            configured = configured;
                            has_key = has_key;
                            has_key_id = has_key_id;
                            locks = k;
                            clock = check_license_clock-ClockFits w1 c;
                            deploys = p;
                            reads = rw l (rw n refl);
                            verified = verify-accepts s.codec (stored_envelope s stored) accepts v;
                            same_digest = sha;
                            same_key = key;
                            in_force =
                                check_validity-IsOpen deployment license.payload.checked w4 run;
                          }
                    ]
              ]
            ]
          ]
        ]
      ]

  -- A device is admitted only by a service with a public key and the name of one; with the row of
  -- the license locked, the clock neither latched nor more than five minutes behind its mark, the
  -- stored license verified by that key, with the stored digest and under the name of that key, of
  -- this deployment, begun and not run out, and for more devices than are in use.
  pub check_device_admission-Admitted :
      (w : W) {w' : W} → check_device_admission s w ≡ (w', ok tt) → Admitted w w'
  unfolding check_device_admission
  check_device_admission-Admitted w h = elim (Option-cases s.runtime) [
    | inl n ↦ absurd (ground arith)
    | inr (r, n) ↦ elim (Option-cases r.public_key) [
      | inl k ↦ absurd (ground arith)
      | inr (accepts, k) ↦ elim (Bool-cases (is_empty r.key_id)) [
        | inl b ↦ absurd (ground arith)
        | inr b ↦ check_license-Admitted r accepts w n k b (ground arith)
      ]
    ]
  ]
