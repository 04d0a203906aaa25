-- ===== src/License/Laws.antt =====
-- internal/license/license.go: when a license is current.
use iolink.Base.{
  ◌+◌, ◌≤◌, ◌<◌, ◌≡◌, ◌↔◌, ◌⊎◌, inl, inr, ==_iff, text_eq, Bool, true, false, Option-cases, Text,
  Option, none, some, arith,
}
use iolink.Media.{Time}
use iolink.License.Status.{Payload, is_current, evaluate, clock_slack}

abbrev pub NotRunOut : Option Time → Time → Type 0
NotRunOut none now = Unit
NotRunOut (some at) now = now < at

-- `Evaluate` calls a license current exactly when the clock is not in error, the license is of this
-- deployment, has begun and has not run out.
pub evaluate-current :
    (p : Payload) (deployment_id : Text) (now max_seen : Time) (latched : Bool)
    → (is_current (evaluate p deployment_id now max_seen latched) ≡ true) ↔ (
        (latched ≡ false)
        × ((max_seen ≡ 0) ⊎ (max_seen ≤ now + clock_slack))
        × (p.deployment_id ≡ deployment_id)
        × (p.not_before ≤ now)
        × NotRunOut p.expires_at now)
unfolding evaluate
evaluate-current p deployment_id now max_seen latched = elim (Option-cases p.expires_at) [
  | inl e ↦ rw e (
    λ h. ground (arith, ==_iff p.deployment_id deployment_id),
    λ h. ground (arith, ==_iff p.deployment_id deployment_id),
  )
  | inr (at, e) ↦ rw e (
    λ h. ground (arith, ==_iff p.deployment_id deployment_id),
    λ h. ground (arith, ==_iff p.deployment_id deployment_id),
  )
]
