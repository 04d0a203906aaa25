-- ===== src/Gb/Status.antt =====
-- internal/gb/contracts.go: how long a registration counts as online.
use iolink.Base.{
  ℕ, ◌+◌, ◌*◌, ◌/◌, ◌≤◌, ◌<◌, ◌≡◌, ◌↔◌, ◌==◌, ==_iff, int_eq, Bool-cases, ◌⊎◌, inl, inr, false, ℤ,
  pos, negsuc, ok, arith,
}
use iolink.Media.{Time, second, is_zero_time}
use iolink.Gb.Peers.{
  Registration, online, offline, status_at, registration_ttl, min_registration_ttl,
  max_registration_ttl,
}
use iolink.Gb.Register.{RegisterRequest, new_registration}

-- A registration that is offline at some time stays offline for good: only a new registration or a
-- keepalive, which write another one, bring the device back.
pub status_at_monotone :
    (r : Registration) (now later : Time)
    → is_zero_time now ≡ false
    → now ≤ later
    → status_at r now ≡ offline
    → status_at r later ≡ offline
unfolding status_at
status_at_monotone r now later z le h = ground arith

-- What a request asks for is a length of time between a minute and an hour, or none at all, in
-- which case it asks for 0.
pub registration_ttl_bounds :
    (seconds : ℤ) {ttl : ℕ}
    → registration_ttl seconds ≡ ok ttl
    → ((seconds ≡ pos 0) × (ttl ≡ 0))
      ⊎ ((min_registration_ttl ≤ ttl)
          × (ttl ≤ max_registration_ttl)
          × (pos (ttl / second) ≡ seconds))
unfolding registration_ttl
registration_ttl_bounds (negsuc n) h = cc
registration_ttl_bounds (pos n) h = ground arith

-- A registration for a length of time is online from its start up to the third missed keepalive, or
-- until it runs out if that comes first; one for no time is offline at once.
new_registration_online :
    (r : RegisterRequest) (now later : Time) {ttl : ℕ}
    → is_zero_time now ≡ false
    → now ≤ later
    → registration_ttl r.expires ≡ ok ttl
    → (status_at (new_registration r now ttl) later ≡ online)
      ↔ ((later < now + ttl) × (later < now + 180 * second))
unfolding status_at new_registration
new_registration_online r now later {ttl} z le h = elim (Bool-cases (r.expires == pos 0)) [
  | inl b ↦ (
    λ q. ground arith,
    λ q. ground (arith, registration_ttl_bounds r.expires h, ==_iff r.expires (pos 0)),
  )
  | inr b ↦ (
    λ q. ground (arith, b),
    λ q. ground (arith, b, registration_ttl_bounds r.expires h, ==_iff r.expires (pos 0)),
  )
]
