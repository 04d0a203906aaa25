-- ===== src/Camera/Binding.antt =====
-- internal/domain/video_credentials.go: the associated data tells its binding.
use native.Mathlib.Nat.{pow-suc, div-lt_iff_lt-mul}
use iolink.Base.{
  ℕ, zero, suc, ◌/◌, ◌%◌, ◌^◌, ◌<◌, ◌≡◌, refl, true, Text, text, ◌++◌, [], ◌∷◌, ℤ, pos, negsuc,
  arith,
}
use iolink.Camera.Credentials.{
  Purpose, camera_credential, gb_device_credential, other_purpose, CredentialBinding, is_known,
  purpose_text, is_valid, big_endian, append_uint64, associated_data,
}

div_bound : (k n : ℕ) → n < 256 ^ suc k → n / 256 < 256 ^ k
div_bound k n h = (div-lt_iff_lt-mul (omega arith)).1 (rw (← pow-suc 256 k) h)

div-mod_eq : (n m : ℕ) → n / 256 ≡ m / 256 → n % 256 ≡ m % 256 → n ≡ m
div-mod_eq n m h k = omega arith

big_endian-injective :
    (k n m : ℕ) (s t : Text)
    → n < 256 ^ k
    → m < 256 ^ k
    → big_endian k n s ≡ big_endian k m t
    → (n ≡ m) × (s ≡ t)
unfolding big_endian
big_endian-injective zero n m s t h k e = (omega arith, e)
big_endian-injective (suc i) n m s t h k e =
    let (same, rest) =
      big_endian-injective i (n / 256) (m / 256) (n % 256 ∷ s) (m % 256 ∷ t) (div_bound i n h)
        (div_bound i m k) e in
    (div-mod_eq n m same (ground arith), ground arith)

-- An int64 above zero.
abbrev pub IsInt64 : ℤ → Type 0
IsInt64 v = (n : ℕ) × (v ≡ pos n) × (n < 2 ^ 63)

to_uint64-eq : (n : ℕ) → n < 2 ^ 63 → n % 2 ^ 64 ≡ n
to_uint64-eq n h = omega arith

append_uint64-injective :
    (v w : ℤ) (s t : Text)
    → IsInt64 v
    → IsInt64 w
    → append_uint64 v s ≡ append_uint64 w t
    → (v ≡ w) × (s ≡ t)
unfolding append_uint64
append_uint64-injective (negsuc v) w s t (n, e, h) q same = absurd cc
append_uint64-injective (pos v) (negsuc w) s t p (n, e, h) same = absurd cc
append_uint64-injective (pos v) (pos w) s t (n, e, h) (m, f, k) same =
    let (eq, rest) =
      big_endian-injective 8 (v % 2 ^ 64) (w % 2 ^ 64) s t (omega arith) (omega arith) same in
    (ground (arith, to_uint64-eq n h, to_uint64-eq m k), rest)

-- A valid binding whose numbers are an int64's.
pub record IsBinding (b : CredentialBinding) : Type 0 where
  pub valid : is_valid b ≡ true
  pub tenant : IsInt64 b.tenant_id
  pub entity : IsInt64 b.entity_id
  pub version : IsInt64 b.version

-- The numbers behind the purpose.
abbrev numbers : CredentialBinding → Text
numbers b = append_uint64 b.tenant_id (append_uint64 b.entity_id (append_uint64 b.version []))

numbers-injective :
    (a b : CredentialBinding)
    → IsBinding a
    → IsBinding b
    → numbers a ≡ numbers b
    → (a.tenant_id ≡ b.tenant_id) × (a.entity_id ≡ b.entity_id) × (a.version ≡ b.version)
numbers-injective a b u v h =
    let (tenant, first) = append_uint64-injective a.tenant_id b.tenant_id _ _ u.tenant v.tenant h in
    let (entity, second) =
      append_uint64-injective a.entity_id b.entity_id _ _ u.entity v.entity first in
    let (version, done) =
      append_uint64-injective a.version b.version [] [] u.version v.version second in
    (tenant, entity, version)

purpose_text-injective :
    (p q : Purpose) (s t : Text)
    → is_known p ≡ true
    → is_known q ≡ true
    → text "iolink-camera-credential-v1:" ++ (purpose_text p ++ b':' ∷ s)
      ≡ text "iolink-camera-credential-v1:" ++ (purpose_text q ++ b':' ∷ t)
    → (p ≡ q) × (s ≡ t)
purpose_text-injective camera_credential camera_credential s t h k e = (refl, ground arith)
purpose_text-injective camera_credential gb_device_credential s t h k e = absurd (ground arith)
purpose_text-injective camera_credential (other_purpose x) s t h k e = absurd cc
purpose_text-injective gb_device_credential camera_credential s t h k e = absurd (ground arith)
purpose_text-injective gb_device_credential gb_device_credential s t h k e = (refl, ground arith)
purpose_text-injective gb_device_credential (other_purpose x) s t h k e = absurd cc
purpose_text-injective (other_purpose x) q s t h k e = absurd cc

is_valid-known : (b : CredentialBinding) → is_valid b ≡ true → is_known b.purpose ≡ true
unfolding is_valid
is_valid-known b h = ground arith

purpose-numbers :
    (a b : CredentialBinding)
    → IsBinding a
    → IsBinding b
    → associated_data a ≡ associated_data b
    → (a.purpose ≡ b.purpose) × (numbers a ≡ numbers b)
unfolding associated_data
purpose-numbers a b u v h =
    purpose_text-injective a.purpose b.purpose (numbers a) (numbers b) (is_valid-known a u.valid)
      (is_valid-known b v.valid) h

-- Two valid bindings with the same associated data are the same: they have the same purpose, tenant,
-- camera and version. Their numbers are taken to be int64 values.
pub associated_data-injective :
    (a b : CredentialBinding)
    → IsBinding a
    → IsBinding b
    → associated_data a ≡ associated_data b
    → a ≡ b
associated_data-injective a b u v h =
    let (purpose, rest) = purpose-numbers a b u v h in
    let (tenant, entity, version) = numbers-injective a b u v rest in
    ground (arith, purpose, tenant, entity, version)
