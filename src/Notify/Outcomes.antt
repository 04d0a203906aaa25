-- ===== src/Notify/Outcomes.antt =====
-- internal/notifications/worker.go: how often and how late a notification is sent again.
use iolink.Base.{
  ℕ, zero, suc, ◌+◌, ◌*◌, ◌^◌, ◌≤◌, ◌<◌, ◌≡◌, refl, sym, ap, subst, ◌∙◌, ◌≢◌, ◌⊎◌, inl, inr, Bool,
  true, false, if◌then◌else◌, Bool-cases, ℤ, pos, ltb_ℤ, Option, none, some, GoError, arith,
}
use iolink.Media.{Time, second}
use iolink.Notify.Worker.{
  SendResult, Status, disabled, failed, unknown, retryable, backoff, retried, send_result,
}

abbrev IsPutOff : ℕ → ℕ → Time → SendResult → Type 0
IsPutOff n m now r =
    (r.status ≡ retryable)
    × (suc n < m)
    × (r.next_at ≡ now + 2 ^ n * (60 * second))
    × (r.next_at ≤ now + 16 * (60 * second))

abbrev IsFinal : Time → SendResult → Type 0
IsFinal now r = (r.status ≢ retryable) × (r.next_at ≡ now)

power_le : (n : ℕ) → n ≤ 4 → 2 ^ n ≤ 16
power_le zero h = omega arith
power_le (suc zero) h = omega arith
power_le (suc (suc zero)) h = omega arith
power_le (suc (suc (suc zero))) h = omega arith
power_le (suc (suc (suc (suc zero)))) h = omega arith
power_le (suc (suc (suc (suc (suc n))))) h = omega arith

retried-IsPutOff :
    (n m : ℕ) (now : Time) (e : GoError)
    → m ≤ 6
    → let r = retried (pos (suc n)) (pos m) now e in IsPutOff n m now r ⊎ IsFinal now r
unfolding retried backoff
retried-IsPutOff n m now e h = elim (Bool-cases (ltb_ℤ (pos (suc n)) (pos m))) [
  | inl b ↦
      let l : suc n < m = ground arith in
      let p = power_le n (omega arith) in rw b (inl (refl, l, refl, omega arith))
  | inr b ↦ rw b (inr (λ q. ground arith, refl))
]

if-both : {A : Type 0} (P : A → Type 0) (b : Bool) {x y : A} → P x → P y → P (if b then x else y)
if-both P true p q = p
if-both P false p q = q

send_result-cases :
    (e : GoError) (attempts max_attempts : ℤ) (now : Time)
    → let r = send_result (some e) attempts max_attempts now in
      (r ≡ retried attempts max_attempts now e) ⊎ ((r.status ≢ retryable) × (r.next_at ≡ now))
unfolding send_result
send_result-cases e attempts max_attempts now =
    let P : SendResult → Type 0 = λ r.
      (r ≡ retried attempts max_attempts now e) ⊎ ((r.status ≢ retryable) × (r.next_at ≡ now)) in
    let final : (st : Status)
        → st ≢ retryable
        → P (record { status = st; next_at = now; last_error = some e }) =
      λ st n. inr (n, refl) in
    if-both P _ (final disabled (λ q. ground arith)) (
      if-both P _ (final failed (λ q. ground arith))
        (if-both P _ (final unknown (λ q. ground arith)) (if-both P _ (inl refl) (inl refl))))

-- A delivery is put off only after an error and with attempts left, for one to sixteen minutes, twice
-- as long each time; every other result stands at once.
pub send_result_bounds :
    (e : Option GoError) (n m : ℕ) (now : Time)
    → m ≤ 6
    → let r = send_result e (pos (suc n)) (pos m) now in
      ((r.status ≡ retryable)
        × (e ≢ none)
        × (suc n < m)
        × (r.next_at ≡ now + 2 ^ n * (60 * second))
        × (r.next_at ≤ now + 16 * (60 * second)))
      ⊎ ((r.status ≢ retryable) × (r.next_at ≡ now))
send_result_bounds none n m now h = inr (unfold send_result in (λ q. ground arith, refl))
send_result_bounds (some e) n m now h = elim (send_result-cases e (pos (suc n)) (pos m) now) [
  | inr final ↦ inr final
  | inl same ↦ elim (retried-IsPutOff n m now e h) [
    | inl (status, left, at, late) ↦ inl (
      ap (λ r. r.status) same ∙ status,
      λ q. ground arith,
      left,
      ap (λ r. r.next_at) same ∙ at,
      subst (λ r. r.next_at ≤ now + 16 * (60 * second)) (sym same) late,
    )
    | inr final ↦ inr (subst (IsFinal now) (sym same) final)
  ]
]
