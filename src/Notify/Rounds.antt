-- ===== src/Notify/Rounds.antt =====
-- internal/notifications/worker.go: what a round that reports success did.
use iolink.Base.{
  ◌≡◌, refl, ap, inl, inr, true, false, Bool-cases, GoError, is_empty, Option, none, some,
  Option-cases, ok, arith,
}
use iolink.World.{M, Run-cases}
use iolink.Notify.Worker.{
  Delivery, Claim, sent, Config, notified, report, error_of, ask_depth, send, send_result, conclude,
  run_claim, run_once,
}

-- A notification that was sent.
pub record Sent {W V : Type 0} (d : Config W V) (w w' : W) : Type 0 where
  pub claim : Claim V
  pub sender : Delivery V → M W (Unit {0})
  pub claim_world : W
  pub send_world : W
  pub sent_world : W
  pub finish_world : W
  pub claimed :
      d.claim (d.now w) d.settings.lease_duration d.settings.max_attempts w
      ≡ (claim_world, ok (some claim))
  pub recipient : is_empty claim.delivery.recipient_id ≡ false
  pub configured : d.sender ≡ some sender
  pub delivered : sender claim.delivery send_world ≡ (sent_world, ok tt)
  pub finished :
      d.finish claim
        (record { status = sent; next_at = d.now sent_world; last_error = none })
        (d.now sent_world)
        sent_world
      ≡ (finish_world, ok tt)
  pub told : w' ≡ notified d.on_sent finish_world

module _ {W V : Type 0} (d : Config W V) where
  -- The parts of a send without an error.
  send-ok :
      (c : Claim V) (w : W) {w1 : W}
      → send d c w ≡ (w1, none)
      → (is_empty c.delivery.recipient_id ≡ false)
        × (f : Delivery V → M W (Unit {0})) × (d.sender ≡ some f)
        × (f c.delivery w ≡ (w1, ok tt))
  unfolding send
  send-ok c w {w1} h = elim (Bool-cases (is_empty c.delivery.recipient_id)) [
    | inl b ↦ absurd (ground arith)
    | inr b ↦ elim (Option-cases d.sender) [
      | inl n ↦ absurd (ground arith)
      | inr (f, n) ↦ elim (Run-cases (f c.delivery w)) [
        | inr (w2, e, q) ↦ absurd (ground arith)
        | inl (w2, u, q) ↦ let same : w2 ≡ w1 = ground arith in (b, f, n, rw q (rw same refl))
      ]
    ]
  ]

  report-failed :
      (e : GoError) (finished : W × Option GoError) {w' : W}
      → report d (some e) finished ≡ (w', true, none)
      → ⊥
  report-failed e (w, some f) h = ground arith
  report-failed e (w, none) h = ground arith

  conclude-ok :
      (c : Claim V) (w : W) (o : Option GoError) {w' : W}
      → conclude d c (w, o) ≡ (w', true, none)
      → (o ≡ none)
        × (w2 : W) × (d.finish c
              (record { status = sent; next_at = d.now w; last_error = none })
              (d.now w)
              w
            ≡ (w2, ok tt))
        × (w' ≡ notified d.on_sent w2)
  unfolding conclude send_result
  conclude-ok c w none h =
      elim (Run-cases
        (d.finish c (record { status = sent; next_at = d.now w; last_error = none }) (d.now w) w)) [
          | inr (w2, e, q) ↦ absurd (ground arith)
          | inl (w2, u, q) ↦ (refl, w2, q, ground arith)
        ]
  conclude-ok c w (some e) h = absurd (
      report-failed e
        (error_of (
          d.finish c (send_result (some e) c.attempts d.settings.max_attempts (d.now w)) (d.now w)
            w))
        h)

  run_claim-Sent :
      (w : W) (c : Claim V) (w1 w2 : W) {w' : W}
      → d.claim (d.now w) d.settings.lease_duration d.settings.max_attempts w ≡ (w1, ok (some c))
      → run_claim d c w2 ≡ (w', true, none)
      → Sent d w w'
  unfolding run_claim
  run_claim-Sent w c w1 w2 claimed h =
      let (unsent, w4, finished, told) = conclude-ok c (send d c w2).0 (send d c w2).1 h in
      let (recipient, f, configured, delivered) =
        send-ok c w2 {w1 = (send d c w2).0} (ap (λ o. ((send d c w2).0, o)) unsent) in
      record {
        claim = c;
        sender = f;
        claim_world = w1;
        send_world = w2;
        sent_world = (send d c w2).0;
        finish_world = w4;
        claimed = claimed;
        recipient = recipient;
        configured = configured;
        delivered = delivered;
        finished = finished;
        told = told;
      }

  -- A round reports a delivery without an error only when it claimed one that has a recipient, the
  -- configured sender took it, and the store then recorded it as sent.
  pub run_once-Sent : (w : W) {w' : W} → run_once d w ≡ (w', true, none) → Sent d w w'
  unfolding run_once
  run_once-Sent w {w'} h =
      elim (Run-cases (d.claim (d.now w) d.settings.lease_duration d.settings.max_attempts w)) [
        | inr (w1, e, f) ↦ absurd (ground arith)
        | inl (w1, o, f) ↦ elim (Option-cases o) [
          | inl n ↦ absurd (ground arith)
          | inr (c, n) ↦
              let w2 = ask_depth d d.queue_depth w1 in
              let run : run_claim d c w2 ≡ (w', true, none) = ground arith in
              run_claim-Sent w c w1 w2 (rw f (rw n refl)) run
        ]
      ]
