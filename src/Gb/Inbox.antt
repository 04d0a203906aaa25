-- ===== src/Gb/Inbox.antt =====
-- internal/gb/contracts.go: what an answer to a message guarantees.
use iolink.Base.{
  ◌≤◌, ◌≡◌, ◌≢◌, refl, sym, ap, subst, ◌∙◌, ◌⊎◌, inl, inr, ◌==◌, ==_iff, text_eq, true, ltb,
  Bool-cases, Text, text, length, [], ok, Result-cases, arith,
}
use iolink.Media.{Time}
use iolink.World.{Run-cases}
use iolink.Gb.Peers.{
  Peer, peer_eq, peer_beq_iff, peer_valid, Device, allows_peer, Registration, Status, online,
  is_online, status_at,
}
use iolink.Gb.Xml.{XmlMessage, is_keepalive, parse_message_xml}
use iolink.Gb.XmlLaws.{IsMessage, ltb-le, parse_message_xml-IsMessage}
use iolink.Gb.Messages.{
  Inbox, MessageResult, max_sip_message_size, reported_status, is_sender, take_message,
  handle_parsed, handle_message, handle_sip_message,
}

-- What a message did: a keepalive was recorded, and a catalogue changes nothing.
abbrev pub IsTaken :
    {W : Type 0} → Inbox W → Peer → XmlMessage → Registration → Time → W → W → Status → Type 0
IsTaken d source m registration now w w' status =
    ((m.cmd_type ≡ text "Keepalive")
      × (d.mark_keepalive m.device_id source now m.status w ≡ (w', ok tt))
      × (status ≡ reported_status m))
    ⊎ ((m.cmd_type ≢ text "Keepalive") × (w' ≡ w) × (status ≡ online))

-- Why a message was accepted.
pub record Accepted {W : Type 0} (d : Inbox W) (source : Peer) (raw : Text) (w w' : W)
    (m : XmlMessage) (status : Status) : Type 0 where
  pub device : Device
  pub registration : Registration
  pub now : Time
  pub device_world : W
  pub peer_world : W
  pub clock_world : W
  pub peer : peer_valid source ≡ true
  pub parsed : parse_message_xml d.decoder raw [] ≡ ok m
  pub message : IsMessage m
  pub known : d.lookup_device m.device_id w ≡ (device_world, ok device)
  pub allowed : allows_peer device source.addr ≡ true
  pub registered : d.lookup_peer source device_world ≡ (peer_world, ok registration)
  pub same_device : registration.device_id ≡ m.device_id
  pub same_peer : registration.peer ≡ source
  pub told : d.clock peer_world ≡ (clock_world, ok now)
  pub alive : status_at registration now ≡ online
  pub taken : IsTaken d source m registration now clock_world w' status

is_online-eq : (s : Status) → is_online s ≡ true → s ≡ online
is_online-eq s h = ground arith

is_sender-eq :
    (r : Registration) (m : XmlMessage) (source : Peer)
    → is_sender r m source ≡ true
    → (r.device_id ≡ m.device_id) × (r.peer ≡ source)
unfolding is_sender
is_sender-eq r m source h =
    ground (arith, ==_iff r.device_id m.device_id, peer_beq_iff r.peer source)

module _ {W : Type 0} (d : Inbox W) where
  take_message-IsTaken :
      (source : Peer) (m : XmlMessage) (registration : Registration) (now : Time) (w : W) {w' : W}
      {r : MessageResult}
      → status_at registration now ≡ online
      → take_message d source m registration now w ≡ (w', ok r)
      → (r.message ≡ m) × IsTaken d source m registration now w w' r.status
  unfolding take_message
  take_message-IsTaken source m registration now w {w'} {r} alive h =
      elim (Bool-cases (is_keepalive m.cmd_type)) [
        | inl b ↦ elim (Run-cases (d.mark_keepalive m.device_id source now m.status w)) [
          | inr (w1, e, f) ↦ absurd (ground arith)
          | inl (w1, u, f) ↦
              let e : record { message = m; status = reported_status m } ≡ r = ground arith in
              let same : w1 ≡ w' = ground arith in
              (
                sym (ap (λ x. x.message) e),
                inl (
                  (==_iff m.cmd_type (text "Keepalive")).0 b,
                  rw f (rw same refl),
                  sym (ap (λ x. x.status) e),
                ),
              )
        ]
        | inr b ↦
            let e : record { message = m; status = status_at registration now } ≡ r =
              ground arith in
            let same : w ≡ w' = ground arith in
            (
              sym (ap (λ x. x.message) e),
              inr (
                λ k. absurd (ground (arith, ==_iff m.cmd_type (text "Keepalive"))),
                sym same,
                sym (ap (λ x. x.status) e) ∙ alive,
              ),
            )
      ]

  handle_parsed-Accepted :
      (source : Peer) (raw : Text) (m : XmlMessage) (w : W) {w' : W} {r : MessageResult}
      → peer_valid source ≡ true
      → parse_message_xml d.decoder raw [] ≡ ok m
      → handle_parsed d source m w ≡ (w', ok r)
      → Accepted d source raw w w' r.message r.status
  unfolding handle_parsed
  handle_parsed-Accepted source raw m w {w'} {r} valid parsed h =
      elim (Run-cases (d.lookup_device m.device_id w)) [
        | inr (w1, e, f) ↦ absurd (ground arith)
        | inl (w1, device, f) ↦ elim (Bool-cases (allows_peer device source.addr)) [
          | inr b ↦ absurd (ground arith)
          | inl b ↦ elim (Run-cases (d.lookup_peer source w1)) [
            | inr (w2, e, g) ↦ absurd (ground arith)
            | inl (w2, reg, g) ↦ elim (Bool-cases (is_sender reg m source)) [
              | inr c ↦ absurd (ground arith)
              | inl c ↦ elim (Run-cases (d.clock w2)) [
                | inr (w3, e, k) ↦ absurd (ground arith)
                | inl (w3, now, k) ↦ elim (Bool-cases (is_online (status_at reg now))) [
                  | inr l ↦ absurd (ground arith)
                  | inl l ↦
                      let alive = is_online-eq (status_at reg now) l in
                      let (same, taken) =
                        take_message-IsTaken source m reg now w3 {w' = w'} {r = r} alive
                          (ground arith) in
                      let (dev, peer) = is_sender-eq reg m source c in
                      let (small, scanned, message) =
                        parse_message_xml-IsMessage d.decoder raw [] parsed in
                      subst (λ x. Accepted d source raw w w' x r.status) (sym same)
                        (record {
                          device = device;
                          registration = reg;
                          now = now;
                          device_world = w1;
                          peer_world = w2;
                          clock_world = w3;
                          peer = valid;
                          parsed = parsed;
                          message = message;
                          known = f;
                          allowed = b;
                          registered = g;
                          same_device = dev;
                          same_peer = peer;
                          told = k;
                          alive = alive;
                          taken = taken;
                        })
                ]
              ]
            ]
          ]
        ]
      ]

  -- A message is accepted only as a SIP MESSAGE of bounded size from a valid peer, when it parses, its
  -- device is known and allows the peer, and the registration that stands for the peer is that
  -- device's and online. A keepalive is then recorded with its status, which is the answer's; a
  -- catalogue changes nothing.
  pub handle_sip_message-Accepted :
      (method : Text) (source : Peer) (raw : Text) (w : W) {w' : W} {r : MessageResult}
      → handle_sip_message d method source raw w ≡ (w', ok r)
      → (method ≡ text "MESSAGE")
        × (length raw ≤ max_sip_message_size)
        × Accepted d source raw w w' r.message r.status
  unfolding handle_sip_message handle_message
  handle_sip_message-Accepted method source raw w {w'} {r} h =
      elim (Bool-cases (method == text "MESSAGE")) [
        | inr a ↦ absurd (ground arith)
        | inl a ↦ elim (Bool-cases (ltb max_sip_message_size (length raw))) [
          | inl b ↦ absurd (ground arith)
          | inr b ↦ elim (Bool-cases (peer_valid source)) [
            | inr c ↦ absurd (ground arith)
            | inl c ↦ elim (Result-cases (parse_message_xml d.decoder raw [])) [
              | inr (e, f) ↦ absurd (ground arith)
              | inl (m, f) ↦ (
                (==_iff method (text "MESSAGE")).0 a,
                ltb-le _ _ b,
                handle_parsed-Accepted source raw m w c f (ground arith),
              )
            ]
          ]
        ]
      ]
