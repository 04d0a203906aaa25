-- ===== src/Gb/Grants.antt =====
-- internal/gb/digest.go: what `HandleRegister` has checked when it registers a device.
use iolink.Base.{
  ℕ, ◌≡◌, refl, ◌⊎◌, subst, Bool-cases, inl, inr, ==_iff, nat_eq, text_eq, int_eq, true, false,
  Text, is_empty, if◌then◌else◌, Option, lookup, none, some, ok, arith, Option-cases, Result-cases,
}
use iolink.Media.{Time, before}
use iolink.World.{Run-cases}
use iolink.Gb.Peers.{Peer, peer_eq, Device, allows_peer, Registration, registration_ttl}
use iolink.Gb.Nonces.{NonceRecord, live}
use iolink.Gb.Digest.{DigestAuthorization, digest_response, to_lower}
use iolink.Gb.Register.{
  RegisterRequest, RegisterResult, TransactionResult, Stores, Server, valid_request, may_register,
  nonce_matches, new_registration,
}
use iolink.Gb.Handle.{
  transaction_key, find_live, transaction, apply_registration, find_peer, remember_transaction,
  authenticate, record_device, register_device, handle_register,
}

-- Why the service takes a sender for a device: the nonce store gave up a nonce that was issued to this
-- device at this peer for this address, before it ran out, and the response is the digest of the
-- device's password.
pub record Authentic {W : Type 0} (d : Stores W) (r : RegisterRequest) (device : Device)
    (a : DigestAuthorization) (w w' : W) : Type 0 where
  pub issued : NonceRecord
  pub expected : Text
  pub asked_at : Time
  pub checked_at : Time
  pub before_nonce : W
  pub after_nonce : W
  pub asked : d.clock w ≡ (before_nonce, asked_at)
  pub checked : d.clock after_nonce ≡ (w', checked_at)
  pub consumed : d.consume a.nonce asked_at before_nonce ≡ (after_nonce, ok issued)
  pub same_device : issued.device_id ≡ r.device_id
  pub same_realm : issued.realm ≡ device.realm
  pub same_peer : issued.peer ≡ r.source
  pub same_uri : issued.uri ≡ r.uri
  pub in_time : before checked_at issued.expires_at ≡ true
  pub digest : digest_response d.md5 a r.method device.password ≡ ok expected
  pub response : to_lower a.response ≡ expected
  pub named : a.username ≡ r.username

module _ {W : Type 0} (d : Stores W) where
  nonce_matches-same :
      (n : NonceRecord) (device : Device) (r : RegisterRequest)
      → nonce_matches n device r ≡ true
      → (n.device_id ≡ r.device_id)
        × (n.realm ≡ device.realm)
        × (n.peer ≡ r.source)
        × (n.uri ≡ r.uri)
  unfolding nonce_matches
  nonce_matches-same n device r h = ground (
    arith,
    ==_iff n.device_id r.device_id,
    ==_iff n.realm device.realm,
    ==_iff n.peer r.source,
    ==_iff n.uri r.uri,
  )

  pub authenticate-Authentic :
      (r : RegisterRequest) (device : Device) (a : DigestAuthorization) (s : Server W)
      {s' : Server W} {u : Unit {0}}
      → authenticate d r device a s ≡ (s', ok u)
      → Authentic d r device a s.world s'.world
  unfolding authenticate
  authenticate-Authentic r device a s {s'} h =
      let (w1, now) = d.clock s.world in
      elim (Run-cases (d.consume a.nonce now w1)) [
        | inr (w2, e, c) ↦ absurd (ground arith)
        | inl (w2, issued, c) ↦
            elim (Result-cases (digest_response d.md5 a r.method device.password)) [
              | inr (e, q) ↦ absurd (ground (arith, c))
              | inl (expected, q) ↦
                  let (device_id, realm, peer, uri) =
                    nonce_matches-same issued device r (ground (arith, c)) in
                  let (w3, later) = d.clock w2 in
                  record {
                    issued = issued;
                    expected = expected;
                    asked_at = now;
                    checked_at = later;
                    asked = refl;
                    checked = ground (arith, c, q);
                    before_nonce = w1;
                    after_nonce = w2;
                    consumed = c;
                    same_device = device_id;
                    same_realm = realm;
                    same_peer = peer;
                    same_uri = uri;
                    in_time = ground (arith, c);
                    digest = q;
                    response = ground (arith, c, ==_iff (to_lower a.response) expected);
                    named = ground (arith, c, ==_iff a.username r.username);
                  }
            ]
      ]

  -- What is written for a device, and the answer that its sender gets.
  pub record Recorded (r : RegisterRequest) (w : W) (result : RegisterResult) : Type 0 where
    pub ttl : ℕ
    pub now : Time
    pub recorded_world : W
    pub told : d.clock w ≡ (recorded_world, now)
    pub asked : registration_ttl r.expires ≡ ok ttl
    pub before_write : W
    pub after_write : W
    pub written :
        d.apply_registration (new_registration r now ttl) before_write ≡ (after_write, ok tt)
    pub answer :
        result
        ≡ record { status_code = 200; challenge = none; registration = new_registration r now ttl }

  apply_registration-written :
      (source : Peer) (device_id : Text) (g : Registration) (s : Server W) {s' : Server W}
      {u : Unit {0}}
      → apply_registration d source device_id g s ≡ (s', ok u)
      → (w w' : W) × (d.apply_registration g w ≡ (w', ok tt))
  unfolding apply_registration
  apply_registration-written source device_id g s h =
      elim (Run-cases (find_peer d source device_id s)) [
        | inr (s1, e, p) ↦ absurd (ground arith)
        | inl (s1, v, p) ↦ elim (Run-cases (d.apply_registration g s1.world)) [
          | inr (w, e, q) ↦ absurd (ground arith)
          | inl (w, v', q) ↦ (s1.world, w, q)
        ]
      ]

  record_device-Recorded :
      (r : RegisterRequest) (s : Server W) {s' : Server W} {result : RegisterResult}
      → record_device d r s ≡ (s', ok result)
      → Recorded r s.world result
  unfolding record_device
  record_device-Recorded r s {s'} {result} h = elim (Result-cases (registration_ttl r.expires)) [
    | inr (e, q) ↦ absurd (ground arith)
    | inl (ttl, q) ↦
        let (w1, now) = d.clock s.world in
        let s1 : Server W = record { world = w1; transactions = s.transactions } in
        let g = new_registration r now ttl in
        let answer : RegisterResult = record {
          status_code = 200;
          challenge = none;
          registration = g;
        } in
        elim (Run-cases (apply_registration d r.source r.device_id g s1)) [
          | inr (s2, e, p) ↦ absurd (ground arith)
          | inl (s2, u, p) ↦ elim (Run-cases (remember_transaction d r answer s2)) [
            | inr (s3, e, t) ↦ absurd (ground arith)
            | inl (s3, u', t) ↦
                let (w, w', q') = apply_registration-written r.source r.device_id g s1 p in
                record {
                  ttl = ttl;
                  now = now;
                  recorded_world = w1;
                  told = refl;
                  asked = q;
                  before_write = w;
                  after_write = w';
                  written = q';
                  answer = ground arith;
                }
          ]
        ]
  ]

  -- What stands behind a device that registered anew.
  pub record Registered (r : RegisterRequest) (w : W) (result : RegisterResult) : Type 0 where
    pub device : Device
    pub authorization : DigestAuthorization
    pub after_lookup : W
    pub after_proof : W
    pub given : r.authorization ≡ some authorization
    pub looked_up : d.lookup_device r.device_id w ≡ (after_lookup, ok device)
    pub same_device : device.device_id ≡ r.device_id
    pub allowed : allows_peer device r.source.addr ≡ true
    pub authentic : Authentic d r device authorization after_lookup after_proof
    pub recorded : Recorded r after_proof result

  register_device-Registered :
      (r : RegisterRequest) (s : Server W) {s' : Server W} {result : RegisterResult}
      → register_device d r s ≡ (s', ok result)
      → Registered r s.world result
  unfolding register_device may_register
  register_device-Registered r s {s'} {result} h =
      elim (Run-cases (d.lookup_device r.device_id s.world)) [
        | inr (w, e, l) ↦ absurd (ground arith)
        | inl (w, device, l) ↦ elim (Option-cases r.authorization) [
          | inl p ↦ absurd (ground arith)
          | inr (a, p) ↦
              let s1 : Server W = record { world = w; transactions = s.transactions } in
              elim (Run-cases (authenticate d r device a s1)) [
                | inr (s2, e, q) ↦ absurd (ground arith)
                | inl (s2, u, q) ↦ record {
                  device = device;
                  authorization = a;
                  after_lookup = w;
                  after_proof = s2.world;
                  given = p;
                  looked_up = l;
                  same_device = ground (arith, ==_iff device.device_id r.device_id);
                  allowed = ground arith;
                  authentic = authenticate-Authentic r device a s1 q;
                  recorded = record_device-Recorded r s2 {s' = s'} (ground arith);
                }
              ]
        ]
      ]

  -- An answer that was given before and is still remembered.
  pub record Remembered (r : RegisterRequest) (s : Server W) (result : RegisterResult)
      : Type 0 where
    pub now : Time
    pub clock_world : W
    pub item : TransactionResult
    pub told : d.clock s.world ≡ (clock_world, now)
    pub named : is_empty r.transaction_id ≡ false
    pub kept :
        lookup (transaction_key d r) (live (λ t. t.expires_at) now s.transactions) ≡ some item
    pub in_time : before now item.expires_at ≡ true
    pub same : item.result ≡ result

  transaction-Remembered :
      (r : RegisterRequest) (s : Server W) {s' : Server W} {result : RegisterResult}
      → is_empty r.transaction_id ≡ false
      → transaction d r s ≡ (s', ok (some result))
      → Remembered r s result
  unfolding transaction find_live
  transaction-Remembered r s n h =
      let (w, now) = d.clock s.world in
      elim (Option-cases
        (lookup (transaction_key d r) (live (λ t. t.expires_at) now s.transactions))) [
          | inl k ↦ absurd (ground (arith, k))
          | inr (item, k) ↦ elim (Bool-cases (before now item.expires_at)) [
            | inr b ↦ absurd (ground (arith, k, b))
            | inl b ↦ record {
              now = now;
              clock_world = w;
              told = refl;
              item = item;
              named = n;
              kept = k;
              in_time = b;
              same = ground (arith, k, b);
            }
          ]
        ]

  -- The world in which the service looks the device up: a named transaction has read the clock first.
  abbrev pub looked_up_in : RegisterRequest → Server W → W
  looked_up_in r s = if is_empty r.transaction_id then s.world else (d.clock s.world).0

  transaction-world :
      (r : RegisterRequest) (s : Server W) {s' : Server W} {found : Option RegisterResult}
      → transaction d r s ≡ (s', ok found)
      → s'.world ≡ (d.clock s.world).0
  unfolding transaction find_live
  transaction-world r s h = ground arith

  -- A sender is told that its device is registered only if the request is well formed, and either the
  -- same transaction of the same peer and device was answered so and that answer has not run out by
  -- the clock of this call, or the device is known and allowed at this peer, the sender proved its
  -- password on a nonce issued to it that has not run out by the clock, and the store took exactly the
  -- registration in the answer, from the time that the clock then told.
  pub handle_register-Registered :
      (r : RegisterRequest) (s : Server W) {s' : Server W} {result : RegisterResult}
      → handle_register d r s ≡ (s', ok result)
      → (valid_request r ≡ true) × (Remembered r s result ⊎ Registered r (looked_up_in r s) result)
  unfolding handle_register
  handle_register-Registered r s {s'} {result} h =
      let valid : valid_request r ≡ true = ground arith in
      elim (Bool-cases (is_empty r.transaction_id)) [
        | inl b ↦ (
          valid,
          inr (rw b (register_device-Registered r s {s' = s'} (ground (arith, b, valid)))),
        )
        | inr b ↦ elim (Run-cases (transaction d r s)) [
          | inr (s1, e, t) ↦ absurd (ground (arith, b, t))
          | inl (s1, none, t) ↦ (
            valid,
            inr (
                rw b (
                  subst (λ w. Registered r w result) (transaction-world r s t)
                    (register_device-Registered r s1 {s' = s'} (ground (arith, b, t))))),
          )
          | inl (s1, some known, t) ↦
              let same : known ≡ result = ground (arith, b, t) in
              (valid, inl (subst (Remembered r s) same (transaction-Remembered r s b t)))
        ]
      ]
