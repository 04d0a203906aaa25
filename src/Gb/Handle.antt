-- ===== src/Gb/Handle.antt =====
-- internal/gb/digest.go: `HandleRegister` and what it calls, over the stores of the service.
use iolink.Base.{
  ◌+◌, ◌*◌, ◌==◌, nat_eq, text_eq, int_eq, ◌&&◌, ◌||◌, not, if◌then◌else◌, Text, text, is_empty,
  ◌++◌, List, length, lookup, Option, none, some, gb, is_err, Result, ok, err, invalid_request,
  unknown_device, peer_not_allowed, peer_not_found, digest_required, digest_invalid, nonce_invalid,
  registration_conflict,
}
use iolink.Media.{Time, second, before}
use iolink.World.{M, ◌>>=◌, ◌>>◌, lift, return, require, need, on_err}
use iolink.Gb.Peers.{
  Peer, peer_eq, peer_valid, Device, Registration, valid_device_id, valid_text, registration_ttl,
}
use iolink.Gb.Nonces.{live}
use iolink.Gb.Digest.{DigestAuthorization, digest_response, to_lower}
use iolink.Gb.Register.{
  RegisterRequest, RegisterResult, TransactionResult, Stores, Server, failed, no_registration,
  transport_text, names_sender, valid_request, may_register, nonce_matches, nonce_error,
  new_registration, remembered,
}

module _ {W : Type 0} (d : Stores W) where
  abbrev with_world : {A : Type 0} → List (Text × TransactionResult) → W × A → Server W × A
  with_world m (w, a) = (record { world = w; transactions = m }, a)

  abbrev pub call : {A : Type 0} → M W A → M (Server W) A
  call m s = with_world s.transactions (m s.world)

  abbrev ticked : List (Text × TransactionResult) → W × Time → Server W × Result Time
  ticked m (w, t) = (record { world = w; transactions = m }, ok t)

  -- `s.Clock.Now()`.
  abbrev pub read_clock : M (Server W) Time
  read_clock s = ticked s.transactions (d.clock s.world)

  unfoldable pub transaction_key : RegisterRequest → Text
  transaction_key r =
      r.transaction_id
      ++ text "|"
      ++ d.addr_text r.source.addr r.source.port
      ++ text "|"
      ++ transport_text r.source.transport
      ++ text "|"
      ++ r.device_id

  -- `transaction`, behind its reading of the clock.
  unfoldable pub find_live : RegisterRequest → Time → M (Server W) (Option RegisterResult)
  find_live r now s =
      let kept = live (λ t. t.expires_at) now s.transactions in
      (
        record s { transactions = kept },
        elim (lookup (transaction_key r) kept) [
          | none ↦ ok none
          | some t ↦ if before now t.expires_at then ok (some t.result) else ok none
        ],
      )

  unfoldable pub transaction : RegisterRequest → M (Server W) (Option RegisterResult)
  unfolding find_live
  transaction r = read_clock >>= find_live r

  unfoldable pub remember_at : RegisterRequest → RegisterResult → Time → M (Server W) (Unit {0})
  remember_at r result now s =
      let item : TransactionResult = record { result = result; expires_at = now + 60 * second } in
      (record s { transactions = remembered s.transactions (transaction_key r) item }, ok tt)

  unfoldable pub remember_transaction : RegisterRequest → RegisterResult → M (Server W) (Unit {0})
  unfolding remember_at
  remember_transaction r result =
      if is_empty r.transaction_id then return tt else read_clock >>= remember_at r result

  -- The test of `applyRegistration` on who holds the peer.
  unfoldable pub admit_peer : Text → Server W × Result Registration → Server W × Result (Unit {0})
  admit_peer device_id (s, ok r) = (
    s,
    if not (is_empty r.device_id) && not (r.device_id == device_id)
        then err (failed registration_conflict)
        else ok tt,
  )
  admit_peer device_id (s, err e) = (
    s,
    if is_err e (gb peer_not_found) || is_err e (gb unknown_device)
        then ok tt
        else err (failed registration_conflict),
  )

  unfoldable pub find_peer : Peer → Text → M (Server W) (Unit {0})
  unfolding admit_peer
  find_peer source device_id s = admit_peer device_id (call (d.lookup_peer source) s)

  unfoldable pub apply_registration : Peer → Text → Registration → M (Server W) (Unit {0})
  unfolding find_peer
  apply_registration source device_id r = do
    require
        (peer_valid source
          && valid_device_id device_id
          && r.device_id == device_id
          && r.peer == source)
        (failed invalid_request)
    find_peer source device_id
    on_err (λ _. failed registration_conflict) (call (d.apply_registration r))

  unfoldable pub challenge : RegisterRequest → M (Server W) RegisterResult
  challenge r = do
    require (names_sender r && valid_text r.method 32) (failed invalid_request)
    device ← on_err (λ _. failed unknown_device) (call (d.lookup_device r.device_id))
    require (may_register device r) (failed peer_not_allowed)
    require (valid_text device.realm 128 && valid_text r.uri 2048) (failed invalid_request)
    now ← read_clock
    nonce ←
        on_err (λ _. failed nonce_invalid)
          (call (
            d.issue (record {
              device_id = r.device_id;
              realm = device.realm;
              peer = r.source;
              uri = r.uri;
              expires_at = now + 60 * second;
            })))
    require (valid_text nonce 256) (failed nonce_invalid)
    return (record {
      status_code = 401;
      challenge = some (record { realm = device.realm; nonce = nonce; algorithm = text "MD5" });
      registration = no_registration;
    })

  -- The proof of the password: the nonce is consumed, and the response must be the digest.
  unfoldable pub authenticate :
      RegisterRequest → Device → DigestAuthorization → M (Server W) (Unit {0})
  authenticate r device a = do
    require (a.username == r.username && a.realm == device.realm && a.uri == r.uri)
        (failed digest_invalid)
    now ← read_clock
    issued ← on_err nonce_error (call (d.consume a.nonce now))
    require (nonce_matches issued device r) (failed nonce_invalid)
    later ← read_clock
    require (before later issued.expires_at) (failed nonce_invalid)
    expected ←
        on_err (λ _. failed digest_invalid)
          (lift (digest_response d.md5 a r.method device.password))
    require (length a.response == length expected && to_lower a.response == expected)
        (failed digest_invalid)

  -- What follows the proof.
  unfoldable pub record_device : RegisterRequest → M (Server W) RegisterResult
  record_device r = do
    ttl ← lift (registration_ttl r.expires)
    now ← read_clock
    on_err (λ _. failed registration_conflict)
        (apply_registration r.source r.device_id (new_registration r now ttl))
    remember_transaction r
        (record { status_code = 200; challenge = none; registration = new_registration r now ttl })
    return
        (record { status_code = 200; challenge = none; registration = new_registration r now ttl })

  unfoldable pub register_device : RegisterRequest → M (Server W) RegisterResult
  unfolding authenticate record_device
  register_device r = do
    device ← on_err (λ _. failed unknown_device) (call (d.lookup_device r.device_id))
    require (may_register device r) (failed peer_not_allowed)
    a ← need r.authorization (failed digest_required)
    authenticate r device a
    record_device r

  abbrev answer_or : RegisterRequest → Option RegisterResult → M (Server W) RegisterResult
  answer_or r (some result) = return result
  answer_or r none = register_device r

  unfoldable pub handle_register : RegisterRequest → M (Server W) RegisterResult
  unfolding transaction register_device
  handle_register r = do
    require (valid_request r) (failed invalid_request)
    found ← (if is_empty r.transaction_id then return none else transaction r)
    answer_or r found
