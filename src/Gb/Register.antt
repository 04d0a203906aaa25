-- ===== src/Gb/Register.antt =====
-- internal/gb/digest.go: `Challenge` and `HandleRegister`, with the answers remembered by
-- transaction. The stores, the clock, MD5 and the printing of an address are parameters; a service
-- is not nil and has its stores and its clock. A transaction is looked up and remembered under the
-- mutex.
use iolink.Base.{
  ℕ, ◌+◌, ◌==◌, nat_eq, text_eq, int_eq, Bool, ◌&&◌, ◌||◌, if◌then◌else◌, leb, Text, text, is_empty,
  List, [], ◌∷◌, length, insert, delete, ℤ, pos, Option, GoError, plain, gb, is_err, GbError,
  nonce_invalid, nonce_replay,
}
use iolink.Media.{Time}
use iolink.World.{M}
use iolink.Gb.Peers.{
  Addr, Peer, peer_eq, peer_valid, Transport, udp, tcp, other_transport, Device, allows_peer,
  Registration, online, offline, other_registration, no_addr, valid_device_id, valid_text,
}
use iolink.Gb.Nonces.{NonceRecord}
use iolink.Gb.Digest.{DigestAuthorization}

pub record RegisterRequest : Type 0 where
  pub device_id : Text
  pub username : Text
  pub realm : Text
  pub method : Text
  pub uri : Text
  pub source : Peer
  pub expires : ℤ
  pub authorization : Option DigestAuthorization
  pub transaction_id : Text

pub record DigestChallenge : Type 0 where
  pub realm : Text
  pub nonce : Text
  pub algorithm : Text

pub record RegisterResult : Type 0 where
  pub status_code : ℕ
  pub challenge : Option DigestChallenge
  pub registration : Registration

pub record TransactionResult : Type 0 where
  pub result : RegisterResult
  pub expires_at : Time

-- What `Service` is configured with.
pub record Stores (W : Type 0) : Type 0 where
  pub lookup_device : Text → M W Device
  pub lookup_peer : Peer → M W Registration
  pub apply_registration : Registration → M W (Unit {0})
  pub issue : NonceRecord → M W Text
  pub consume : Text → Time → M W NonceRecord
  pub clock : W → W × Time
  pub addr_text : Addr → ℕ → Text
  pub md5 : Text → Text

-- The state of `Service`, with the world.
pub record Server (W : Type 0) : Type 0 where
  pub world : W
  pub transactions : List (Text × TransactionResult)

abbrev pub failed : GbError → GoError
failed e = plain (gb e)

abbrev pub no_registration : Registration
no_registration = record {
  device_id = [];
  peer = record { addr = no_addr; port = 0; transport = other_transport [] };
  registered_at = 0;
  last_seen_at = 0;
  expires_at = 0;
  status = other_registration [];
}

abbrev pub transport_text : Transport → Text
transport_text udp = text "udp"
transport_text tcp = text "tcp"
transport_text (other_transport t) = t

unfoldable pub names_sender : RegisterRequest → Bool
names_sender r =
    valid_device_id r.device_id
    && r.username == r.device_id
    && r.method == text "REGISTER"
    && peer_valid r.source

unfoldable pub valid_request : RegisterRequest → Bool
unfolding names_sender
valid_request r =
    names_sender r
    && valid_text r.uri 2048
    && (is_empty r.transaction_id || valid_text r.transaction_id 128)

unfoldable pub may_register : Device → RegisterRequest → Bool
may_register device r =
    device.device_id == r.device_id && r.realm == device.realm && allows_peer device r.source.addr

unfoldable pub nonce_matches : NonceRecord → Device → RegisterRequest → Bool
nonce_matches n device r =
    n.device_id == r.device_id && n.realm == device.realm && n.peer == r.source && n.uri == r.uri

abbrev pub nonce_error : GoError → GoError
nonce_error e = if is_err e (gb nonce_replay) then e else failed nonce_invalid

unfoldable pub new_registration : RegisterRequest → Time → ℕ → Registration
new_registration r now ttl = record {
  device_id = r.device_id;
  peer = r.source;
  registered_at = now;
  last_seen_at = now;
  expires_at = if r.expires == pos 0 then 0 else now + ttl;
  status = if r.expires == pos 0 then offline else online;
}

abbrev pub max_transactions : ℕ
max_transactions = 1024

-- Drops the first key that `range` visits.
unfoldable pub drop_first : List (Text × TransactionResult) → List (Text × TransactionResult)
drop_first [] = []
drop_first ((key, item) ∷ rest) = delete key ((key, item) ∷ rest)

unfoldable pub remembered :
    List (Text × TransactionResult) → Text → TransactionResult → List (Text × TransactionResult)
unfolding drop_first
remembered m key item =
    insert key item (if leb max_transactions (length m) then drop_first m else m)
