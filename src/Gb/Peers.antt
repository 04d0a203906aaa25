-- ===== src/Gb/Peers.antt =====
-- internal/gb/contracts.go: peers, devices, registrations and the pure checks. An address is the
-- value that `net/netip` holds: none, 32 bits, or 128 bits with a zone.
use iolink.Base.{
  ℕ, ◌-◌, ◌*◌, ◌/◌, ◌^◌, ◌≡◌, ◌↔◌, ◌==◌, Comparable, nat_eq, text_eq, text_beq_iff, Bool, true,
  false, ◌&&◌, ◌||◌, not, if◌then◌else◌, ltb, leb, Text, is_empty, ℤ, pos, negsuc, List, all, any,
  length, plain, gb, invalid_request, Result, ok, err, arith,
}
use iolink.Media.{Time, second, before, is_zero_time}

pub data Addr : Type 0 where
  no_addr : Addr
  ipv4 : ℕ → Addr
  ipv6 : ℕ → Text → Addr

abbrev pub addr_beq : Addr → Addr → Bool
addr_beq no_addr no_addr = true
addr_beq (ipv4 a) (ipv4 b) = a == b
addr_beq (ipv6 a y) (ipv6 b z) = a == b && y == z
addr_beq _ _ = false

pub addr_beq_iff : (a b : Addr) → (addr_beq a b ≡ true) ↔ (a ≡ b)
addr_beq_iff no_addr b = ground arith
addr_beq_iff (ipv4 a) b = ground arith
addr_beq_iff (ipv6 a y) no_addr = ground arith
addr_beq_iff (ipv6 a y) (ipv4 b) = ground arith
addr_beq_iff (ipv6 a y) (ipv6 b z) = ground (arith, text_beq_iff y z)

instance abbrev pub addr_eq : Comparable Addr
addr_eq = record { same = addr_beq; same_iff = addr_beq_iff }

unfoldable pub addr_valid : Addr → Bool
addr_valid no_addr = false
addr_valid _ = true

unfoldable pub is_unspecified : Addr → Bool
is_unspecified no_addr = false
is_unspecified (ipv4 a) = a == 0
is_unspecified (ipv6 a zone) = a == 0 && is_empty zone

-- `netip.Prefix`: an address without a zone and a number of bits.
pub record Prefix : Type 0 where
  pub prefix_addr : Addr
  pub bits : ℕ

abbrev same_top : ℕ → ℕ → ℕ → ℕ → Bool
same_top width bits a b = leb bits width && a / 2 ^ (width - bits) == b / 2 ^ (width - bits)

abbrev contains_addr : ℕ → Addr → Addr → Bool
contains_addr bits (ipv4 a) (ipv4 b) = same_top 32 bits a b
contains_addr bits (ipv6 a y) (ipv6 b z) = is_empty z && same_top 128 bits a b
contains_addr bits _ _ = false

-- `Prefix.Contains`.
unfoldable pub contains : Prefix → Addr → Bool
contains p a = contains_addr p.bits p.prefix_addr a

pub data Transport : Type 0 where
  udp tcp : Transport
  other_transport : Text → Transport

abbrev pub transport_beq : Transport → Transport → Bool
transport_beq udp udp = true
transport_beq tcp tcp = true
transport_beq (other_transport s) (other_transport t) = s == t
transport_beq _ _ = false

pub transport_beq_iff : (a b : Transport) → (transport_beq a b ≡ true) ↔ (a ≡ b)
transport_beq_iff udp b = ground arith
transport_beq_iff tcp b = ground arith
transport_beq_iff (other_transport s) udp = ground arith
transport_beq_iff (other_transport s) tcp = ground arith
transport_beq_iff (other_transport s) (other_transport t) = ground (arith, text_beq_iff s t)

unfoldable pub transport_valid : Transport → Bool
transport_valid (other_transport s) = false
transport_valid _ = true

pub record Peer : Type 0 where
  pub addr : Addr
  pub port : ℕ
  pub transport : Transport

abbrev pub peer_beq : Peer → Peer → Bool
peer_beq p q = addr_beq p.addr q.addr && p.port == q.port && transport_beq p.transport q.transport

pub peer_beq_iff : (p q : Peer) → (peer_beq p q ≡ true) ↔ (p ≡ q)
peer_beq_iff p q =
    ground (arith, addr_beq_iff p.addr q.addr, transport_beq_iff p.transport q.transport)

instance abbrev pub peer_eq : Comparable Peer
peer_eq = record { same = peer_beq; same_iff = peer_beq_iff }

unfoldable pub peer_valid : Peer → Bool
unfolding addr_valid is_unspecified transport_valid
peer_valid p =
    addr_valid p.addr
    && not (p.port == 0)
    && not (is_unspecified p.addr)
    && transport_valid p.transport

pub record Device : Type 0 where
  pub device_id : Text
  pub realm : Text
  pub password : Text
  pub allowed_peers : List Prefix

unfoldable pub allows_peer : Device → Addr → Bool
unfolding contains addr_valid
allows_peer d a = addr_valid a && any (λ p. contains p a) d.allowed_peers

pub data Status : Type 0 where
  online offline : Status
  other_registration : Text → Status

pub record Registration : Type 0 where
  pub device_id : Text
  pub peer : Peer
  pub registered_at : Time
  pub last_seen_at : Time
  pub expires_at : Time
  pub status : Status

abbrev pub keepalive_period : ℕ
keepalive_period = 60 * second

abbrev pub keepalive_miss_limit : ℕ
keepalive_miss_limit = 3

abbrev pub min_registration_ttl : ℕ
min_registration_ttl = 60 * second

abbrev pub max_registration_ttl : ℕ
max_registration_ttl = 3600 * second

abbrev pub is_online : Status → Bool
is_online online = true
is_online _ = false

-- `StatusAt`; the difference of times is negative, and so below the limit, if `now` is earlier.
unfoldable pub status_at : Registration → Time → Status
status_at r now =
    if not (is_online r.status)
      || is_zero_time now
      || is_zero_time r.expires_at
      || not (before now r.expires_at)
      || is_zero_time r.last_seen_at
      || leb (keepalive_miss_limit * keepalive_period) (now - r.last_seen_at)
    then offline
    else online

unfoldable pub valid_device_id : Text → Bool
valid_device_id id = length id == 20 && all (λ c. leb 48 c && leb c 57) id

-- `validText`: its `range` visits the first byte of each rune, and a later byte of a rune is at
-- least 0x80, so every byte is tested here.
unfoldable pub valid_text : Text → ℕ → Bool
valid_text s max =
    not (is_empty s) && leb (length s) max && all (λ c. leb 0x20 c && not (c == 0x7f)) s

-- The duration in nanoseconds.
unfoldable pub registration_ttl : ℤ → Result ℕ
registration_ttl (negsuc n) = err (plain (gb invalid_request))
registration_ttl (pos seconds) =
    if seconds == 0
    then ok 0
    else if ltb (max_registration_ttl / second) seconds
    then err (plain (gb invalid_request))
    else if ltb (seconds * second) min_registration_ttl
        || ltb max_registration_ttl (seconds * second)
    then err (plain (gb invalid_request))
    else ok (seconds * second)
