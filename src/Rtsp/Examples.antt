-- ===== src/Rtsp/Examples.antt =====
-- The theorem on RTSP admission, at a name with two addresses, one of them mapped into IPv6.
use iolink.Base.{
  ℕ, suc, ◌+◌, ◌*◌, ◌^◌, ◌≡◌, refl, false, Text, text, text_beq, value, Option, [], ◌∷◌, some, ok,
  contains, contains_any, has_prefix, has_control, split,
}
use iolink.World.{M}
use iolink.Gb.Peers.{ipv4, ipv6, addr_valid, is_unspecified, contains as contains_address}
use iolink.Rtsp.Addresses.{
  unmap, safe_address, unique_from, addr_ltb, insert_address, sort_addresses, prefix_valid, masked,
}
use iolink.Rtsp.Uri.{
  Url, path_unescape, to_lower, valid_decoded, validate_path, ends_with_colon, parse_port,
  valid_raw, valid_origin, parse_uri,
}
use iolink.Rtsp.Admission.{
  Config, Admission, Endpoint, valid_config, new, choose, resolve, pin_parsed, pin,
}
use iolink.Rtsp.Pinned.{Pinned, pin-Pinned}

abbrev returns : {A : Type 0} → A → M ℕ A
returns a w = (suc w, ok a)

abbrev config : Config ℕ
config = record {
  resolver = some (λ network host.
      returns (ipv4 0x0a000009 ∷ ipv6 (0xffff * 2 ^ 32 + 0x0a000002) [] ∷ ipv4 0x0a000009 ∷ []));
  allowed_cidrs = record { prefix_addr = ipv4 0x0a0000ff; bits = 24 } ∷ [];
  allowed_ports = 554 ∷ 8554 ∷ [];
}

abbrev admission : Admission ℕ
admission = record {
  resolver = λ network host.
      returns (ipv4 0x0a000009 ∷ ipv6 (0xffff * 2 ^ 32 + 0x0a000002) [] ∷ ipv4 0x0a000009 ∷ []);
  cidrs = record { prefix_addr = ipv4 0x0a000000; bits = 24 } ∷ [];
  ports = 554 ∷ 8554 ∷ [];
}

made : new config ≡ ok admission
unfolding new valid_config prefix_valid masked
made = refl

abbrev raw : Text
raw = text "rtsp://cam:8554/a%20b"

abbrev parse : Text → Option Url
parse s = some (record {
  scheme = text "rtsp";
  opaque_part = [];
  has_user = false;
  host = text "cam:8554";
  hostname = text "cam";
  port = text "8554";
  path = text "/a b";
  escaped_path = text "/a%20b";
})

abbrev pinned : Endpoint
pinned = record { address = ipv4 0x0a000002; port = 8554; path = text "/a%20b" }

pinning : pin (some admission) (some (returns tt)) parse raw 0 ≡ (3, ok pinned)
unfolding pin pin_parsed resolve choose parse_uri valid_raw valid_origin ends_with_colon parse_port
    value validate_path valid_decoded to_lower path_unescape sort_addresses insert_address addr_ltb
    unique_from safe_address unmap contains_address addr_valid is_unspecified contains contains_any
    has_prefix has_control split text_beq
pinning = refl

pin-Pinned_example : Pinned config (returns tt) parse raw 0 3 pinned
pin-Pinned_example = pin-Pinned config made (returns tt) parse raw 0 pinning
