-- ===== src/Rtsp/Addresses.antt =====
-- internal/media/rtsp/admission.go: `uniqueAddresses`, `safeAddress` and the sort, with what they use
-- of net/netip.
use iolink.Base.{
  ℕ, ◌-◌, ◌*◌, ◌/◌, ◌%◌, ◌^◌, ◌==◌, nat_eq, Bool, true, false, ◌&&◌, ◌||◌, not, if◌then◌else◌, ltb,
  leb, text_ltb, List, [], ◌∷◌, any,
}
use iolink.Gb.Peers.{
  Addr, no_addr, ipv4, ipv6, addr_eq, addr_valid, is_unspecified, Prefix, contains,
}

-- `Addr.Unmap`, which drops the zone of a mapped address.
unfoldable pub unmap : Addr → Addr
unmap (ipv6 a zone) = if a / 2 ^ 32 == 0xffff then ipv4 (a % 2 ^ 32) else ipv6 a zone
unmap a = a

-- The tests of net/netip, on addresses that are unmapped.
abbrev is_multicast : Addr → Bool
is_multicast no_addr = false
is_multicast (ipv4 a) = a / 2 ^ 28 == 0xe
is_multicast (ipv6 a zone) = a / 2 ^ 120 == 0xff

abbrev is_loopback : Addr → Bool
is_loopback no_addr = false
is_loopback (ipv4 a) = a / 2 ^ 24 == 127
is_loopback (ipv6 a zone) = a == 1

abbrev is_link_local_unicast : Addr → Bool
is_link_local_unicast no_addr = false
is_link_local_unicast (ipv4 a) = a / 2 ^ 16 == 0xa9fe
is_link_local_unicast (ipv6 a zone) = a / 2 ^ 118 == 0x3fa

abbrev is_link_local_multicast : Addr → Bool
is_link_local_multicast no_addr = false
is_link_local_multicast (ipv4 a) = a / 2 ^ 8 == 0xe00000
is_link_local_multicast (ipv6 a zone) = a / 2 ^ 120 == 0xff && a / 2 ^ 112 % 16 == 2

abbrev metadata_prefixes : List Prefix
metadata_prefixes =
    record { prefix_addr = ipv4 0xa9fea9fe; bits = 32 }
    ∷ record { prefix_addr = ipv4 0x646464c8; bits = 32 }
    ∷ record { prefix_addr = ipv6 0xfd000ec2000000000000000000000254 []; bits = 128 }
    ∷ []

unfoldable pub safe_address : Addr → Bool
unfolding contains addr_valid is_unspecified
safe_address a =
    if not (addr_valid a)
      || is_unspecified a
      || is_multicast a
      || is_loopback a
      || is_link_local_unicast a
      || is_link_local_multicast a
    then false
    else not (any (λ metadata. contains metadata a) metadata_prefixes)

-- The loop of `uniqueAddresses`; the addresses seen are those kept so far.
unfoldable pub unique_from : List Addr → List Addr → List Addr
unfolding unmap
unique_from seen [] = []
unique_from seen (a ∷ rest) =
    let same = unique_from seen rest in
    let more = unique_from (unmap a ∷ seen) rest in
    if any (λ b. b == unmap a) seen then same else unmap a ∷ more

abbrev pub unique_addresses : List Addr → List Addr
unique_addresses addresses = unique_from [] addresses

-- `a.Compare(b) < 0`: by the length of the address, its value and its zone.
unfoldable pub addr_ltb : Addr → Addr → Bool
addr_ltb no_addr no_addr = false
addr_ltb no_addr (ipv4 b) = true
addr_ltb no_addr (ipv6 b z) = true
addr_ltb (ipv4 a) no_addr = false
addr_ltb (ipv4 a) (ipv4 b) = ltb a b
addr_ltb (ipv4 a) (ipv6 b z) = true
addr_ltb (ipv6 a y) no_addr = false
addr_ltb (ipv6 a y) (ipv4 b) = false
addr_ltb (ipv6 a y) (ipv6 b z) = ltb a b || (a == b && text_ltb y z)

unfoldable pub insert_address : Addr → List Addr → List Addr
unfolding addr_ltb
insert_address a [] = a ∷ []
insert_address a (b ∷ bs) =
    let rest = insert_address a bs in if addr_ltb a b then a ∷ b ∷ bs else b ∷ rest

-- `sort.Slice`; the addresses differ, so there is one sorted order.
unfoldable pub sort_addresses : List Addr → List Addr
unfolding insert_address
sort_addresses [] = []
sort_addresses (a ∷ rest) = insert_address a (sort_addresses rest)

-- `Prefix.IsValid` and `Prefix.Masked`.
unfoldable pub prefix_valid : Prefix → Bool
prefix_valid p = elim p.prefix_addr [
  | no_addr ↦ false
  | ipv4 a ↦ leb p.bits 32
  | ipv6 a zone ↦ leb p.bits 128
]

abbrev keep_top : ℕ → ℕ → ℕ → ℕ
keep_top width bits a = a / 2 ^ (width - bits) * 2 ^ (width - bits)

abbrev mask_addr : ℕ → Addr → Addr
mask_addr bits no_addr = no_addr
mask_addr bits (ipv4 a) = ipv4 (keep_top 32 bits a)
mask_addr bits (ipv6 a zone) = ipv6 (keep_top 128 bits a) zone

unfoldable pub masked : Prefix → Prefix
masked p = record { prefix_addr = mask_addr p.bits p.prefix_addr; bits = p.bits }
