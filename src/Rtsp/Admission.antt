-- ===== src/Rtsp/Admission.antt =====
-- internal/media/rtsp/admission.go: `New`, `Pin` and the endpoint. The resolver and what a context's
-- `Err` answers are calls of the outside world.
use iolink.Base.{
  ℕ, ◌==◌, nat_eq, Bool, true, false, ◌&&◌, ◌||◌, not, if◌then◌else◌, Text, text, List, [], ◌∷◌,
  ◌++◌, all, any, map, Option, none, some, plain, rtsp, invalid_config, port_not_allowed,
  resolution_failed, address_not_allowed, Result, ok, err,
}
use iolink.World.{M, ◌>>=◌, ◌>>◌, lift, return, require}
use iolink.Gb.Peers.{Addr, addr_valid, Prefix, contains}
use iolink.Rtsp.Addresses.{unique_addresses, safe_address, sort_addresses, prefix_valid, masked}
use iolink.Rtsp.Uri.{Url, parse_uri}

-- `ctx.Err()` of a context that is not nil.
abbrev pub Context : Type 0 → Type 0
Context W = M W (Unit {0})

abbrev pub Resolver : Type 0 → Type 0
Resolver W = Text → Text → M W (List Addr)

pub record Config (W : Type 0) : Type 0 where
  pub resolver : Option (Resolver W)
  pub allowed_cidrs : List Prefix
  pub allowed_ports : List ℕ

pub record Admission (W : Type 0) : Type 0 where
  pub resolver : Resolver W
  pub cidrs : List Prefix
  pub ports : List ℕ

pub record Endpoint : Type 0 where
  pub address : Addr
  pub port : ℕ
  pub path : Text

abbrev is_none {ℓ} : {A : Type ℓ} → List A → Bool
is_none [] = true
is_none (x ∷ xs) = false

unfoldable pub valid_config : {W : Type 0} → Config W → Bool
unfolding prefix_valid
valid_config config =
    not (is_none config.allowed_cidrs)
    && not (is_none config.allowed_ports)
    && all prefix_valid config.allowed_cidrs
    && all (λ port. not (port == 0)) config.allowed_ports

unfoldable pub new : {W : Type 0} → Config W → Result (Admission W)
unfolding valid_config
new config = elim config.resolver [
  | none ↦ err (plain (rtsp invalid_config))
  | some resolver ↦
      if valid_config config
      then ok (record {
        resolver = resolver;
        cidrs = map masked config.allowed_cidrs;
        ports = config.allowed_ports;
      })
      else err (plain (rtsp invalid_config))
]

abbrev pub allowed : List Prefix → Addr → Bool
allowed cidrs a = any (λ cidr. contains cidr a) cidrs

-- The tests of the addresses found, and the first in order.
unfoldable pub choose : List Prefix → List Addr → Result Addr
unfolding sort_addresses
choose cidrs addresses =
    if all (λ a. safe_address a && allowed cidrs a) addresses
    then elim (sort_addresses addresses) [
      | [] ↦ err (plain (rtsp resolution_failed))
      | (first ∷ rest) ↦ ok first
    ]
    else err (plain (rtsp address_not_allowed))

abbrev pub endpoint : Addr → Url → ℕ → Endpoint
endpoint address u port = record { address = address; port = port; path = u.escaped_path }

module _ {W : Type 0} where
  -- A failed lookup is the context's error if it has one, and an empty answer is a failure.
  abbrev pub found : Context W → W × Result (List Addr) → W × Result (List Addr)
  found ctx (w, err e) = (ctx >> lift (err (plain (rtsp resolution_failed)))) w
  found ctx (w, ok []) = (w, err (plain (rtsp resolution_failed)))
  found ctx (w, ok (a ∷ rest)) = (w, ok (a ∷ rest))

  unfoldable pub resolve : Admission W → Context W → Text → M W (List Addr)
  resolve a ctx host w = found ctx (a.resolver (text "ip") host w)

  -- `Pin` behind the parser.
  unfoldable pub pin_parsed : Admission W → Context W → Url → ℕ → M W Endpoint
  unfolding resolve choose
  pin_parsed a ctx u port = do
    require (any (λ p. p == port) a.ports) (plain (rtsp port_not_allowed))
    addresses ← resolve a ctx u.hostname
    address ← lift (choose a.cidrs (unique_addresses addresses))
    ctx
    return (endpoint address u port)

  unfoldable pub pin :
      Option (Admission W) → Option (Context W) → (Text → Option Url) → Text → M W Endpoint
  unfolding pin_parsed parse_uri
  pin none ctx parse raw = lift (err (plain (rtsp invalid_config)))
  pin (some a) none parse raw = lift (err (plain (rtsp invalid_config)))
  pin (some a) (some ctx) parse raw = do
    ctx
    parsed ← lift (parse_uri parse raw)
    pin_parsed a ctx parsed.0 parsed.1

-- `URI`, with `netip.AddrPort.String` as a parameter.
unfoldable pub uri : (Addr → ℕ → Text) → Endpoint → Text
uri addr_port e =
    if not (addr_valid e.address) || e.port == 0
    then []
    else text "rtsp://" ++ (addr_port e.address e.port ++ e.path)
