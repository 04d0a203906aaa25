-- ===== src/Rtsp/Pinned.antt =====
-- internal/media/rtsp/admission.go: what a pinned endpoint guarantees.
use iolink.Base.{
  ℕ, ◌≡◌, ◌≢◌, refl, subst, inl, inr, ◌==◌, nat_eq, text_eq, true, not, Bool-cases, Text, text,
  List, [], ◌∷◌, all, any, map, Option, some, Option-cases, Result, ok, err, Result-cases, arith,
}
use iolink.World.{M, Run-cases}
use iolink.Gb.Peers.{Addr, addr_eq}
use iolink.Rtsp.Addresses.{unique_addresses, masked}
use iolink.Rtsp.Uri.{Url, validate_path, parse_port, valid_origin, valid_raw, parse_uri}
use iolink.Rtsp.Admission.{
  Context, Config, Admission, Endpoint, valid_config, new, choose, found, resolve, endpoint,
  pin_parsed, pin,
}
use iolink.Rtsp.Chosen.{
  IsPlainPath, validate_path-IsPlainPath, Chosen, choose-Chosen, Chosen-masked,
}

-- Why an endpoint was pinned.
pub record Pinned {W : Type 0} (config : Config W) (ctx : Context W) (parse : Text → Option Url)
    (raw : Text) (w w' : W) (e : Endpoint) : Type 0 where
  pub resolver : Text → Text → M W (List Addr)
  pub url : Url
  pub answer : List Addr
  pub before : W
  pub after : W
  pub configured : config.resolver ≡ some resolver
  pub alive_before : ctx w ≡ (before, ok tt)
  pub alive_after : ctx after ≡ (w', ok tt)
  pub plain_raw : valid_raw raw ≡ true
  pub parsed : parse raw ≡ some url
  pub origin : valid_origin url ≡ true
  pub port : parse_port url.port ≡ some e.port
  pub port_allowed : any (λ p. p == e.port) config.allowed_ports ≡ true
  pub port_not_zero : e.port ≢ 0
  pub resolved : resolver (text "ip") url.hostname before ≡ (after, ok answer)
  pub chosen : Chosen config.allowed_cidrs answer e.address
  pub path : e.path ≡ url.escaped_path
  pub plain_path : IsPlainPath e.path

-- A parsed address, with what the parser checked.
record IsParsed (parse : Text → Option Url) (raw : Text) (u : Url) (port : ℕ) : Type 0 where
  plain_raw : valid_raw raw ≡ true
  parsed : parse raw ≡ some u
  origin : valid_origin u ≡ true
  port_read : parse_port u.port ≡ some port
  plain_path : IsPlainPath u.escaped_path

parse_uri-IsParsed :
    (parse : Text → Option Url) (raw : Text) {u : Url} {port : ℕ}
    → parse_uri parse raw ≡ ok (u, port)
    → IsParsed parse raw u port
unfolding parse_uri
parse_uri-IsParsed parse raw {u} {port} h = elim (Bool-cases (valid_raw raw)) [
  | inr b ↦ absurd (ground arith)
  | inl b ↦ elim (Option-cases (parse raw)) [
    | inl e ↦ absurd (ground arith)
    | inr (v, e) ↦ elim (Bool-cases (valid_origin v)) [
      | inr c ↦ absurd (ground arith)
      | inl c ↦ elim (Option-cases (parse_port v.port)) [
        | inl f ↦ absurd (ground arith)
        | inr (n, f) ↦ elim (Bool-cases (validate_path v.escaped_path)) [
          | inr d ↦ absurd (ground arith)
          | inl d ↦
              let same_url : v ≡ u = ground arith in
              let same_port : n ≡ port = ground arith in
              subst (λ x. IsParsed parse raw x port) same_url
                (subst (IsParsed parse raw v) same_port (record {
                  plain_raw = b;
                  parsed = e;
                  origin = c;
                  port_read = f;
                  plain_path = validate_path-IsPlainPath v.escaped_path d;
                }))
        ]
      ]
    ]
  ]
]

all-not_zero :
    (ports : List ℕ) (n : ℕ)
    → all (λ p. not (p == 0)) ports ≡ true
    → any (λ p. p == n) ports ≡ true
    → n ≢ 0
all-not_zero [] n h k e = absurd cc
all-not_zero (p ∷ ports) n h k e = ground (arith, all-not_zero ports n)

found-ok :
    {W : Type 0} (ctx : Context W) (r : W × Result (List Addr)) {w : W} {answer : List Addr}
    → found ctx r ≡ (w, ok answer)
    → r ≡ (w, ok answer)
found-ok ctx (w, err e) h = elim (Run-cases (ctx w)) [
  | inl (v, u, f) ↦ absurd (ground arith)
  | inr (v, e', f) ↦ absurd (ground arith)
]
found-ok ctx (w, ok []) h = absurd (ground arith)
found-ok ctx (w, ok (a ∷ rest)) h = h

-- What `New` makes of its configuration.
record IsNew {W : Type 0} (config : Config W) (a : Admission W) : Type 0 where
  configured : config.resolver ≡ some a.resolver
  cidrs : a.cidrs ≡ map masked config.allowed_cidrs
  ports : a.ports ≡ config.allowed_ports
  no_zero : all (λ port. not (port == 0)) config.allowed_ports ≡ true

new-IsNew : {W : Type 0} (config : Config W) {a : Admission W} → new config ≡ ok a → IsNew config a
unfolding new valid_config
new-IsNew config {a} h = elim (Option-cases config.resolver) [
  | inl e ↦ absurd (ground arith)
  | inr (r, e) ↦ elim (Bool-cases (valid_config config)) [
    | inr b ↦ absurd (ground arith)
    | inl b ↦
        let same : record {
          resolver = r;
          cidrs = map masked config.allowed_cidrs;
          ports = config.allowed_ports;
        }
            ≡ a =
          ground arith in
        subst (IsNew config) same
          (record { configured = e; cidrs = refl; ports = refl; no_zero = ground arith })
  ]
]

module _ {W : Type 0} (config : Config W) {a : Admission W} (made : new config ≡ ok a)
    (ctx : Context W) (parse : Text → Option Url) (raw : Text) where
  pin_parsed-Pinned :
      (u : Url) (port : ℕ) (w before : W) {w' : W} {e : Endpoint}
      → ctx w ≡ (before, ok tt)
      → IsParsed parse raw u port
      → pin_parsed a ctx u port before ≡ (w', ok e)
      → Pinned config ctx parse raw w w' e
  unfolding pin_parsed resolve
  pin_parsed-Pinned u port w before {w'} {e} alive v h =
      elim (Bool-cases (any (λ p. p == port) a.ports)) [
        | inr b ↦ absurd (ground arith)
        | inl b ↦ elim (Run-cases (resolve a ctx u.hostname before)) [
          | inr (w1, x, f) ↦ absurd (ground arith)
          | inl (w1, answer, f) ↦ elim (Result-cases (choose a.cidrs (unique_addresses answer))) [
            | inr (x, g) ↦ absurd (ground arith)
            | inl (address, g) ↦ elim (Run-cases (ctx w1)) [
              | inr (w2, x, k) ↦ absurd (ground arith)
              | inl (w2, done, k) ↦
                  let made_from = new-IsNew config made in
                  let same : endpoint address u port ≡ e = ground arith in
                  let same_world : w2 ≡ w' = ground arith in
                  let allowed_port =
                    subst (λ ports. any (λ p. p == port) ports ≡ true) made_from.ports b in
                  subst (λ x. Pinned config ctx parse raw w w' x) same
                    (record {
                      resolver = a.resolver;
                      url = u;
                      answer = answer;
                      before = before;
                      after = w1;
                      configured = made_from.configured;
                      alive_before = alive;
                      alive_after = subst (λ x. ctx w1 ≡ (x, ok tt)) same_world k;
                      plain_raw = v.plain_raw;
                      parsed = v.parsed;
                      origin = v.origin;
                      port = v.port_read;
                      port_allowed = allowed_port;
                      port_not_zero =
                          all-not_zero config.allowed_ports port made_from.no_zero allowed_port;
                      resolved = found-ok ctx (a.resolver (text "ip") u.hostname before) f;
                      chosen = Chosen-masked config.allowed_cidrs (
                          subst (λ x. Chosen x answer address) made_from.cidrs
                            (choose-Chosen a.cidrs answer g));
                      path = refl;
                      plain_path = v.plain_path;
                    })
            ]
          ]
        ]
      ]

  -- An endpoint is pinned only while the context lives, from an RTSP address without user, query and
  -- fragment whose decoded path holds no control character, backslash or parent segment, at a port that
  -- is allowed and not zero, when every address that the name resolved to, unmapped, is safe and in an
  -- allowed prefix; its address is the first of these in order.
  pub pin-Pinned :
      (w : W) {w' : W} {e : Endpoint}
      → pin (some a) (some ctx) parse raw w ≡ (w', ok e)
      → Pinned config ctx parse raw w w' e
  unfolding pin
  pin-Pinned w {w'} {e} h = elim (Run-cases (ctx w)) [
    | inr (w1, x, f) ↦ absurd (ground arith)
    | inl (w1, done, f) ↦ elim (Result-cases (parse_uri parse raw)) [
      | inr (x, g) ↦ absurd (ground arith)
      | inl ((u, port), g) ↦
          pin_parsed-Pinned u port w w1 f (parse_uri-IsParsed parse raw g) (ground arith)
    ]
  ]
