-- ===== src/Rtsp/Order.antt =====
-- internal/media/rtsp/admission.go: laws of the addresses that `Pin` sorts and tests.
use iolink.Base.{
  ℕ, ◌-◌, ◌*◌, ◌/◌, ◌^◌, ◌<◌, ◌≢◌, ◌⊎◌, ◌≡◌, refl, subst, inl, inr, ◌==◌, ==_iff, nat_eq, true,
  false, Bool-cases, text_ltb_asymm, text_ltb_trans, List, [], ◌∷◌, any, All, All-map, map, arith,
}
use native.Mathlib.Nat.{mul-div_cancel, one-le-pow}
use iolink.Gb.Peers.{Addr, no_addr, ipv4, ipv6, addr_eq, Prefix, contains}
use iolink.Rtsp.Admission.{allowed}
use iolink.Rtsp.Addresses.{unmap, unique_from, addr_ltb, insert_address, sort_addresses, masked}

addr_ltb_asymm : (a b : Addr) → addr_ltb a b ≡ true → addr_ltb b a ≡ false
unfolding addr_ltb
addr_ltb_asymm no_addr b h = ground arith
addr_ltb_asymm (ipv4 a) b h = ground arith
addr_ltb_asymm (ipv6 a y) no_addr h = ground arith
addr_ltb_asymm (ipv6 a y) (ipv4 b) h = ground arith
addr_ltb_asymm (ipv6 a y) (ipv6 b z) h = ground (arith, text_ltb_asymm y z)

addr_ltb_trans : (a b c : Addr) → addr_ltb c b ≡ false → addr_ltb b a ≡ false → addr_ltb c a ≡ false
unfolding addr_ltb
addr_ltb_trans no_addr b c h k = ground arith
addr_ltb_trans (ipv4 a) no_addr c h k = cc
addr_ltb_trans (ipv4 a) (ipv4 b) c h k = ground arith
addr_ltb_trans (ipv4 a) (ipv6 b z) c h k = ground arith
addr_ltb_trans (ipv6 a y) no_addr c h k = cc
addr_ltb_trans (ipv6 a y) (ipv4 b) c h k = cc
addr_ltb_trans (ipv6 a y) (ipv6 b z) no_addr h k = cc
addr_ltb_trans (ipv6 a y) (ipv6 b z) (ipv4 c) h k = cc
addr_ltb_trans (ipv6 a y) (ipv6 b z) (ipv6 c x) h k = ground (arith, text_ltb_trans y z x)

-- Nothing in the list comes before the address.
abbrev pub IsLeast : Addr → List Addr → Type 0
IsLeast a bs = All (λ b. addr_ltb b a ≡ false) bs

addr_ltb_irrefl : (a : Addr) → addr_ltb a a ≡ false
addr_ltb_irrefl a = elim (Bool-cases (addr_ltb a a)) [ inl t ↦ addr_ltb_asymm a a t | inr f ↦ f ]

pub List-cases :
    (list : List Addr) → (list ≡ []) ⊎ ((b : Addr) × (bs : List Addr) × (list ≡ b ∷ bs))
List-cases [] = inl refl
List-cases (b ∷ bs) = inr (b, bs, refl)

-- An address of the list before which no other comes.
abbrev pub IsFirst : Addr → List Addr → Type 0
IsFirst first list = IsLeast first list × (any (λ a. a == first) list ≡ true)

insert_address-IsFirst :
    (a b : Addr) (bs list : List Addr) {first : Addr} {rest : List Addr}
    → IsFirst b list
    → insert_address a (b ∷ bs) ≡ first ∷ rest
    → IsFirst first (a ∷ list)
unfolding insert_address
insert_address-IsFirst a b bs list {first} {rest} (v, u) h = elim (Bool-cases (addr_ltb a b)) [
  | inl t ↦
      let e : a ≡ first = ground arith in
      subst (λ x. IsFirst x (a ∷ list)) e
        (
          (
            addr_ltb_irrefl a,
            All-map list (λ c k. addr_ltb_trans a b c k (addr_ltb_asymm a b t)) v,
          ),
          ground (arith, ==_iff a a),
        )
  | inr f ↦
      let e : b ≡ first = ground arith in
      subst (λ x. IsFirst x (a ∷ list)) e ((f, v), ground (arith, u))
]

insert_address-cons : (a : Addr) (bs : List Addr) → insert_address a bs ≢ []
unfolding insert_address
insert_address-cons a [] h = absurd cc
insert_address-cons a (b ∷ bs) h = elim (Bool-cases (addr_ltb a b)) [
  | inl t ↦ absurd (ground arith)
  | inr f ↦ absurd (ground arith)
]

pub sort_addresses-IsFirst :
    (list : List Addr) {first : Addr} {rest : List Addr}
    → sort_addresses list ≡ first ∷ rest
    → IsFirst first list
unfolding sort_addresses
sort_addresses-IsFirst [] h = absurd cc
sort_addresses-IsFirst (a ∷ []) {first} h =
    let e : a ≡ first = ground arith in
    subst (λ x. IsFirst x (a ∷ [])) e ((addr_ltb_irrefl a, tt), ground (arith, ==_iff a a))
sort_addresses-IsFirst (a ∷ c ∷ list) {first} {rest} h =
    elim (List-cases (sort_addresses (c ∷ list))) [
      | inl e ↦ absurd (insert_address-cons c (sort_addresses list) e)
      | inr (b, bs, e) ↦
          insert_address-IsFirst a b bs (c ∷ list) (sort_addresses-IsFirst (c ∷ list) e)
            (subst (λ x. insert_address a x ≡ first ∷ rest) e h)
    ]

All-member :
    (P : Addr → Type 0) (list : List Addr) (a : Addr)
    → All P list
    → any (λ b. b == a) list ≡ true
    → P a
All-member P [] a v h = absurd cc
All-member P (b ∷ list) a v h = elim (Bool-cases (b == a)) [
  | inl t ↦ subst P ((==_iff b a).0 t) v.0
  | inr f ↦ All-member P list a v.1 (ground arith)
]

-- What holds of every address kept holds of every address that was given, unmapped.
pub unique_from-All :
    (P : Addr → Type 0) (seen list : List Addr)
    → All P seen
    → All P (unique_from seen list)
    → All (λ a. P (unmap a)) list
unfolding unique_from
unique_from-All P seen [] u v = tt
unique_from-All P seen (a ∷ list) u v = elim (Bool-cases (any (λ b. b == unmap a) seen)) [
  | inl t ↦
      let same : unique_from seen (a ∷ list) ≡ unique_from seen list = rw t refl in
      (All-member P seen (unmap a) u t, unique_from-All P seen list u (subst (All P) same v))
  | inr f ↦
      let more : unique_from seen (a ∷ list) ≡ unmap a ∷ unique_from (unmap a ∷ seen) list =
        rw f refl in
      let w = subst (All P) more v in (w.0, unique_from-All P (unmap a ∷ seen) list (w.0, u) w.1)
]

-- Every address kept was given.
pub unique_from-any :
    (seen list : List Addr) (x : Addr)
    → any (λ a. a == x) (unique_from seen list) ≡ true
    → any (λ a. unmap a == x) list ≡ true
unfolding unique_from
unique_from-any seen [] x h = h
unique_from-any seen (a ∷ list) x h =
    ground (arith, unique_from-any seen list x, unique_from-any (unmap a ∷ seen) list x)

keep_top : (a k : ℕ) → 0 < k → a / k * k / k ≡ a / k
keep_top a k h = mul-div_cancel (a / k) h

contains-mask :
    (p a : Addr) (n : ℕ)
    → contains (masked (record { prefix_addr = p; bits = n })) a
      ≡ contains (record { prefix_addr = p; bits = n }) a
unfolding contains masked
contains-mask no_addr a n = refl
contains-mask (ipv4 p) no_addr n = refl
contains-mask (ipv4 p) (ipv4 a) n =
    rw (keep_top p (2 ^ (32 - n)) (one-le-pow (32 - n) 2 (omega arith))) refl
contains-mask (ipv4 p) (ipv6 a z) n = refl
contains-mask (ipv6 p y) no_addr n = refl
contains-mask (ipv6 p y) (ipv4 a) n = refl
contains-mask (ipv6 p y) (ipv6 a z) n =
    rw (keep_top p (2 ^ (128 - n)) (one-le-pow (128 - n) 2 (omega arith))) refl

-- Masking a prefix changes none of its addresses.
pub any-masked : (cidrs : List Prefix) (a : Addr) → allowed (map masked cidrs) a ≡ allowed cidrs a
any-masked [] a = refl
any-masked (p ∷ cidrs) a = ground (arith, contains-mask p.prefix_addr a p.bits, any-masked cidrs a)
