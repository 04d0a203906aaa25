-- ===== src/Rtsp/Chosen.antt =====
-- internal/media/rtsp/admission.go: what the path and the chosen address of an endpoint passed.
use iolink.Base.{
  ◌≡◌, ◌≢◌, sym, subst, ◌∙◌, inl, inr, ◌==◌, ==_iff, nat_eq, text_eq, true, false, ◌&&◌, not,
  Bool-cases, Text, text, List, [], ◌∷◌, all, any, All, All-map, map, some, Option-cases, ok,
  contains as contains_text, has_control, split, arith,
}
use iolink.Gb.Peers.{Addr, addr_eq, Prefix}
use iolink.Rtsp.Addresses.{unmap, unique_addresses, safe_address, addr_ltb, sort_addresses, masked}
use iolink.Rtsp.Uri.{path_unescape, valid_decoded, validate_path}
use iolink.Rtsp.Admission.{allowed, choose}
use iolink.Rtsp.Order.{
  List-cases, IsFirst, sort_addresses-IsFirst, unique_from-All, unique_from-any, any-masked,
}

-- The decoded path is plain text and none of its segments leaves the directory.
pub record IsPlainPath (path : Text) : Type 0 where
  pub decoded : Text
  pub unescaped : path_unescape path ≡ some decoded
  pub no_control : has_control decoded ≡ false
  pub no_backslash : contains_text decoded (text "\\") ≡ false
  pub no_parent : All (λ segment. segment ≢ text "..") (split b'/' decoded)

all-parents :
    (segments : List Text)
    → all (λ segment. not (segment == text "..")) segments ≡ true
    → All (λ segment. segment ≢ text "..") segments
all-parents [] h = tt
all-parents (s ∷ segments) h =
    (λ e. absurd (ground (arith, ==_iff s (text ".."))), all-parents segments (ground arith))

pub validate_path-IsPlainPath : (path : Text) → validate_path path ≡ true → IsPlainPath path
unfolding validate_path valid_decoded
validate_path-IsPlainPath path h = elim (Option-cases (path_unescape path)) [
  | inl e ↦ absurd (ground arith)
  | inr (decoded, e) ↦ record {
    decoded = decoded;
    unescaped = e;
    no_control = ground arith;
    no_backslash = ground arith;
    no_parent = all-parents (split b'/' decoded) (ground arith);
  }
]

-- What every address of an answer passed.
abbrev pub Passes : List Prefix → Addr → Type 0
Passes cidrs a = (safe_address a ≡ true) × (allowed cidrs a ≡ true)

all-Passes :
    (cidrs : List Prefix) (list : List Addr)
    → all (λ a. safe_address a && allowed cidrs a) list ≡ true
    → All (Passes cidrs) list
all-Passes cidrs [] h = tt
all-Passes cidrs (a ∷ list) h = ((ground arith, ground arith), all-Passes cidrs list (ground arith))

-- The chosen address of an answer: every address of the answer passed, and it is the first.
pub record Chosen (cidrs : List Prefix) (answer : List Addr) (address : Addr) : Type 0 where
  pub passed : All (λ a. Passes cidrs (unmap a)) answer
  pub least : All (λ a. addr_ltb (unmap a) address ≡ false) answer
  pub given : any (λ a. unmap a == address) answer ≡ true

pub choose-Chosen :
    (cidrs : List Prefix) (answer : List Addr) {address : Addr}
    → choose cidrs (unique_addresses answer) ≡ ok address
    → Chosen cidrs answer address
unfolding choose
choose-Chosen cidrs answer {address} h =
    let kept = unique_addresses answer in
    elim (Bool-cases (all (λ a. safe_address a && allowed cidrs a) kept)) [
      | inr f ↦ absurd (ground arith)
      | inl t ↦ elim (List-cases (sort_addresses kept)) [
        | inl e ↦ absurd (ground arith)
        | inr (first, rest, e) ↦
            let same : first ≡ address = ground arith in
            let (least, given) = subst (λ x. IsFirst x kept) same (sort_addresses-IsFirst kept e) in
            record {
              passed = unique_from-All (Passes cidrs) [] answer tt (all-Passes cidrs kept t);
              least = unique_from-All (λ a. addr_ltb a address ≡ false) [] answer tt least;
              given = unique_from-any [] answer address given;
            }
      ]
    ]

pub Chosen-masked :
    (cidrs : List Prefix) {answer : List Addr} {address : Addr}
    → Chosen (map masked cidrs) answer address
    → Chosen cidrs answer address
Chosen-masked cidrs {answer} v = record {
  passed = All-map answer (λ a k. (k.0, sym (any-masked cidrs (unmap a)) ∙ k.1)) v.passed;
  least = v.least;
  given = v.given;
}
