-- ===== src/Rtp/Held.antt =====
-- The allocator as a set of held pairs: what `Allocate` and `Release` do to it.
use iolink.Base.{
  ◌≡◌, sym, ap, ◌∙◌, ◌≢◌, ◌↔◌, inl, inr, if◌then◌else◌, Bool, true, false, ◌&&◌, Option, some, set,
  get_elem?, length, length-set, get_elem?-set_self, get_elem?-set_ne, set-set, set-get_elem?,
  GoError, plain, rtp, exhausted, invalid_pair, not_allocated, ok, err, arith, Bool-cases,
}
use iolink.Rtp.Alloc.{
  PortPair, valid, Allocator, Context, pair_at, index_of, allocate, release, check_context,
}
use iolink.Rtp.Laws.{
  IsSized, is_held, flag, valid-pair_at, index_of-pair_at, pair_at-index_of, allocate_cases,
  allocate-ok, release-ok, index_of-injective,
}

pub allocate-IsSized :
    (a : Allocator) (ctx : Option Context) {b : Allocator} {p : PortPair}
    → IsSized a
    → allocate a ctx ≡ (b, ok p)
    → IsSized b
allocate-IsSized a ctx s h =
    let (i, f, l, e, q) = allocate-ok a ctx h in
    record { sized = ap (λ t. length t.allocated) e ∙ length-set a.allocated i true ∙ s.sized }

pub release-IsSized :
    (a : Allocator) (ctx : Option Context) (p : PortPair) {b : Allocator}
    → IsSized a
    → release a ctx p ≡ (b, ok tt)
    → IsSized b
release-IsSized a ctx p s h =
    let (v, f, e) = release-ok a ctx p h in
    record {
      sized = ap (λ t. length t.allocated) e ∙ length-set a.allocated (index_of p) false ∙ s.sized;
    }

-- A call that fails leaves the array as it was.
pub allocate-err :
    (a : Allocator) (ctx : Option Context) {b : Allocator} {e : GoError}
    → allocate a ctx ≡ (b, err e)
    → b ≡ a
unfolding allocate
allocate-err a ctx h = ground arith

pub release-err :
    (a : Allocator) (ctx : Option Context) (p : PortPair) {b : Allocator} {e : GoError}
    → release a ctx p ≡ (b, err e)
    → b ≡ a
unfolding release
release-err a ctx p h = ground arith

held-set_self :
    (a : Allocator) (p : PortPair) (b : Bool)
    → IsSized a
    → valid p ≡ true
    → is_held (record { allocated = set a.allocated (index_of p) b }) p ≡ b
unfolding is_held
held-set_self a p b s v =
    ground (arith, get_elem?-set_self a.allocated (index_of p) b, pair_at-index_of p v, s.sized)

held-set_ne :
    (a : Allocator) (p q : PortPair) (b : Bool)
    → valid p ≡ true
    → q ≢ p
    → is_held (record { allocated = set a.allocated (index_of p) b }) q ≡ is_held a q
unfolding is_held
held-set_ne a p q b v n = elim (Bool-cases (valid q)) [
  | inr w ↦ rw w
  | inl w ↦
      ap (λ t. valid q && flag t)
        (get_elem?-set_ne a.allocated (index_of p) (index_of q) b
          (λ e. n (index_of-injective q p w v (sym e))))
]

-- A pair that `Allocate` returns is valid and was free; it is held afterwards, and no other pair
-- changes hands.
pub allocate-held :
    (a : Allocator) (ctx : Option Context) {b : Allocator} {p : PortPair}
    → IsSized a
    → allocate a ctx ≡ (b, ok p)
    → (valid p ≡ true)
      × (is_held a p ≡ false)
      × (is_held b p ≡ true)
      × ((q : PortPair) → q ≢ p → is_held b q ≡ is_held a q)
allocate-held a ctx {b} {p} s h =
    let (i, f, l, e, q) = allocate-ok a ctx h in
    let v : valid p ≡ true = rw q (valid-pair_at i (omega (arith, s.sized))) in
    let x : index_of p ≡ i = ap index_of q ∙ index_of-pair_at i in
    (
      v,
      unfold is_held in ground arith,
      rw (e, ← x) (held-set_self a p true s v),
      λ r n. rw (e, ← x) (held-set_ne a p r true v n),
    )

-- `Release` frees a held pair and no other.
pub release-held :
    (a : Allocator) (ctx : Option Context) (p : PortPair) {b : Allocator}
    → IsSized a
    → release a ctx p ≡ (b, ok tt)
    → (is_held a p ≡ true)
      × (is_held b p ≡ false)
      × ((q : PortPair) → q ≢ p → is_held b q ≡ is_held a q)
release-held a ctx p s h =
    let (v, f, e) = release-ok a ctx p h in
    (
      unfold is_held in ground arith,
      rw e (held-set_self a p false s v),
      λ r n. rw e (held-set_ne a p r false v n),
    )

-- Whenever the context is not done, `Release` answers by the pair alone: an invalid pair and a pair
-- that is not held are told apart, and a held pair is always released.
pub release_answer :
    (a : Allocator) (ctx : Context) (p : PortPair)
    → IsSized a
    → check_context (some ctx) ≡ ok tt
    → (release a (some ctx) p).1 ≡ (
        if valid p
        then (if is_held a p then ok tt else err (plain (rtp not_allocated)))
        else err (plain (rtp invalid_pair)))
unfolding release check_context is_held
release_answer a ctx p s live = ground arith

-- `Allocate` reports exhaustion exactly when every valid pair is held.
allocate-exhausted :
    (a : Allocator) (ctx : Context)
    → IsSized a
    → check_context (some ctx) ≡ ok tt
    → ((allocate a (some ctx)).1 ≡ err (plain (rtp exhausted)))
      ↔ ((p : PortPair) → valid p ≡ true → is_held a p ≡ true)
allocate-exhausted a ctx s live = elim (allocate_cases a ctx live) [
  | inr (all, r) ↦ (
    λ _ p v.
        let (l, e) = pair_at-index_of p v in
        unfold is_held in rw (v, all (index_of p) (omega (arith, s.sized))),
    λ _. ap (λ t. t.1) r,
  )
  | inl (i, f, l, r) ↦ (
    λ h. absurd (ground (arith, r)),
    λ h. absurd (
        unfold is_held in
        ground
          (arith, h (pair_at i), valid-pair_at i (omega (arith, s.sized)), index_of-pair_at i, f)),
  )
]

release_frees :
    (a : Allocator) (ctx : Context) (p : PortPair)
    → check_context (some ctx) ≡ ok tt
    → valid p ≡ true
    → get_elem? a.allocated (index_of p) ≡ some true
    → release a (some ctx) p ≡ (record { allocated = set a.allocated (index_of p) false }, ok tt)
unfolding release check_context
release_frees a ctx p live v t = ground arith

allocator_eq : {a b : Allocator} → a.allocated ≡ b.allocated → a ≡ b
allocator_eq e = λ i. record { allocated = e i }

-- A pair that was just allocated can be released at once, which restores the array.
pub release-allocate :
    (a : Allocator) (ctx : Option Context) (later : Context) {b : Allocator} {p : PortPair}
    → IsSized a
    → allocate a ctx ≡ (b, ok p)
    → check_context (some later) ≡ ok tt
    → release b (some later) p ≡ (a, ok tt)
release-allocate a ctx later {b} {p} s h live =
    let (i, f, l, e, q) = allocate-ok a ctx h in
    let v : valid p ≡ true = rw q (valid-pair_at i (omega (arith, s.sized))) in
    let x : index_of p ≡ i = ap index_of q ∙ index_of-pair_at i in
    let taken : get_elem? b.allocated (index_of p) ≡ some true =
      rw (e, x) (get_elem?-set_self a.allocated i true l) in
    let undone : set b.allocated (index_of p) false ≡ a.allocated =
      rw (e, x) (set-set a.allocated i true false ∙ set-get_elem? a.allocated i false f) in
    release_frees b later p live v taken ∙ ap (λ t. (t, ok tt)) (allocator_eq undone)
