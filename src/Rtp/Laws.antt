-- ===== src/Rtp/Laws.antt =====
-- The port pairs and the array, and what one call of `Allocate` or `Release` does.
use iolink.Base.{
  ℕ, zero, suc, ◌+◌, ◌<◌, ◌≡◌, refl, ◌⊎◌, inl, inr, Bool, true, false, ◌&&◌, Option, none, some,
  List, [], ◌∷◌, set, get_elem?, length, plain, rtp, exhausted, ok, err, arith, Option-cases,
}
use iolink.Rtp.Alloc.{
  PortPair, valid, Allocator, Context, port_pair_count, first_free, pair_at, index_of, allocate,
  release, check_context, check_release,
}

-- The array has a flag for each port pair.
pub record IsSized (a : Allocator) : Type 0 where
  pub sized : length a.allocated ≡ port_pair_count

pub valid-pair_at : (i : ℕ) → i < port_pair_count → valid (pair_at i) ≡ true
unfolding valid pair_at
valid-pair_at i h = ground arith

pub index_of-pair_at : (i : ℕ) → index_of (pair_at i) ≡ i
unfolding index_of pair_at
index_of-pair_at i = omega arith

pub pair_at-index_of :
    (p : PortPair) → valid p ≡ true → (index_of p < port_pair_count) × (pair_at (index_of p) ≡ p)
unfolding valid index_of pair_at
pair_at-index_of p h = ground arith

-- Whether a pair is valid and taken.
unfoldable pub flag : Option Bool → Bool
flag (some b) = b
flag none = false

unfoldable pub is_held : Allocator → PortPair → Bool
unfolding flag
is_held a p = valid p && flag (get_elem? a.allocated (index_of p))

first_free-free :
    (k : ℕ) (xs : List Bool) (i : ℕ)
    → first_free k xs ≡ some i
    → (d : ℕ) × (i ≡ k + d) × (get_elem? xs d ≡ some false) × (d < length xs)
unfolding first_free
first_free-free k [] i h = cc
first_free-free k (false ∷ xs) i h = (0, ground arith, refl, omega arith)
first_free-free k (true ∷ xs) i h =
    let (d, e, f, l) = first_free-free (suc k) xs i h in
    (suc d, omega (arith, e), f, omega (arith, l))

first_free-none :
    (k : ℕ) (xs : List Bool) (j : ℕ)
    → first_free k xs ≡ none
    → j < length xs
    → get_elem? xs j ≡ some true
unfolding first_free
first_free-none k [] j h l = absurd (omega arith)
first_free-none k (false ∷ xs) j h l = cc
first_free-none k (true ∷ xs) zero h l = refl
first_free-none k (true ∷ xs) (suc j) h l = first_free-none (suc k) xs j h (omega arith)

module _ (a : Allocator) (ctx : Context) (live : check_context (some ctx) ≡ ok tt) where
  -- What `Allocate` can answer once the context is not done.
  pub allocate_cases :
      ((i : ℕ) × (get_elem? a.allocated i ≡ some false)
        × (i < length a.allocated)
        × (allocate a (some ctx) ≡ (record { allocated = set a.allocated i true }, ok (pair_at i))))
      ⊎ (((j : ℕ) → j < length a.allocated → get_elem? a.allocated j ≡ some true)
          × (allocate a (some ctx) ≡ (a, err (plain (rtp exhausted)))))
  unfolding allocate
  allocate_cases = elim (Option-cases (first_free 0 a.allocated)) [
    | inl e ↦ inr (λ j l. first_free-none 0 a.allocated j e l, rw (live, e))
    | inr (i, e) ↦
        let (d, p, f, l) = first_free-free 0 a.allocated i e in
        let q : i ≡ d = omega arith in inl (d, f, l, rw (live, e, q))
  ]

-- `Allocate` succeeds only by taking a free index.
pub allocate-ok :
    (a : Allocator) (ctx : Option Context) {b : Allocator} {p : PortPair}
    → allocate a ctx ≡ (b, ok p)
    → (i : ℕ) × (get_elem? a.allocated i ≡ some false)
      × (i < length a.allocated)
      × (b ≡ record { allocated = set a.allocated i true })
      × (p ≡ pair_at i)
unfolding allocate check_context
allocate-ok a none h = cc
allocate-ok a (some ctx) h = elim (Option-cases ctx.before_lock) [
  | inr (e, x) ↦ ground arith
  | inl x ↦ elim (Option-cases ctx.under_lock) [
    | inr (e, y) ↦ ground arith
    | inl y ↦ elim (allocate_cases a ctx (ground arith)) [
      | inr (all, r) ↦ ground arith
      | inl (i, f, l, r) ↦ (i, f, l, ground arith, ground arith)
    ]
  ]
]

-- `Release` succeeds only by freeing a taken index of a valid pair.
pub release-ok :
    (a : Allocator) (ctx : Option Context) (p : PortPair) {b : Allocator}
    → release a ctx p ≡ (b, ok tt)
    → (valid p ≡ true)
      × (get_elem? a.allocated (index_of p) ≡ some true)
      × (b ≡ record { allocated = set a.allocated (index_of p) false })
unfolding release check_release
release-ok a ctx p h = ground arith

-- Two valid pairs with one index are one pair.
pub index_of-injective :
    (p q : PortPair) → valid p ≡ true → valid q ≡ true → index_of p ≡ index_of q → p ≡ q
index_of-injective p q vp vq e = cc ((pair_at-index_of p vp).1, (pair_at-index_of q vq).1)
