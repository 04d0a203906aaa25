-- ===== src/Base/Map.antt =====
-- Go maps as association lists. The list's order stands for the order in which `range` visits the
-- keys; an insertion under a key that is present keeps its place.
use Prim.Native.Nat.{◌+◌, ◌≤◌}
use mathlib.Core.Path.{◌≡◌, refl, subst}
use mathlib.Core.Logic.{◌≢◌, inl, inr}
use mathlib.Core.Option.{Option, none, some}
use mathlib.Core.List.{List, [], ◌∷◌}
use native.Mathlib.Omega.{arith}
use iolink.Base.Tests.{Comparable, ◌==◌, ==_iff, Bool-cases, if◌then◌else◌}
use iolink.Base.Lists.{length, All}

module _ {ℓ κ} {K : Type ℓ} {V : Type κ} ⦃e : Comparable K⦄ where
  unfoldable pub lookup : K → List (K × V) → Option V
  lookup key [] = none
  lookup key ((at, value) ∷ rest) = if at == key then some value else lookup key rest

  unfoldable pub insert : K → V → List (K × V) → List (K × V)
  insert key new [] = (key, new) ∷ []
  insert key new ((at, value) ∷ rest) =
      let later = insert key new rest in
      if at == key then (key, new) ∷ rest else (at, value) ∷ later

  unfoldable pub delete : K → List (K × V) → List (K × V)
  delete k [] = []
  delete k ((j, w) ∷ m) = let rest = delete k m in if j == k then rest else (j, w) ∷ rest

  -- A key reads what was last inserted under it, and the old map elsewhere.
  pub lookup-insert :
      (key other : K) (new : V) (m : List (K × V))
      → lookup other (insert key new m) ≡ (if key == other then some new else lookup other m)
  unfolding insert lookup
  lookup-insert key other new [] = ground arith
  lookup-insert key other new ((at, value) ∷ rest) =
      ground
        (arith, lookup-insert key other new rest, ==_iff at other, ==_iff key other, ==_iff at key)

  pub lookup-insert_self : (k : K) (v : V) (m : List (K × V)) → lookup k (insert k v m) ≡ some v
  lookup-insert_self k v m = ground (arith, lookup-insert k k v m, ==_iff k k)

  pub lookup-insert_ne :
      (k j : K) (v : V) (m : List (K × V)) → j ≢ k → lookup j (insert k v m) ≡ lookup j m
  lookup-insert_ne k j v m n = ground (arith, lookup-insert k j v m, ==_iff k j)

  pub lookup-delete :
      (k j : K) (m : List (K × V)) → lookup j (delete k m) ≡ (if k == j then none else lookup j m)
  unfolding lookup delete
  lookup-delete k j [] = ground arith
  lookup-delete k j ((i, w) ∷ m) =
      ground (arith, ==_iff k j, ==_iff i k, ==_iff i j, lookup-delete k j m)

  pub length-delete-le : (k : K) (m : List (K × V)) → length (delete k m) ≤ length m
  unfolding delete
  length-delete-le k [] = omega arith
  length-delete-le k ((j, w) ∷ m) = ground (arith, length-delete-le k m)

  pub length-insert-le : (k : K) (v : V) (m : List (K × V)) → length (insert k v m) ≤ length m + 1
  unfolding insert
  length-insert-le k v [] = omega arith
  length-insert-le k v ((j, w) ∷ m) = ground (arith, length-insert-le k v m)

  -- A predicate of every entry reaches what `lookup` finds, and is kept by an insertion.
  pub All-lookup {μ} :
      (P : K × V → Type μ) (k : K) (m : List (K × V)) {v : V}
      → All P m
      → lookup k m ≡ some v
      → P (k, v)
  unfolding lookup
  All-lookup P k [] h q = cc
  All-lookup P k ((j, w) ∷ m) {v} h q = elim (Bool-cases (j == k)) [
    | inl hit ↦ let same : (j, w) ≡ (k, v) = ground (arith, ==_iff j k) in subst P same h.0
    | inr miss ↦ All-lookup P k m h.1 (ground arith)
  ]

  pub All-insert {μ} :
      (P : K × V → Type μ) (k : K) (v : V) (m : List (K × V))
      → All P m
      → P (k, v)
      → All P (insert k v m)
  unfolding insert
  All-insert P k v [] h p = (p, tt)
  All-insert P k v ((j, w) ∷ m) h p = elim (Bool-cases (j == k)) [
    | inl hit ↦ rw hit (p, h.1)
    | inr miss ↦ rw miss (h.0, All-insert P k v m h.1 p)
  ]

  pub All-delete {μ} :
      (P : K × V → Type μ) (k : K) (m : List (K × V)) → All P m → All P (delete k m)
  unfolding delete
  All-delete P k [] h = tt
  All-delete P k ((j, w) ∷ m) h = elim (Bool-cases (j == k)) [
    | inl hit ↦ rw hit (All-delete P k m h.1)
    | inr miss ↦ rw miss (h.0, All-delete P k m h.1)
  ]

  -- No key stands twice.
  abbrev pub Keyed : List (K × V) → Type κ
  Keyed [] = Unit
  Keyed ((k, v) ∷ m) = (lookup k m ≡ none) × Keyed m

  pub insert-Keyed : (k : K) (v : V) (m : List (K × V)) → Keyed m → Keyed (insert k v m)
  unfolding insert
  insert-Keyed k v [] h = (unfold lookup in refl, tt)
  insert-Keyed k v ((j, w) ∷ m) h = elim (Bool-cases (j == k)) [
    | inl hit ↦ rw hit (rw (← (==_iff j k).0 hit) h.0, h.1)
    | inr miss ↦
        rw miss
          (ground (arith, lookup-insert k j v m, ==_iff k j, ==_iff j k), insert-Keyed k v m h.1)
  ]

  lookup-tail :
      (j : K) (w : V) (m n : List (K × V))
      → lookup j m ≡ none
      → All (λ x. lookup x.0 m ≡ some x.1) n
      → All (λ x. lookup x.0 ((j, w) ∷ m) ≡ some x.1) n
  unfolding lookup
  lookup-tail j w m [] h q = tt
  lookup-tail j w m ((k, v) ∷ n) h q =
      (ground (arith, q.0, ==_iff j k, h), lookup-tail j w m n h q.1)

  -- In such a list `lookup` finds every entry.
  pub Keyed-lookup : (m : List (K × V)) → Keyed m → All (λ x. lookup x.0 m ≡ some x.1) m
  Keyed-lookup [] h = tt
  Keyed-lookup ((j, w) ∷ m) h =
      (unfold lookup in ground (arith, ==_iff j j), lookup-tail j w m m h.0 (Keyed-lookup m h.1))
