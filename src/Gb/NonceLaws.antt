-- ===== src/Gb/NonceLaws.antt =====
-- internal/gb/nonce.go: the sweep of `Consume` and the eviction of `Issue`, as laws on lookups and
-- sizes.
use iolink.Base.{
  sym, subst, ℕ, zero, suc, ◌≤◌, ◌<◌, ◌≡◌, refl, ◌⊎◌, inl, inr, ◌==◌, ==_iff, text_eq, false, ◌||◌,
  if◌then◌else◌, Text, is_empty, List, [], ◌∷◌, Option, none, some, length, lookup, delete, All,
  All-delete, Keyed, arith, Bool-cases, lookup-delete, length-delete-le, leb,
}
use iolink.Media.{Time, before}
use iolink.Gb.Nonces.{
  NonceStore, size, older, oldest_in, oldest, evict, make_room, live, sweep, max_memory_nonces,
}

module _ {ℓ} {V : Type ℓ} where
  unfoldable pub alive : (V → Time) → Time → Option V → Option V
  alive expiry now none = none
  alive expiry now (some v) = if before now (expiry v) then some v else none

  live-none :
      (expiry : V → Time) (now : Time) (k : Text) (m : List (Text × V))
      → lookup k m ≡ none
      → lookup k (live expiry now m) ≡ none
  unfolding live lookup
  live-none expiry now k [] h = refl
  live-none expiry now k ((j, v) ∷ m) h =
      ground (arith, live-none expiry now k m (ground arith), ==_iff j k)

  -- A sweep forgets exactly what has run out.
  pub lookup-live :
      (expiry : V → Time) (now : Time) (k : Text) (m : List (Text × V))
      → Keyed m
      → lookup k (live expiry now m) ≡ alive expiry now (lookup k m)
  unfolding live lookup alive
  lookup-live expiry now k [] h = refl
  lookup-live expiry now k ((j, v) ∷ m) h =
      ground (arith, lookup-live expiry now k m h.1, live-none expiry now j m h.0, ==_iff j k)

  pub live-Keyed :
      (expiry : V → Time) (now : Time) (m : List (Text × V)) → Keyed m → Keyed (live expiry now m)
  unfolding live
  live-Keyed expiry now [] h = tt
  live-Keyed expiry now ((j, v) ∷ m) h = elim (Bool-cases (before now (expiry v))) [
    | inl b ↦ rw b (live-none expiry now j m h.0, live-Keyed expiry now m h.1)
    | inr b ↦ rw b (live-Keyed expiry now m h.1)
  ]

  pub live-le :
      (expiry : V → Time) (now : Time) (m : List (Text × V)) → length (live expiry now m) ≤ length m
  unfolding live
  live-le expiry now [] = omega arith
  live-le expiry now ((j, v) ∷ m) = ground (arith, live-le expiry now m)

  pub live-All {μ} :
      (P : Text × V → Type μ) (expiry : V → Time) (now : Time) (m : List (Text × V))
      → All P m
      → All P (live expiry now m)
  unfolding live
  live-All P expiry now [] h = tt
  live-All P expiry now ((j, v) ∷ m) h = elim (Bool-cases (before now (expiry v))) [
    | inl b ↦ rw b (h.0, live-All P expiry now m h.1)
    | inr b ↦ rw b (live-All P expiry now m h.1)
  ]

  pub delete-Keyed : (k : Text) (m : List (Text × V)) → Keyed m → Keyed (delete k m)
  unfolding delete
  delete-Keyed k [] h = tt
  delete-Keyed k ((j, v) ∷ m) h = elim (Bool-cases (j == k)) [
    | inl b ↦ rw b (delete-Keyed k m h.1)
    | inr b ↦
        rw b (ground (arith, lookup-delete k j m, ==_iff k j, ==_iff j k), delete-Keyed k m h.1)
  ]

  pub length-delete-lt :
      (k : Text) (m : List (Text × V)) {v : V}
      → lookup k m ≡ some v
      → length (delete k m) < length m
  unfolding delete lookup
  length-delete-lt k [] h = cc
  length-delete-lt k ((j, w) ∷ m) {v} h = elim (Bool-cases (j == k)) [
    | inl b ↦ ground (arith, length-delete-le k m)
    | inr b ↦ ground (arith, length-delete-lt k m {v = v} (ground arith))
  ]

  abbrev pub Named : List (Text × V) → Type 0
  Named m = All (λ x. is_empty x.0 ≡ false) m

  abbrev Found : List (Text × V) → Text → Type ℓ
  Found m k = (v : V) × (lookup k m ≡ some v)

  -- What the search ends on is what it began with, or a key of the map.
  oldest_in-cases :
      (expiry : V → Time) (best : Text × Time) (m : List (Text × V))
      → (oldest_in expiry best m ≡ best) ⊎ Found m (oldest_in expiry best m).0
  unfolding oldest_in older lookup
  oldest_in-cases expiry best [] = inl refl
  oldest_in-cases expiry (o, x) ((k, v) ∷ m) =
      elim (oldest_in-cases expiry (older (o, x) (k, expiry v)) m) [
        | inl same ↦ elim (Bool-cases (is_empty o || before (expiry v) x)) [
          | inl b ↦ inr (v, ground (arith, same, b, ==_iff k k))
          | inr b ↦ inl (ground (arith, same, b))
        ]
        | inr (w, h) ↦
            elim (Bool-cases (k == (oldest_in expiry (older (o, x) (k, expiry v)) m).0)) [
              | inl b ↦ inr (v, ground (arith, b))
              | inr b ↦ inr (w, ground (arith, b, h))
            ]
      ]

  oldest_in-nonempty :
      (expiry : V → Time) (best : Text × Time) (m : List (Text × V))
      → Named m
      → is_empty best.0 ≡ false ⊎ (1 ≤ length m)
      → is_empty (oldest_in expiry best m).0 ≡ false
  unfolding oldest_in older
  oldest_in-nonempty expiry best [] n h = ground arith
  oldest_in-nonempty expiry best ((k, v) ∷ m) n h =
      oldest_in-nonempty expiry (older best (k, expiry v)) m n.1 (inl (ground (arith, n.0)))

pub record IsValid (s : NonceStore) : Type 0 where
  pub keyed_entries : Keyed s.entries
  pub keyed_used : Keyed s.used
  pub named_entries : Named s.entries
  pub named_used : Named s.used

evict-IsValid : (s : NonceStore) (k : Text) → IsValid s → IsValid (evict s k)
unfolding evict
evict-IsValid s k v = record {
  keyed_entries = delete-Keyed k s.entries v.keyed_entries;
  keyed_used = delete-Keyed k s.used v.keyed_used;
  named_entries = All-delete (λ x. is_empty x.0 ≡ false) k s.entries v.named_entries;
  named_used = All-delete (λ x. is_empty x.0 ≡ false) k s.used v.named_used;
}

pub sweep-IsValid : (s : NonceStore) (now : Time) → IsValid s → IsValid (sweep s now)
unfolding sweep
sweep-IsValid s now v = record {
  keyed_entries = live-Keyed (λ r. r.expires_at) now s.entries v.keyed_entries;
  keyed_used = live-Keyed (λ at. at) now s.used v.keyed_used;
  named_entries = live-All (λ x. is_empty x.0 ≡ false) _ now s.entries v.named_entries;
  named_used = live-All (λ x. is_empty x.0 ≡ false) _ now s.used v.named_used;
}

pub size-sweep : (s : NonceStore) (now : Time) → size (sweep s now) ≤ size s
unfolding sweep
size-sweep s now =
    ground (arith, live-le (λ r. r.expires_at) now s.entries, live-le (λ at. at) now s.used)

-- A store with anything in it has an oldest key, and evicting that key makes the store smaller.
oldest-nonempty : (s : NonceStore) → IsValid s → 1 ≤ size s → is_empty (oldest s) ≡ false
unfolding oldest
oldest-nonempty s v h =
    let first = oldest_in (λ r. r.expires_at) ([], 0) s.entries in
    elim (Bool-cases (leb 1 (length s.entries))) [
      | inl b ↦
          oldest_in-nonempty (λ at. at) first s.used v.named_used
            (inl (
              oldest_in-nonempty (λ r. r.expires_at) ([], 0) s.entries v.named_entries
                (inr (ground arith))))
      | inr b ↦ oldest_in-nonempty (λ at. at) first s.used v.named_used (inr (ground arith))
    ]

oldest-Found :
    (s : NonceStore)
    → is_empty (oldest s) ≡ false
    → Found s.entries (oldest s) ⊎ Found s.used (oldest s)
unfolding oldest
oldest-Found s n =
    let first = oldest_in (λ r. r.expires_at) ([], 0) s.entries in
    elim (oldest_in-cases (λ at. at) first s.used) [
      | inr found ↦ inr found
      | inl same ↦ elim (oldest_in-cases (λ r. r.expires_at) ([], 0) s.entries) [
        | inr (v, h) ↦ inl (v, subst (λ x. lookup x.0 s.entries ≡ some v) (sym same) h)
        | inl none_left ↦ absurd (ground (arith, same, none_left))
      ]
    ]

evict-lt : (s : NonceStore) → IsValid s → 1 ≤ size s → size (evict s (oldest s)) < size s
unfolding evict
evict-lt s v h = elim (oldest-Found s (oldest-nonempty s v h)) [
  | inl (r, f) ↦
      ground
        (arith, length-delete-lt (oldest s) s.entries {v = r} f, length-delete-le (oldest s) s.used)
  | inr (at, f) ↦
      ground (
        arith,
        length-delete-lt (oldest s) s.used {v = at} f,
        length-delete-le (oldest s) s.entries,
      )
]

-- With fuel above the store's size the loop of `Issue` makes room.
pub make_room-some :
    (fuel : ℕ) (s : NonceStore)
    → IsValid s
    → size s < fuel
    → (room : NonceStore) × (make_room fuel s ≡ some room)
      × IsValid room
      × (size room < max_memory_nonces)
unfolding make_room
make_room-some zero s v h = absurd (omega arith)
make_room-some (suc fuel) s v h = elim (Bool-cases (leb max_memory_nonces (size s))) [
  | inr b ↦ (s, ground arith, v, ground arith)
  | inl b ↦
      let smaller = evict-lt s v (ground arith) in
      let (room, q, w, lt) =
        make_room-some fuel (evict s (oldest s)) (evict-IsValid s (oldest s) v) (ground arith) in
      (room, ground (arith, oldest-nonempty s v (ground arith)), w, lt)
]
