-- ===== src/Rtp/Traces.antt =====
-- The allocator over any sequence of calls, by any number of callers.
use iolink.Base.{
  sym, ap, ℕ, zero, suc, ◌-◌, ◌≡◌, refl, ◌≢◌, ◌↔◌, ◌⊎◌, inl, inr, ◌==◌, nat_eq, if◌then◌else◌, Bool,
  true, false, ◌&&◌, Option, List, [], ◌∷◌, Result, ok, err, arith, Bool-cases, length-replicate,
  get_elem?, replicate,
}
use iolink.Rtp.Alloc.{
  PortPair, Allocator, Context, allocate, release, new_allocator, index_of, port_pair_count,
}
use iolink.Rtp.Laws.{IsSized, is_held, flag}
use iolink.Rtp.Held.{
  allocate-IsSized, release-IsSized, allocate-err, release-err, allocate-held, release-held,
}

abbrev pub pair_beq : PortPair → PortPair → Bool
pair_beq p q = p.rtp_port == q.rtp_port && p.rtcp_port == q.rtcp_port

pair_beq_iff : (p q : PortPair) → (pair_beq p q ≡ true) ↔ (p ≡ q)
pair_beq_iff p q = ground arith

pub data Call : Type 0 where
  allocates : Option Context → Call
  releases : Option Context → PortPair → Call

-- The allocator, with the pairs that callers were given and have not given back.
pub record World : Type 0 where
  pub allocator : Allocator
  pub granted : List PortPair

unfoldable pub give_back : PortPair → List PortPair → List PortPair
give_back p [] = []
give_back p (q ∷ qs) = if pair_beq q p then qs else q ∷ give_back p qs

unfoldable pub after_allocate : List PortPair → Allocator × Result PortPair → World
after_allocate granted (a, ok p) = record { allocator = a; granted = p ∷ granted }
after_allocate granted (a, err e) = record { allocator = a; granted = granted }

unfoldable pub after_release : List PortPair → PortPair → Allocator × Result (Unit {0}) → World
unfolding give_back
after_release granted p (a, ok _) = record { allocator = a; granted = give_back p granted }
after_release granted p (a, err e) = record { allocator = a; granted = granted }

unfoldable pub step : World → Call → World
unfolding after_allocate after_release
step w (allocates ctx) = after_allocate w.granted (allocate w.allocator ctx)
step w (releases ctx p) = after_release w.granted p (release w.allocator ctx p)

unfoldable pub run : World → List Call → World
unfolding step
run w [] = w
run w (c ∷ cs) = run (step w c) cs

unfoldable pub count_pair : PortPair → List PortPair → ℕ
count_pair p [] = 0
count_pair p (q ∷ qs) = if pair_beq q p then suc (count_pair p qs) else count_pair p qs

abbrev pub start : World
start = record { allocator = new_allocator; granted = [] }

abbrev held_number : Bool → ℕ
held_number true = 1
held_number false = 0

record Inv (w : World) : Type 0 where
  sized : IsSized w.allocator
  counted : (p : PortPair) → count_pair p w.granted ≡ held_number (is_held w.allocator p)

count-give_back_self :
    (p : PortPair) (qs : List PortPair) → count_pair p (give_back p qs) ≡ count_pair p qs - 1
unfolding count_pair give_back
count-give_back_self p [] = refl
count-give_back_self p (q ∷ qs) = ground (arith, count-give_back_self p qs)

count-give_back_ne :
    (p r : PortPair) (qs : List PortPair) → r ≢ p → count_pair r (give_back p qs) ≡ count_pair r qs
unfolding count_pair give_back
count-give_back_ne p r [] n = refl
count-give_back_ne p r (q ∷ qs) n =
    ground (arith, count-give_back_ne p r qs n, pair_beq_iff q p, pair_beq_iff q r)

same_or_not : (p q : PortPair) → (p ≡ q) ⊎ (p ≢ q)
same_or_not p q = elim (Bool-cases (pair_beq p q)) [
  | inl e ↦ inl ((pair_beq_iff p q).0 e)
  | inr e ↦ inr (λ x. ground (arith, (pair_beq_iff p q).1 x))
]

allocates-Inv :
    (w : World) (ctx : Option Context)
    → Inv w
    → (r : Allocator × Result PortPair) → allocate w.allocator ctx ≡ r
    → Inv (after_allocate w.granted r)
unfolding after_allocate count_pair
allocates-Inv w ctx v (b, err e) h = rw (allocate-err w.allocator ctx h) v
allocates-Inv w ctx v (b, ok p) h =
    let (valid_pair, free, held, others) = allocate-held w.allocator ctx v.sized h in
    record {
      sized = allocate-IsSized w.allocator ctx v.sized h;
      counted = λ q. elim (same_or_not p q) [
        | inl e ↦ ground (arith, v.counted q, pair_beq_iff p q)
        | inr n ↦ ground (arith, v.counted q, pair_beq_iff p q, others q (λ x. n (sym x)))
      ];
    }

releases-Inv :
    (w : World) (ctx : Option Context) (p : PortPair)
    → Inv w
    → (r : Allocator × Result (Unit {0})) → release w.allocator ctx p ≡ r
    → Inv (after_release w.granted p r)
unfolding after_release
releases-Inv w ctx p v (b, err e) h = rw (release-err w.allocator ctx p h) v
releases-Inv w ctx p v (b, ok u) h =
    let (held, free, others) = release-held w.allocator ctx p v.sized h in
    record {
      sized = release-IsSized w.allocator ctx p v.sized h;
      counted = λ q. elim (same_or_not q p) [
        | inl e ↦ ground (
          arith,
          v.counted q,
          count-give_back_self p w.granted,
          ap (λ t. count_pair t (give_back p w.granted)) e,
          ap (λ t. count_pair t w.granted) e,
          ap (λ t. is_held b t) e,
          ap (λ t. is_held w.allocator t) e,
        )
        | inr n ↦ rw (count-give_back_ne p q w.granted n, others q n) (v.counted q)
      ];
    }

step-Inv : (w : World) (c : Call) → Inv w → Inv (step w c)
unfolding step
step-Inv w (allocates ctx) v = allocates-Inv w ctx v (allocate w.allocator ctx) refl
step-Inv w (releases ctx p) v = releases-Inv w ctx p v (release w.allocator ctx p) refl

run-Inv : (w : World) (cs : List Call) → Inv w → Inv (run w cs)
unfolding run
run-Inv w [] v = v
run-Inv w (c ∷ cs) v = run-Inv (step w c) cs (step-Inv w c v)

flag-replicate : (n i : ℕ) → flag (get_elem? (replicate n false) i) ≡ false
unfolding flag
flag-replicate zero i = refl
flag-replicate (suc n) zero = refl
flag-replicate (suc n) (suc i) = flag-replicate n i

start-Inv : Inv start
unfolding new_allocator is_held count_pair
start-Inv = record {
  sized = record { sized = length-replicate port_pair_count false };
  counted = λ p. ground (arith, flag-replicate port_pair_count (index_of p));
}

-- After any sequence of calls on a new allocator, every pair is out with exactly one caller if the
-- allocator holds it, and with none otherwise: no pair is ever out with two callers.
pub granted-held :
    (cs : List Call) (p : PortPair)
    → count_pair p (run start cs).granted ≡ (if is_held (run start cs).allocator p then 1 else 0)
granted-held cs p = ground (arith, (run-Inv start cs start-Inv).counted p)
