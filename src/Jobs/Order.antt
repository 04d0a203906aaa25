-- ===== src/Jobs/Order.antt =====
-- The scan of `ClaimJob`: the order of the jobs, the sort, and the first eligible job.
use iolink.Base.{
  subst, ◌≡◌, refl, inl, inr, nat_eq, true, false, Text, List, [], ◌∷◌, none, some, All, arith,
  Bool-cases, text_ltb_asymm, text_ltb_trans,
}
use iolink.Media.{Time}
use iolink.Jobs.Store.{
  Entry, Store, sorts_before, insert_sorted, sort_jobs, first_eligible, is_eligible,
}

pub sorts_before_asymm : (x y : Text × Entry) → sorts_before x y ≡ true → sorts_before y x ≡ false
unfolding sorts_before
sorts_before_asymm (i, a) (j, b) h = ground (arith, text_ltb_asymm i j)

pub sorts_before_trans :
    (x y z : Text × Entry)
    → sorts_before z y ≡ false
    → sorts_before y x ≡ false
    → sorts_before z x ≡ false
unfolding sorts_before
sorts_before_trans (i, a) (j, b) (k, c) p q = ground (arith, text_ltb_trans i j k)

-- Nothing in the list sorts before `x`.
abbrev pub First : Text × Entry → List (Text × Entry) → Type 0
First x ys = All (λ y. sorts_before y x ≡ false) ys

abbrev pub Sorted : List (Text × Entry) → Type 0
Sorted [] = Unit
Sorted (x ∷ xs) = First x xs × Sorted xs

All-insert_sorted {ℓ} :
    (P : Text × Entry → Type ℓ) (x : Text × Entry) (ys : List (Text × Entry))
    → P x
    → All P ys
    → All P (insert_sorted x ys)
unfolding insert_sorted
All-insert_sorted P x [] p h = (p, tt)
All-insert_sorted P x (y ∷ ys) p h = elim (Bool-cases (sorts_before y x)) [
  | inl e ↦ rw e (h.0, All-insert_sorted P x ys p h.1)
  | inr e ↦ rw e (p, h)
]

All-of_insert_sorted {ℓ} :
    (P : Text × Entry → Type ℓ) (x : Text × Entry) (ys : List (Text × Entry))
    → All P (insert_sorted x ys)
    → P x × All P ys
unfolding insert_sorted
All-of_insert_sorted P x [] h = (h.0, tt)
All-of_insert_sorted P x (y ∷ ys) h = elim (Bool-cases (sorts_before y x)) [
  | inl e ↦
      let q : P y × All P (insert_sorted x ys) = rw e at h in
      let (p, r) = All-of_insert_sorted P x ys q.1 in (p, (q.0, r))
  | inr e ↦ let q : P x × All P (y ∷ ys) = rw e at h in q
]

pub All-sort_jobs {ℓ} :
    (P : Text × Entry → Type ℓ) (xs : List (Text × Entry)) → All P xs → All P (sort_jobs xs)
unfolding sort_jobs
All-sort_jobs P [] h = tt
All-sort_jobs P (x ∷ xs) h = All-insert_sorted P x (sort_jobs xs) h.0 (All-sort_jobs P xs h.1)

pub All-of_sort_jobs {ℓ} :
    (P : Text × Entry → Type ℓ) (xs : List (Text × Entry)) → All P (sort_jobs xs) → All P xs
unfolding sort_jobs
All-of_sort_jobs P [] h = tt
All-of_sort_jobs P (x ∷ xs) h =
    let (p, r) = All-of_insert_sorted P x (sort_jobs xs) h in (p, All-of_sort_jobs P xs r)

First-trans :
    (x y : Text × Entry) (zs : List (Text × Entry))
    → First y zs
    → sorts_before y x ≡ false
    → First x zs
First-trans x y [] h e = tt
First-trans x y (z ∷ zs) h e = (sorts_before_trans x y z h.0 e, First-trans x y zs h.1 e)

insert_sorted-Sorted :
    (x : Text × Entry) (ys : List (Text × Entry)) → Sorted ys → Sorted (insert_sorted x ys)
unfolding insert_sorted
insert_sorted-Sorted x [] h = (tt, tt)
insert_sorted-Sorted x (y ∷ ys) h = elim (Bool-cases (sorts_before y x)) [
  | inl e ↦ rw e (
    All-insert_sorted (λ z. sorts_before z y ≡ false) x ys (sorts_before_asymm y x e) h.0,
    insert_sorted-Sorted x ys h.1,
  )
  | inr e ↦ rw e ((e, First-trans x y ys h.0 e), h)
]

sort_jobs-Sorted : (xs : List (Text × Entry)) → Sorted (sort_jobs xs)
unfolding sort_jobs
sort_jobs-Sorted [] = tt
sort_jobs-Sorted (x ∷ xs) = insert_sorted-Sorted x (sort_jobs xs) (sort_jobs-Sorted xs)

-- No eligible job of the list sorts before `x`.
abbrev pub FirstEligible : Time → Text × Entry → List (Text × Entry) → Type 0
FirstEligible now x ys = All (λ y. is_eligible now y.1 ≡ true → sorts_before y x ≡ false) ys

-- None is eligible.
abbrev pub NoneEligible : Time → List (Text × Entry) → Type 0
NoneEligible now ys = All (λ y. is_eligible now y.1 ≡ false) ys

First-FirstEligible :
    (now : Time) (x : Text × Entry) (ys : List (Text × Entry)) → First x ys → FirstEligible now x ys
First-FirstEligible now x [] h = tt
First-FirstEligible now x (y ∷ ys) h = (λ _. h.0, First-FirstEligible now x ys h.1)

sorts_before_irrefl : (x : Text × Entry) → sorts_before x x ≡ false
sorts_before_irrefl x = elim (Bool-cases (sorts_before x x)) [
  | inl e ↦ sorts_before_asymm x x e
  | inr e ↦ e
]

first_eligible-First {ℓ} :
    (P : Text × Entry → Type ℓ) (now : Time) (ys : List (Text × Entry)) (x : Text × Entry)
    → Sorted ys
    → All P ys
    → first_eligible now ys ≡ some x
    → P x × (is_eligible now x.1 ≡ true) × FirstEligible now x ys
unfolding first_eligible
first_eligible-First P now [] x s a h = cc
first_eligible-First P now (y ∷ ys) x s a h = elim (Bool-cases (is_eligible now y.1)) [
  | inl e ↦
      let q : y ≡ x = ground arith in
      subst (λ z. P z × (is_eligible now z.1 ≡ true) × FirstEligible now z (y ∷ ys)) q
        (a.0, e, ((λ _. sorts_before_irrefl y), First-FirstEligible now y ys s.0))
  | inr e ↦
      let (p, t, r) = first_eligible-First P now ys x s.1 a.1 (ground arith) in
      (p, t, ((λ f. cc), r))
]

first_eligible-none :
    (now : Time) (ys : List (Text × Entry)) → first_eligible now ys ≡ none → NoneEligible now ys
unfolding first_eligible
first_eligible-none now [] h = tt
first_eligible-none now (y ∷ ys) h = elim (Bool-cases (is_eligible now y.1)) [
  | inl e ↦ absurd (ground arith)
  | inr e ↦ (e, first_eligible-none now ys (ground arith))
]

-- What the scan finds: an eligible job that no eligible job of the store sorts before, or nothing
-- if none is eligible.
pub scan-some {ℓ} :
    (P : Text × Entry → Type ℓ) (now : Time) (s : Store) (x : Text × Entry)
    → All P s
    → first_eligible now (sort_jobs s) ≡ some x
    → P x × (is_eligible now x.1 ≡ true) × FirstEligible now x s
scan-some P now s x a h =
    let (p, e, f) =
      first_eligible-First P now (sort_jobs s) x (sort_jobs-Sorted s) (All-sort_jobs P s a) h in
    (p, e, All-of_sort_jobs _ s f)

pub scan-none :
    (now : Time) (s : Store) → first_eligible now (sort_jobs s) ≡ none → NoneEligible now s
scan-none now s h = All-of_sort_jobs _ s (first_eligible-none now (sort_jobs s) h)

NoneEligible-first :
    (now : Time) (ys : List (Text × Entry)) → NoneEligible now ys → first_eligible now ys ≡ none
unfolding first_eligible
NoneEligible-first now [] h = refl
NoneEligible-first now (y ∷ ys) h = rw (h.0) (NoneEligible-first now ys h.1)

pub scan-of_none :
    (now : Time) (s : Store) → NoneEligible now s → first_eligible now (sort_jobs s) ≡ none
scan-of_none now s h = NoneEligible-first now (sort_jobs s) (All-sort_jobs _ s h)
