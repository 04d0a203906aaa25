-- ===== src/Gb/NonceLife.antt =====
-- internal/gb/nonce.go: a nonce from `Issue` to its second `Consume`, and what each call does to the
-- issued nonces.
use iolink.Base.{
  sym, ap, subst, ℕ, zero, suc, ◌≤◌, ◌≡◌, inl, inr, ==_iff, text_eq, true, false, ◌||◌,
  if◌then◌else◌, Text, is_empty, List, none, some, lookup, arith, Bool-cases, Option-cases,
  lookup-delete, lookup-insert_self, leb, plain, gb, nonce_replay, Result, ok, err,
}
use iolink.Media.{Time, before, is_zero_time}
use iolink.Gb.Nonces.{
  NonceRecord, NonceStore, size, make_room, sweep, evict, oldest, use_up, consume_entry,
  consume_live, consume, issue, max_memory_nonces, invalid,
}
use iolink.Gb.NonceLaws.{alive, lookup-live, IsValid}
use iolink.Gb.NonceCalls.{consume-Consumed, consume-IsSmaller, fits, issue-Issued, Issued-IsValid}

-- Eviction brings no key back.
make_room-unused :
    (k : Text) (fuel : ℕ) (s : NonceStore) {room : NonceStore}
    → lookup k s.used ≡ none
    → make_room fuel s ≡ some room
    → lookup k room.used ≡ none
unfolding make_room evict
make_room-unused k zero s u h = cc
make_room-unused k (suc fuel) s {room} u h = elim (Bool-cases (leb max_memory_nonces (size s))) [
  | inr b ↦ let same : s ≡ room = ground arith in ground (arith, same)
  | inl b ↦
      make_room-unused k fuel (evict s (oldest s)) {room = room}
        (ground (arith, lookup-delete (oldest s) k s.used)) (ground (arith, b))
]

abbrev pub held : Text → List (Text × NonceRecord) → ℕ
held k m = elim (lookup k m) [ none ↦ 0 | some r ↦ 1 ]

pub make_room-held :
    (k : Text) (fuel : ℕ) (s : NonceStore) {room : NonceStore}
    → make_room fuel s ≡ some room
    → held k room.entries ≤ held k s.entries
unfolding make_room evict
make_room-held k zero s h = cc
make_room-held k (suc fuel) s {room} h = elim (Bool-cases (leb max_memory_nonces (size s))) [
  | inr b ↦ let same : s ≡ room = ground arith in ground (arith, same)
  | inl b ↦
      let less = make_room-held k fuel (evict s (oldest s)) {room = room} (ground (arith, b)) in
      ground (arith, less, lookup-delete (oldest s) k s.entries)
]

live-held :
    (k : Text) (now : Time) (s : NonceStore)
    → IsValid s
    → held k (sweep s now).entries ≤ held k s.entries
unfolding sweep alive
live-held k now s v =
    ground (arith, lookup-live (λ r. r.expires_at) now k s.entries v.keyed_entries)

consume-held :
    (k : Text) (s : NonceStore) (nonce : Text) (now : Time)
    → IsValid s
    → held k (consume s nonce now).0.entries ≤ held k s.entries
unfolding consume consume_live consume_entry use_up
consume-held k s nonce now v =
    let left = live-held k now s v in
    elim (Bool-cases (is_empty nonce || is_zero_time now)) [
      | inl b ↦ rw b (omega arith)
      | inr b ↦ elim (Option-cases (lookup nonce (sweep s now).used)) [
        | inr (at, q) ↦ rw (b, q) left
        | inl q ↦ elim (Option-cases (lookup nonce (sweep s now).entries)) [
          | inl p ↦ rw (b, q, p) left
          | inr (t, p) ↦
              rw (b, q, p) (ground (arith, left, lookup-delete nonce k (sweep s now).entries))
        ]
      ]
    ]

-- A nonce that was issued for a fitting record, and that is not remembered as used, is accepted
-- until the record runs out, and gives that record.
pub consume-issue :
    (s : NonceStore) (r : NonceRecord) (nonce : Text) (now : Time)
    → IsValid s
    → fits r ≡ true
    → is_empty nonce ≡ false
    → lookup nonce s.used ≡ none
    → is_zero_time now ≡ false
    → before now r.expires_at ≡ true
    → (consume (issue s r (some nonce)).0 nonce now).1 ≡ ok r
unfolding consume consume_live consume_entry sweep alive
consume-issue s r nonce now v f n u z b =
    let (s', q, i) = issue-Issued s r nonce v f in
    let (w, small) = Issued-IsValid n i in
    let room = i.room in
    let here : lookup nonce s'.entries ≡ some r =
      subst (λ x. lookup nonce x.entries ≡ some r) (sym i.after)
        (lookup-insert_self nonce r room.entries) in
    let unused : lookup nonce s'.used ≡ none =
      subst (λ x. lookup nonce x.used ≡ none) (sym i.after)
        (make_room-unused nonce (suc (size s)) s u i.made) in
    ground (
      arith,
      q,
      lookup-live (λ x. x.expires_at) now nonce s'.entries w.keyed_entries,
      lookup-live (λ at. at) now nonce s'.used w.keyed_used,
      here,
      unused,
    )

pub consumed-IsValid :
    (s : NonceStore) (nonce : Text) (now : Time) {s' : NonceStore} {r : Result NonceRecord}
    → IsValid s
    → consume s nonce now ≡ (s', r)
    → IsValid s'
consumed-IsValid s nonce now v h =
    subst IsValid (ap (λ x. x.0) h) (consume-IsSmaller s nonce now v).valid

pub consumed-le :
    (s : NonceStore) (nonce : Text) (now : Time) {s' : NonceStore} {r : Result NonceRecord}
    → IsValid s
    → consume s nonce now ≡ (s', r)
    → size s' ≤ size s
consumed-le s nonce now v h =
    subst (λ x. size x ≤ size s) (ap (λ x. x.0) h) (consume-IsSmaller s nonce now v).smaller

pub consumed-held :
    (k : Text) (s : NonceStore) (nonce : Text) (now : Time) {s' : NonceStore}
    {r : Result NonceRecord}
    → IsValid s
    → consume s nonce now ≡ (s', r)
    → held k s'.entries ≤ held k s.entries
consumed-held k s nonce now v h =
    subst (λ x. held k x.entries ≤ held k s.entries) (ap (λ x. x.0) h)
      (consume-held k s nonce now v)

-- A nonce that was accepted and is asked for again at once is a replay until the record runs out, and
-- an unknown nonce from then on.
pub consume-once :
    (s : NonceStore) (nonce : Text) (now later : Time) {s' : NonceStore} {r : NonceRecord}
    → IsValid s
    → consume s nonce now ≡ (s', ok r)
    → is_zero_time later ≡ false
    → (consume s' nonce later).1
      ≡ err (if before later r.expires_at then plain (gb nonce_replay) else invalid)
unfolding consume consume_live consume_entry use_up sweep alive
consume-once s nonce now later {s'} {r} v h z =
    let c = consume-Consumed s nonce now v h in
    let w : IsValid s' = consumed-IsValid s nonce now v h in
    let left = sweep s now in
    let remembered : lookup nonce s'.used ≡ some r.expires_at =
      subst (λ x. lookup nonce x.used ≡ some r.expires_at) (sym c.after)
        (lookup-insert_self nonce r.expires_at left.used) in
    let gone : lookup nonce s'.entries ≡ none =
      subst (λ x. lookup nonce x.entries ≡ none) (sym c.after)
        (ground (arith, lookup-delete nonce nonce left.entries, ==_iff nonce nonce)) in
    ground (
      arith,
      lookup-live (λ x. x.expires_at) later nonce s'.entries w.keyed_entries,
      lookup-live (λ at. at) later nonce s'.used w.keyed_used,
      remembered,
      gone,
      c.nonempty,
    )
