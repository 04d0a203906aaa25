-- ===== src/Gb/NonceCalls.antt =====
-- internal/gb/nonce.go: what `Issue` and `Consume` do on a store with unique, nonempty keys.
use iolink.Base.{
  sym, subst, suc, ◌≤◌, ◌<◌, ◌≡◌, refl, inl, inr, text_eq, Bool, true, false, ◌||◌, ◌&&◌, not, Text,
  is_empty, Option, none, some, lookup, insert, All-delete, All-insert, insert-Keyed, arith,
  Bool-cases, Option-cases, length-insert-le, ok, err,
}
use iolink.Media.{Time, is_zero_time}
use iolink.Gb.Peers.{peer_valid}
use iolink.Gb.Nonces.{
  NonceRecord, NonceStore, size, make_room, live, sweep, use_up, consume_entry, consume_live,
  consume, issue, add_nonce, max_memory_nonces, invalid,
}
use iolink.Gb.NonceLaws.{
  alive, lookup-live, delete-Keyed, length-delete-lt, IsValid, sweep-IsValid, size-sweep,
  make_room-some,
}

-- What a call that gave a record did.
pub record Consumed (s s' : NonceStore) (nonce : Text) (now : Time) (r : NonceRecord) : Type 0 where
  pub issued : lookup nonce s.entries ≡ some r
  pub in_time : now < r.expires_at
  pub unused : lookup nonce (sweep s now).used ≡ none
  pub after : s' ≡ use_up (sweep s now) nonce r
  pub nonempty : is_empty nonce ≡ false
  pub dated : is_zero_time now ≡ false

swept :
    (s : NonceStore) (nonce : Text) (now : Time) (r : NonceRecord)
    → IsValid s
    → lookup nonce (sweep s now).entries ≡ some r
    → (lookup nonce s.entries ≡ some r) × (now < r.expires_at)
unfolding sweep
swept s nonce now r v h = elim (Option-cases (lookup nonce s.entries)) [
  | inr (t, q) ↦
      unfold alive in
      ground (arith, lookup-live (λ x. x.expires_at) now nonce s.entries v.keyed_entries)
  | inl q ↦
      unfold alive in
      absurd (ground (arith, lookup-live (λ x. x.expires_at) now nonce s.entries v.keyed_entries))
]

pub consume-Consumed :
    (s : NonceStore) (nonce : Text) (now : Time) {s' : NonceStore} {r : NonceRecord}
    → IsValid s
    → consume s nonce now ≡ (s', ok r)
    → Consumed s s' nonce now r
unfolding consume consume_live consume_entry
consume-Consumed s nonce now {s'} {r} v h = elim (Option-cases (lookup nonce (sweep s now).used)) [
  | inr (at, q) ↦ absurd (ground arith)
  | inl q ↦ elim (Option-cases (lookup nonce (sweep s now).entries)) [
    | inl p ↦ absurd (ground arith)
    | inr (t, p) ↦
        let same : t ≡ r = ground arith in
        let (here, live) = swept s nonce now r v (ground arith) in
        record {
          issued = here;
          in_time = live;
          unused = q;
          after = ground arith;
          nonempty = ground arith;
          dated = ground arith;
        }
  ]
]

use_up-IsValid :
    (s : NonceStore) (nonce : Text) (r : NonceRecord)
    → is_empty nonce ≡ false
    → IsValid s
    → IsValid (use_up s nonce r)
unfolding use_up
use_up-IsValid s nonce r n v = record {
  keyed_entries = delete-Keyed nonce s.entries v.keyed_entries;
  keyed_used = insert-Keyed nonce r.expires_at s.used v.keyed_used;
  named_entries = All-delete (λ x. is_empty x.0 ≡ false) nonce s.entries v.named_entries;
  named_used = All-insert (λ x. is_empty x.0 ≡ false) nonce r.expires_at s.used v.named_used n;
}

-- Using an entry up never makes a store larger.
size-use_up :
    (s : NonceStore) (nonce : Text) (r : NonceRecord) {t : NonceRecord}
    → lookup nonce s.entries ≡ some t
    → size (use_up s nonce r) ≤ size s
unfolding use_up
size-use_up s nonce r {t} h =
    ground (
      arith,
      length-delete-lt nonce s.entries {v = t} h,
      length-insert-le nonce r.expires_at s.used,
    )

-- What any call of `Consume` leaves: a valid store that is no larger.
pub record IsSmaller (s s' : NonceStore) : Type 0 where
  pub valid : IsValid s'
  pub smaller : size s' ≤ size s

pub consume-IsSmaller :
    (s : NonceStore) (nonce : Text) (now : Time) → IsValid s → IsSmaller s (consume s nonce now).0
unfolding consume consume_live consume_entry
consume-IsSmaller s nonce now v =
    let left = sweep s now in
    let w = sweep-IsValid s now v in
    elim (Bool-cases (is_empty nonce || is_zero_time now)) [
      | inl b ↦ rw b (record { valid = v; smaller = omega arith })
      | inr b ↦ elim (Option-cases (lookup nonce left.used)) [
        | inr (at, q) ↦ rw (b, q) (record { valid = w; smaller = size-sweep s now })
        | inl q ↦ elim (Option-cases (lookup nonce left.entries)) [
          | inl p ↦ rw (b, q, p) (record { valid = w; smaller = size-sweep s now })
          | inr (t, p) ↦
              rw (b, q, p)
                (record {
                  valid = use_up-IsValid left nonce t (ground arith) w;
                  smaller = ground (arith, size-use_up left nonce t p, size-sweep s now);
                })
        ]
      ]
    ]

-- A record that `Issue` takes.
abbrev pub fits : NonceRecord → Bool
fits r = peer_valid r.peer && not (is_zero_time r.expires_at)

-- What a call of `Issue` that gave a nonce did.
pub record Issued (s s' : NonceStore) (r : NonceRecord) (nonce : Text) : Type 0 where
  pub room : NonceStore
  pub made : make_room (suc (size s)) s ≡ some room
  pub room_valid : IsValid room
  pub room_left : size room < max_memory_nonces
  pub after : s' ≡ record room { entries = insert nonce r room.entries }

pub issue-Issued :
    (s : NonceStore) (r : NonceRecord) (nonce : Text)
    → IsValid s
    → fits r ≡ true
    → (s' : NonceStore) × (issue s r (some nonce) ≡ (s', ok nonce)) × Issued s s' r nonce
unfolding issue add_nonce
issue-Issued s r nonce v f =
    let (room, made, valid, left) = make_room-some (suc (size s)) s v (omega arith) in
    (
      record room { entries = insert nonce r room.entries },
      ground arith,
      record { room = room; made = made; room_valid = valid; room_left = left; after = refl },
    )

pub Issued-IsValid :
    {s s' : NonceStore} {r : NonceRecord} {nonce : Text}
    → is_empty nonce ≡ false
    → Issued s s' r nonce
    → IsValid s' × (size s' ≤ max_memory_nonces)
Issued-IsValid {s} {s'} {r} {nonce} n i =
    let room = i.room in
    subst (λ x. IsValid x × (size x ≤ max_memory_nonces)) (sym i.after)
      (
        record {
          keyed_entries = insert-Keyed nonce r room.entries i.room_valid.keyed_entries;
          keyed_used = i.room_valid.keyed_used;
          named_entries =
              All-insert (λ x. is_empty x.0 ≡ false) nonce r room.entries i.room_valid.named_entries
                n;
          named_used = i.room_valid.named_used;
        },
        ground (arith, length-insert-le nonce r room.entries, i.room_left),
      )

-- A call of `Issue` that its record fails leaves the store as it was.
pub issue-misfit :
    (s : NonceStore) (r : NonceRecord) (nonce : Option Text)
    → fits r ≡ false
    → issue s r nonce ≡ (s, err invalid)
unfolding issue
issue-misfit s r none f = refl
issue-misfit s r (some nonce) f = ground arith
