-- ===== src/Access/Sandbox.antt =====
-- internal/access/auth.go: the topics that a device may use are its own.
use iolink.Base.{
  ◌∙◌, ◌≡◌, ◌↔◌, ◌⊎◌, inl, inr, refl, subst, ap, ==_iff, ==_refl, text_eq, text_beq, text_beq_iff,
  Bool, true, false, if◌then◌else◌, Text, text, is_empty, ◌++◌, List, [], ◌∷◌, contains_any, split,
  lacks, join-split, split-append, split-whole, Result, ok, err, arith,
}
use iolink.Access.Topics.{parse_parts, parse_uplink_topic, downlink_topic, names_device, check_acl}

-- A name that can stand as one level of a topic: not empty, no separator and no wildcard.
abbrev pub IsLevel : Text → Type 0
IsLevel name = (is_empty name ≡ false) × (contains_any name (text "/+#") ≡ false)

abbrev pub uplink_topic : Text → Text → Text
uplink_topic device_no kind = text "iolink/up/" ++ device_no ++ b'/' ∷ kind

level-lacks : (name : Text) → contains_any name (text "/+#") ≡ false → lacks b'/' name ≡ true
unfolding contains_any
level-lacks [] h = refl
level-lacks (c ∷ name) h = ground (arith, level-lacks name (ground arith))

level-plain :
    (name : Text) → contains_any name (text "/+#") ≡ false → contains_any name (text "+#") ≡ false
unfolding contains_any
level-plain [] h = refl
level-plain (c ∷ name) h = ground (arith, level-plain name (ground arith))

parse_parts-ok :
    (parts : List Text) {device_no kind : Text}
    → parse_parts parts ≡ ok (device_no, kind)
    → (parts ≡ text "iolink" ∷ text "up" ∷ device_no ∷ kind ∷ [])
      × ((kind ≡ text "properties") ⊎ (kind ≡ text "ack"))
unfolding parse_parts
parse_parts-ok [] h = cc
parse_parts-ok (a ∷ []) h = cc
parse_parts-ok (a ∷ b ∷ []) h = cc
parse_parts-ok (a ∷ b ∷ c ∷ []) h = cc
parse_parts-ok (a ∷ b ∷ c ∷ d ∷ e ∷ parts) h = cc
parse_parts-ok (a ∷ b ∷ c ∷ d ∷ []) {device_no} {kind} h = ground (
  arith,
  text_beq_iff a (text "iolink"),
  text_beq_iff b (text "up"),
  text_beq_iff d (text "properties"),
  text_beq_iff d (text "ack"),
)

-- A topic of the grammar is what its parts print.
parse-print :
    (topic : Text) {device_no kind : Text}
    → parse_uplink_topic topic ≡ ok (device_no, kind)
    → (topic ≡ uplink_topic device_no kind) × ((kind ≡ text "properties") ⊎ (kind ≡ text "ack"))
unfolding parse_uplink_topic
parse-print topic {device_no} {kind} h =
    let (parts, k) = parse_parts-ok (split b'/' topic) h in
    (subst (λ x. x ≡ uplink_topic device_no kind) (join-split b'/' topic) (rw parts refl), k)

kind-lacks :
    (kind : Text) → (kind ≡ text "properties") ⊎ (kind ≡ text "ack") → lacks b'/' kind ≡ true
kind-lacks kind (inl e) = rw e refl
kind-lacks kind (inr e) = rw e refl

parts-parse :
    (device_no kind : Text)
    → is_empty device_no ≡ false
    → contains_any device_no (text "+#") ≡ false
    → (kind ≡ text "properties") ⊎ (kind ≡ text "ack")
    → parse_parts (text "iolink" ∷ text "up" ∷ device_no ∷ kind ∷ []) ≡ ok (device_no, kind)
unfolding parse_parts text_beq
parts-parse device_no kind n l (inl e) = rw (e, n, l) refl
parts-parse device_no kind n l (inr e) = rw (e, n, l) refl

print-parse :
    (device_no kind : Text)
    → IsLevel device_no
    → (kind ≡ text "properties") ⊎ (kind ≡ text "ack")
    → parse_uplink_topic (uplink_topic device_no kind) ≡ ok (device_no, kind)
unfolding parse_uplink_topic
print-parse device_no kind (n, l) k =
    let inner : Text = device_no ++ b'/' ∷ kind in
    let parts : split b'/' (uplink_topic device_no kind)
        ≡ text "iolink" ∷ text "up" ∷ device_no ∷ kind ∷ [] =
      split-append b'/' (text "iolink") (text "up/" ++ inner) refl
      ∙ ap (λ t. text "iolink" ∷ t) (split-append b'/' (text "up") inner refl)
      ∙ ap (λ t. text "iolink" ∷ text "up" ∷ t)
          (split-append b'/' device_no kind (level-lacks device_no l))
      ∙ ap (λ t. text "iolink" ∷ text "up" ∷ device_no ∷ t)
          (split-whole b'/' kind (kind-lacks kind k)) in
    rw parts (parts-parse device_no kind n (level-plain device_no l) k)

names-ok :
    (device_no : Text) (r : Result (Text × Text))
    → names_device device_no r ≡ true
    → (kind : Text) × (r ≡ ok (device_no, kind))
unfolding names_device
names-ok device_no (ok (d, kind)) h = (kind, ground (arith, text_beq_iff d device_no))
names-ok device_no (err e) h = cc

check_acl-IsLevel :
    (device_no topic : Text) (write : Bool)
    → check_acl device_no topic write ≡ true
    → IsLevel device_no
unfolding check_acl
check_acl-IsLevel device_no topic write h = ground arith

print-print :
    (device_no topic : Text)
    → names_device device_no (parse_uplink_topic topic) ≡ true
    → (topic ≡ uplink_topic device_no (text "properties"))
      ⊎ (topic ≡ uplink_topic device_no (text "ack"))
print-print device_no topic h =
    let (kind, r) = names-ok device_no (parse_uplink_topic topic) h in
    let (printed, k) = parse-print topic r in
    elim k [
      | inl e ↦ inl (subst (λ x. topic ≡ uplink_topic device_no x) e printed)
      | inr e ↦ inr (subst (λ x. topic ≡ uplink_topic device_no x) e printed)
    ]

names-print :
    (device_no kind : Text)
    → IsLevel device_no
    → (kind ≡ text "properties") ⊎ (kind ≡ text "ack")
    → names_device device_no (parse_uplink_topic (uplink_topic device_no kind)) ≡ true
unfolding names_device
names-print device_no kind l k = rw (print-parse device_no kind l k) (==_refl device_no)

-- A device may publish exactly to the two topics that carry its own number, and subscribe to exactly
-- one, its own downlink; a number that could not be one level of a topic may do nothing.
pub check_acl_iff :
    (device_no topic : Text) (write : Bool)
    → (check_acl device_no topic write ≡ true) ↔ (
        IsLevel device_no
        × (if write
            then ((topic ≡ uplink_topic device_no (text "properties"))
                ⊎ (topic ≡ uplink_topic device_no (text "ack")))
            else (topic ≡ downlink_topic device_no)))
unfolding check_acl
check_acl_iff device_no topic true = (
  λ h.
      let l = check_acl-IsLevel device_no topic true h in
      (l, print-print device_no topic (rw (l.0, l.1) at h)),
  λ (l, k).
      rw (l.0, l.1)
        (elim k [
          | inl e ↦ rw e (names-print device_no (text "properties") l (inl refl))
          | inr e ↦ rw e (names-print device_no (text "ack") l (inr refl))
        ]),
)
check_acl_iff device_no topic false = (
  λ h.
      let l = check_acl-IsLevel device_no topic false h in
      (l, (==_iff topic (downlink_topic device_no)).0 (rw (l.0, l.1) at h)),
  λ (l, e). rw (l.0, l.1) ((==_iff topic (downlink_topic device_no)).1 e),
)
