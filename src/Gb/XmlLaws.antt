-- ===== src/Gb/XmlLaws.antt =====
-- internal/gb/message_xml.go: what the parsing of a message accepts.
use iolink.Base.{
  ℕ, ◌+◌, ◌-◌, ◌*◌, ◌/◌, ◌≤◌, ◌≡◌, refl, sym, subst, ◌↔◌, ◌⊎◌, inl, inr, ◌==◌, ==_iff, nat_eq,
  text_eq, true, false, ◌||◌, if◌then◌else◌, ltb, le→ltb, lt→ltb, ltb→lt, Bool-cases, Text, text,
  is_empty, is_digit, value, value_from, value_from-le, [], ◌∷◌, all, length, none, some,
  Option-cases, ok, err, Result-cases, arith,
}
use iolink.Gb.Peers.{valid_device_id}
use iolink.Gb.Xml.{
  XmlMessage, WireMessage, XmlDecoder, max_xml_size, max_catalog_items, invalid_xml, valid_decimal,
  read_digits, parse_decimal, xml_bounds, is_keepalive, is_catalog, valid_head, valid_item,
  valid_counts, message_of, parse_catalog, parse_wire, parse_message_xml,
}

digit_bound : (c : ℕ) (s : Text) → all is_digit (c ∷ s) ≡ true → c - 48 ≤ 9
digit_bound c s h = ground arith

digits_tail : (c : ℕ) (s : Text) → all is_digit (c ∷ s) ≡ true → all is_digit s ≡ true
digits_tail c s h = ground arith

pub ltb-le : (a b : ℕ) → ltb a b ≡ false → b ≤ a
ltb-le a b h = ground arith

-- The loop gives the number unless it is above the limit: what is read first is no greater.
read_digits-eq :
    (n : ℕ) (s : Text)
    → n ≤ max_catalog_items
    → all is_digit s ≡ true
    → read_digits n s
      ≡ (if ltb max_catalog_items (value_from n s) then none else some (value_from n s))
unfolding read_digits
read_digits-eq n [] l h = rw (le→ltb max_catalog_items n l) refl
read_digits-eq n (c ∷ s) l h =
    let m = n * 10 + (c - 48) in
    elim (Bool-cases (ltb ((max_catalog_items - (c - 48)) / 10) n)) [
      | inl b ↦
          let big : ltb max_catalog_items (value_from m s) ≡ true =
            lt→ltb _ _ (omega (arith, value_from-le m s, ltb→lt _ _ b, digit_bound c s h)) in
          rw (b, big) refl
      | inr b ↦
          let fits : m ≤ max_catalog_items = omega (arith, ltb-le _ _ b, digit_bound c s h) in
          rw b (read_digits-eq m s fits (digits_tail c s h))
    ]

-- A number of a catalogue is read exactly when it is written in one to ten digits and is at most
-- 1000, whatever its leading zeros, and it is that number.
pub parse_decimal_iff :
    (s : Text) (v : ℕ)
    → (parse_decimal s ≡ some v) ↔ (
        (all is_digit s ≡ true)
        × (is_empty s ≡ false)
        × (length s ≤ 10)
        × (value s ≡ v)
        × (v ≤ max_catalog_items))
unfolding parse_decimal valid_decimal value
parse_decimal_iff s v = elim (Bool-cases (all is_digit s)) [
  | inr b ↦ (λ e. absurd (ground arith), λ q. absurd (ground arith))
  | inl b ↦
      let r = read_digits-eq 0 s (omega arith) b in (λ e. ground (arith, r), λ q. ground (arith, r))
]

-- What is known of a message that was parsed.
pub record IsMessage (m : XmlMessage) : Type 0 where
  pub device : valid_device_id m.device_id ≡ true
  pub serial : valid_decimal m.sn 64 ≡ true
  pub content :
      ((m.cmd_type ≡ text "Keepalive")
        × ((m.status ≡ text "OK") ⊎ (m.status ≡ text "ERROR"))
        × (m.items ≡ []))
      ⊎ ((m.cmd_type ≡ text "Catalog")
          × (m.sum_num ≤ max_catalog_items)
          × (length m.items ≤ m.sum_num)
          × (length m.items ≡ 0 → m.sum_num ≡ 0)
          × (all valid_item m.items ≡ true))

valid_head-parts :
    (wire : WireMessage) (expected_device : Text)
    → valid_head wire expected_device ≡ true
    → (valid_device_id wire.device_id ≡ true)
      × (valid_decimal wire.sn 64 ≡ true)
      × (is_keepalive wire.cmd_type || is_catalog wire.cmd_type ≡ true)
unfolding valid_head
valid_head-parts wire expected_device h = ground arith

parse_catalog-parts :
    (wire : WireMessage) {m : XmlMessage}
    → parse_catalog wire ≡ ok m
    → (m ≡ message_of wire m.sum_num wire.items)
      × (m.sum_num ≤ max_catalog_items)
      × (length wire.items ≤ m.sum_num)
      × (length wire.items ≡ 0 → m.sum_num ≡ 0)
      × (all valid_item wire.items ≡ true)
unfolding parse_catalog valid_counts
parse_catalog-parts wire h = elim (Option-cases (parse_decimal wire.sum_num)) [
  | inl e ↦ absurd (ground arith)
  | inr (sum, e) ↦ elim (Option-cases (parse_decimal wire.list_num)) [
    | inl f ↦ absurd (ground arith)
    | inr (list_num, f) ↦ ground arith
  ]
]

keepalive-IsMessage :
    (wire : WireMessage) {m : XmlMessage}
    → valid_device_id wire.device_id ≡ true
    → valid_decimal wire.sn 64 ≡ true
    → is_keepalive wire.cmd_type ≡ true
    → (if wire.status == text "OK" || wire.status == text "ERROR"
        then ok (message_of wire 0 [])
        else err invalid_xml)
      ≡ ok m
    → IsMessage m
keepalive-IsMessage wire {m} device serial kind h =
    let same : message_of wire 0 [] ≡ m = ground arith in
    subst IsMessage same (record {
      device = device;
      serial = serial;
      content = inl (
        (==_iff wire.cmd_type (text "Keepalive")).0 kind,
        ground (arith, ==_iff wire.status (text "OK"), ==_iff wire.status (text "ERROR")),
        refl,
      );
    })

parse_wire-IsMessage :
    (wire : WireMessage) (expected_device : Text) {m : XmlMessage}
    → parse_wire wire expected_device ≡ ok m
    → IsMessage m
unfolding parse_wire
parse_wire-IsMessage wire expected_device {m} h =
    elim (Bool-cases (valid_head wire expected_device)) [
      | inr b ↦ absurd (ground arith)
      | inl b ↦
          let (device, serial, kind) = valid_head-parts wire expected_device b in
          elim (Bool-cases (is_catalog wire.cmd_type)) [
            | inl c ↦
                let (same, most, listed, some_item, valid) =
                  parse_catalog-parts wire {m = m} (ground arith) in
                subst IsMessage (sym same) (record {
                  device = device;
                  serial = serial;
                  content =
                      inr (
                        (==_iff wire.cmd_type (text "Catalog")).0 c,
                        most,
                        listed,
                        some_item,
                        valid,
                      );
                })
            | inr c ↦ keepalive-IsMessage wire device serial (ground arith) (ground arith)
          ]
    ]

-- What is parsed is no larger than the limit, passes the scan of its tokens and is a message.
pub parse_message_xml-IsMessage :
    (x : XmlDecoder) (raw expected_device : Text) {m : XmlMessage}
    → parse_message_xml x raw expected_device ≡ ok m
    → (length raw ≤ max_xml_size) × (xml_bounds x raw ≡ ok tt) × IsMessage m
unfolding parse_message_xml
parse_message_xml-IsMessage x raw expected_device h =
    elim (Bool-cases (ltb max_xml_size (length raw))) [
      | inl b ↦ absurd (ground arith)
      | inr b ↦ elim (Bool-cases (is_empty raw)) [
        | inl e ↦ absurd (ground arith)
        | inr e ↦ elim (Result-cases (xml_bounds x raw)) [
          | inr (f, g) ↦ absurd (ground arith)
          | inl (u, g) ↦ elim (Option-cases (x.decode raw)) [
            | inl n ↦ absurd (ground arith)
            | inr (wire, n) ↦
                (ltb-le _ _ b, g, parse_wire-IsMessage wire expected_device (ground arith))
          ]
        ]
      ]
    ]
