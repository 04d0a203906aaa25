-- ===== src/Gb/Xml.antt =====
-- internal/gb/message_xml.go. The tokens and the decoding of XML are those of encoding/xml, and a
-- parameter; a wire item and a catalogue item have the same fields.
use iolink.Base.{
  ℕ, zero, suc, ◌+◌, ◌-◌, ◌*◌, ◌/◌, ◌==◌, nat_eq, text_eq, Bool, ◌&&◌, ◌||◌, not, if◌then◌else◌,
  ltb, leb, Text, text, is_empty, is_digit, List, [], ◌∷◌, all, length, Option, none, some,
  contains, trim_space, GoError, plain, gb, xml_invalid, xml_too_large, xml_depth, Result, ok, err,
  ◌>>◌, ◌>>=◌, guard,
}
use iolink.Gb.Peers.{valid_device_id, valid_text}

abbrev pub max_xml_size : ℕ
max_xml_size = 64 * 1024

abbrev pub max_xml_depth : ℕ
max_xml_depth = 16

abbrev pub max_catalog_items : ℕ
max_catalog_items = 1000

pub record CatalogItem : Type 0 where
  pub device_id : Text
  pub name : Text
  pub status : Text
  pub manufacturer : Text
  pub model : Text
  pub owner : Text
  pub civil_code : Text
  pub address : Text

pub record XmlMessage : Type 0 where
  pub cmd_type : Text
  pub sn : Text
  pub device_id : Text
  pub status : Text
  pub sum_num : ℕ
  pub items : List CatalogItem

pub record WireMessage : Type 0 where
  pub local_name : Text
  pub cmd_type : Text
  pub sn : Text
  pub device_id : Text
  pub status : Text
  pub sum_num : Text
  pub list_num : Text
  pub items : List CatalogItem

pub data Token : Type 0 where
  start_element end_element directive other_token : Token
  char_data : Text → Token

-- A decoder's tokens, and whether they end with the input rather than an error.
pub record XmlDecoder : Type 0 where
  pub tokens : Text → List Token × Bool
  pub decode : Text → Option WireMessage

abbrev pub invalid_xml : GoError
invalid_xml = plain (gb xml_invalid)

unfoldable pub valid_decimal : Text → ℕ → Bool
valid_decimal s max = not (is_empty s) && leb (length s) max && all is_digit s

-- The loop of `parseDecimal`.
unfoldable pub read_digits : ℕ → Text → Option ℕ
read_digits value [] = some value
read_digits value (c ∷ s) =
    let next = read_digits (value * 10 + (c - 48)) s in
    if ltb ((max_catalog_items - (c - 48)) / 10) value then none else next

unfoldable pub parse_decimal : Text → Option ℕ
unfolding valid_decimal read_digits
parse_decimal s = if valid_decimal s 10 then read_digits 0 s else none

-- `strings.ToUpper`, as far as the markers tell: the ASCII letters, and U+0131, whose upper case is
-- an ASCII letter of a marker.
unfoldable pub to_upper : Text → Text
to_upper [] = []
to_upper (a ∷ []) = (if leb 97 a && leb a 122 then a - 32 else a) ∷ []
to_upper (a ∷ b ∷ s) =
    let one = to_upper (b ∷ s) in
    let two = to_upper s in
    if a == 0xc4 && b == 0xb1
    then b'I' ∷ two
    else (if leb 97 a && leb a 122 then a - 32 else a) ∷ one

unfoldable pub has_marker : Text → Bool
unfolding to_upper
has_marker raw =
    let upper = to_upper raw in
    contains upper (text "<!DOCTYPE")
    || contains upper (text "<!ENTITY")
    || contains upper (text "<![")

-- The loop of `xmlBounds`: the depth, the bytes of text and the roots so far.
unfoldable pub scan : ℕ → ℕ → ℕ → List Token → Bool → Result (Unit {0})
scan depth text_bytes roots [] at_end = guard (at_end && depth == 0 && roots == 1) invalid_xml
scan depth text_bytes roots (start_element ∷ rest) at_end =
    let roots' = if depth == 0 then suc roots else roots in
    let later = scan (suc depth) text_bytes roots' rest at_end in
    if depth == 0 && ltb 1 roots'
    then err invalid_xml
    else if ltb max_xml_depth (suc depth)
    then err (plain (gb xml_depth))
    else later
scan zero text_bytes roots (end_element ∷ rest) at_end = err invalid_xml
scan (suc depth) text_bytes roots (end_element ∷ rest) at_end =
    scan depth text_bytes roots rest at_end
scan depth text_bytes roots (char_data t ∷ rest) at_end =
    let later = scan depth (text_bytes + length t) roots rest at_end in
    if ltb max_xml_size (text_bytes + length t)
    then err (plain (gb xml_too_large))
    else if depth == 0 && not (is_empty (trim_space t))
    then err invalid_xml
    else later
scan depth text_bytes roots (directive ∷ rest) at_end = err invalid_xml
scan depth text_bytes roots (other_token ∷ rest) at_end = scan depth text_bytes roots rest at_end

unfoldable pub xml_bounds : XmlDecoder → Text → Result (Unit {0})
unfolding has_marker scan
xml_bounds x raw =
    if has_marker raw then err invalid_xml else scan 0 0 0 (x.tokens raw).0 (x.tokens raw).1

abbrev pub is_catalog : Text → Bool
is_catalog cmd_type = cmd_type == text "Catalog"

abbrev pub is_keepalive : Text → Bool
is_keepalive cmd_type = cmd_type == text "Keepalive"

-- The checks that every message passes.
unfoldable pub valid_head : WireMessage → Text → Bool
valid_head wire expected_device =
    (wire.local_name == text "Notify" || wire.local_name == text "Response")
    && (is_keepalive wire.cmd_type || is_catalog wire.cmd_type)
    && valid_text wire.cmd_type 32
    && valid_decimal wire.sn 64
    && valid_device_id wire.device_id
    && (is_empty expected_device || wire.device_id == expected_device)

unfoldable pub valid_item : CatalogItem → Bool
valid_item item =
    valid_device_id item.device_id
    && valid_text item.name 256
    && (item.status == text "ON" || item.status == text "OFF")

abbrev pub message_of : WireMessage → ℕ → List CatalogItem → XmlMessage
message_of wire sum items = record {
  cmd_type = wire.cmd_type;
  sn = wire.sn;
  device_id = wire.device_id;
  status = wire.status;
  sum_num = sum;
  items = items;
}

-- The counts of a page of a catalogue.
unfoldable pub valid_counts : ℕ → ℕ → ℕ → Bool
valid_counts sum list_num items =
    not (ltb max_catalog_items sum)
    && list_num == items
    && not (ltb sum list_num)
    && not (ltb 0 sum && list_num == 0)

unfoldable pub parse_catalog : WireMessage → Result XmlMessage
unfolding parse_decimal valid_counts valid_item
parse_catalog wire =
    if is_empty wire.sum_num || ltb max_catalog_items (length wire.items)
    then err invalid_xml
    else elim (parse_decimal wire.sum_num) [
      | none ↦ err invalid_xml
      | some sum ↦ elim (parse_decimal wire.list_num) [
        | none ↦ err invalid_xml
        | some list_num ↦
            if valid_counts sum list_num (length wire.items) && all valid_item wire.items
            then ok (message_of wire sum wire.items)
            else err invalid_xml
      ]
    ]

unfoldable pub parse_wire : WireMessage → Text → Result XmlMessage
unfolding valid_head parse_catalog
parse_wire wire expected_device =
    if not (valid_head wire expected_device)
    then err invalid_xml
    else if is_catalog wire.cmd_type
    then parse_catalog wire
    else if wire.status == text "OK" || wire.status == text "ERROR"
    then ok (message_of wire 0 [])
    else err invalid_xml

abbrev decoded : Option WireMessage → Result WireMessage
decoded none = err invalid_xml
decoded (some wire) = ok wire

unfoldable pub parse_message_xml : XmlDecoder → Text → Text → Result XmlMessage
unfolding xml_bounds parse_wire
parse_message_xml x raw expected_device = do
  guard (not (ltb max_xml_size (length raw))) (plain (gb xml_too_large))
  guard (not (is_empty raw)) invalid_xml
  xml_bounds x raw
  wire ← decoded (x.decode raw)
  parse_wire wire expected_device
