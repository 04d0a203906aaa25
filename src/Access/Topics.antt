-- ===== src/Access/Topics.antt =====
-- internal/access/auth.go: client identifiers and the grammar of topics.
use iolink.Base.{
  ◌==◌, text_eq, nat_eq, Bool, false, ◌&&◌, ◌||◌, not, if◌then◌else◌, leb, Text, text, is_empty,
  ◌++◌, List, [], ◌∷◌, length, contains_any, split, GoError, plain, access, bad_topic, wrap_err,
  Result, ok, err, valid_utf8,
}

unfoldable pub valid_client_id : Text → Bool
valid_client_id id =
    not (is_empty id) && leb (length id) 128 && not (contains_any id (text "+#")) && valid_utf8 id

abbrev pub outside : GoError
outside = wrap_err (plain (access bad_topic))

abbrev is_kind : Text → Bool
is_kind kind = kind == text "properties" || kind == text "ack"

unfoldable pub parse_parts : List Text → Result (Text × Text)
parse_parts (root ∷ up ∷ device_no ∷ kind ∷ []) =
    if not (root == text "iolink") || not (up == text "up")
    then err outside
    else if is_empty device_no || contains_any device_no (text "+#")
    then err outside
    else if is_kind kind
    then ok (device_no, kind)
    else err outside
parse_parts [] = err outside
parse_parts (a ∷ []) = err outside
parse_parts (a ∷ b ∷ []) = err outside
parse_parts (a ∷ b ∷ c ∷ []) = err outside
parse_parts (a ∷ b ∷ c ∷ d ∷ e ∷ parts) = err outside

unfoldable pub parse_uplink_topic : Text → Result (Text × Text)
unfolding parse_parts
parse_uplink_topic topic = parse_parts (split b'/' topic)

unfoldable pub downlink_topic : Text → Text
downlink_topic device_no = text "iolink/down/" ++ device_no ++ text "/cmd"

-- The answer of `ParseUplinkTopic` names the device.
unfoldable pub names_device : Text → Result (Text × Text) → Bool
names_device device_no (ok (d, kind)) = d == device_no
names_device device_no (err e) = false

unfoldable pub check_acl : Text → Text → Bool → Bool
unfolding parse_uplink_topic downlink_topic names_device
check_acl device_no topic write =
    if is_empty device_no || contains_any device_no (text "/+#")
    then false
    else if write
    then names_device device_no (parse_uplink_topic topic)
    else topic == downlink_topic device_no
