-- ===== src/Gb/MessageExamples.antt =====
-- The theorems on messages, at a keepalive.
use iolink.Base.{
  ℕ, suc, ◌≤◌, ◌≡◌, refl, ◌↔◌, true, false, Text, text, text_beq, is_empty, is_digit, value, [],
  ◌∷◌, all, length, some, ok, contains, has_prefix, trim_space, trim_left, trim_left_reversed,
  ascii_space,
}
use iolink.World.{M}
use iolink.Gb.Peers.{
  Peer, Registration, ipv4, udp, online, peer_valid, addr_valid, is_unspecified, transport_valid,
  allows_peer, contains as contains_peer, valid_device_id, valid_text, status_at,
}
use iolink.Gb.Xml.{
  WireMessage, start_element, end_element, char_data, max_catalog_items, valid_decimal,
  parse_decimal, to_upper, has_marker, scan, xml_bounds, valid_head, parse_wire, parse_message_xml,
}
use iolink.Gb.XmlLaws.{parse_decimal_iff}
use iolink.Gb.Messages.{
  Inbox, MessageResult, max_sip_message_size, is_sender, take_message, handle_parsed,
  handle_message, handle_sip_message,
}
use iolink.Gb.Inbox.{Accepted, handle_sip_message-Accepted}

parse_decimal_iff_example : (parse_decimal (text "0012") ≡ some 12) ↔ (
    (all is_digit (text "0012") ≡ true)
    × (is_empty (text "0012") ≡ false)
    × (length (text "0012") ≤ 10)
    × (value (text "0012") ≡ 12)
    × (12 ≤ max_catalog_items))
parse_decimal_iff_example = parse_decimal_iff (text "0012") 12

abbrev device_id : Text
device_id = text "34020000001320000001"

abbrev wire : WireMessage
wire = record {
  local_name = text "Notify";
  cmd_type = text "Keepalive";
  sn = text "7";
  device_id = device_id;
  status = text "OK";
  sum_num = [];
  list_num = [];
  items = [];
}

abbrev source : Peer
source = record { addr = ipv4 16909060; port = 5060; transport = udp }

abbrev returns : {A : Type 0} → A → M ℕ A
returns a w = (suc w, ok a)

abbrev registration : Registration
registration = record {
  device_id = device_id;
  peer = source;
  registered_at = 10;
  last_seen_at = 10;
  expires_at = 100;
  status = online;
}

abbrev inbox : Inbox ℕ
inbox = record {
  decoder = record {
    tokens = λ raw.
        (start_element ∷ char_data (text "7") ∷ end_element ∷ char_data (text " ") ∷ [], true);
    decode = λ raw. some wire;
  };
  lookup_device = λ id. returns (record {
    device_id = id;
    realm = text "r";
    password = text "p";
    allowed_peers = record { prefix_addr = ipv4 16909060; bits = 8 } ∷ [];
  });
  lookup_peer = λ p. returns registration;
  mark_keepalive = λ id p now status. returns tt;
  clock = returns 50;
}

abbrev answer : MessageResult
answer = record {
  message = record {
    cmd_type = text "Keepalive";
    sn = text "7";
    device_id = device_id;
    status = text "OK";
    sum_num = 0;
    items = [];
  };
  status = online;
}

handled :
    handle_sip_message inbox (text "MESSAGE") source (text "<Notify>7</Notify>") 0 ≡ (4, ok answer)
unfolding handle_sip_message handle_message handle_parsed take_message is_sender parse_message_xml
    xml_bounds has_marker to_upper contains has_prefix scan trim_space trim_left trim_left_reversed
    ascii_space parse_wire valid_head valid_text valid_decimal valid_device_id peer_valid addr_valid
    is_unspecified transport_valid allows_peer contains_peer status_at text_beq
handled = refl

handle_sip_message-Accepted_example :
    (text "MESSAGE" ≡ text "MESSAGE")
    × (length (text "<Notify>7</Notify>") ≤ max_sip_message_size)
    × Accepted inbox source (text "<Notify>7</Notify>") 0 4 answer.message answer.status
handle_sip_message-Accepted_example =
    handle_sip_message-Accepted inbox (text "MESSAGE") source (text "<Notify>7</Notify>") 0 handled
