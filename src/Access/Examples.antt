-- ===== src/Access/Examples.antt =====
-- The theorems on device access at concrete data.
use iolink.Base.{
  ◌*◌, ◌≡◌, ◌↔◌, ◌⊎◌, refl, nat_eq, text_eq, text_beq, true, false, text, List, [], ◌∷◌, lookup,
  some, none, pos, split, contains_any,
}
use iolink.Media.{second}
use iolink.Access.Topics.{check_acl, parse_uplink_topic, names_device}
use iolink.Access.Sandbox.{IsLevel, uplink_topic, check_acl_iff}
use iolink.Access.Sessions.{Connection, Server, Session, new_server, device_for}
use iolink.Access.Broker.{fits_revision, is_current, on_acl_check}
use iolink.Access.Steps.{online_of, last_status}
use iolink.Access.Traces.{
  Call, connects, forgets, leaves, beats, sweeps, works, run, online-last_status,
}
use iolink.Access.Clients.{Allowed, on_acl_check-Allowed}

check_acl_iff_example : (check_acl (text "d1") (text "iolink/up/d1/ack") true ≡ true) ↔ (
    IsLevel (text "d1")
    × ((text "iolink/up/d1/ack" ≡ uplink_topic (text "d1") (text "properties"))
        ⊎ (text "iolink/up/d1/ack" ≡ uplink_topic (text "d1") (text "ack"))))
check_acl_iff_example = check_acl_iff (text "d1") (text "iolink/up/d1/ack") true

abbrev connection : Connection
connection = record {
  resolved = some (text "d1");
  device_interval = some (pos (10 * second));
  taken_over = false;
  device_revision = some (pos 3);
  now = second;
  answer = none;
}

abbrev calls : List Call
calls =
    connects 1 connection
    ∷ beats (text "d1") (2 * second) none
    ∷ sweeps (text "d1") (40 * second) false
    ∷ works (text "d1") none
    ∷ connects 2 connection
    ∷ forgets 1
    ∷ leaves 1 (text "d1") false none
    ∷ []

abbrev after_calls : Server
after_calls = run (new_server (pos 0) (pos 0)) calls

online-last_status_example :
    online_of (text "d1") after_calls.sessions ≡ last_status (text "d1") after_calls.sent
online-last_status_example = online-last_status (pos 0) (pos 0) calls (text "d1")

abbrev live_session : Session
live_session = record {
  interval = 10 * second;
  checking = false;
  client = some 2;
  last_seen = second;
  online = true;
  revision = pos 3;
}

abbrev live_server : Server
live_server = record {
  report_interval = 60 * second;
  grace_factor = 3;
  sessions = (text "d1", live_session) ∷ [];
  device_of = (2, text "d1") ∷ [];
  slots = 0;
  workers = [];
  sent = [];
}

let_through : on_acl_check live_server 2 (some (pos 3)) (text "iolink/up/d1/ack") true ≡ true
unfolding on_acl_check is_current device_for fits_revision check_acl parse_uplink_topic names_device
    split contains_any lookup text_beq
let_through = refl

on_acl_check-Allowed_example : Allowed live_server 2 (some (pos 3)) (text "iolink/up/d1/ack") true
on_acl_check-Allowed_example =
    on_acl_check-Allowed live_server 2 (some (pos 3)) (text "iolink/up/d1/ack") true let_through
