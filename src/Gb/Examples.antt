-- ===== src/Gb/Examples.antt =====
-- The theorems on nonces and registrations at concrete data.
use iolink.Base.{
  ◌≢◌, ℕ, none, ◌*◌, ◌+◌, true, ◌⊎◌, pos, is_err, peer_not_found, ◌≤◌, ◌≡◌, refl, text_eq, text,
  List, [], ◌∷◌, some, lookup, insert, delete, text_beq, plain, gb, nonce_replay, ok, err,
}
use iolink.Media.{second}
use iolink.Gb.Digest.{DigestAuthorization, digest_response, well_formed, equal_fold, to_lower}
use iolink.Gb.Register.{
  RegisterRequest, RegisterResult, Stores, Server, names_sender, valid_request, may_register,
  nonce_matches, new_registration,
}
use iolink.Gb.Handle.{
  apply_registration, find_peer, admit_peer, remember_transaction, authenticate, record_device,
  register_device, handle_register,
}
use iolink.Gb.Grants.{Remembered, Registered, looked_up_in, handle_register-Registered}
use iolink.Gb.Peers.{
  Device, allows_peer, contains, Registration, online, valid_text, valid_device_id,
  registration_ttl,
}
use iolink.Gb.Peers.{ipv4, udp, peer_valid, addr_valid, is_unspecified, transport_valid}
use iolink.Gb.Nonces.{
  NonceRecord, NonceStore, size, live, sweep, use_up, consume_entry, consume_live, consume, issue,
  max_memory_nonces, new_nonce_store, make_room, add_nonce,
}
use iolink.Gb.NonceLaws.{IsValid}
use iolink.Gb.NonceLife.{consume-issue}
use iolink.Gb.NonceTraces.{
  Call, issues, consumes, run, step, after_issue, start, count_of, accepted-le, capacity,
  consumed_for_good,
}

abbrev entry : NonceRecord
entry = record {
  device_id = text "34020000001320000001";
  realm = text "3402000000";
  peer = record { addr = ipv4 16909060; port = 5060; transport = udp };
  uri = text "sip:34020000002000000001";
  expires_at = 10;
}

abbrev issued_store : NonceStore
issued_store = record { entries = (text "n", entry) ∷ []; used = [] }

abbrev used_store : NonceStore
used_store = record { entries = []; used = (text "n", 10) ∷ [] }

issued_store-IsValid : IsValid issued_store
unfolding lookup
issued_store-IsValid = record {
  keyed_entries = (refl, tt);
  keyed_used = tt;
  named_entries = (refl, tt);
  named_used = tt;
}

used_store-IsValid : IsValid used_store
unfolding lookup
used_store-IsValid = record {
  keyed_entries = tt;
  keyed_used = (refl, tt);
  named_entries = tt;
  named_used = (refl, tt);
}

consume-issue_example :
    (consume (issue used_store entry (some (text "m"))).0 (text "m") 3).1 ≡ ok entry
consume-issue_example =
    consume-issue used_store entry (text "m") 3 used_store-IsValid
      (unfold peer_valid addr_valid is_unspecified transport_valid in refl) refl
      (unfold lookup text_beq in refl) refl refl

accepted : consume issued_store (text "n") 3 ≡ (used_store, ok entry)
unfolding consume consume_live consume_entry sweep live use_up lookup insert delete text_beq
accepted = refl

abbrev issuing : List Call
issuing = issues entry (some (text "n")) ∷ []

-- A try that is refused, and another nonce.
abbrev trying : List Call
trying = consumes (text "n") 4 ∷ issues entry (some (text "m")) ∷ []

taken : consume (run start issuing).store (text "n") 3 ≡ (used_store, ok entry)
unfolding run step after_issue new_nonce_store issue make_room add_nonce consume consume_live
    consume_entry sweep live use_up lookup insert delete peer_valid addr_valid is_unspecified
    transport_valid text_beq
taken = refl

consumed_for_good_example :
    let l = run (step (run start issuing) (consumes (text "n") 3)) trying in
    ((consume used_store (text "n") 5).1 ≡ err (plain (gb nonce_replay)))
    × ((t : NonceRecord) → (consume l.store (text "n") 5).1 ≢ ok t)
consumed_for_good_example =
    consumed_for_good issuing trying (text "n") 3 5 refl refl (unfold text_beq in refl) taken refl

abbrev calls : List Call
calls = issues entry (some (text "n")) ∷ consumes (text "n") 3 ∷ consumes (text "n") 4 ∷ []

accepted-le_example :
    count_of (text "n") (run start calls).accepted ≤ count_of (text "n") (run start calls).issued
accepted-le_example = accepted-le calls (text "n") refl

capacity_example :
    (size (run start calls).store ≤ max_memory_nonces)
    × ((issue (run start calls).store entry (some (text "m"))).1 ≡ ok (text "m"))
capacity_example =
    capacity calls entry (text "m") refl
      (unfold peer_valid addr_valid is_unspecified transport_valid in refl)

abbrev registered : Registration
registered = record {
  device_id = text "34020000001320000001";
  peer = entry.peer;
  registered_at = 1;
  last_seen_at = 1;
  expires_at = 1 + 60 * second;
  status = online;
}

abbrev proof_of_password : DigestAuthorization
proof_of_password = record {
  username = text "34020000001320000001";
  realm = text "3402000000";
  nonce = text "n";
  uri = text "sip:34020000002000000001";
  response = text "0A";
  algorithm = [];
  qop = [];
  cnonce = [];
  nc = [];
}

abbrev request : RegisterRequest
request = record {
  device_id = text "34020000001320000001";
  username = text "34020000001320000001";
  realm = text "3402000000";
  method = text "REGISTER";
  uri = text "sip:34020000002000000001";
  source = entry.peer;
  expires = pos 90;
  authorization = some proof_of_password;
  transaction_id = [];
}

abbrev camera : Device
camera = record {
  device_id = text "34020000001320000001";
  realm = text "3402000000";
  password = text "secret";
  allowed_peers = record { prefix_addr = ipv4 16909056; bits = 24 } ∷ [];
}

abbrev stores : Stores ℕ
stores = record {
  lookup_device = λ id w. (w + 1, ok camera);
  lookup_peer = λ p w. (w + 1, err (plain (gb peer_not_found)));
  apply_registration = λ g w. (w + 1, ok tt);
  issue = λ n w. (w + 1, ok (text "n"));
  consume = λ n now w. (w + 1, ok entry);
  clock = λ w. (w + 1, w + 1);
  addr_text = λ a port. text "1.2.3.4:5060";
  md5 = λ s. text "0a";
}

abbrev server : Server ℕ
server = record { world = 0; transactions = [] }

abbrev answer : RegisterResult
answer = record {
  status_code = 200;
  challenge = none;
  registration = new_registration request 5 (90 * second);
}

answered :
    handle_register stores request server ≡ (record { world = 7; transactions = [] }, ok answer)
unfolding handle_register valid_request names_sender valid_text valid_device_id peer_valid
    addr_valid is_unspecified transport_valid text_beq register_device may_register allows_peer
    contains authenticate nonce_matches digest_response well_formed equal_fold to_lower
    record_device registration_ttl apply_registration find_peer admit_peer remember_transaction
    is_err new_registration
answered = refl

handle_register-Registered_example :
    (valid_request request ≡ true)
    × (Remembered stores request server answer
        ⊎ Registered stores request (looked_up_in stores request server) answer)
handle_register-Registered_example = handle_register-Registered stores request server answered
