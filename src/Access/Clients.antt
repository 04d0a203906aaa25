-- ===== src/Access/Clients.antt =====
-- internal/access/broker.go: what a client may do while it is a device's connection, and after.
use iolink.Base.{
  ◌≡◌, refl, ◌⊎◌, inl, inr, ◌==◌, ==_iff, nat_eq, text_eq, int_eq, Bool, true, false, ◌||◌, not,
  if◌then◌else◌, Text, text, ℤ, List, [], ◌∷◌, all, Option, none, some, lookup, insert, GoError,
  arith, Bool-cases, Option-cases, lookup-insert, lookup-delete,
}
use iolink.Media.{Time}
use iolink.Access.Topics.{downlink_topic}
use iolink.Access.Sandbox.{IsLevel, uplink_topic, check_acl_iff}
use iolink.Access.Sessions.{
  Client, Session, Server, Connection, session_or_new, transition, attach, attached, connected,
  is_client, is_revoked, forget, leave, heartbeat, device_for,
}
use iolink.Access.Broker.{fits_revision, is_current, on_acl_check}
use iolink.Access.Sweep.{sweep_device, report_offline, work}
use iolink.Access.Steps.{transition-Frame}
use iolink.Access.Traces.{Call, connects, forgets, leaves, beats, sweeps, works, step, run}

-- What stands behind a topic that the broker lets through.
pub record Allowed (s : Server) (cl : Client) (revision : Option ℤ) (topic : Text) (write : Bool)
    : Type 0 where
  pub device_no : Text
  pub session : Session
  pub mapped : device_for s cl ≡ some device_no
  pub found : lookup device_no s.sessions ≡ some session
  pub attached : session.client ≡ some cl
  pub fresh : fits_revision session revision ≡ true
  pub own :
      IsLevel device_no
      × (if write
          then ((topic ≡ uplink_topic device_no (text "properties"))
              ⊎ (topic ≡ uplink_topic device_no (text "ack")))
          else (topic ≡ downlink_topic device_no))

is_client-some : (o : Option Client) (cl : Client) → is_client o cl ≡ true → o ≡ some cl
is_client-some none cl h = cc
is_client-some (some c) cl h = ground arith

-- The broker lets a client through only while it is the connection of the device that its credentials
-- named, at the revision of its connecting, and only on that device's own topics.
pub on_acl_check-Allowed :
    (s : Server) (cl : Client) (revision : Option ℤ) (topic : Text) (write : Bool)
    → on_acl_check s cl revision topic write ≡ true
    → Allowed s cl revision topic write
unfolding on_acl_check is_current
on_acl_check-Allowed s cl revision topic write h = elim (Option-cases (device_for s cl)) [
  | inl d ↦ absurd (ground (arith, d))
  | inr (dev, d) ↦ elim (Option-cases (lookup dev s.sessions)) [
    | inl e ↦ absurd (ground (arith, d, e))
    | inr (ss, e) ↦ record {
      device_no = dev;
      session = ss;
      mapped = d;
      found = e;
      attached = is_client-some ss.client cl (ground (arith, d, e));
      fresh = ground (arith, d, e);
      own = (check_acl_iff dev topic write).0 (ground (arith, d, e));
    }
  ]
]

abbrev pub is_connecting : Client → Call → Bool
is_connecting cl (connects c _) = c == cl
is_connecting cl _ = false

leave-device_of :
    (s : Server) (cl : Client) (dev : Text) (taken_over : Bool) (a : Option GoError)
    → (leave s cl dev taken_over a).device_of ≡ s.device_of
unfolding leave
leave-device_of s cl dev taken_over a = elim (Option-cases (lookup dev s.sessions)) [
  | inl e ↦ rw (e, leave) refl
  | inr (ss, e) ↦ elim (Bool-cases (not (is_client ss.client cl) || taken_over)) [
    | inl b ↦ rw (e, leave, b) refl
    | inr b ↦
        rw (e, leave, b) (transition-Frame s dev (record ss { client = none }) false a).device_of
  ]
]

heartbeat-device_of :
    (s : Server) (dev : Text) (now : Time) (a : Option GoError)
    → (heartbeat s dev now a).device_of ≡ s.device_of
unfolding heartbeat
heartbeat-device_of s dev now a = elim (Option-cases (lookup dev s.sessions)) [
  | inl e ↦ rw (e, heartbeat) refl
  | inr (ss, e) ↦ elim (Option-cases ss.client) [
    | inl c ↦ rw (e, heartbeat, c) refl
    | inr (cl, c) ↦
        rw (e, heartbeat, c)
          (transition-Frame s dev (record ss { last_seen = now }) true a).device_of
  ]
]

sweep_device-device_of :
    (s : Server) (dev : Text) (now : Time) (busy : Bool)
    → (sweep_device s dev now busy).device_of ≡ s.device_of
unfolding sweep_device
sweep_device-device_of s dev now busy = elim (Option-cases (lookup dev s.sessions)) [
  | inl e ↦ rw (e, sweep_device) refl
  | inr (ss, e) ↦ ground (arith, e)
]

work-device_of :
    (s : Server) (dev : Text) (now : Time) (a : Option GoError)
    → (work s dev now a).device_of ≡ s.device_of
unfolding work report_offline
work-device_of s dev now a = elim (Option-cases (lookup dev s.sessions)) [
  | inl e ↦ rw (e, work) refl
  | inr (ss, e) ↦
      let f = transition-Frame s dev (record ss { checking = false }) false a in
      ground (arith, e, f.device_of)
]

abbrev IsUnknown : Client → Server → Type 0
IsUnknown cl s = lookup cl s.device_of ≡ none

transition-IsUnknown :
    (cl : Client) (s : Server) (dev : Text) (ss : Session) (online : Bool) (a : Option GoError)
    → IsUnknown cl s
    → IsUnknown cl (transition s dev ss online a)
transition-IsUnknown cl s dev ss online a h =
    let f = transition-Frame s dev ss online a in rw f.device_of h

connected-IsUnknown :
    (cl other : Client) (s : Server) (c : Connection)
    → (other == cl) ≡ false
    → IsUnknown cl s
    → IsUnknown cl (connected s other c)
unfolding connected attach
connected-IsUnknown cl other s c n h = elim (Option-cases c.resolved) [
  | inl e ↦ rw (e, connected) h
  | inr (dev, e) ↦ elim (Bool-cases (c.taken_over || is_revoked c.device_revision)) [
    | inl b ↦ rw (e, connected, b) h
    | inr b ↦
        let base : Server = record s { device_of = insert other dev s.device_of } in
        rw (e, connected, b)
          (transition-IsUnknown cl base dev (attached s (session_or_new s dev) other c) true
            c.answer (ground (arith, n, h, lookup-insert other cl dev s.device_of)))
  ]
]

step-IsUnknown :
    (cl : Client) (s : Server) (c : Call)
    → is_connecting cl c ≡ false
    → IsUnknown cl s
    → IsUnknown cl (step s c)
unfolding step
step-IsUnknown cl s (connects other c) n h = connected-IsUnknown cl other s c n h
step-IsUnknown cl s (forgets other) n h =
    unfold forget in ground (arith, h, lookup-delete other cl s.device_of)
step-IsUnknown cl s (leaves other dev taken_over a) n h =
    rw (leave-device_of s other dev taken_over a) h
step-IsUnknown cl s (beats dev now a) n h = rw (heartbeat-device_of s dev now a) h
step-IsUnknown cl s (sweeps dev now busy) n h = rw (sweep_device-device_of s dev now busy) h
step-IsUnknown cl s (works dev a) n h = elim (Option-cases (lookup dev s.workers)) [
  | inl e ↦ rw (e, step) h
  | inr (now, e) ↦ rw (e, step, work-device_of s dev now a) h
]

run-IsUnknown :
    (cl : Client) (s : Server) (cs : List Call)
    → all (λ c. not (is_connecting cl c)) cs ≡ true
    → IsUnknown cl s
    → IsUnknown cl (run s cs)
unfolding run
run-IsUnknown cl s [] n h = h
run-IsUnknown cl s (c ∷ cs) n h =
    run-IsUnknown cl (step s c) cs (ground arith) (step-IsUnknown cl s c (ground arith) h)

-- Once a client has disconnected, no topic is open to it, whatever happens afterwards, until it connects
-- again.
acl-forget :
    (s : Server) (cl : Client) (cs : List Call) (revision : Option ℤ) (topic : Text) (write : Bool)
    → all (λ c. not (is_connecting cl c)) cs ≡ true
    → on_acl_check (run (forget s cl) cs) cl revision topic write ≡ false
unfolding on_acl_check is_current device_for forget
acl-forget s cl cs revision topic write n =
    let gone : lookup cl (forget s cl).device_of ≡ none =
      ground (arith, lookup-delete cl cl s.device_of, ==_iff cl cl) in
    ground (arith, run-IsUnknown cl (forget s cl) cs n gone)
