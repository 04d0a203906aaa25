-- ===== src/Access/Sessions.antt =====
-- internal/access/access.go and broker.go: the sessions of devices. A client is the identity of its
-- connection; a device's session is changed under its own mutex and the two maps under the server's,
-- so each definition that returns a server is one critical section, and what the code reads from
-- outside before or in it comes as arguments. `sent` holds the status events that the handler took,
-- the latest first; `workers` holds the goroutines of `sweep` that have not run yet.
use iolink.Base.{
  ℕ, ◌*◌, ◌==◌, nat_eq, text_eq, Bool, true, false, ◌&&◌, ◌||◌, not, if◌then◌else◌, Text, ℤ, pos,
  ltb_ℤ, int_eq, List, [], ◌∷◌, Option, none, some, lookup, insert, delete, GoError,
}
use iolink.Media.{Time, second}

abbrev pub Client : Type 0
Client = ℕ

pub record Session : Type 0 where
  pub interval : ℕ
  pub checking : Bool
  pub client : Option Client
  pub last_seen : Time
  pub online : Bool
  pub revision : ℤ

pub record StatusChange : Type 0 where
  pub device_no : Text
  pub online : Bool

pub record Server : Type 0 where
  pub report_interval : ℕ
  pub grace_factor : ℕ
  pub sessions : List (Text × Session)
  pub device_of : List (Client × Text)
  pub slots : ℕ
  pub workers : List (Text × Time)
  pub sent : List StatusChange

abbrev pub max_slots : ℕ
max_slots = 16

abbrev pub positive_or : ℕ → ℤ → ℕ
positive_or default (pos n) = if n == 0 then default else n
positive_or default _ = default

-- `New`, on the two durations that it defaults.
unfoldable pub new_server : ℤ → ℤ → Server
new_server report_interval grace_factor = record {
  report_interval = positive_or (60 * second) report_interval;
  grace_factor = positive_or 3 grace_factor;
  sessions = [];
  device_of = [];
  slots = 0;
  workers = [];
  sent = [];
}

unfoldable pub device_for : Server → Client → Option Text
device_for s cl = lookup cl s.device_of

abbrev pub new_session : Server → Session
new_session s = record {
  interval = s.report_interval;
  checking = false;
  client = none;
  last_seen = 0;
  online = false;
  revision = pos 0;
}

-- `lookup(no, true)`: the session that stands there afterwards.
unfoldable pub session_or_new : Server → Text → Session
session_or_new s dev = elim (lookup dev s.sessions) [ none ↦ new_session s | some ss ↦ ss ]

abbrev pub put : Server → Text → Session → Server
put s dev ss = record s { sessions = insert dev ss s.sessions }

-- `transition`, with the handler's answer, and what the session is stored as.
unfoldable pub transition : Server → Text → Session → Bool → Option GoError → Server
transition s dev ss online (some e) = put s dev ss
transition s dev ss online none = if not online && not ss.online then put s dev ss else record s {
  sessions = insert dev (record ss { online = online }) s.sessions;
  sent = record { device_no = dev; online = online } ∷ s.sent;
}

-- What `connected` reads from outside: who the credentials belong to, the device's own interval and
-- its revision where the authenticator knows them, whether the broker has taken the client over, the
-- clock, and the handler's answer.
pub record Connection : Type 0 where
  pub resolved : Option Text
  pub device_interval : Option ℤ
  pub taken_over : Bool
  pub device_revision : Option ℤ
  pub now : Time
  pub answer : Option GoError

abbrev pub connected_interval : Server → Option ℤ → ℕ
connected_interval s none = s.report_interval
connected_interval s (some d) = positive_or s.report_interval d

abbrev pub is_revoked : Option ℤ → Bool
is_revoked none = false
is_revoked (some r) = ltb_ℤ r (pos 0)

abbrev pub kept_revision : Session → Option ℤ → ℤ
kept_revision ss none = ss.revision
kept_revision ss (some r) = r

abbrev pub attached : Server → Session → Client → Connection → Session
attached s ss cl c = record ss {
  client = some cl;
  interval = connected_interval s c.device_interval;
  last_seen = c.now;
  revision = kept_revision ss c.device_revision;
}

-- The part of `connected` behind the credentials.
unfoldable pub attach : Server → Client → Connection → Text → Server
unfolding transition session_or_new
attach s cl c dev =
    let ss = session_or_new s dev in
    if c.taken_over || is_revoked c.device_revision
    then put s dev ss
    else transition (record s { device_of = insert cl dev s.device_of }) dev (attached s ss cl c)
        true c.answer

unfoldable pub connected : Server → Client → Connection → Server
unfolding attach
connected s cl c = elim c.resolved [ none ↦ s | some dev ↦ attach s cl c dev ]

-- The connection that `connected` retires; `gone` tells whether the old one was taken over or closed.
unfoldable pub retired : Server → Client → Connection → (Client → Bool) → Option Client
unfolding session_or_new
retired s cl c gone = elim c.resolved [
  | none ↦ some cl
  | some dev ↦
      if c.taken_over || is_revoked c.device_revision
      then none
      else elim (session_or_new s dev).client [
        | none ↦ none
        | some old ↦ if old == cl || gone old then none else some old
      ]
]

-- `disconnected` in its two critical sections: the client loses its device, and then the device's
-- session loses the client, if it still has it.
unfoldable pub forget : Server → Client → Server
forget s cl = record s { device_of = delete cl s.device_of }

abbrev pub is_client : Option Client → Client → Bool
is_client none cl = false
is_client (some c) cl = c == cl

unfoldable pub leave : Server → Client → Text → Bool → Option GoError → Server
unfolding transition
leave s cl dev taken_over answer = elim (lookup dev s.sessions) [
  | none ↦ s
  | some ss ↦
      if not (is_client ss.client cl) || taken_over
      then s
      else transition s dev (record ss { client = none }) false answer
]

unfoldable pub disconnected : Server → Client → Bool → Option GoError → Server
unfolding forget leave
disconnected s cl taken_over answer = elim (device_for s cl) [
  | none ↦ forget s cl
  | some dev ↦ leave (forget s cl) cl dev taken_over answer
]

-- The heartbeat of `handleReport` and `handleGenericReport`.
unfoldable pub heartbeat : Server → Text → Time → Option GoError → Server
unfolding transition
heartbeat s dev now answer = elim (lookup dev s.sessions) [
  | none ↦ s
  | some ss ↦ elim ss.client [
    | none ↦ s
    | some cl ↦ transition s dev (record ss { last_seen = now }) true answer
  ]
]
