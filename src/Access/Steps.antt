-- ===== src/Access/Steps.antt =====
-- internal/access/access.go: what each critical section does to a device's status, to the marks of
-- `sweep` and to the map of clients.
use iolink.Base.{
  ℕ, suc, ◌≡◌, refl, subst, inl, inr, ◌==◌, ==_iff, nat_eq, text_eq, Bool, true, false, ◌&&◌, not,
  if◌then◌else◌, Text, List, [], ◌∷◌, Option, none, some, lookup, insert, GoError, arith,
  Bool-cases, lookup-insert,
}
use iolink.Media.{Time}
use iolink.Access.Sessions.{Session, StatusChange, Server, put, transition}

abbrev pub flag : Bool → ℕ
flag true = 1
flag false = 0

abbrev pub online_of : Text → List (Text × Session) → Bool
online_of dev m = elim (lookup dev m) [ none ↦ false | some ss ↦ ss.online ]

abbrev pub checking_of : Text → List (Text × Session) → ℕ
checking_of dev m = elim (lookup dev m) [ none ↦ 0 | some ss ↦ flag ss.checking ]

-- The status that the last event reported, offline where there is none.
unfoldable pub last_status : Text → List StatusChange → Bool
last_status dev [] = false
last_status dev (c ∷ sent) =
    let earlier = last_status dev sent in if c.device_no == dev then c.online else earlier

unfoldable pub count_workers : Text → List (Text × Time) → ℕ
count_workers dev [] = 0
count_workers dev ((at, t) ∷ rest) =
    let later = count_workers dev rest in if at == dev then suc later else later

abbrev pub Reported : Server → Type 0
Reported s = (dev : Text) → last_status dev s.sent ≡ online_of dev s.sessions

-- The parts of the server that an operation leaves alone.
pub record Frame (s s' : Server) : Type 0 where
  pub slots : s'.slots ≡ s.slots
  pub workers : s'.workers ≡ s.workers
  pub device_of : s'.device_of ≡ s.device_of

pub transition-Frame :
    (s : Server) (dev : Text) (ss : Session) (online : Bool) (a : Option GoError)
    → Frame s (transition s dev ss online a)
unfolding transition
transition-Frame s dev ss online (some e) = record {
  slots = refl;
  workers = refl;
  device_of = refl;
}
transition-Frame s dev ss online none = elim (Bool-cases (not online && not ss.online)) [
  | inl b ↦ rw b (record { slots = refl; workers = refl; device_of = refl })
  | inr b ↦ rw b (record { slots = refl; workers = refl; device_of = refl })
]

online-insert :
    (dev other : Text) (ss : Session) (m : List (Text × Session))
    → online_of other (insert dev ss m) ≡ (if dev == other then ss.online else online_of other m)
online-insert dev other ss m = ground (arith, lookup-insert dev other ss m)

pub put-Reported :
    (s : Server) (dev : Text) (ss : Session)
    → Reported s
    → ss.online ≡ online_of dev s.sessions
    → Reported (put s dev ss)
put-Reported s dev ss r h other = elim (Bool-cases (dev == other)) [
  | inr b ↦ ground (arith, b, online-insert dev other ss s.sessions, r other)
  | inl b ↦
      let same : dev ≡ other = (==_iff dev other).0 b in
      let there : last_status other s.sent ≡ ss.online =
        subst (λ x. last_status x s.sent ≡ ss.online) same (ground (arith, h, r dev)) in
      ground (arith, b, online-insert dev other ss s.sessions, there)
]

pub transition-Reported :
    (s : Server) (dev : Text) (ss : Session) (online : Bool) (a : Option GoError)
    → Reported s
    → ss.online ≡ online_of dev s.sessions
    → Reported (transition s dev ss online a)
unfolding transition last_status
transition-Reported s dev ss online (some e) r h = put-Reported s dev ss r h
transition-Reported s dev ss online none r h = elim (Bool-cases (not online && not ss.online)) [
  | inl b ↦ rw b (put-Reported s dev ss r h)
  | inr b ↦ rw b λ other.
      ground (arith, online-insert dev other (record ss { online = online }) s.sessions, r other)
]

pub checking-transition :
    (s : Server) (dev other : Text) (ss : Session) (online : Bool) (a : Option GoError)
    → checking_of other (transition s dev ss online a).sessions
      ≡ (if dev == other then flag ss.checking else checking_of other s.sessions)
unfolding transition
checking-transition s dev other ss online (some e) =
    ground (arith, lookup-insert dev other ss s.sessions)
checking-transition s dev other ss online none = ground (
  arith,
  lookup-insert dev other ss s.sessions,
  lookup-insert dev other (record ss { online = online }) s.sessions,
)
