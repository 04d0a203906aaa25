-- ===== src/Access/Sweep.antt =====
-- internal/access/access.go: `sweep`, one device at a time, and its workers.
use iolink.Base.{
  ◌+◌, ◌-◌, ◌*◌, ◌==◌, nat_eq, text_eq, Bool, true, false, ◌||◌, not, if◌then◌else◌, ltb, Text,
  int_eq, List, [], ◌∷◌, map, Option, none, some, lookup, insert, GoError,
}
use iolink.Media.{Time, before}
use iolink.Access.Sessions.{Session, Server, max_slots, put, transition}

unfoldable pub is_expired : Server → Session → Time → Bool
is_expired s ss now = elim ss.client [
  | none ↦ true
  | some cl ↦ not (before now (ss.last_seen + ss.interval * s.grace_factor))
]

-- One device in the loop of `sweep`; `busy` where `TryLock` fails.
unfoldable pub sweep_device : Server → Text → Time → Bool → Server
unfolding is_expired
sweep_device s dev now busy = elim (lookup dev s.sessions) [
  | none ↦ s
  | some ss ↦
      if busy
        || ss.checking
        || not ss.online
        || not (is_expired s ss now)
        || not (ltb s.slots max_slots)
      then s
      else record s {
        sessions = insert dev (record ss { checking = true }) s.sessions;
        slots = s.slots + 1;
        workers = (dev, now) ∷ s.workers;
      }
]

unfoldable pub sweep_devices : Server → List Text → Time → (Text → Bool) → Server
unfolding sweep_device
sweep_devices s [] now busy = s
sweep_devices s (dev ∷ rest) now busy =
    sweep_devices (sweep_device s dev now (busy dev)) rest now busy

unfoldable pub sweep : Server → Time → (Text → Bool) → Server
unfolding sweep_devices
sweep s now busy = sweep_devices s (map (λ x. x.0) s.sessions) now busy

-- A worker of `sweep`: it looks again, reports the device offline, and frees its slot.
unfoldable pub drop_worker : Text → List (Text × Time) → List (Text × Time)
drop_worker dev [] = []
drop_worker dev ((at, t) ∷ rest) =
    let later = drop_worker dev rest in if at == dev then rest else (at, t) ∷ later

unfoldable pub report_offline : Server → Text → Session → Time → Option GoError → Server
unfolding transition is_expired
report_offline s dev ss now answer =
    if is_expired s ss now
    then transition s dev (record ss { checking = false }) false answer
    else put s dev (record ss { checking = false })

unfoldable pub work : Server → Text → Time → Option GoError → Server
unfolding report_offline drop_worker
work s dev now answer = elim (lookup dev s.sessions) [
  | none ↦ s
  | some ss ↦ record (report_offline s dev ss now answer) {
    slots = s.slots - 1;
    workers = drop_worker dev s.workers;
  }
]
