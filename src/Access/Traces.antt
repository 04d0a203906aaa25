-- ===== src/Access/Traces.antt =====
-- internal/access over any interleaving of critical sections, by any clients and workers.
use iolink.Base.{
  ◌≤◌, ◌≡◌, refl, sym, inl, inr, nat_eq, text_eq, Bool, Text, ℤ, List, [], ◌∷◌, length, Option,
  none, some, lookup, GoError, arith, Option-cases,
}
use iolink.Media.{Time}
use iolink.Access.Sessions.{
  Client, Server, Connection, max_slots, new_server, connected, forget, leave, heartbeat,
}
use iolink.Access.Sweep.{sweep_device, work}
use iolink.Access.Steps.{online_of, checking_of, last_status, count_workers}
use iolink.Access.Invariant.{
  Inv, leave-Inv, heartbeat-Inv, sweep_device-Inv, work-Inv, connected-Inv,
}

pub data Call : Type 0 where
  connects : Client → Connection → Call
  forgets : Client → Call
  leaves : Client → Text → Bool → Option GoError → Call
  beats : Text → Time → Option GoError → Call
  sweeps : Text → Time → Bool → Call
  works : Text → Option GoError → Call

-- A worker runs only where `sweep` started one.
unfoldable pub step : Server → Call → Server
step s (connects cl c) = connected s cl c
step s (forgets cl) = forget s cl
step s (leaves cl dev taken_over a) = leave s cl dev taken_over a
step s (beats dev now a) = heartbeat s dev now a
step s (sweeps dev now busy) = sweep_device s dev now busy
step s (works dev a) = elim (lookup dev s.workers) [ none ↦ s | some now ↦ work s dev now a ]

unfoldable pub run : Server → List Call → Server
unfolding step
run s [] = s
run s (c ∷ cs) = run (step s c) cs

step-Inv : (s : Server) (c : Call) → Inv s → Inv (step s c)
unfolding step
step-Inv s (connects cl c) v = connected-Inv s cl c v
step-Inv s (forgets cl) v =
    unfold forget in
    record { reported = v.reported; counted = v.counted; taken = v.taken; bounded = v.bounded }
step-Inv s (leaves cl dev taken_over a) v = leave-Inv s cl dev taken_over a v
step-Inv s (beats dev now a) v = heartbeat-Inv s dev now a v
step-Inv s (sweeps dev now busy) v = sweep_device-Inv s dev now busy v
step-Inv s (works dev a) v = elim (Option-cases (lookup dev s.workers)) [
  | inl e ↦ rw (e, step) v
  | inr (now, e) ↦ rw (e, step) (work-Inv s dev now a e v)
]

run-Inv : (s : Server) (cs : List Call) → Inv s → Inv (run s cs)
unfolding run
run-Inv s [] v = v
run-Inv s (c ∷ cs) v = run-Inv (step s c) cs (step-Inv s c v)

new-Inv : (report_interval grace_factor : ℤ) → Inv (new_server report_interval grace_factor)
unfolding new_server lookup last_status count_workers
new-Inv report_interval grace_factor = record {
  reported = λ dev. refl;
  counted = λ dev. refl;
  taken = refl;
  bounded = omega arith;
}

-- Whatever the clients, the clock and the handler do, and however the critical sections interleave,
-- a device is held to be online exactly if the last status event that the handler took for it says so,
-- and offline if there was none.
pub online-last_status :
    (report_interval grace_factor : ℤ) (cs : List Call) (dev : Text)
    → online_of dev (run (new_server report_interval grace_factor) cs).sessions
      ≡ last_status dev (run (new_server report_interval grace_factor) cs).sent
online-last_status r g cs dev = sym ((run-Inv (new_server r g) cs (new-Inv r g)).reported dev)

-- However the critical sections interleave, the sweep has at most sixteen workers out, as many as slots
-- are taken, and one for a device exactly while that device is marked as being checked.
workers-checking :
    (report_interval grace_factor : ℤ) (cs : List Call) (dev : Text)
    → let s = run (new_server report_interval grace_factor) cs in
      (s.slots ≡ length s.workers)
      × (s.slots ≤ max_slots)
      × (count_workers dev s.workers ≡ checking_of dev s.sessions)
workers-checking r g cs dev =
    let v = run-Inv (new_server r g) cs (new-Inv r g) in (v.taken, v.bounded, v.counted dev)
