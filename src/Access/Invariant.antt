-- ===== src/Access/Invariant.antt =====
-- internal/access/access.go: what every critical section keeps: the statuses reported, and the marks,
-- the workers and the slots of `sweep`.
use iolink.Base.{
  ◌+◌, ◌-◌, ◌≤◌, ◌<◌, ◌≡◌, subst, inl, inr, ◌==◌, ==_iff, nat_eq, text_eq, Bool, true, false, ◌||◌,
  not, if◌then◌else◌, Text, List, [], ◌∷◌, length, Option, none, some, lookup, insert, GoError,
  plain, access, bad_topic, arith, Bool-cases, Option-cases, lookup-insert, ltb,
}
use iolink.Media.{Time}
use iolink.Access.Sessions.{
  Client, Session, Server, Connection, max_slots, session_or_new, put, transition, attach, attached,
  connected, is_client, is_revoked, leave, heartbeat,
}
use iolink.Access.Sweep.{is_expired, sweep_device, drop_worker, report_offline, work}
use iolink.Access.Steps.{
  flag, online_of, checking_of, count_workers, Reported, transition-Frame, put-Reported,
  transition-Reported, checking-transition,
}

pub record Inv (s : Server) : Type 0 where
  pub reported : Reported s
  pub counted : (dev : Text) → count_workers dev s.workers ≡ checking_of dev s.sessions
  pub taken : s.slots ≡ length s.workers
  pub bounded : s.slots ≤ max_slots

transition-Inv :
    (s : Server) (dev : Text) (ss : Session) (online : Bool) (a : Option GoError)
    → Inv s
    → ss.online ≡ online_of dev s.sessions
    → flag ss.checking ≡ checking_of dev s.sessions
    → Inv (transition s dev ss online a)
transition-Inv s dev ss online a v o c =
    let f = transition-Frame s dev ss online a in
    record {
      reported = transition-Reported s dev ss online a v.reported o;
      counted = λ other. elim (Bool-cases (dev == other)) [
        | inr b ↦
            ground
              (arith, b, v.counted other, f.workers, checking-transition s dev other ss online a)
        | inl b ↦
            let same : dev ≡ other = (==_iff dev other).0 b in
            let there : count_workers other s.workers ≡ flag ss.checking =
              subst (λ x. count_workers x s.workers ≡ flag ss.checking) same
                (ground (arith, c, v.counted dev)) in
            ground (arith, b, there, f.workers, checking-transition s dev other ss online a)
      ];
      taken = ground (arith, v.taken, f.workers, f.slots);
      bounded = ground (arith, v.bounded, f.slots);
    }

put-Inv :
    (s : Server) (dev : Text) (ss : Session)
    → Inv s
    → ss.online ≡ online_of dev s.sessions
    → flag ss.checking ≡ checking_of dev s.sessions
    → Inv (put s dev ss)
unfolding transition
put-Inv s dev ss v o c = transition-Inv s dev ss true (some (plain (access bad_topic))) v o c

attach-Inv :
    (s : Server) (cl : Client) (c : Connection) (dev : Text) → Inv s → Inv (attach s cl c dev)
unfolding attach session_or_new
attach-Inv s cl c dev v =
    let base : Server = record s { device_of = insert cl dev s.device_of } in
    let w : Inv base = record {
      reported = v.reported;
      counted = v.counted;
      taken = v.taken;
      bounded = v.bounded;
    } in
    let ss = session_or_new s dev in
    elim (Bool-cases (c.taken_over || is_revoked c.device_revision)) [
      | inl b ↦ rw b (put-Inv s dev ss v (ground arith) (ground arith))
      | inr b ↦ rw b (
          transition-Inv base dev (attached s ss cl c) true c.answer w (ground arith)
            (ground arith))
    ]

pub leave-Inv :
    (s : Server) (cl : Client) (dev : Text) (taken_over : Bool) (a : Option GoError)
    → Inv s
    → Inv (leave s cl dev taken_over a)
unfolding leave
leave-Inv s cl dev taken_over a v = elim (Option-cases (lookup dev s.sessions)) [
  | inl e ↦ rw (e, leave) v
  | inr (ss, e) ↦ elim (Bool-cases (not (is_client ss.client cl) || taken_over)) [
    | inl b ↦ rw (e, leave, b) v
    | inr b ↦
        rw (e, leave, b)
          (transition-Inv s dev (record ss { client = none }) false a v (ground (arith, e))
            (ground (arith, e)))
  ]
]

pub heartbeat-Inv :
    (s : Server) (dev : Text) (now : Time) (a : Option GoError)
    → Inv s
    → Inv (heartbeat s dev now a)
unfolding heartbeat
heartbeat-Inv s dev now a v = elim (Option-cases (lookup dev s.sessions)) [
  | inl e ↦ rw (e, heartbeat) v
  | inr (ss, e) ↦ elim (Option-cases ss.client) [
    | inl c ↦ rw (e, heartbeat, c) v
    | inr (cl, c) ↦
        rw (e, heartbeat, c)
          (transition-Inv s dev (record ss { last_seen = now }) true a v (ground (arith, e))
            (ground (arith, e)))
  ]
]

marked-Inv :
    (s : Server) (dev : Text) (now : Time) (ss : Session)
    → Inv s
    → lookup dev s.sessions ≡ some ss
    → ss.checking ≡ false
    → s.slots < max_slots
    → Inv (record s {
      sessions = insert dev (record ss { checking = true }) s.sessions;
      slots = s.slots + 1;
      workers = (dev, now) ∷ s.workers;
    })
unfolding count_workers
marked-Inv s dev now ss v e c lt = record {
  reported = put-Reported s dev (record ss { checking = true }) v.reported (ground (arith, e));
  counted = λ other. elim (Bool-cases (dev == other)) [
    | inr b ↦ ground (
      arith,
      b,
      v.counted other,
      lookup-insert dev other (record ss { checking = true }) s.sessions,
    )
    | inl b ↦
        let same : dev ≡ other = (==_iff dev other).0 b in
        let there : count_workers other s.workers ≡ 0 =
          subst (λ x. count_workers x s.workers ≡ 0) same (ground (arith, e, v.counted dev)) in
        ground (arith, b, there, lookup-insert dev other (record ss { checking = true }) s.sessions)
  ];
  taken = ground (arith, v.taken);
  bounded = ground (arith, lt);
}

pub sweep_device-Inv :
    (s : Server) (dev : Text) (now : Time) (busy : Bool) → Inv s → Inv (sweep_device s dev now busy)
unfolding sweep_device
sweep_device-Inv s dev now busy v = elim (Option-cases (lookup dev s.sessions)) [
  | inl e ↦ rw (e, sweep_device) v
  | inr (ss, e) ↦
      elim (Bool-cases (
        busy
        || ss.checking
        || not ss.online
        || not (is_expired s ss now)
        || not (ltb s.slots max_slots))) [
          | inl b ↦ rw (e, sweep_device, b) v
          | inr b ↦
              rw (e, sweep_device, b)
                (marked-Inv s dev now ss v e (ground (arith, b)) (ground (arith, b)))
        ]
]

count-drop :
    (dev other : Text) (ws : List (Text × Time))
    → count_workers other (drop_worker dev ws)
      ≡ (if dev == other then count_workers other ws - 1 else count_workers other ws)
unfolding count_workers drop_worker
count-drop dev other [] = ground arith
count-drop dev other ((at, t) ∷ ws) =
    ground (arith, count-drop dev other ws, ==_iff dev other, ==_iff at dev, ==_iff at other)

length-drop :
    (dev : Text) (ws : List (Text × Time)) {now : Time}
    → lookup dev ws ≡ some now
    → length (drop_worker dev ws) + 1 ≡ length ws
unfolding drop_worker lookup
length-drop dev [] h = cc
length-drop dev ((at, t) ∷ ws) {now} h = elim (Bool-cases (at == dev)) [
  | inl b ↦ ground (arith, b)
  | inr b ↦ ground (arith, b, length-drop dev ws {now = now} (ground (arith, b)))
]

count-lookup :
    (dev : Text) (ws : List (Text × Time)) {now : Time}
    → lookup dev ws ≡ some now
    → 1 ≤ count_workers dev ws
unfolding count_workers lookup
count-lookup dev [] h = cc
count-lookup dev ((at, t) ∷ ws) {now} h = elim (Bool-cases (at == dev)) [
  | inl b ↦ ground (arith, b)
  | inr b ↦ ground (arith, b, count-lookup dev ws {now = now} (ground (arith, b)))
]

report_offline-Reported :
    (s : Server) (dev : Text) (ss : Session) (now : Time) (a : Option GoError)
    → Reported s
    → ss.online ≡ online_of dev s.sessions
    → Reported (report_offline s dev ss now a)
unfolding report_offline
report_offline-Reported s dev ss now a r h = elim (Bool-cases (is_expired s ss now)) [
  | inl b ↦ rw b (transition-Reported s dev (record ss { checking = false }) false a r h)
  | inr b ↦ rw b (put-Reported s dev (record ss { checking = false }) r h)
]

checking-report_offline :
    (s : Server) (dev other : Text) (ss : Session) (now : Time) (a : Option GoError)
    → checking_of other (report_offline s dev ss now a).sessions
      ≡ (if dev == other then 0 else checking_of other s.sessions)
unfolding report_offline
checking-report_offline s dev other ss now a = elim (Bool-cases (is_expired s ss now)) [
  | inl b ↦ rw b (checking-transition s dev other (record ss { checking = false }) false a)
  | inr b ↦ ground (arith, b, lookup-insert dev other (record ss { checking = false }) s.sessions)
]

pub work-Inv :
    (s : Server) (dev : Text) (now : Time) (a : Option GoError)
    → lookup dev s.workers ≡ some now
    → Inv s
    → Inv (work s dev now a)
unfolding work
work-Inv s dev now a h v = elim (Option-cases (lookup dev s.sessions)) [
  | inl e ↦ rw (e, work) v
  | inr (ss, e) ↦
      rw (e, work)
        (record {
          reported = report_offline-Reported s dev ss now a v.reported (ground (arith, e));
          counted = λ other. elim (Bool-cases (dev == other)) [
            | inr b ↦ ground (
              arith,
              b,
              v.counted other,
              count-drop dev other s.workers,
              checking-report_offline s dev other ss now a,
            )
            | inl b ↦
                let same : dev ≡ other = (==_iff dev other).0 b in
                let there : count_workers other s.workers ≤ 1 =
                  subst (λ x. count_workers x s.workers ≤ 1) same
                    (ground (arith, e, v.counted dev)) in
                ground (
                  arith,
                  b,
                  there,
                  count-drop dev other s.workers,
                  checking-report_offline s dev other ss now a,
                )
          ];
          taken = ground (arith, v.taken, length-drop dev s.workers {now = now} h);
          bounded = ground (arith, v.bounded);
        })
]

pub connected-Inv : (s : Server) (cl : Client) (c : Connection) → Inv s → Inv (connected s cl c)
unfolding connected
connected-Inv s cl c v = elim (Option-cases c.resolved) [
  | inl e ↦ rw (e, connected) v
  | inr (dev, e) ↦ rw (e, connected) (attach-Inv s cl c dev v)
]
