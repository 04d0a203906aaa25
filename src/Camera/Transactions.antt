-- ===== src/Camera/Transactions.antt =====
-- internal/camera/service.go: what a transaction that was committed has passed.
use iolink.Base.{◌≡◌, subst, inl, inr, Bool, some, Option-cases, GoError, ok, arith}
use iolink.World.{M, Run-cases, on_err}
use iolink.Camera.Store.{Store, run_transaction}
use iolink.Camera.Service.{Dependencies, authorized, run}

module _ {W : Type 0} where
  -- A transaction that began, passed its check of the authority, ran and was committed.
  pub record Committed {A : Type 0} (s : Store W) (write : Bool) (operation : M W A) (w w' : W)
      (a : A) : Type 0 where
    pub opened : W
    pub admitted : W
    pub done : W
    pub closed : W
    pub began : s.begin w ≡ (opened, ok tt)
    pub authority : s.authorize write opened ≡ (admitted, ok tt)
    pub ran : operation admitted ≡ (done, ok a)
    pub committed : s.commit done ≡ (closed, ok tt)
    pub left : w' ≡ s.rollback closed

  pub on_err-ok :
      {A : Type 0} (f : GoError → GoError) (m : M W A) (w : W) {w' : W} {a : A}
      → on_err f m w ≡ (w', ok a)
      → m w ≡ (w', ok a)
  on_err-ok f m w h = elim (Run-cases (m w)) [
    | inl (w1, a, k) ↦ ground arith
    | inr (w1, x, k) ↦ absurd (ground arith)
  ]

  run_transaction-Committed :
      {A : Type 0} (s : Store W) (d : Dependencies W) (write : Bool) (op : Store W → M W A) (w : W)
      {w' : W} {a : A}
      → run_transaction s (authorized d s write op) w ≡ (w', ok a)
      → Committed s write (op s) w w' a
  unfolding run_transaction
  run_transaction-Committed s d write op w {w'} {a} h = elim (Run-cases (s.begin w)) [
    | inr (w1, e, k) ↦ absurd (ground arith)
    | inl (w1, u, k) ↦ elim (Run-cases (s.authorize write w1)) [
      | inr (w2, e, l) ↦ absurd (ground arith)
      | inl (w2, v, l) ↦ elim (Run-cases (op s w2)) [
        | inr (w3, e, m) ↦ absurd (ground arith)
        | inl (w3, b, m) ↦ elim (Run-cases (s.commit w3)) [
          | inr (w4, e, n) ↦ absurd (ground arith)
          | inl (w4, c, n) ↦
              let same : b ≡ a = ground arith in
              let left : w' ≡ s.rollback w4 = ground arith in
              record {
                opened = w1;
                admitted = w2;
                done = w3;
                closed = w4;
                began = k;
                authority = l;
                ran = subst (λ x. op s w2 ≡ (w3, ok x)) same m;
                committed = n;
                left = left;
              }
        ]
      ]
    ]
  ]

  pub run-store :
      {A : Type 0} (d : Dependencies W) (write : Bool) (op : Store W → M W A) (w : W) {w' : W}
      {a : A}
      → run d write op w ≡ (w', ok a)
      → (s : Store W) × (d.store ≡ some s)
  unfolding run
  run-store d write op w h = elim (Option-cases d.store) [
    | inl e ↦ absurd (ground arith)
    | inr (s, e) ↦ (s, e)
  ]

  pub run-Committed :
      {A : Type 0} (d : Dependencies W) (s : Store W) (write : Bool) (op : Store W → M W A) (w : W)
      {w' : W} {a : A}
      → d.store ≡ some s
      → run d write op w ≡ (w', ok a)
      → Committed s write (op s) w w' a
  unfolding run
  run-Committed d s write op w e h = run_transaction-Committed s d write op w (ground arith)
