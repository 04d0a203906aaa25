-- ===== src/Camera/Errors.antt =====
-- internal/camera/service.go: which errors leave the service.
use iolink.Base.{
  ◌≡◌, refl, subst, inl, inr, Bool, ◌||◌, license, clock_error, true, false, Bool-cases, List, [],
  ◌∷◌, All, ℤ, pos, Option, none, some, GoError, plain, is_err, Sentinel, domain, context, camera,
  CameraError, DomainError, internal, canceled, deadline_exceeded, err, arith,
}
use iolink.World.{M, Run-cases, continue, ◌>>=◌, ◌>>◌, require, need, on_err}
use iolink.Camera.Configuration.{Configuration, invalid_camera}
use iolink.Camera.Credentials.{is_positive}
use iolink.Camera.Source.{VideoSource}
use iolink.Camera.Store.{
  Camera, Page, Store, unavailable_camera, safe_errors, first_safe, shown, safe_error,
  run_transaction,
}
use iolink.Camera.Service.{
  Dependencies, bounded, fits, disable_in, authorized, clock_failure, run, list, get, prepare_write,
  observe_clock, target, configure_source, configure, create, replace, disable,
}

-- One of the errors that the service shows, and nothing else in its tree.
pub data IsSafe : GoError → Type 0 where
  a_forbidden : IsSafe (plain (domain DomainError.forbidden))
  a_missing : IsSafe (plain (domain DomainError.not_found))
  an_invalid : IsSafe (plain (camera CameraError.invalid))
  an_unavailable : IsSafe (plain (camera CameraError.unavailable))
  an_internal : IsSafe (plain (camera internal))
  a_canceled : IsSafe (plain (context canceled))
  a_deadline : IsSafe (plain (context deadline_exceeded))

-- A call that fails with nothing but such errors.
abbrev pub IsGuarded : {W A : Type 0} → M W A → Type 0
IsGuarded {W} {A} m = (w w' : W) (e : GoError) → m w ≡ (w', err e) → IsSafe e

first_safe-IsSafe :
    (list : List Sentinel) (e : GoError) {s : Sentinel}
    → All (λ x. IsSafe (plain x)) list
    → first_safe list e ≡ some s
    → IsSafe (plain s)
unfolding first_safe
first_safe-IsSafe [] e v h = absurd cc
first_safe-IsSafe (x ∷ list) e v h = elim (Bool-cases (is_err e x)) [
  | inl t ↦ subst (λ y. IsSafe (plain y)) (ground arith) v.0
  | inr f ↦ first_safe-IsSafe list e v.1 (ground arith)
]

shown-IsSafe :
    (no_rows : Bool) (o : Option Sentinel)
    → ((s : Sentinel) → o ≡ some s → IsSafe (plain s))
    → IsSafe (shown no_rows o)
shown-IsSafe no_rows (some s) v = v s refl
shown-IsSafe true none v = a_missing
shown-IsSafe false none v = an_internal

safe_error-IsSafe : (is_no_rows : GoError → Bool) (e : GoError) → IsSafe (safe_error is_no_rows e)
unfolding safe_error
safe_error-IsSafe is_no_rows e = shown-IsSafe (is_no_rows e) (first_safe safe_errors e) (λ s h.
    first_safe-IsSafe safe_errors e
      (
        a_forbidden,
        (a_missing, (an_invalid, (an_unavailable, (an_internal, (a_canceled, (a_deadline, tt)))))),
      )
      h)

module _ {W : Type 0} where
  bind-IsGuarded :
      {A B : Type 0} (m : M W A) (f : A → M W B)
      → IsGuarded m
      → ((a : A) → IsGuarded (f a))
      → IsGuarded (m >>= f)
  bind-IsGuarded m f u v w w' e h = elim (Run-cases (m w)) [
    | inl (w1, a, k) ↦ v a w1 w' e (subst (λ r. continue f r ≡ (w', err e)) k h)
    | inr (w1, x, k) ↦ u w w1 e (subst (λ y. m w ≡ (w1, err y)) (ground arith) k)
  ]

  need-IsGuarded :
      {A : Type 0} (o : Option A) (e : GoError) → IsSafe e → IsGuarded (need {W = W} o e)
  need-IsGuarded (some a) e s w w' x h = absurd (ground arith)
  need-IsGuarded none e s w w' x h = subst IsSafe (ground arith) s

  require-IsGuarded : (b : Bool) (e : GoError) → IsSafe e → IsGuarded (require {W = W} b e)
  require-IsGuarded true e s w w' x h = absurd (ground arith)
  require-IsGuarded false e s w w' x h = subst IsSafe (ground arith) s

  on_err-IsGuarded :
      {A : Type 0} (f : GoError → GoError) (m : M W A)
      → ((e : GoError) → IsSafe (f e))
      → IsGuarded (on_err f m)
  on_err-IsGuarded f m s w w' x h = elim (Run-cases (m w)) [
    | inl (w1, a, k) ↦ absurd (ground arith)
    | inr (w1, e, k) ↦ subst IsSafe (ground arith) (s e)
  ]

  run_transaction-IsGuarded :
      {A : Type 0} (store : Store W) (m : M W A) → IsGuarded (run_transaction store m)
  unfolding run_transaction
  run_transaction-IsGuarded store m w w' x h = elim (Run-cases (store.begin w)) [
    | inr (w1, e, k) ↦ subst IsSafe (ground arith) an_unavailable
    | inl (w1, a, k) ↦ elim (Run-cases (m w1)) [
      | inr (w2, e, l) ↦ subst IsSafe (ground arith) (safe_error-IsSafe store.is_no_rows e)
      | inl (w2, b, l) ↦ elim (Run-cases (store.commit w2)) [
        | inl (w3, c, n) ↦ absurd (ground arith)
        | inr (w3, c, n) ↦ subst IsSafe (ground arith) an_unavailable
      ]
    ]
  ]

  module _ (d : Dependencies W) where
    run-IsGuarded :
        {A : Type 0} (write : Bool) (operation : Store W → M W A)
        → IsGuarded (run d write operation)
    unfolding run
    run-IsGuarded write operation =
        bind-IsGuarded (need d.store unavailable_camera)
          (λ store. run_transaction store (authorized d store write operation))
          (need-IsGuarded d.store unavailable_camera an_unavailable)
          (λ store. run_transaction-IsGuarded store (authorized d store write operation))

    require-then :
        {A : Type 0} (b : Bool) (m : M W A)
        → IsGuarded m
        → IsGuarded (require b invalid_camera >> m)
    require-then b m v =
        bind-IsGuarded (require b invalid_camera) (λ u. m)
          (require-IsGuarded b invalid_camera an_invalid) (λ u. v)

    require-run :
        {A : Type 0} (b write : Bool) (operation : Store W → M W A)
        → IsGuarded (require b invalid_camera >> run d write operation)
    require-run b write operation =
        require-then b (run d write operation) (run-IsGuarded write operation)

    clock_failure-IsSafe : (e : GoError) → IsSafe (clock_failure e)
    unfolding clock_failure
    clock_failure-IsSafe e =
        elim (Bool-cases
          (is_err e (license clock_error) || is_err e (domain DomainError.forbidden))) [
            | inl t ↦ rw t a_forbidden
            | inr f ↦ rw f an_unavailable
          ]

    observe_clock-IsGuarded : IsGuarded (observe_clock d)
    unfolding observe_clock
    observe_clock-IsGuarded =
        bind-IsGuarded (need d.observe_license_clock unavailable_camera) (on_err clock_failure)
          (need-IsGuarded d.observe_license_clock unavailable_camera an_unavailable)
          (λ m. on_err-IsGuarded clock_failure m clock_failure-IsSafe)

    configure_source-IsGuarded :
        (id : ℤ) (cfg : Configuration) (source : VideoSource)
        → IsGuarded (configure_source d id cfg source)
    unfolding configure_source
    configure_source-IsGuarded id cfg source =
        let checking : Store W → M W (Unit {0}) = λ tx. tx.check_target (target d id cfg) in
        let writing : M W Camera = run d true (prepare_write d id cfg source) in
        bind-IsGuarded (run d true checking) (λ u. observe_clock d >> writing)
          (run-IsGuarded true checking)
          (λ u.
            bind-IsGuarded (observe_clock d) (λ v. writing) observe_clock-IsGuarded
              (λ v. run-IsGuarded true (prepare_write d id cfg source)))

    configure-IsGuarded : (id : ℤ) (cfg : Configuration) → IsGuarded (configure d id cfg)
    unfolding configure
    configure-IsGuarded id cfg =
        require-then (is_positive cfg.pond_id)
          (need cfg.source invalid_camera >>= configure_source d id cfg)
          (bind-IsGuarded (need cfg.source invalid_camera) (configure_source d id cfg)
            (need-IsGuarded cfg.source invalid_camera an_invalid)
            (configure_source-IsGuarded id cfg))

    -- Every call of the service that fails shows one of seven errors with nothing else in its tree,
    -- whatever the store, the license, the cipher, the clock and the availability report.
    pub calls-IsGuarded :
        ((page : Page) → IsGuarded (list d page))
        × ((id : ℤ) → IsGuarded (get d id))
        × ((cfg : Configuration) → IsGuarded (create d cfg))
        × ((id : ℤ) (cfg : Configuration) → IsGuarded (replace d id cfg))
        × ((id : ℤ) → IsGuarded (disable d id))
    unfolding list get create replace disable
    calls-IsGuarded = (
      λ page. require-run (fits page) false (λ tx. tx.list (bounded page)),
      λ id. require-run (is_positive id) false (λ tx. tx.read id),
      λ cfg. configure-IsGuarded (pos 0) cfg,
      λ id cfg. require-then (is_positive id) (configure d id cfg) (configure-IsGuarded id cfg),
      λ id. require-run (is_positive id) true (disable_in d id),
    )
