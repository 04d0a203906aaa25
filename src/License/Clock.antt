-- ===== src/License/Clock.antt =====
-- internal/core/license_clock.go: the high-water mark of the clock, kept in one row. The calls of the
-- database are in `Faults`, each with the error it ends in, if any; a transaction that is not
-- committed changes nothing, and the row is locked, so a call is one step.
use iolink.Base.{
  ◌+◌, Bool, true, false, if◌then◌else◌, List, ◌∷◌, ℤ, Option, none, some, GoError, plain, license,
  LicenseError, is_err, wrap_err,
}
use iolink.Media.{Time, before, after}
use iolink.License.Status.{clock_slack}

pub record ClockRow : Type 0 where
  pub max_seen : Option Time
  pub latched : Bool
  pub reconciled_by : List ℤ

pub record Faults : Type 0 where
  pub begin : Option GoError
  pub query : Option GoError
  pub exec : Option GoError
  pub audit : Option GoError
  pub commit : Option GoError

abbrev pub clock_failure : GoError
clock_failure = plain (license LicenseError.clock_error)

-- The row that a write leaves, if the write succeeds.
abbrev pub written :
    ClockRow → ClockRow → Option GoError → Option GoError → ClockRow × Option GoError
written old new result none = (new, result)
written old new result (some e) = (old, some (wrap_err e))

-- Whether the clock is earlier than the mark by more than the slack.
abbrev pub runs_back : Option Time → Time → Bool
runs_back none now = false
runs_back (some seen) now = before (now + clock_slack) seen

abbrev pub is_behind : Option Time → Time → Bool
is_behind none now = false
is_behind (some seen) now = before now seen

abbrev pub is_later : Option Time → Time → Bool
is_later none now = true
is_later (some seen) now = after now seen

unfoldable pub observe_row : ClockRow → Time → Faults → ClockRow × Option GoError
observe_row row now f = elim f.query [
  | some e ↦ (row, some (wrap_err e))
  | none ↦
      if row.latched
      then (row, some clock_failure)
      else if runs_back row.max_seen now
      then written row (record row { latched = true }) (some clock_failure) f.exec
      else if is_later row.max_seen now
      then written row (record row { max_seen = some now }) none f.exec
      else (row, none)
]

abbrev pub commit_row : ClockRow → ClockRow → Option GoError → Faults → ClockRow × Option GoError
commit_row old new result f = written old new result f.commit

unfoldable pub end_observation :
    ClockRow → Faults → ClockRow × Option GoError → ClockRow × Option GoError
end_observation row f (new, none) = commit_row row new none f
end_observation row f (new, some e) =
    if is_err e (license LicenseError.clock_error)
    then commit_row row new (some e) f
    else (row, some e)

unfoldable pub observe : ClockRow → Time → Faults → ClockRow × Option GoError
unfolding observe_row end_observation
observe row now f = elim f.begin [
  | some e ↦ (row, some (wrap_err e))
  | none ↦ end_observation row f (observe_row row now f)
]

unfoldable pub clear_latch : ClockRow → ℤ → Faults → ClockRow × Option GoError
clear_latch row actor_id f = elim f.exec [
  | some e ↦ (row, some (wrap_err e))
  | none ↦ elim f.audit [
    | some e ↦ (row, some (wrap_err e))
    | none ↦
        commit_row row
          (record row { latched = false; reconciled_by = actor_id ∷ row.reconciled_by }) none f
  ]
]

unfoldable pub reconcile : ClockRow → Time → ℤ → Faults → ClockRow × Option GoError
unfolding clear_latch
reconcile row now actor_id f = elim f.begin [
  | some e ↦ (row, some (wrap_err e))
  | none ↦ elim f.query [
    | some e ↦ (row, some (wrap_err e))
    | none ↦
        let cleared = clear_latch row actor_id f in
        if is_behind row.max_seen now
        then (row, some clock_failure)
        else if row.latched
        then cleared
        else (row, none)
  ]
]
