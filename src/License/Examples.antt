-- ===== src/License/Examples.antt =====
-- The theorems on licenses at concrete data.
use iolink.Base.{◌+◌, ◌*◌, ◌≡◌, refl, false, true, leb, all, List, [], ◌∷◌, some, none}
use iolink.Media.{second}
use iolink.License.Status.{clock_slack}
use iolink.License.Clock.{ClockRow, Faults, observe_row, end_observation, observe}
use iolink.License.Traces.{ClockCall, observes, run, step, after_observe, fresh, observe-accepted}

abbrev no_faults : Faults
no_faults = record { begin = none; query = none; exec = none; audit = none; commit = none }

abbrev observations : List ClockCall
observations = observes (400 * second) no_faults ∷ observes (500 * second) no_faults ∷ []

abbrev seen_row : ClockRow
seen_row = record { max_seen = some (500 * second); latched = false; reconciled_by = [] }

observed : observe (run fresh observations).row (300 * second) no_faults ≡ (seen_row, none)
unfolding observe observe_row end_observation run step after_observe
observed = refl

observe-accepted_example :
    ((run fresh observations).row.latched ≡ false)
    × (all (λ t. leb t (300 * second + clock_slack)) (run fresh observations).accepted ≡ true)
observe-accepted_example = observe-accepted observations (300 * second) no_faults observed
