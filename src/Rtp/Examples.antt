-- ===== src/Rtp/Examples.antt =====
-- The allocator's theorems at concrete allocators.
use iolink.Base.{◌≡◌, refl, if◌then◌else◌, true, false, none, some, List, [], ◌∷◌, replicate}
use iolink.Rtp.Alloc.{Allocator, Context, pair_at, new_allocator, allocate, release}
use iolink.Rtp.Laws.{IsSized, is_held}
use iolink.Rtp.Traces.{Call, allocates, releases, start, run, count_pair, granted-held}

abbrev live : Context
live = record { before_lock = none; under_lock = none }

abbrev one_taken : Allocator
one_taken = record { allocated = true ∷ replicate 19 false }

abbrev two_taken : Allocator
two_taken = record { allocated = true ∷ true ∷ replicate 18 false }

one_taken-IsSized : IsSized one_taken
one_taken-IsSized = record { sized = refl }

abbrev calls : List Call
calls =
    allocates (some live)
    ∷ allocates (some live)
    ∷ releases (some live) (pair_at 0)
    ∷ releases (some live) (pair_at 0)
    ∷ allocates none
    ∷ []

granted-held_example :
    count_pair (pair_at 1) (run start calls).granted
    ≡ (if is_held (run start calls).allocator (pair_at 1) then 1 else 0)
granted-held_example = granted-held calls (pair_at 1)

-- The second pair is still out after the calls above, the first is not.
calls_end :
    ((run start calls).allocator ≡ record { allocated = false ∷ true ∷ replicate 18 false })
    × (count_pair (pair_at 1) (run start calls).granted ≡ 1)
    × (count_pair (pair_at 0) (run start calls).granted ≡ 0)
unfolding run allocate release new_allocator pair_at count_pair
calls_end = (refl, refl, refl)
