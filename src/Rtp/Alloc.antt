-- ===== src/Rtp/Alloc.antt =====
-- ports.go: `PortPair`, `Allocator`, `Allocate` and `Release`. A method is modelled on a non-nil
-- receiver; a context is what its `Err` answers before and after the lock is taken.
use iolink.Base.{
  ℕ, suc, ◌+◌, ◌-◌, ◌*◌, ◌/◌, ◌%◌, ◌==◌, nat_eq, leb, if◌then◌else◌, Bool, true, false, ◌&&◌,
  Option, none, some, List, [], ◌∷◌, set, get_elem?, replicate, GoError, plain, rtp, exhausted,
  invalid_pair, invalid_context, not_allocated, Result, ok, err, ◌>>◌, guard, check,
}

abbrev pub min_rtp_port : ℕ
min_rtp_port = 30000

abbrev pub max_rtp_port : ℕ
max_rtp_port = 30038

abbrev pub rtcp_offset : ℕ
rtcp_offset = 1

abbrev pub port_pair_count : ℕ
port_pair_count = (max_rtp_port - min_rtp_port) / 2 + 1

pub record PortPair : Type 0 where
  pub rtp_port : ℕ
  pub rtcp_port : ℕ

unfoldable pub valid : PortPair → Bool
valid p =
    leb min_rtp_port p.rtp_port
    && leb p.rtp_port max_rtp_port
    && p.rtp_port % 2 == 0
    && p.rtcp_port == p.rtp_port + rtcp_offset

pub record Allocator : Type 0 where
  pub allocated : List Bool

unfoldable pub new_allocator : Allocator
new_allocator = record { allocated = replicate port_pair_count false }

-- A non-nil `context.Context`, by the two answers of `ctx.Err()`.
pub record Context : Type 0 where
  pub before_lock : Option GoError
  pub under_lock : Option GoError

unfoldable pub check_context : Option Context → Result (Unit {0})
check_context none = err (plain (rtp invalid_context))
check_context (some ctx) = do check ctx.before_lock; check ctx.under_lock

-- The loop of `Allocate`: the first index that is not allocated.
unfoldable pub first_free : ℕ → List Bool → Option ℕ
first_free i [] = none
first_free i (taken ∷ rest) = let later = first_free (suc i) rest in if taken then later else some i

unfoldable pub pair_at : ℕ → PortPair
pair_at index = record {
  rtp_port = min_rtp_port + index * 2;
  rtcp_port = min_rtp_port + index * 2 + rtcp_offset;
}

unfoldable pub take_free : Allocator → Option ℕ → Allocator × Result PortPair
take_free a none = (a, err (plain (rtp exhausted)))
take_free a (some index) = (record a { allocated = set a.allocated index true }, ok (pair_at index))

unfoldable pub allocate_checked : Allocator → Result (Unit {0}) → Allocator × Result PortPair
unfolding take_free first_free
allocate_checked a (err e) = (a, err e)
allocate_checked a (ok _) = take_free a (first_free 0 a.allocated)

unfoldable pub allocate : Allocator → Option Context → Allocator × Result PortPair
unfolding allocate_checked check_context
allocate a ctx = allocate_checked a (check_context ctx)

unfoldable pub index_of : PortPair → ℕ
index_of p = (p.rtp_port - min_rtp_port) / 2

unfoldable pub free_index : Allocator → ℕ → Option Bool → Allocator × Result (Unit {0})
free_index a index (some true) = (record a { allocated = set a.allocated index false }, ok tt)
free_index a index _ = (a, err (plain (rtp not_allocated)))

-- The order of `Release`: context, pair, context again under the lock.
unfoldable pub check_release : Option Context → PortPair → Result (Unit {0})
unfolding valid
check_release none p = err (plain (rtp invalid_context))
check_release (some ctx) p = do
  check ctx.before_lock
  guard (valid p) (plain (rtp invalid_pair))
  check ctx.under_lock

unfoldable pub release_checked :
    Allocator → PortPair → Result (Unit {0}) → Allocator × Result (Unit {0})
unfolding free_index index_of
release_checked a p (err e) = (a, err e)
release_checked a p (ok _) = free_index a (index_of p) (get_elem? a.allocated (index_of p))

unfoldable pub release : Allocator → Option Context → PortPair → Allocator × Result (Unit {0})
unfolding release_checked check_release
release a ctx p = release_checked a p (check_release ctx p)
