-- ===== src/Gb/Nonces.antt =====
-- internal/gb/nonce.go: the memory store of nonces. Both maps are association lists whose order is
-- that in which `range` visits them; an operation runs under the mutex. The random nonce is an
-- argument, `none` where `rand.Read` fails.
use iolink.Base.{
  ℕ, zero, suc, ◌+◌, text_eq, ◌||◌, not, if◌then◌else◌, leb, Text, is_empty, List, [], ◌∷◌, Option,
  none, some, length, lookup, insert, delete, GoError, plain, gb, nonce_invalid, nonce_replay,
  Result, ok, err,
}
use iolink.Media.{Time, before, is_zero_time}
use iolink.Gb.Peers.{Peer, peer_valid}

pub record NonceRecord : Type 0 where
  pub device_id : Text
  pub realm : Text
  pub peer : Peer
  pub uri : Text
  pub expires_at : Time

abbrev pub max_memory_nonces : ℕ
max_memory_nonces = 4096

pub record NonceStore : Type 0 where
  pub entries : List (Text × NonceRecord)
  pub used : List (Text × Time)

unfoldable pub new_nonce_store : NonceStore
new_nonce_store = record { entries = []; used = [] }

abbrev pub size : NonceStore → ℕ
size s = length s.entries + length s.used

-- One round of the search for the entry that runs out first; an empty key stands for none.
unfoldable pub older : Text × Time → Text × Time → Text × Time
older (oldest, expiry) (key, at) =
    if is_empty oldest || before at expiry then (key, at) else (oldest, expiry)

-- The search through one of the two maps.
unfoldable pub oldest_in {ℓ} :
    {V : Type ℓ} → (V → Time) → Text × Time → List (Text × V) → Text × Time
oldest_in expiry best [] = best
oldest_in expiry best ((key, v) ∷ rest) = oldest_in expiry (older best (key, expiry v)) rest

unfoldable pub oldest : NonceStore → Text
oldest s = (oldest_in (λ at. at) (oldest_in (λ r. r.expires_at) ([], 0) s.entries) s.used).0

unfoldable pub evict : NonceStore → Text → NonceStore
evict s key = record { entries = delete key s.entries; used = delete key s.used }

-- The loop of `Issue`; `none` where nothing can be evicted or the fuel runs out.
unfoldable pub make_room : ℕ → NonceStore → Option NonceStore
make_room zero s = none
make_room (suc fuel) s =
    let smaller = make_room fuel (evict s (oldest s)) in
    if leb max_memory_nonces (size s)
    then (if is_empty (oldest s) then none else smaller)
    else some s

abbrev pub invalid : GoError
invalid = plain (gb nonce_invalid)

-- The insertion of `Issue`, after its loop.
unfoldable pub add_nonce :
    NonceStore → NonceRecord → Text → Option NonceStore → NonceStore × Result Text
add_nonce s r nonce none = (s, err invalid)
add_nonce s r nonce (some room) = (record room { entries = insert nonce r room.entries }, ok nonce)

unfoldable pub issue : NonceStore → NonceRecord → Option Text → NonceStore × Result Text
issue s r none = (s, err invalid)
issue s r (some nonce) =
    if not (peer_valid r.peer) || is_zero_time r.expires_at
    then (s, err invalid)
    else add_nonce s r nonce (make_room (suc (size s)) s)

-- The loop of `Consume` that drops what has run out of a map.
unfoldable pub live {ℓ} : {V : Type ℓ} → (V → Time) → Time → List (Text × V) → List (Text × V)
live expiry now [] = []
live expiry now ((key, v) ∷ rest) =
    let kept = live expiry now rest in if before now (expiry v) then (key, v) ∷ kept else kept

unfoldable pub sweep : NonceStore → Time → NonceStore
sweep s now = record {
  entries = live (λ r. r.expires_at) now s.entries;
  used = live (λ at. at) now s.used;
}

unfoldable pub use_up : NonceStore → Text → NonceRecord → NonceStore
use_up s nonce r = record {
  entries = delete nonce s.entries;
  used = insert nonce r.expires_at s.used;
}

unfoldable pub consume_entry :
    NonceStore → Text → Time → Option NonceRecord → NonceStore × Result NonceRecord
consume_entry s nonce now none = (s, err invalid)
consume_entry s nonce now (some r) =
    (use_up s nonce r, if not (before now r.expires_at) then err invalid else ok r)

unfoldable pub consume_live :
    NonceStore → Text → Time → Option Time → NonceStore × Result NonceRecord
consume_live s nonce now (some at) = (s, err (plain (gb nonce_replay)))
consume_live s nonce now none = consume_entry s nonce now (lookup nonce s.entries)

unfoldable pub consume : NonceStore → Text → Time → NonceStore × Result NonceRecord
consume s nonce now =
    if is_empty nonce || is_zero_time now
    then (s, err invalid)
    else consume_live (sweep s now) nonce now (lookup nonce (sweep s now).used)
