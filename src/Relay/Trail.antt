-- ===== src/Relay/Trail.antt =====
-- About `_path`, the trail that a relayed message carries: how many servers it does not name.
use droneengage_server.Base.{
  ℕ, ◌+◌, ◌≤◌, ◌≡◌, Bool, true, false, List, [], ◌∷◌, String, arith, str_eq, if◌then◌else◌, eq_iff,
  Fields, length,
}
use droneengage_server.Relay.{append_path, already_relayed}
use droneengage_server.Relay.Metadata.{already_relayed-append_path}

unfoldable pub has_server : String → List String → Bool
has_server id [] = false
has_server id (s ∷ ss) = if str_eq id s then true else has_server id ss

-- How many of the servers the trail does not name.
unfoldable pub unseen : List String → Fields → ℕ
unseen [] fs = 0
unseen (s ∷ ss) fs = (if already_relayed s fs then 0 else 1) + unseen ss fs

unseen-append_path_le :
    (ss : List String) (id : String) (gs : Fields) → unseen ss (append_path id gs) ≤ unseen ss gs
unfolding unseen
unseen-append_path_le [] id gs = omega arith
unseen-append_path_le (s ∷ ss) id gs =
    ground (arith, already_relayed-append_path id s gs, unseen-append_path_le ss id gs)

pub unseen-append_path_lt :
    (ss : List String) (id : String) (gs : Fields)
    → has_server id ss ≡ true
    → already_relayed id gs ≡ false
    → unseen ss (append_path id gs) + 1 ≤ unseen ss gs
unfolding unseen has_server
unseen-append_path_lt [] id gs h new = ground arith
unseen-append_path_lt (s ∷ ss) id gs h new = ground (
  arith,
  eq_iff id s,
  already_relayed-append_path id s gs,
  unseen-append_path_le ss id gs,
  unseen-append_path_lt ss id gs,
)

pub unseen-le : (ss : List String) (fs : Fields) → unseen ss fs ≤ length ss
unfolding unseen
unseen-le [] fs = omega arith
unseen-le (s ∷ ss) fs = ground (arith, unseen-le ss fs)
