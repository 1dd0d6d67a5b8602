-- ===== src/Rooms/Details.antt =====
-- The readers of js_andruav_chat_account_rooms.js for the reports to the Auth server: the ids of the
-- accounts, and the units of each.
use droneengage_server.Base.{
  ℕ, Option, none, some, List, [], ◌∷◌, String, keys, length, Json, Items, Fields, null, obj, arr,
  str, nil, field, end, push, set_prop, set_opt, str_of, Dict,
}
use droneengage_server.Rooms.{Rooms, LoginRequest}

-- one line of `c_unitDetails`
unfoldable pub unit_details : String → Option LoginRequest → Json
unit_details name none =
    obj (field "unitName" (str name) (field "actorType" (str "a") (field "requestId" null end)))
unit_details name (some login) = obj (
    set_opt "requestId" (str_of login.request_id)
      (set_opt "actorType" (str_of login.actor_type) (field "unitName" (str name) end)))

module _ {M : Type 0} (r : Rooms M) where
  -- `fn_getUnitKeys`
  unfoldable pub get_unit_keys : List String
  get_unit_keys = keys r.c_accounts

  -- `fn_getUnitCount`
  unfoldable pub get_unit_count : ℕ
  get_unit_count = length (keys r.c_accounts)

  -- the loop over the units of a group
  unfoldable pub details_of_units : Dict ℕ → Items → Items
  details_of_units [] found = found
  details_of_units ((name, ws) ∷ units) found =
      details_of_units units (push found (unit_details name (r.sockets ws).login_request))

  -- the loop over the groups of an account
  unfoldable pub details_of_groups : Dict ℕ → Items → Items
  details_of_groups [] found = found
  details_of_groups ((id, g) ∷ groups) found =
      details_of_groups groups (details_of_units (r.groups g).units found)

  -- the loop over the accounts
  unfoldable pub details_of_accounts : Dict ℕ → Fields → Fields
  details_of_accounts [] details = details
  details_of_accounts ((id, a) ∷ accounts) details =
      details_of_accounts accounts
        (set_prop id (arr (details_of_groups (r.accounts a).groups nil)) details)

  -- `fn_getAccountDetails`
  unfoldable pub get_account_details : Fields
  get_account_details = details_of_accounts r.c_accounts end
