-- ===== src/Auth/InfoCard.antt =====
-- src/comm_server/js_andruav_comm_server.js: the information card of this server that is
-- sent to the Auth server.
use droneengage_server.Base.{
  true, Option, some, List, [], ◌∷◌, String, Json, Items, Fields, bool, arr, obj, str, nil, cons,
  end, field, set_opt, JsonText,
}
use droneengage_server.Rooms.{Rooms}
use droneengage_server.Rooms.Details.{get_unit_keys, get_account_details}
use droneengage_server.Auth.{ManagerClient, send_message}

-- what the configuration, the environment and the package say of the server
pub record Identity : Type 0 where
  pub version : Option Json
  pub server_id : Option Json
  pub public_host : Option Json
  pub server_port : Option Json

abbrev texts : List String → Items
texts [] = nil
texts (s ∷ ss) = cons (str s) (texts ss)

module _ {M : Type 0} (at : Identity) (r : Rooms M) where
  -- the card; a property that is undefined is left out
  unfoldable pub info_card : Fields
  info_card = set_opt "accountDetails" (some (obj (get_account_details r))) (
      set_opt "accounts" (some (arr (texts (get_unit_keys r)))) (
        set_opt "serverPort" at.server_port (
          set_opt "public_host" at.public_host (
            set_opt "serverId" at.server_id
              (set_opt "version" at.version (field "isOnline" (bool true) end))))))

  -- `fn_updateServerWatchdog`
  unfoldable pub update_server_watchdog :
      {B : Type 0} → JsonText B → ManagerClient (List B) → ManagerClient (List B)
  update_server_watchdog c m =
      send_message (c.stringify (obj (field "c" (str "a") (field "d" (obj info_card) end)))) m
