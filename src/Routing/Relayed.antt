-- ===== src/Routing/Relayed.antt =====
-- src/comm_server/chat_server/js_chat_routing.js: what the server does with a message that another server
-- relays (`fn_parseExternalMessage`).
use droneengage_server.Base.{
  ℕ, Bool, true, false, Option, none, some, List, ◌++◌, String, if◌then◌else◌, str_eq, Json, Fields,
  obj, str, prop, property_key, Coercions, JsonText,
}
use droneengage_server.Constants.{
  const_ws_msg_routing, const_ws_msg_routing_group, const_ws_msg_routing_individual,
}
use droneengage_server.Relay.{
  RelayConfig, already_relayed, get_server_origin_id, forward_external_message,
}
use droneengage_server.Rooms.{Rooms}
use droneengage_server.Rooms.Sending.{send_to_all, send_to_account_group, send_to_individual_id}
use droneengage_server.Routing.{
  Server, throws, reserved, missing, unit, target_of, set_rooms, open_message,
}

module _ {B : Type 0} (js : Coercions) where
  unfoldable pub after_scoped :
      Option String
      → List B
      → Bool
      → Option Json
      → Rooms (List B) × Option Bool
      → Option (Rooms (List B))
  after_scoped actor message is_binary sender (r, some true) = some r
  after_scoped actor message is_binary sender (r, some false) =
      some (send_to_all actor message is_binary sender r)
  after_scoped actor message is_binary sender (r, none) = none

  -- `deliverExternalBroadcast`; `none` is an exception, after which nothing has changed
  unfoldable pub deliver_external_broadcast :
      Option String → List B → Bool → Fields → Rooms (List B) → Option (Rooms (List B))
  unfolding after_scoped
  deliver_external_broadcast actor message is_binary fs r =
      let sender = prop "sd" fs in
      elim (prop "_aid" fs) [
        | none ↦ some (send_to_all actor message is_binary sender r)
        | some aid ↦ elim (prop "_gid" fs) [
          | none ↦ some (send_to_all actor message is_binary sender r)
          | some gid ↦ after_scoped actor message is_binary sender (
              send_to_account_group message is_binary sender (property_key js (some aid))
                (property_key js (some gid)) actor r)
        ]
      ]

module _ {B : Type 0} (c : JsonText B) (js : Coercions) (config : RelayConfig) where
  -- a delivery, then `forwardExternalMessage`
  unfoldable pub share_external :
      Option String → List B → Bool → Option ℕ → Fields → Server B → Server B
  share_external actor message is_binary source fs s =
      elim (deliver_external_broadcast js actor message is_binary fs s.rooms) [
        | none ↦ s
        | some r ↦ record {
          rooms = r;
          relayed = s.relayed ++ forward_external_message c config message is_binary source;
        }
      ]

  -- the `switch` of `fn_parseExternalMessage`
  unfoldable pub route_external : List B → Bool → Option ℕ → Fields → Server B → Server B
  route_external message is_binary source fs s = elim (prop const_ws_msg_routing fs) [
    | some (str ty) ↦
        if str_eq ty const_ws_msg_routing_group
        then share_external none message is_binary source fs s
        else (if str_eq ty const_ws_msg_routing_individual
            then elim (target_of js fs) [
              | throws ↦ s
              | reserved actor ↦ share_external actor message is_binary source fs s
              | missing ↦ share_external none message is_binary source fs s
              | unit target ↦
                  set_rooms
                    (send_to_individual_id message is_binary target (property_key js (prop "sd" fs))
                      (prop "_gid" fs) s.rooms)
                    s
            ]
            else s)
    | _ ↦ s
  ]

  -- `fn_parseExternalMessage`
  unfoldable pub parse_external_message : List B → Bool → Option ℕ → Server B → Server B
  parse_external_message message is_binary source s = elim (open_message c message is_binary) [
    | some (obj fs, payload) ↦
        if already_relayed (get_server_origin_id config) fs
        then s
        else route_external message is_binary source fs s
    | _ ↦ s
  ]
