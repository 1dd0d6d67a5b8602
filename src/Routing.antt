-- ===== src/Routing.antt =====
-- src/comm_server/chat_server/js_chat_routing.js: what the server does with a message of a local
-- client (`fn_parseMessage`); Relayed has what it does with one that another server relays. System
-- messages go to a handler that is a parameter. The other children are proofs.
pub mod Relayed
pub mod Local
pub mod External
pub mod Hops
pub mod Echo
pub mod Permission
use droneengage_server.Base.{
  ℕ, ◌+◌, Bool, true, false, Option, none, some, List, [], ◌∷◌, ◌++◌, String, if◌then◌else◌, str_eq,
  opt_eq, is_some, length, Json, Items, Fields, null, obj, arr, str, nil, cons, prop, set_opt,
  str_of, property_key, Coercions, JsonText,
}
use droneengage_server.Constants.{
  const_ws_msg_routing, const_ws_msg_routing_group, const_ws_msg_routing_individual,
  const_ws_msg_routing_system, const_actor_type_gcs, const_actor_type_drone,
  const_ws_sender_all_gcs, const_ws_sender_all, const_ws_sender_all_agents,
}
use droneengage_server.Framing.{index_of_nul, json_part, payload_part}
use droneengage_server.Relay.{
  RelayConfig, GroupIds, Origin, Outgoing, with_fields, already_relayed, get_server_origin_id,
  forward_message, forward_external_message,
}
use droneengage_server.Rooms.{Rooms, Socket, Status, LoginRequest, set_socket}
use droneengage_server.Rooms.Sending.{
  Sent, delivered, not_found, threw, broadcast, send_to_all, send_to_account_group,
  send_to_individual, send_to_individual_id,
}

-- The rooms, and what was handed to the channels to other servers.
pub record Server (B : Type 0) : Type 0 where
  pub rooms : Rooms (List B)
  pub relayed : List (Outgoing B)

-- What the target of an individual message asks for; an actor of `none` is all units.
pub data Target : Type 0 where
  throws missing : Target
  reserved : Option String → Target
  unit : String → Target

unfoldable pub named_target : String → Target
named_target t =
    if str_eq t ""
    then missing
    else (if str_eq t const_ws_sender_all_gcs
        then reserved (some "g")
        else (if str_eq t const_ws_sender_all
            then reserved none
            else (if str_eq t const_ws_sender_all_agents then reserved (some "d") else unit t)))

-- `hasOwnProperty('tg') && v_jmsg['tg'].length > 0`, and the `switch` on the target
unfoldable pub target_of : Coercions → Fields → Target
unfolding named_target
target_of js fs = elim (prop "hasOwnProperty" fs) [
  | some shadowed ↦ throws
  | none ↦ elim (prop "tg" fs) [
    | none ↦ missing
    | some null ↦ throws
    | some (str t) ↦ named_target t
    | some (arr (cons x xs)) ↦ unit (js.key_text (arr (cons x xs)))
    | some (obj o) ↦ if js.length_is_positive o then unit (js.key_text (obj o)) else missing
    | _ ↦ missing
  ]
]

module _ {B : Type 0} where
  abbrev pub set_rooms : Rooms (List B) → Server B → Server B
  set_rooms r s = record s { rooms = r }

  -- the ids that a relayed message carries
  unfoldable pub origin_of : ℕ → Rooms (List B) → Origin
  origin_of ws r = record {
    logged_in = is_some (r.sockets ws).login_request;
    group = elim (r.sockets ws).group [
      | none ↦ none
      | some g ↦ some (record {
        gid = (r.groups g).id;
        aid = (r.accounts (r.groups g).parent_account).account_id;
      })
    ];
  }

  -- `send_message_toMyGroup` and its two variants, for a sender that is logged in
  unfoldable pub send_message_to_my_group :
      Option String → List B → Bool → LoginRequest → ℕ → Server B → Server B
  send_message_to_my_group actor message is_binary login ws s = elim (s.rooms.sockets ws).group [
    | none ↦ s
    | some g ↦ set_rooms (broadcast g message is_binary (str_of login.sender_id) actor s.rooms) s
  ]

  -- `m_TTX` and `m_BTX`
  unfoldable pub count_message : Status → List B → Bool → ℕ → Server B → Server B
  count_message st message is_binary ws s =
      let st' =
        if is_binary
        then record st { m_btx = st.m_btx + length message }
        else record st { m_ttx = st.m_ttx + length message } in
      set_rooms (set_socket ws (record (s.rooms.sockets ws) { status = some st' }) s.rooms) s

  unfoldable pub after_individual :
      (Server B → Server B) → Rooms (List B) × Sent → Server B → Server B
  after_individual on_not_found (r, delivered) s = set_rooms r s
  after_individual on_not_found (r, not_found) s = on_not_found (set_rooms r s)
  after_individual on_not_found (r, threw) s = set_rooms r s

module _ {B : Type 0} (c : JsonText B) where
  -- The JSON of a message, and what follows it in a binary one.
  unfoldable pub open_message : List B → Bool → Option (Json × List B)
  open_message message true =
      let i = index_of_nul c.is_nul message in
      elim (c.parse (json_part i message)) [
        | none ↦ none
        | some j ↦ some (j, payload_part i message)
      ]
  open_message message false = elim (c.parse message) [ none ↦ none | some j ↦ some (j, []) ]

module _ {B : Type 0} (c : JsonText B) (config : RelayConfig) where
  -- `forwardMessage` for a socket
  unfoldable pub forward : List B → Bool → ℕ → Server B → Server B
  forward message is_binary ws s = record s {
    relayed = s.relayed ++ forward_message c config message is_binary (some (origin_of ws s.rooms));
  }

  -- `send_message_toTarget`, with its exceptions caught
  unfoldable pub send_message_to_target : List B → Bool → String → ℕ → Server B → Server B
  send_message_to_target message is_binary target ws s = elim (s.rooms.sockets ws).group [
    | none ↦ s
    | some g ↦
        after_individual (forward message is_binary ws)
          (send_to_individual g message is_binary target s.rooms) s
  ]

  abbrev pub share : Option String → List B → Bool → LoginRequest → ℕ → Server B → Server B
  share actor message is_binary login ws s =
      forward message is_binary ws (send_message_to_my_group actor message is_binary login ws s)

module _ {B : Type 0} (c : JsonText B) (js : Coercions) (config : RelayConfig) where
  -- the case `CONST_WS_MSG_ROUTING_INDIVIDUAL`
  unfoldable pub route_individual : Fields → List B → Bool → LoginRequest → ℕ → Server B → Server B
  route_individual fs message is_binary login ws s = elim (target_of js fs) [
    | throws ↦ s
    | reserved actor ↦ share c config actor message is_binary login ws s
    | unit target ↦ send_message_to_target c config message is_binary target ws s
    | missing ↦
        if opt_eq login.actor_type (some const_actor_type_drone)
        then share c config (some "g") message is_binary login ws s
        else (if opt_eq login.actor_type (some const_actor_type_gcs)
            then share c config none message is_binary login ws s
            else s)
  ]

module _ {B : Type 0} (c : JsonText B) (js : Coercions) (config : RelayConfig)
    (on_system : Fields → ℕ → Server B → Server B) where
  -- the `switch` on the routing field
  unfoldable pub route : Fields → List B → Bool → LoginRequest → ℕ → Server B → Server B
  route fs message is_binary login ws s = elim (prop const_ws_msg_routing fs) [
    | some (str ty) ↦
        if str_eq ty const_ws_msg_routing_group
        then share c config
            (if opt_eq login.actor_type (some const_actor_type_gcs) then none else some "g") message
            is_binary login ws s
        else (if str_eq ty const_ws_msg_routing_individual
            then route_individual c js config fs message is_binary login ws s
            else (if str_eq ty const_ws_msg_routing_system then on_system fs ws s else s))
    | _ ↦ s
  ]

  -- the message with the permission of its sender, set whatever the sender wrote there
  unfoldable pub route_with_permission :
      Option (Json × List B) → Bool → LoginRequest → ℕ → Server B → Server B
  route_with_permission none is_binary login ws s = s
  route_with_permission (some (j, payload)) is_binary login ws s =
      elim (with_fields (set_opt "p" login.prm) j) [
        | some (obj fs) ↦ route fs (c.stringify (obj fs) ++ payload) is_binary login ws s
        | _ ↦ s
      ]

  -- `fn_parseMessage`
  unfoldable pub parse_message : ℕ → List B → Bool → Server B → Server B
  parse_message ws message is_binary s = elim (s.rooms.sockets ws).status [
    | none ↦ s
    | some st ↦
        let counted = count_message st message is_binary ws s in
        elim (s.rooms.sockets ws).login_request [
          | none ↦ counted
          | some login ↦
              route_with_permission (open_message c message is_binary) is_binary login ws counted
        ]
  ]
