-- ===== src/System/Proxies.antt =====
-- The case CONST_TYPE_AndruavSystem_UdpProxy of js_chat_system_commands.js, on the proxies of
-- js_udp_proxy.js.
use droneengage_server.Base.{
  ℕ, Bool, true, false, ◌&&◌, Option, none, some, List, [], ◌∷◌, String, get, put, key_of,
  if◌then◌else◌, opt_eq, length, drop, Json, Fields, bool, num, arr, obj, str, end, prop, set_prop,
  fields_of, JsonText,
}
use droneengage_server.Constants.{const_actor_type_drone, const_ws_msg_routing_individual}
use droneengage_server.Udp.{Udp, Config, Address, Environment, Action}
use droneengage_server.Udp.Registry.{close_udp_socket, open_udp_socket, get_udp_socket}
use droneengage_server.System.{System, socket_name, addressed, send_json}

-- What the configuration and Node add: whether units may choose ports, and the port that binding to a
-- value that is no natural number gives.
pub record PortRules : Type 0 where
  pub allow_fixed_port : Bool
  pub bound_port : Option Json → ℕ

unfoldable pub address_json : Address → Json
address_json a = obj (set_prop "port" (num a.port) (set_prop "address" (str a.address) end))

unfoldable pub config_json : Config → Bool → Fields
config_json config en = set_prop "en" (bool en) (
    set_prop "socket2" (address_json config.socket2)
      (set_prop "socket1" (address_json config.socket1) end))

-- the reply with a configuration
unfoldable pub proxy_reply : Option String → Config → Bool → Fields → Fields
proxy_reply name config en fs =
    addressed const_ws_msg_routing_individual name (set_prop "ms" (obj (config_json config en)) fs)

-- `socket.port = 0` does not throw
unfoldable pub takes_port : Option Json → Bool
takes_port (some (obj o)) = true
takes_port (some (arr xs)) = true
takes_port _ = false

unfoldable pub port_number : Option Json → Option ℕ
port_number (some (num n)) = some n
port_number _ = none

module _ {B : Type 0} (c : JsonText B) (env : Environment) (rules : PortRules) where
  -- `closeUDPSocket` and its callback
  unfoldable pub close_proxy_of : ℕ → Fields → System B → System B
  close_proxy_of ws fs s =
      let name = socket_name ws s in
      let (u, config) = close_udp_socket env (key_of name) s.udp in
      (send_json c ws (proxy_reply name config false fs) (record s { udp = u })).0

  -- the callback of `getUDPSocket`
  unfoldable pub on_proxy : String → Config → Bool → System B → System B
  on_proxy unit config enabled s = elim (get unit s.proxy_requests) [
    | none ↦ s
    | some (ws, fs) ↦
        if enabled
        then (send_json c ws (proxy_reply (socket_name ws s) config true fs) s).0
        else close_proxy_of ws fs s
  ]

  -- what the actions of the proxies call
  unfoldable pub deliver_proxies : List (Action (List B)) → System B → System B
  deliver_proxies [] s = s
  deliver_proxies (Action.reply unit config enabled ∷ as') s =
      deliver_proxies as' (on_proxy unit config enabled s)
  deliver_proxies (_ ∷ as') s = deliver_proxies as' s

  unfoldable pub reopen_socket :
      String → Option Json → Option Json → ℕ → Udp (List B) → Udp (List B)
  reopen_socket unit p q now u =
      open_udp_socket unit (rules.bound_port p) (rules.bound_port q) now
        (close_udp_socket env unit u).0

  -- `getUDPSocket` at ports as a message has them: a value that is no number is no proxy's port
  unfoldable pub get_socket_at :
      String → Option Json → Option Json → ℕ → Udp (List B) → Udp (List B)
  get_socket_at unit p q now u = elim (port_number p) [
    | none ↦ reopen_socket unit p q now u
    | some n ↦ elim (port_number q) [
      | none ↦ reopen_socket unit p q now u
      | some m ↦ get_udp_socket env unit n m now u
    ]
  ]

  unfoldable pub open_proxy_of : Option Json → Option Json → ℕ → ℕ → Fields → System B → System B
  open_proxy_of p q now ws fs s =
      let unit = key_of (socket_name ws s) in
      let u = get_socket_at unit p q now s.udp in
      deliver_proxies (drop (length s.udp.actions) u.actions)
        (record s { udp = u; proxy_requests = put unit (ws, fs) s.proxy_requests })

  -- `ms.en === true`, where units may choose their ports
  unfoldable pub enable_at_ports : Fields → ℕ → ℕ → Fields → System B → System B
  enable_at_ports ms now ws fs s = elim (fields_of (prop "socket1" ms)) [
    | none ↦ s
    | some o₁ ↦ elim (fields_of (prop "socket2" ms)) [
      | none ↦ s
      | some o₂ ↦ open_proxy_of (prop "port" o₁) (prop "port" o₂) now ws fs s
    ]
  ]

  -- and where they may not: their ports are set to 0 first
  unfoldable pub enable_at_any : Fields → ℕ → ℕ → Fields → System B → System B
  enable_at_any ms now ws fs s =
      if takes_port (prop "socket1" ms) && takes_port (prop "socket2" ms)
      then open_proxy_of (some (num 0)) (some (num 0)) now ws fs s
      else s

  unfoldable pub enable_proxy : Fields → ℕ → ℕ → Fields → System B → System B
  enable_proxy ms now ws fs s =
      if rules.allow_fixed_port
      then enable_at_ports ms now ws fs s
      else enable_at_any ms now ws fs s

  unfoldable pub switch_proxy : Fields → ℕ → ℕ → Fields → System B → System B
  switch_proxy ms now ws fs s = elim (prop "en" ms) [
    | some (bool true) ↦ enable_proxy ms now ws fs s
    | some (bool false) ↦ close_proxy_of ws fs s
    | _ ↦ s
  ]

  -- the case, which throws on a message without a body or on a socket without a login
  unfoldable pub handle_udp_proxy : ℕ → Fields → ℕ → System B → System B
  handle_udp_proxy now fs ws s = elim (s.server.rooms.sockets ws).login_request [
    | none ↦ s
    | some login ↦
        if opt_eq login.actor_type (some const_actor_type_drone)
        then elim (fields_of (prop "ms" fs)) [ none ↦ s | some ms ↦ switch_proxy ms now ws fs s ]
        else s
  ]
