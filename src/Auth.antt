-- ===== src/Auth.antt =====
-- src/comm_server/js_andruav_comm_server.js and js_comm_server_manager_client.js: the commands of the Auth
-- server, and the queue of the messages to it. The proofs are in the children.
pub mod Login
pub mod Queue
pub mod InfoCard
use droneengage_server.Base.{
  ℕ, Bool, true, false, not, ◌&&◌, Option, none, some, List, [], ◌∷◌, ◌++◌, String, put, get, keys,
  if◌then◌else◌, opt_eq, ltb, length, is_some, Json, Fields, field, end, obj, str, num, bool, prop,
  str_prop, set_prop, set_opt, JsonText,
}
use droneengage_server.Constants.{const_cs_login_temp_key, const_cs_request_id}
use droneengage_server.Connection.{Hub, delete_login}
use droneengage_server.S2s.{parse_envelope, build_response, challenge}
use droneengage_server.Udp.{Udp, Config, Environment, get_config, proxy_is_ready}
use droneengage_server.Udp.Registry.{set_proxy_blocked}
use droneengage_server.Udp.Reaper.{last_access_of}

-- One line of `fn_getActiveProxiesList`.
pub record ProxyReport : Type 0 where
  pub name : String
  pub config : Config
  pub ready : Bool
  pub blocked : Bool
  pub created : ℕ
  pub last_access : ℕ

-- What is sent to the Auth server: the reply to a login, and the report of the proxies with the request
-- id, and with the name, the flag and the success of a change.
pub data Reply : Type 0 where
  login_reply : Fields → Reply
  report : List ProxyReport → Option Json → Option (Option Json × Bool × Bool) → Reply

pub record AuthState (B : Type 0) : Type 0 where
  pub hub : Hub B
  pub udp : Udp (List B)
  pub replies : List Reply

-- where units are to connect
pub record PublicAddress : Type 0 where
  pub host : String
  pub server_port : ℕ

-- `fn_generateLoginRequestReply`
unfoldable pub generate_login_request_reply : PublicAddress → Fields → Fields
generate_login_request_reply at d = field "c" (str "b") (
    field "d"
      (obj (
        set_opt "f" (prop const_cs_login_temp_key d) (
          set_prop "h" (num at.server_port) (
            set_prop "g" (str at.host)
              (set_prop "e" (num 0) (set_opt "r" (prop const_cs_request_id d) end))))))
      end)

module _ {M : Type 0} where
  unfoldable pub report_of : Environment → String → ℕ → Udp M → ProxyReport
  report_of env name e u =
      let entry = u.entries e in
      record {
        name = name;
        config = get_config env entry.udpproxy u;
        ready = proxy_is_ready entry.udpproxy u;
        blocked = entry.admin_blocked;
        created = entry.created_at;
        last_access = last_access_of e u;
      }

  -- `fn_getActiveProxiesList`
  unfoldable pub active_proxies : Environment → List (String × ℕ) → Udp M → List ProxyReport
  active_proxies env [] u = []
  active_proxies env ((name, e) ∷ rest) u = report_of env name e u ∷ active_proxies env rest u

-- the request id of a command
unfoldable pub request_id_of : Fields → Option Json
request_id_of cmd = elim (prop "d" cmd) [ some (obj d) ↦ prop const_cs_request_id d | _ ↦ none ]

unfoldable pub is_true : Option Json → Bool
is_true (some (bool b)) = b
is_true _ = false

module _ {B : Type 0} where
  -- `fn_addWaitingAccount`; its timer is the event `delete_login`
  unfoldable pub add_waiting_account : String → Fields → Hub B → Hub B
  add_waiting_account key request h = record h {
    waiting_accounts = put key request h.waiting_accounts;
  }

  -- `fn_handleLoginResponses`, with the key that `uuidv4` gives
  unfoldable pub handle_login_responses :
      PublicAddress → String → Fields → AuthState B → AuthState B
  handle_login_responses at key d s =
      let request = set_prop const_cs_login_temp_key (str key) d in
      record s {
        hub = add_waiting_account key request s.hub;
        replies = s.replies ++ login_reply (generate_login_request_reply at request) ∷ [];
      }

  -- `fn_handleQueryUdpProxies`
  unfoldable pub handle_query_udp_proxies : Environment → Fields → AuthState B → AuthState B
  handle_query_udp_proxies env cmd s = record s {
    replies =
        s.replies
        ++ report (active_proxies env s.udp.active_udp_proxy s.udp) (request_id_of cmd) none ∷ [];
  }

  -- `fn_setProxyBlocked` where the name is a string
  unfoldable pub set_named_proxy : Option Json → Bool → Udp (List B) → Udp (List B) × Bool
  set_named_proxy (some (str name)) blocked u = set_proxy_blocked name blocked u
  set_named_proxy _ blocked u = (u, false)

  -- `fn_handleSetUdpProxyState`
  unfoldable pub handle_set_udp_proxy_state : Environment → Fields → AuthState B → AuthState B
  handle_set_udp_proxy_state env cmd s =
      let d : Fields = elim (prop "d" cmd) [ some (obj fs) ↦ fs | _ ↦ end ] in
      let name = prop "name" d in
      let blocked = is_true (prop "blocked" d) in
      let (u, applied) = set_named_proxy name blocked s.udp in
      record s {
        udp = u;
        replies =
            s.replies
            ++ report (active_proxies env u.active_udp_proxy u) (request_id_of cmd)
                (some (name, blocked, applied))
              ∷ [];
      }

  -- `fn_AuthServerMessagesHandler`, of what the message parses to
  unfoldable pub on_auth_message :
      PublicAddress → Environment → String → Option Json → AuthState B → AuthState B
  on_auth_message at env key (some (obj cmd)) s =
      if opt_eq (str_prop "c" cmd) (some "b")
      then (elim (prop "d" cmd) [
        | some (obj d) ↦ if is_some (prop "d" d) then s else handle_login_responses at key d s
        | _ ↦ s
      ])
      else if opt_eq (str_prop "c" cmd) (some "e")
      then handle_query_udp_proxies env cmd s
      else if opt_eq (str_prop "c" cmd) (some "g")
      then handle_set_udp_proxy_state env cmd s
      else s
  on_auth_message at env key _ s = s

-- The client of the Auth server: its WebSocket, which is open or not once it was made, the queue, and
-- what was sent.
pub record ManagerClient (M : Type 0) : Type 0 where
  pub ws_open : Option Bool
  pub message_queue : List M
  pub sent : List M

module _ {M : Type 0} where
  -- `fn_flushQueue`
  unfoldable pub flush_queue : ManagerClient M → ManagerClient M
  flush_queue m = elim m.ws_open [
    | some true ↦ record m { sent = m.sent ++ m.message_queue; message_queue = [] }
    | some false ↦ m
    | none ↦ m
  ]

  -- `fn_sendMessage`
  unfoldable pub send_message : M → ManagerClient M → ManagerClient M
  send_message x m = elim m.ws_open [
    | some true ↦ record m { sent = m.sent ++ x ∷ [] }
    | some false ↦ record m { message_queue = m.message_queue ++ x ∷ [] }
    | none ↦
        if ltb (length m.message_queue) 1000
        then record m { message_queue = m.message_queue ++ x ∷ [] }
        else m
  ]

  -- `fn_onOpen_Handler`, with the announcement that `fn_updateAuthServer` sends
  unfoldable pub on_open : M → ManagerClient M → ManagerClient M
  on_open info m = flush_queue (send_message info (record m { ws_open = some true }))

  -- `fn_onClose_Handler`
  unfoldable pub on_close : ManagerClient M → ManagerClient M
  on_close m = record m { ws_open = some false; message_queue = [] }

-- What an arriving message leads to besides.
pub data Upshot (B : Type 0) : Type 0 where
  -- `Me.fn_onMessageReceived(data)`
  hand_on : List B → Upshot B
  close_ws : Upshot B

-- `sign` is `fn_sign`, `server_id` this server's, and `info` what `fn_updateAuthServer` sends.
module _ {B : Type 0} (c : JsonText B) (is_open_brace : B → Bool)
    (sign : Option Json → Option String) (server_id : Option Json) (info : List B) where
  -- a challenge, with the answer to it, or where that cannot be made
  unfoldable pub answer_auth_server :
      Option (List B) → ManagerClient (List B) → ManagerClient (List B) × List (Upshot B)
  answer_auth_server none m = (m, close_ws ∷ [])
  answer_auth_server (some answer) m =
      (flush_queue (send_message info (record m { sent = m.sent ++ answer ∷ [] })), [])

  -- `fn_onMessage_Handler`
  unfoldable pub on_message :
      List B → ManagerClient (List B) → ManagerClient (List B) × List (Upshot B)
  on_message message m = elim (parse_envelope c is_open_brace message) [
    | none ↦ (m, hand_on message ∷ [])
    | some env ↦
        if opt_eq (str_prop "s2s_auth" env) (some challenge)
        then answer_auth_server (build_response c is_open_brace sign (prop "nonce" env) server_id) m
        else (m, [])
  ]
