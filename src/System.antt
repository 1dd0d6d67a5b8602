-- ===== src/System.antt =====
-- src/comm_server/chat_server/js_chat_system_commands.js, js_chat_tasks.js, js_chat_news.js and
-- js_chat_query_server.js: the commands that a client gives the server itself, on the rooms, the client of
-- the storage server and the UDP proxies together. This file has the state, and what the handlers share.
pub mod Answers
pub mod Tasks
pub mod News
pub mod Proxies
pub mod Commands
pub mod Frames
pub mod Replies
pub mod Requests
pub mod ProxyReplies
pub mod Dispatch
pub mod Scope
pub mod Untouched
pub mod Payloads
pub mod Accounts
pub mod Complete
pub mod Ending
pub mod Closing
pub mod Pushing
use droneengage_server.Base.{
  ℕ, Bool, true, false, Option, none, some, List, [], ◌∷◌, String, Dict, if◌then◌else◌, Json,
  Fields, obj, str, num, prop, set_prop, set_opt, set_str, fields_of, JsonText,
}
use droneengage_server.Constants.{
  const_ws_msg_routing, const_ws_msg_routing_individual, const_ws_msg_routing_system,
  const_ws_sender_comm_server, type_load_tasks, type_save_tasks, type_delete_tasks,
  type_disable_tasks, type_load_mission, type_save_mission, type_delete_mission, type_load_news,
  type_save_news, type_delete_news,
}
use droneengage_server.Rooms.{call, send}
use droneengage_server.Routing.{Server, set_rooms}
use droneengage_server.Storage.{Client}
use droneengage_server.Udp.{Udp}

-- The commands that ask the storage server.
pub data Command : Type 0 where
  load_tasks save_tasks delete_tasks disable_tasks : Command
  load_mission save_mission delete_mission : Command
  load_news save_news delete_news : Command

-- What the callbacks of a request's promise keep: the socket, `v_jmsg`, `mms` and the handler.
pub record Pending : Type 0 where
  pub ws : ℕ
  pub message : Fields
  pub body : Fields
  pub command : Command

pub record System (B : Type 0) : Type 0 where
  pub server : Server B
  pub storage : Client
  pub udp : Udp (List B)
  -- the callbacks, by the `rid` of their request
  pub pending : Dict Pending
  -- the socket and the message of each unit's last request for a proxy
  pub proxy_requests : Dict (ℕ × Fields)

abbrev pub number_of : Command → ℕ
number_of load_tasks = type_load_tasks
number_of save_tasks = type_save_tasks
number_of delete_tasks = type_delete_tasks
number_of disable_tasks = type_disable_tasks
number_of load_mission = type_load_mission
number_of save_mission = type_save_mission
number_of delete_mission = type_delete_mission
number_of load_news = type_load_news
number_of save_news = type_save_news
number_of delete_news = type_delete_news

-- the routing of a reply: individual for tasks, system for missions and news
unfoldable pub routing_of : Command → String
routing_of load_tasks = const_ws_msg_routing_individual
routing_of save_tasks = const_ws_msg_routing_individual
routing_of delete_tasks = const_ws_msg_routing_individual
routing_of disable_tasks = const_ws_msg_routing_individual
routing_of _ = const_ws_msg_routing_system

unfoldable pub failure_text : Command → String
failure_text load_tasks = "Error: Failed to load tasks from storage server"
failure_text save_tasks = "Error: Failed to save tasks to storage server"
failure_text delete_tasks = "Error: Failed to delete tasks from storage server"
failure_text disable_tasks = "Error: Failed to disable tasks in storage server"
failure_text load_mission = "Error: Failed to load mission from storage server"
failure_text save_mission = "Error: Failed to save mission to storage server"
failure_text delete_mission = "Error: Failed to delete mission from storage server"
failure_text load_news = "Error: Failed to load news from storage server"
failure_text save_news = "Error: Failed to save news to storage server"
failure_text delete_news = "Error: Failed to delete news from storage server"

-- `v_jmsg.ty`, `tg` and `sd` of a reply to the client of that name; of text, the order of the keys is
-- that of a message that has them all
unfoldable pub addressed : String → Option String → Fields → Fields
addressed routing name fs =
    set_prop "sd" (str const_ws_sender_comm_server)
      (set_str "tg" name (set_prop const_ws_msg_routing (str routing) fs))

-- `fn_sendReply`, and the same lines in the handlers of tasks and missions, up to the send
unfoldable pub reply_fields : String → Option String → ℕ → Option Json → Fields → Fields
reply_fields routing name mt ms fs =
    set_opt "ms" ms (set_prop "mt" (num mt) (addressed routing name fs))

-- `fn_parseMessageBody`, and the first property read of its result: `none` where one of them throws
unfoldable pub message_body : (String → Option Json) → Fields → Option Fields
message_body parse_body fs = elim (prop "ms" fs) [
  | some (str text) ↦ fields_of (parse_body text)
  | ms ↦ fields_of ms
]

abbrev pub socket_name : {B : Type 0} → ℕ → System B → Option String
socket_name ws s = (s.server.rooms.sockets ws).name

-- `p_ws.m_loginRequest ? p_ws.m_loginRequest.m_accountID : null`
unfoldable pub account_of_login : {B : Type 0} → ℕ → System B → Option String
account_of_login ws s = elim (s.server.rooms.sockets ws).login_request [
  | none ↦ none
  | some login ↦ login.account_id
]

module _ {B : Type 0} (c : JsonText B) where
  -- `p_ws.send(JSON.stringify(v_jmsg))`, with whether it threw
  unfoldable pub send_json : ℕ → Fields → System B → System B × Bool
  send_json ws fs s = if (s.server.rooms.sockets ws).send_throws then (s, true) else (
    record s {
      server = set_rooms (call (send ws (c.stringify (obj fs)) false) s.server.rooms) s.server;
    },
    false,
  )

  -- a reply of a command, with `v_jmsg` as it is then and whether the send threw
  unfoldable pub reply : Command → Option Json → ℕ → Fields → System B → System B × (Fields × Bool)
  reply command ms ws fs s =
      let fs₁ = reply_fields (routing_of command) (socket_name ws s) (number_of command) ms fs in
      let (s₁, threw) = send_json ws fs₁ s in (s₁, (fs₁, threw))
