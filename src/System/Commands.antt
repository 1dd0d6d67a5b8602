-- ===== src/System/Commands.antt =====
-- `onSystemMessage` of js_chat_system_commands.js, and the events of the whole server.
use droneengage_server.Base.{
  ℕ, Option, some, List, String, if◌then◌else◌, ◌==◌, length, drop, Json, Fields, num, obj, str,
  arr, end, prop, set_prop, Coercions, JsonText,
}
use droneengage_server.Constants.{
  type_udp_proxy, type_ping, type_logout_comm_server, type_load_tasks, type_save_tasks,
  type_delete_tasks, type_disable_tasks, type_load_mission, type_save_mission, type_delete_mission,
  type_query_server, type_load_news, type_save_news, type_delete_news,
}
use droneengage_server.Rooms.Registry.{del_member_from_group}
use droneengage_server.Routing.{Server, set_rooms}
use droneengage_server.Storage.{World}
use droneengage_server.Storage.Lifecycle.{Event, step}
use droneengage_server.Udp.{Environment}
use droneengage_server.Udp.Reaper.{Event as ProxyEvent, step as proxy_step}
use droneengage_server.System.{System, send_json}
use droneengage_server.System.Answers.{deliver}
use droneengage_server.System.Tasks.{
  Inputs, handle_load_tasks, handle_save_tasks, handle_delete_tasks, handle_disable_tasks,
  handle_load_mission, handle_save_mission, handle_delete_mission,
}
use droneengage_server.System.News.{
  handle_load_news, handle_save_news, handle_delete_news, handle_query_server,
}
use droneengage_server.System.Proxies.{PortRules, deliver_proxies, handle_udp_proxy}

module _ {B : Type 0} (c : JsonText B) where
  -- `v_jmsg.ms.s = 'OK:pong'`, which throws where the body is no object
  unfoldable pub handle_ping : Fields → ℕ → System B → System B
  handle_ping fs ws s = elim (prop "ms" fs) [
    | some (obj ms) ↦
        (send_json c ws (set_prop "ms" (obj (set_prop "s" (str "OK:pong") ms)) fs) s).0
    | some (arr xs) ↦ (send_json c ws fs s).0
    | _ ↦ s
  ]

  unfoldable pub handle_logout : Fields → ℕ → System B → System B
  handle_logout fs ws s =
      let left = record s {
        server = set_rooms (del_member_from_group ws s.server.rooms) s.server;
      } in
      (send_json c ws (set_prop "ms" (obj (set_prop "s" (str "OK:dell") end)) fs) left).0

module _ {B : Type 0} (c : JsonText B) (js : Coercions) (parse_body : String → Option Json)
    (w : World) (env : Environment) (rules : PortRules) where
  -- the `switch`, in groups of its cases
  unfoldable pub on_task_command : Inputs → ℕ → Fields → ℕ → System B → System B
  on_task_command i mt fs ws s =
      if mt == type_load_tasks
      then handle_load_tasks c js parse_body w i fs ws s
      else if mt == type_save_tasks
      then handle_save_tasks c js parse_body w i fs ws s
      else if mt == type_delete_tasks
      then handle_delete_tasks c js parse_body w i fs ws s
      else if mt == type_disable_tasks
      then handle_disable_tasks c js parse_body w i fs ws s
      else s

  unfoldable pub on_scoped_command : Inputs → ℕ → Fields → ℕ → System B → System B
  on_scoped_command i mt fs ws s =
      if mt == type_load_mission
      then handle_load_mission c js parse_body w i fs ws s
      else if mt == type_save_mission
      then handle_save_mission c js parse_body w i fs ws s
      else if mt == type_delete_mission
      then handle_delete_mission c js parse_body w i fs ws s
      else if mt == type_load_news
      then handle_load_news c js parse_body w i fs ws s
      else if mt == type_save_news
      then handle_save_news c js parse_body w i fs ws s
      else if mt == type_delete_news
      then handle_delete_news c js parse_body w i fs ws s
      else on_task_command i mt fs ws s

  unfoldable pub on_command : Inputs → ℕ → Fields → ℕ → System B → System B
  on_command i mt fs ws s =
      if mt == type_udp_proxy
      then handle_udp_proxy c env rules i.now fs ws s
      else if mt == type_ping
      then handle_ping c fs ws s
      else if mt == type_logout_comm_server
      then handle_logout c fs ws s
      else if mt == type_query_server
      then handle_query_server c js parse_body w fs ws s
      else on_scoped_command i mt fs ws s

  -- `onSystemMessage`; its case `'ver'` names an undeclared variable, and its exceptions are caught
  unfoldable pub on_system_message : Inputs → Fields → ℕ → System B → System B
  on_system_message i fs ws s = elim (prop "mt" fs) [
    | some (num mt) ↦ on_command i mt fs ws s
    | _ ↦ s
  ]

  -- what routing calls for a system message, of the state of the other parts then
  unfoldable pub system_handler : Inputs → System B → Fields → ℕ → Server B → Server B
  system_handler i s fs ws server =
      (on_system_message i fs ws (record s { server = server })).server

  -- an event of the storage client, with the callbacks that it runs
  unfoldable pub on_storage_event : (Json → String) → Event → System B → System B
  on_storage_event key_text e s =
      let storage = step w key_text e s.storage in
      deliver c js (drop (length s.storage.actions) storage.actions)
        (record s { storage = storage })

  -- an event of the UDP proxies, with the callbacks that it runs
  unfoldable pub on_proxy_event : ℕ → ProxyEvent (List B) → System B → System B
  on_proxy_event now e s =
      let udp = proxy_step env now e s.udp in
      deliver_proxies c env rules (drop (length s.udp.actions) udp.actions) (record s { udp = udp })
