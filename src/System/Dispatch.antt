-- ===== src/System/Dispatch.antt =====
-- About `onSystemMessage`: to which socket it answers.
use droneengage_server.Base.{
  ℕ, ◌≡◌, refl, ap, ◌∙◌, Option, none, some, ◌++◌, String, ◌==◌, inl, inr, Option-cases, if_cases,
  Json, Fields, null, bool, num, decimal, str, arr, obj, end, prop, set_prop, Coercions, JsonText,
}
use droneengage_server.Constants.{
  type_udp_proxy, type_ping, type_logout_comm_server, type_load_tasks, type_save_tasks,
  type_delete_tasks, type_disable_tasks, type_load_mission, type_save_mission, type_delete_mission,
  type_query_server, type_load_news, type_save_news, type_delete_news,
}
use droneengage_server.Rooms.Isolation.{del_member_from_group-calls}
use droneengage_server.Rooms.Registry.{del_member_from_group}
use droneengage_server.Routing.{set_rooms}
use droneengage_server.Storage.{World}
use droneengage_server.Udp.{Environment}
use droneengage_server.System.{
  System, message_body, account_of_login, load_tasks, save_tasks, delete_tasks, disable_tasks,
  load_mission, save_mission, delete_mission, save_news, delete_news,
}
use droneengage_server.System.Tasks.{
  Inputs, handle_load_tasks, handle_save_tasks, handle_delete_tasks, handle_disable_tasks,
  handle_load_mission, handle_save_mission, handle_delete_mission,
}
use droneengage_server.System.News.{
  handle_load_news, handle_save_news, handle_delete_news, handle_query_server,
}
use droneengage_server.System.Proxies.{PortRules}
use droneengage_server.System.Commands.{
  handle_ping, handle_logout, on_task_command, on_scoped_command, on_command, on_system_message,
}
use droneengage_server.System.ProxyReplies.{handle_udp_proxy-Replied}
use droneengage_server.System.Replies.{Replied, Replied-refl, send_json-Replied}
use droneengage_server.System.Requests.{submit-Replied, handle_tasks-Replied, handle_scoped-Replied}

module _ {B : Type 0} (c : JsonText B) where
  handle_ping-Replied : (fs : Fields) (ws : ℕ) (s : System B) → Replied ws s (handle_ping c fs ws s)
  unfolding handle_ping
  handle_ping-Replied fs ws s = pinged (prop "ms" fs) refl
    where
      pinged : (o : Option Json) → prop "ms" fs ≡ o → Replied ws s (handle_ping c fs ws s)
      pinged (some (obj ms)) e = rw (e, handle_ping) (send_json-Replied c ws _ s)
      pinged (some (arr xs)) e = rw (e, handle_ping) (send_json-Replied c ws fs s)
      pinged none e = rw (e, handle_ping) (Replied-refl ws s)
      pinged (some null) e = rw (e, handle_ping) (Replied-refl ws s)
      pinged (some (bool x)) e = rw (e, handle_ping) (Replied-refl ws s)
      pinged (some (num x)) e = rw (e, handle_ping) (Replied-refl ws s)
      pinged (some (decimal x)) e = rw (e, handle_ping) (Replied-refl ws s)
      pinged (some (str x)) e = rw (e, handle_ping) (Replied-refl ws s)

  handle_logout-Replied :
      (fs : Fields) (ws : ℕ) (s : System B) → Replied ws s (handle_logout c fs ws s)
  unfolding handle_logout
  handle_logout-Replied fs ws s =
      let left = record s {
        server = set_rooms (del_member_from_group ws s.server.rooms) s.server;
      } in
      let gone = set_prop "ms" (obj (set_prop "s" (str "OK:dell") end)) fs in
      let (cs, e, h) = send_json-Replied c ws gone left in
      (cs, e ∙ ap (λ ds. ds ++ cs) (del_member_from_group-calls ws s.server.rooms), h)

module _ {B : Type 0} (c : JsonText B) (js : Coercions) (parse_body : String → Option Json)
    (w : World) (env : Environment) (rules : PortRules) (i : Inputs) (fs : Fields) (ws : ℕ)
    (s : System B) where
  handle_query_server-Replied : Replied ws s (handle_query_server c js parse_body w fs ws s)
  unfolding handle_query_server
  handle_query_server-Replied = elim (Option-cases (message_body parse_body fs)) [
    | inl e ↦ rw (e, handle_query_server) (Replied-refl ws s)
    | inr (mms, e) ↦ rw (e, handle_query_server) (send_json-Replied c ws _ s)
  ]

  handle_load_news-Replied : Replied ws s (handle_load_news c js parse_body w i fs ws s)
  unfolding handle_load_news
  handle_load_news-Replied = elim (Option-cases (account_of_login ws s)) [
    | inl a ↦ rw (a, handle_load_news) (Replied-refl ws s)
    | inr (account, a) ↦ rw (a, handle_load_news) (submit-Replied c js w i.rid _ _ s)
  ]

  on_task_command-Replied :
      (mt : ℕ) → Replied ws s (on_task_command c js parse_body w env rules i mt fs ws s)
  unfolding on_task_command handle_load_tasks handle_save_tasks handle_delete_tasks
      handle_disable_tasks
  on_task_command-Replied mt =
      if_cases (Replied ws s) (mt == type_load_tasks) _ _
        (handle_tasks-Replied c js parse_body w load_tasks i fs ws s _)
        (if_cases (Replied ws s) (mt == type_save_tasks) _ _
          (handle_tasks-Replied c js parse_body w save_tasks i fs ws s _)
          (if_cases (Replied ws s) (mt == type_delete_tasks) _ _
            (handle_tasks-Replied c js parse_body w delete_tasks i fs ws s _)
            (if_cases (Replied ws s) (mt == type_disable_tasks) _ _
              (handle_tasks-Replied c js parse_body w disable_tasks i fs ws s _)
              (Replied-refl ws s))))

  on_scoped_command-Replied :
      (mt : ℕ) → Replied ws s (on_scoped_command c js parse_body w env rules i mt fs ws s)
  unfolding on_scoped_command handle_load_mission handle_save_mission handle_delete_mission
      handle_save_news handle_delete_news
  on_scoped_command-Replied mt =
      if_cases (Replied ws s) (mt == type_load_mission) _ _
        (handle_scoped-Replied c js parse_body w load_mission i fs ws s _ _)
        (if_cases (Replied ws s) (mt == type_save_mission) _ _
          (handle_scoped-Replied c js parse_body w save_mission i fs ws s _ _)
          (if_cases (Replied ws s) (mt == type_delete_mission) _ _
            (handle_scoped-Replied c js parse_body w delete_mission i fs ws s _ _)
            (if_cases (Replied ws s) (mt == type_load_news) _ _ handle_load_news-Replied (
              if_cases (Replied ws s) (mt == type_save_news) _ _
                (handle_scoped-Replied c js parse_body w save_news i fs ws s _ _)
                (if_cases (Replied ws s) (mt == type_delete_news) _ _
                  (handle_scoped-Replied c js parse_body w delete_news i fs ws s _ _)
                  (on_task_command-Replied mt))))))

  on_command-Replied : (mt : ℕ) → Replied ws s (on_command c js parse_body w env rules i mt fs ws s)
  unfolding on_command
  on_command-Replied mt =
      if_cases (Replied ws s) (mt == type_udp_proxy) _ _
        (handle_udp_proxy-Replied c env rules i.now fs ws s)
        (if_cases (Replied ws s) (mt == type_ping) _ _ (handle_ping-Replied c fs ws s) (
          if_cases (Replied ws s) (mt == type_logout_comm_server) _ _
            (handle_logout-Replied c fs ws s)
            (if_cases (Replied ws s) (mt == type_query_server) _ _ handle_query_server-Replied
              (on_scoped_command-Replied mt))))

  -- Whatever system message a client sends, the calls that its handling makes are texts to the client's
  -- own socket.
  pub on_system_message-Replied :
      Replied ws s (on_system_message c js parse_body w env rules i fs ws s)
  unfolding on_system_message
  on_system_message-Replied = dispatched (prop "mt" fs) refl
    where
      dispatched :
          (o : Option Json)
          → prop "mt" fs ≡ o
          → Replied ws s (on_system_message c js parse_body w env rules i fs ws s)
      dispatched (some (num mt)) e = rw (e, on_system_message) (on_command-Replied mt)
      dispatched none e = rw (e, on_system_message) (Replied-refl ws s)
      dispatched (some null) e = rw (e, on_system_message) (Replied-refl ws s)
      dispatched (some (bool x)) e = rw (e, on_system_message) (Replied-refl ws s)
      dispatched (some (decimal x)) e = rw (e, on_system_message) (Replied-refl ws s)
      dispatched (some (str x)) e = rw (e, on_system_message) (Replied-refl ws s)
      dispatched (some (arr x)) e = rw (e, on_system_message) (Replied-refl ws s)
      dispatched (some (obj x)) e = rw (e, on_system_message) (Replied-refl ws s)
