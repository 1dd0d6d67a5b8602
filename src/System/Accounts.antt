-- ===== src/System/Accounts.antt =====
-- About `onSystemMessage`: the accounts of the requests for missions and news.
use droneengage_server.Base.{
  ℕ, ◌≡◌, refl, Bool, false, Option, none, some, String, ◌==◌, arith, inl, inr, Option-cases,
  if_cases, Json, Fields, null, bool, num, decimal, str, arr, obj, prop, prop-set_opt, Coercions,
  JsonText,
}
use droneengage_server.Constants.{
  type_load_mission, type_save_mission, type_delete_mission, type_load_news, type_save_news,
  type_delete_news, type_load_tasks, type_save_tasks, type_delete_tasks, type_disable_tasks,
  type_udp_proxy, type_ping, type_logout_comm_server, type_query_server,
}
use droneengage_server.Rooms.Registry.{del_member_from_group}
use droneengage_server.Routing.{set_rooms}
use droneengage_server.Storage.{World}
use droneengage_server.Udp.{Environment}
use droneengage_server.System.{
  System, Command, number_of, send_json, account_of_login, message_body, load_tasks, save_tasks,
  delete_tasks, disable_tasks, load_mission, save_mission, delete_mission, save_news, delete_news,
}
use droneengage_server.System.Tasks.{
  Inputs, handle_tasks, handle_scoped, handle_load_tasks, handle_save_tasks, handle_delete_tasks,
  handle_disable_tasks, handle_load_mission, handle_save_mission, handle_delete_mission,
}
use droneengage_server.System.News.{
  author_of, load_news_payload, handle_load_news, handle_save_news, handle_delete_news,
  handle_query_server,
}
use droneengage_server.System.Proxies.{PortRules, handle_udp_proxy}
use droneengage_server.System.Commands.{
  handle_ping, handle_logout, on_task_command, on_scoped_command, on_command, on_system_message,
}
use droneengage_server.System.Untouched.{handle_udp_proxy-storage}
use droneengage_server.System.Scope.{
  Names, is_scoped, ScopedTo, ScopedTo-same, send_json-storage, submit-ScopedTo,
  handle_tasks-ScopedTo, handle_scoped-ScopedTo,
}
use droneengage_server.System.Payloads.{
  load_mission_payload-Names, save_mission_payload-Names, delete_mission_payload-Names,
  save_news_payload-Names, unscoped,
}

module _ {B : Type 0} (c : JsonText B) where
  handle_ping-storage :
      (fs : Fields) (ws : ℕ) (s : System B) → (handle_ping c fs ws s).storage ≡ s.storage
  unfolding handle_ping
  handle_ping-storage fs ws s = pinged (prop "ms" fs) refl
    where
      pinged : (o : Option Json) → prop "ms" fs ≡ o → (handle_ping c fs ws s).storage ≡ s.storage
      pinged (some (obj ms)) e = rw (e, handle_ping) (send_json-storage c ws _ s)
      pinged (some (arr xs)) e = rw (e, handle_ping) (send_json-storage c ws fs s)
      pinged none e = rw (e, handle_ping) refl
      pinged (some null) e = rw (e, handle_ping) refl
      pinged (some (bool x)) e = rw (e, handle_ping) refl
      pinged (some (num x)) e = rw (e, handle_ping) refl
      pinged (some (decimal x)) e = rw (e, handle_ping) refl
      pinged (some (str x)) e = rw (e, handle_ping) refl

  handle_logout-storage :
      (fs : Fields) (ws : ℕ) (s : System B) → (handle_logout c fs ws s).storage ≡ s.storage
  unfolding handle_logout
  handle_logout-storage fs ws s =
      send_json-storage c ws _
        (record s { server = set_rooms (del_member_from_group ws s.server.rooms) s.server })

module _ {B : Type 0} (c : JsonText B) (js : Coercions) (parse_body : String → Option Json)
    (w : World) (env : Environment) (rules : PortRules) (i : Inputs) (fs : Fields) (ws : ℕ)
    (s : System B) where
  same : (t : System B) → t.storage ≡ s.storage → ScopedTo (account_of_login ws s) s t
  same = ScopedTo-same (account_of_login ws s) s

  handle_query_server-ScopedTo :
      ScopedTo (account_of_login ws s) s (handle_query_server c js parse_body w fs ws s)
  unfolding handle_query_server
  handle_query_server-ScopedTo = elim (Option-cases (message_body parse_body fs)) [
    | inl e ↦ rw (e, handle_query_server) (same s refl)
    | inr (mms, e) ↦
        rw (e, handle_query_server) (same (send_json c ws _ s).0 (send_json-storage c ws _ s))
  ]

  handle_load_news-ScopedTo :
      ScopedTo (account_of_login ws s) s (handle_load_news c js parse_body w i fs ws s)
  unfolding handle_load_news load_news_payload
  handle_load_news-ScopedTo = elim (Option-cases (account_of_login ws s)) [
    | inl a ↦ rw (a, handle_load_news) (ScopedTo-same none s s refl)
    | inr (id, a) ↦
        rw (a, handle_load_news)
          (submit-ScopedTo c js w (some id) i.rid _ _ s
            (λ h. (id, refl, simp prop-set_opt), λ h. absurd (omega arith)))
  ]

  on_task_command-ScopedTo :
      (mt : ℕ)
      → ScopedTo
          (account_of_login ws s)
          s
          (on_task_command c js parse_body w env rules i mt fs ws s)
  unfolding on_task_command handle_load_tasks handle_save_tasks handle_delete_tasks
      handle_disable_tasks
  on_task_command-ScopedTo mt =
      if_cases (ScopedTo (account_of_login ws s) s) (mt == type_load_tasks) _ _
        (tasks load_tasks _ refl)
        (if_cases (ScopedTo (account_of_login ws s) s) (mt == type_save_tasks) _ _
          (tasks save_tasks _ refl)
          (if_cases (ScopedTo (account_of_login ws s) s) (mt == type_delete_tasks) _ _
            (tasks delete_tasks _ refl)
            (if_cases (ScopedTo (account_of_login ws s) s) (mt == type_disable_tasks) _ _
              (tasks disable_tasks _ refl) (same s refl))))
    where
      tasks :
          (command : Command) (payload : Fields → Option Fields)
          → is_scoped (number_of command) ≡ false
          → ScopedTo
              (account_of_login ws s)
              s
              (handle_tasks c js parse_body w command payload i fs ws s)
      tasks command payload h =
          handle_tasks-ScopedTo c js parse_body w command i fs ws s (account_of_login ws s) payload
            (λ mms. unscoped (account_of_login ws s) (number_of command) (payload mms) h)

  on_scoped_command-ScopedTo :
      (mt : ℕ)
      → ScopedTo
          (account_of_login ws s)
          s
          (on_scoped_command c js parse_body w env rules i mt fs ws s)
  unfolding on_scoped_command handle_load_mission handle_save_mission handle_delete_mission
      handle_save_news handle_delete_news
  on_scoped_command-ScopedTo mt =
      if_cases (ScopedTo (account_of_login ws s) s) (mt == type_load_mission) _ _
        (scoped load_mission _ _ load_mission_payload-Names)
        (if_cases (ScopedTo (account_of_login ws s) s) (mt == type_save_mission) _ _
          (scoped save_mission _ _ save_mission_payload-Names)
          (if_cases (ScopedTo (account_of_login ws s) s) (mt == type_delete_mission) _ _
            (scoped delete_mission _ _ delete_mission_payload-Names)
            (if_cases (ScopedTo (account_of_login ws s) s) (mt == type_load_news) _ _
              handle_load_news-ScopedTo
              (if_cases (ScopedTo (account_of_login ws s) s) (mt == type_save_news) _ _
                (scoped save_news _ _ (save_news_payload-Names (author_of ws s)))
                (if_cases (ScopedTo (account_of_login ws s) s) (mt == type_delete_news) _ _
                  (scoped delete_news _ _ (λ a mms. (λ h. ground arith, λ h. absurd (omega arith))))
                  (on_task_command-ScopedTo mt))))))
    where
      scoped :
          (command : Command) (stops : Fields → Bool) (payload : String → Fields → Fields)
          → ((id : String) (mms : Fields) → Names (some id) (number_of command) (payload id mms))
          → ScopedTo
              (account_of_login ws s)
              s
              (handle_scoped c js parse_body w command stops payload i fs ws s)
      scoped command = handle_scoped-ScopedTo c js parse_body w command i fs ws s

  on_command-ScopedTo :
      (mt : ℕ)
      → ScopedTo (account_of_login ws s) s (on_command c js parse_body w env rules i mt fs ws s)
  unfolding on_command
  on_command-ScopedTo mt =
      if_cases (ScopedTo (account_of_login ws s) s) (mt == type_udp_proxy) _ _
        (same (handle_udp_proxy c env rules i.now fs ws s)
          (handle_udp_proxy-storage c env rules i.now fs ws s))
        (if_cases (ScopedTo (account_of_login ws s) s) (mt == type_ping) _ _
          (same (handle_ping c fs ws s) (handle_ping-storage c fs ws s))
          (if_cases (ScopedTo (account_of_login ws s) s) (mt == type_logout_comm_server) _ _
            (same (handle_logout c fs ws s) (handle_logout-storage c fs ws s))
            (if_cases (ScopedTo (account_of_login ws s) s) (mt == type_query_server) _ _
              handle_query_server-ScopedTo (on_scoped_command-ScopedTo mt))))

  -- Whatever system message a client sends, every request that its handling makes for missions, and for
  -- the loading or saving of news, names the account of the client's login, and saved news has the scope
  -- of an account.
  pub on_system_message-ScopedTo :
      ScopedTo (account_of_login ws s) s (on_system_message c js parse_body w env rules i fs ws s)
  unfolding on_system_message
  on_system_message-ScopedTo = dispatched (prop "mt" fs) refl
    where
      dispatched :
          (o : Option Json)
          → prop "mt" fs ≡ o
          → ScopedTo
              (account_of_login ws s)
              s
              (on_system_message c js parse_body w env rules i fs ws s)
      dispatched (some (num mt)) e = rw (e, on_system_message) (on_command-ScopedTo mt)
      dispatched none e = rw (e, on_system_message) (same s refl)
      dispatched (some null) e = rw (e, on_system_message) (same s refl)
      dispatched (some (bool x)) e = rw (e, on_system_message) (same s refl)
      dispatched (some (decimal x)) e = rw (e, on_system_message) (same s refl)
      dispatched (some (str x)) e = rw (e, on_system_message) (same s refl)
      dispatched (some (arr x)) e = rw (e, on_system_message) (same s refl)
      dispatched (some (obj x)) e = rw (e, on_system_message) (same s refl)
