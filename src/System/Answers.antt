-- ===== src/System/Answers.antt =====
-- The callbacks of js_chat_tasks.js and js_chat_news.js: what they make of the answers of the storage
-- server, and `fn_onNewsPush`.
use droneengage_server.Base.{
  ℕ, Bool, true, false, not, ◌||◌, Option, none, some, List, [], ◌∷◌, String, get, erase,
  if◌then◌else◌, opt_eq, Json, Fields, end, null, obj, str, num, bool, prop, set_prop, set_opt,
  str_prop, property_key, fields_of, is_nullish, is_truthy, not_null, elements, Coercions, JsonText,
}
use droneengage_server.Constants.{
  const_ws_msg_routing, const_ws_msg_routing_individual, const_ws_msg_routing_system,
  const_ws_sender_comm_server, const_news_scope_global, news_push,
}
use droneengage_server.Rooms.Sending.{send_to_all, send_to_all_gcs_in_account}
use droneengage_server.Routing.{set_rooms}
use droneengage_server.Storage.{Action, Outcome, resolved, settle, push_news}
use droneengage_server.System.{
  System, Pending, Command, load_tasks, save_tasks, delete_tasks, disable_tasks, load_mission,
  save_mission, delete_mission, load_news, save_news, delete_news, failure_text, addressed,
  socket_name, send_json, reply,
}

-- `p_response.success === true`
unfoldable pub is_success : Fields → Bool
is_success response = elim (prop "success" response) [ some (bool b) ↦ b | _ ↦ false ]

-- `a != null ? a : b`
unfoldable pub or_default : Option Json → Option Json → Option Json
or_default none b = b
or_default (some null) b = b
or_default (some j) b = some j

-- `c_payload.news` of a truthy payload, else the payload
unfoldable pub news_of : Option Json → Option Json
news_of none = none
news_of (some (obj fs)) = prop "news" fs
news_of (some j) = if is_truthy (some j) then none else some j

unfoldable pub push_message : Json → Fields
push_message news = set_prop "ms" news (
    set_prop "mt" (num news_push) (
      set_prop "sd" (str const_ws_sender_comm_server)
        (set_prop const_ws_msg_routing (str const_ws_msg_routing_system) end)))

-- whether news is for every account
unfoldable pub is_for_all : Fields → Bool
is_for_all news =
    opt_eq (str_prop "scope" news) (some const_news_scope_global)
    || is_nullish (prop "account_id" news)

-- `sid`, `ms` and `mt` of the message that a task makes
unfoldable pub task_fields : Option Json → Fields → Fields → Fields
task_fields message_type task fs =
    set_opt "mt" (or_default (prop "messageType" task) message_type)
      (set_opt "ms" (prop "data" task) (set_opt "sid" (prop "taskId" task) fs))

module _ {B : Type 0} (c : JsonText B) (js : Coercions) where
  -- the loop of `fn_handleLoadTasks`, with `v_jmsg` as it leaves it and whether it threw
  unfoldable pub send_tasks :
      ℕ → Option Json → List (Option Json) → Fields → System B → System B × (Fields × Bool)
  send_tasks ws message_type [] fs s = (s, (fs, false))
  send_tasks ws message_type (t ∷ ts) fs s =
      let fs₁ = addressed const_ws_msg_routing_individual (socket_name ws s) fs in
      elim (fields_of t) [
        | none ↦ (s, (fs₁, true))
        | some task ↦
            let fs₂ = task_fields message_type task fs₁ in
            let sent = send_json c ws fs₂ s in
            elim sent.1 [
              | true ↦ (sent.0, (fs₂, true))
              | false ↦ send_tasks ws message_type ts fs₂ sent.0
            ]
      ]

  unfoldable pub tasks_of : Fields → Option Json
  tasks_of response = elim (prop "ms" response) [ some (obj ms) ↦ prop "tasks" ms | _ ↦ none ]

  -- what `fn_handleLoadTasks` makes of a response
  unfoldable pub on_tasks : Pending → Fields → System B → System B × (Fields × Bool)
  on_tasks p response s =
      if not (is_success response)
      then (s, (p.message, false))
      else (elim (not_null (tasks_of response)) [
        | none ↦ (s, (p.message, false))
        | some tasks ↦ send_tasks p.ws (prop "messageType" p.body) (elements js tasks) p.message s
      ])

  abbrev pub done : Pending → System B → System B × (Fields × Bool)
  done p s = reply c p.command (some (str "Done")) p.ws p.message s

  unfoldable pub on_done : Pending → Fields → System B → System B × (Fields × Bool)
  on_done p response s = if is_success response then done p s else (s, (p.message, false))

  -- what `fn_handleLoadMission` and `fn_handleLoadNews` make of a response
  unfoldable pub on_loaded : Pending → Fields → System B → System B × (Fields × Bool)
  on_loaded p response s =
      if not (is_success response) || is_nullish (prop "ms" response)
      then (s, (p.message, false))
      else reply c p.command (prop "ms" response) p.ws p.message s

  unfoldable pub on_news_saved : Pending → Fields → System B → System B × (Fields × Bool)
  on_news_saved p response s =
      if not (is_success response)
      then (s, (p.message, false))
      else (elim (fields_of (prop "ms" response)) [
        | none ↦ (s, (p.message, true))
        | some ms ↦
            reply c p.command
              (some (obj (set_opt "newsId" (prop "newsId" ms) (set_prop "s" (str "OK:save") end))))
              p.ws p.message s
      ])

  unfoldable pub on_news_deleted : Pending → System B → System B × (Fields × Bool)
  on_news_deleted p s =
      reply c p.command
        (some (obj (set_opt "newsId" (prop "newsId" p.body) (set_prop "s" (str "OK:delete") end))))
        p.ws p.message s

  -- the function given to `then`, with whether it threw
  unfoldable pub on_response : Command → Pending → Fields → System B → System B × (Fields × Bool)
  on_response load_tasks p response s = on_tasks p response s
  on_response save_tasks p response s = on_done p response s
  on_response delete_tasks p response s = on_done p response s
  on_response disable_tasks p response s = on_done p response s
  on_response load_mission p response s = on_loaded p response s
  on_response save_mission p response s = on_done p response s
  on_response delete_mission p response s = done p s
  on_response load_news p response s = on_loaded p response s
  on_response save_news p response s = on_news_saved p response s
  on_response delete_news p response s = on_news_deleted p s

  -- the function given to `catch`, on `v_jmsg` as it is then
  unfoldable pub on_failure : Pending → Fields → System B → System B
  on_failure p fs s = (reply c p.command (some (str (failure_text p.command))) p.ws fs s).0

  -- `then` and `catch`, which also catches what the former throws
  unfoldable pub on_outcome : Pending → Outcome → System B → System B
  on_outcome p (resolved response) s =
      let (s₁, (fs, threw)) = on_response p.command p response s in
      if threw then on_failure p fs s₁ else s₁
  on_outcome p _ s = on_failure p p.message s

  -- the callbacks of a request, which run once
  unfoldable pub settled : String → Outcome → System B → System B
  settled rid outcome s = elim (get rid s.pending) [
    | none ↦ s
    | some p ↦ on_outcome p outcome (record s { pending = erase rid s.pending })
  ]

  -- the news, to the GCSs of its account or to all
  unfoldable pub fan_out : Json → System B → System B
  fan_out news s = elim (fields_of (some news)) [
    | none ↦ s
    | some fs ↦
        let message = c.stringify (obj (push_message news)) in
        let sender = some (str const_ws_sender_comm_server) in
        let r = s.server.rooms in
        record s {
          server =
              set_rooms
                (if is_for_all fs
                  then send_to_all (some "g") message false sender r
                  else (send_to_all_gcs_in_account message false sender
                      (property_key js (prop "account_id" fs)) r).0)
                s.server;
        }
  ]

  -- `fn_onNewsPush`
  unfoldable pub on_news_push : Option Json → System B → System B
  on_news_push payload s = elim (news_of payload) [ none ↦ s | some news ↦ fan_out news s ]

  -- what the actions of the storage client call
  unfoldable pub deliver : List Action → System B → System B
  deliver [] s = s
  deliver (settle rid outcome ∷ as') s = deliver as' (settled rid outcome s)
  deliver (push_news payload ∷ as') s = deliver as' (on_news_push payload s)
  deliver (_ ∷ as') s = deliver as' s
