-- ===== src/System/Tasks.antt =====
-- The handlers of js_chat_tasks.js, and the requests that they and js_chat_news.js make of the storage
-- client.
use droneengage_server.Base.{
  ℕ, Bool, Option, none, some, List, [], ◌∷◌, String, ◌+++◌, put, if◌then◌else◌, length, drop, Json,
  Fields, null, arr, obj, str, nil, cons, end, prop, set_prop, set_opt, is_nullish, is_truthy,
  is_blank, not_null, Coercions, JsonText,
}
use droneengage_server.Storage.{World}
use droneengage_server.Storage.Lifecycle.{request, is_connected}
use droneengage_server.System.{
  System, Pending, Command, load_tasks, save_tasks, delete_tasks, disable_tasks, load_mission,
  save_mission, delete_mission, number_of, message_body, account_of_login, reply,
}
use droneengage_server.System.Answers.{deliver}

-- What the runtime gives to the handling of one message: the `rid` of a request, the id of a task, and
-- the time.
pub record Inputs : Type 0 where
  pub rid : String
  pub task_id : String
  pub now : ℕ

-- A payload without the properties that are `undefined`.
abbrev pub properties : List (String × Option Json) → Fields
properties ps = add ps end
  where
    add : List (String × Option Json) → Fields → Fields
    add [] fs = fs
    add ((k, v) ∷ rest) fs = add rest (set_opt k v fs)

-- `mms.t` with its `id`, and the `id` that the request names: `none` where the assignment of an `id` to
-- a value that is no object throws
unfoldable pub identified : String → Option Json → Option (Option Json × Json)
identified fresh none = some (none, str fresh)
identified fresh (some null) = some (some null, str fresh)
identified fresh (some (obj t)) = elim (prop "id" t) [
  | none ↦ some (some (obj (set_prop "id" (str fresh) t)), str fresh)
  | some null ↦ some (some (obj (set_prop "id" (str fresh) t)), str fresh)
  | some id ↦ some (some (obj t), id)
]
identified fresh (some (arr xs)) = some (some (arr xs), str fresh)
identified fresh (some _) = none

-- `(mms.t != null) ? mms.t.id : null`
unfoldable pub task_id_of : Option Json → Option Json
task_id_of (some (obj t)) = prop "id" t
task_id_of _ = none

-- the payload of the requests
unfoldable pub tasks_payload : Fields → Fields
tasks_payload mms = properties (("unitId", prop "ai" mms) ∷ [])

unfoldable pub save_tasks_payload : String → Fields → Option Fields
save_tasks_payload fresh mms = elim (identified fresh (prop "t" mms)) [
  | none ↦ none
  | some (task, id) ↦
      let item =
        properties (("taskId", some id) ∷ ("name", prop "messageType" mms) ∷ ("data", task) ∷ []) in
      some
        (properties (("unitId", prop "ai" mms) ∷ ("tasks", some (arr (cons (obj item) nil))) ∷ []))
]

unfoldable pub task_ids_payload : Fields → Option Fields
task_ids_payload mms = elim (not_null (task_id_of (prop "t" mms))) [
  | none ↦ none
  | some id ↦
      some (properties (("unitId", prop "ai" mms) ∷ ("taskIds", some (arr (cons id nil))) ∷ []))
]

-- `fn_loadMission`
unfoldable pub load_mission_payload : String → Fields → Fields
load_mission_payload account mms =
    let payload =
      properties (("unitId", prop "unitId" mms) ∷ ("accountId", some (str account)) ∷ []) in
    if is_truthy (prop "missionId" mms)
    then set_opt "missionId" (prop "missionId" mms) payload
    else payload

-- `fn_saveMission`
unfoldable pub save_mission_payload : String → Fields → Fields
save_mission_payload account mms = properties (
    ("unitId", prop "unitId" mms)
    ∷ ("accountId", some (str account))
    ∷ ("missionId", prop "missionId" mms)
    ∷ ("name", prop "name" mms)
    ∷ ("data", prop "data" mms)
    ∷ [])

-- `fn_deleteMission`
unfoldable pub delete_mission_payload : String → Fields → Fields
delete_mission_payload account mms =
    properties (("missionId", prop "missionId" mms) ∷ ("accountId", some (str account)) ∷ [])

module _ {B : Type 0} (c : JsonText B) (js : Coercions) (w : World) where
  -- `fn_sendRequest` with its `then` and `catch`
  unfoldable pub ask : String → Fields → Pending → System B → System B
  ask rid payload p s =
      let storage = request w rid (number_of p.command) (obj payload) s.storage in
      deliver c js (drop (length s.storage.actions) storage.actions)
        (record s { storage = storage; pending = put rid p s.pending })

  abbrev pub not_connected_text : String → String
  not_connected_text state = "Error: Storage server not connected (state: " +++ state +++ ")"

  -- the reply where the storage server is not connected
  unfoldable pub unavailable : Pending → System B → System B
  unavailable p s =
      (reply c p.command (some (str (not_connected_text s.storage.connection_state))) p.ws p.message
        s).0

  -- the second half of every handler; without a payload it stops, or throws, once it is connected
  unfoldable pub submit : String → Option Fields → Pending → System B → System B
  submit rid payload p s =
      if is_connected w s.storage
      then elim payload [ none ↦ s | some fields ↦ ask rid fields p s ]
      else unavailable p s

module _ {B : Type 0} (c : JsonText B) (js : Coercions) (parse_body : String → Option Json)
    (w : World) where
  -- a handler of tasks: the guard on the account, then the request
  unfoldable pub handle_tasks :
      Command → (Fields → Option Fields) → Inputs → Fields → ℕ → System B → System B
  handle_tasks command payload i fs ws s = elim (message_body parse_body fs) [
    | none ↦ s
    | some mms ↦
        let p : Pending = record { ws = ws; message = fs; body = mms; command = command } in
        if is_blank js (prop "ai" mms) then s else submit c js w i.rid (payload mms) p s
  ]

  -- `fn_handleLoadTasks`
  unfoldable pub handle_load_tasks : Inputs → Fields → ℕ → System B → System B
  handle_load_tasks = handle_tasks load_tasks (λ mms. some (tasks_payload mms))

  -- `fn_handleSaveTasks`
  unfoldable pub handle_save_tasks : Inputs → Fields → ℕ → System B → System B
  handle_save_tasks i = handle_tasks save_tasks (save_tasks_payload i.task_id) i

  -- `fn_handleDeleteTasks`
  unfoldable pub handle_delete_tasks : Inputs → Fields → ℕ → System B → System B
  handle_delete_tasks = handle_tasks delete_tasks task_ids_payload

  -- `fn_handleDisableTasks`
  unfoldable pub handle_disable_tasks : Inputs → Fields → ℕ → System B → System B
  handle_disable_tasks = handle_tasks disable_tasks task_ids_payload

  -- a handler of missions or news: the guard on the body, then the account of the login
  unfoldable pub handle_scoped :
      Command
      → (Fields → Bool)
      → (String → Fields → Fields)
      → Inputs
      → Fields
      → ℕ
      → System B
      → System B
  handle_scoped command stops payload i fs ws s = elim (message_body parse_body fs) [
    | none ↦ s
    | some mms ↦
        let p : Pending = record { ws = ws; message = fs; body = mms; command = command } in
        if stops mms then s else (elim (account_of_login ws s) [
          | none ↦ s
          | some account ↦ submit c js w i.rid (some (payload account mms)) p s
        ])
  ]

  -- `fn_handleLoadMission`
  unfoldable pub handle_load_mission : Inputs → Fields → ℕ → System B → System B
  handle_load_mission =
      handle_scoped load_mission (λ mms. is_blank js (prop "unitId" mms)) load_mission_payload

  -- `fn_handleSaveMission`
  unfoldable pub handle_save_mission : Inputs → Fields → ℕ → System B → System B
  handle_save_mission =
      handle_scoped save_mission (λ mms. is_blank js (prop "unitId" mms)) save_mission_payload

  -- `fn_handleDeleteMission`
  unfoldable pub handle_delete_mission : Inputs → Fields → ℕ → System B → System B
  handle_delete_mission =
      handle_scoped delete_mission (λ mms. is_nullish (prop "missionId" mms)) delete_mission_payload
