-- ===== src/System/News.antt =====
-- The handlers of js_chat_news.js and of js_chat_query_server.js.
use droneengage_server.Base.{
  ℕ, Bool, true, false, Option, none, some, [], ◌∷◌, String, if◌then◌else◌, str_eq, ◌==◌, Json,
  Fields, null, bool, num, obj, arr, str, nil, end, prop, set_opt, is_nullish, is_truthy, Coercions,
  JsonText,
}
use droneengage_server.Constants.{
  const_news_scope_account, is_storage_server_connected, type_state_server,
  const_ws_msg_routing_system,
}
use droneengage_server.Storage.{World}
use droneengage_server.Storage.Lifecycle.{is_connected}
use droneengage_server.System.{
  System, Pending, load_news, save_news, delete_news, message_body, account_of_login, socket_name,
  reply_fields, send_json,
}
use droneengage_server.System.Tasks.{Inputs, properties, submit, handle_scoped}

-- `mms.body == null || mms.body.length === 0`
unfoldable pub lacks_body : Fields → Bool
lacks_body mms = elim (prop "body" mms) [
  | none ↦ true
  | some null ↦ true
  | some (str s) ↦ str_eq s ""
  | some (arr nil) ↦ true
  | some (obj o) ↦ (elim (prop "length" o) [ some (num n) ↦ n == 0 | _ ↦ false ])
  | some _ ↦ false
]

abbrev pub or_null : Option Json → Json
or_null none = null
or_null (some j) = j

-- `p_ws.m_loginRequest.m_senderID || null`
unfoldable pub author_of : {B : Type 0} → ℕ → System B → Json
author_of ws s = elim (s.server.rooms.sockets ws).login_request [
  | none ↦ null
  | some login ↦ elim login.sender_id [
    | none ↦ null
    | some sender ↦ if str_eq sender "" then null else str sender
  ]
]

-- `fn_saveNews`, for the scope that the handler gives
unfoldable pub save_news_payload : Json → String → Fields → Fields
save_news_payload author account mms =
    let payload = properties (
      ("scope", some (str const_news_scope_account))
      ∷ ("accountId", some (str account))
      ∷ ("title", prop "title" mms)
      ∷ ("body", prop "body" mms)
      ∷ ("priority", prop "priority" mms)
      ∷ ("authorId", some author)
      ∷ ("expiresAt", some (or_null (prop "expiresAt" mms)))
      ∷ []) in
    if is_truthy (prop "newsId" mms) then set_opt "newsId" (prop "newsId" mms) payload else payload

-- `fn_loadNews`
unfoldable pub load_news_payload : String → Fields
load_news_payload account = properties (("accountId", some (str account)) ∷ [])

-- `fn_deleteNews`
unfoldable pub delete_news_payload : String → Fields → Fields
delete_news_payload account mms = properties (("newsId", prop "newsId" mms) ∷ [])

-- the answer to a query: the state of the storage client
unfoldable pub query_reply : {B : Type 0} → World → Fields → System B → Fields
query_reply w mms s =
    let known : Bool = elim (prop "sc" mms) [
      | some (num n) ↦ n == is_storage_server_connected
      | _ ↦ false
    ] in
    properties (
      ("sc", prop "sc" mms)
      ∷ ("v", some (bool (if known then is_connected w s.storage else false)))
      ∷ ("st", some (str (if known then s.storage.connection_state else "unknown_subcommand")))
      ∷ [])

module _ {B : Type 0} (c : JsonText B) (js : Coercions) (parse_body : String → Option Json)
    (w : World) where
  -- `fn_handleLoadNews`, which does not read the body
  unfoldable pub handle_load_news : Inputs → Fields → ℕ → System B → System B
  handle_load_news i fs ws s = elim (account_of_login ws s) [
    | none ↦ s
    | some account ↦
        let p : Pending = record { ws = ws; message = fs; body = end; command = load_news } in
        submit c js w i.rid (some (load_news_payload account)) p s
  ]

  -- `fn_handleSaveNews`
  unfoldable pub handle_save_news : Inputs → Fields → ℕ → System B → System B
  handle_save_news i fs ws s =
      handle_scoped c js parse_body w save_news lacks_body (save_news_payload (author_of ws s)) i fs
        ws s

  -- `fn_handleDeleteNews`
  unfoldable pub handle_delete_news : Inputs → Fields → ℕ → System B → System B
  handle_delete_news =
      handle_scoped c js parse_body w delete_news (λ mms. is_nullish (prop "newsId" mms))
        delete_news_payload

  -- `fn_handleQueryServer`
  unfoldable pub handle_query_server : Fields → ℕ → System B → System B
  handle_query_server fs ws s = elim (message_body parse_body fs) [
    | none ↦ s
    | some mms ↦
        (send_json c ws
          (reply_fields const_ws_msg_routing_system (socket_name ws s) type_state_server
            (some (obj (query_reply w mms s))) fs)
          s).0
  ]
