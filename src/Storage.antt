-- ===== src/Storage.antt =====
-- src/comm_server/server_to_server/js_db_proxy_client.js: the client of the storage server. Its module
-- variables are a record, its callbacks functions on it; what they send and whom they answer is a log.
pub mod Lifecycle
pub mod Requests
pub mod Conservation
pub mod Backoff
use droneengage_server.Base.{
  ℕ, suc, ◌+◌, ◌-◌, ◌*◌, ◌/◌, ◌^◌, min, Bool, true, false, not, ◌&&◌, ◌||◌, Option, none, some,
  List, [], ◌∷◌, ◌++◌, String, Dict, get, put, erase, has, keys, if◌then◌else◌, opt_eq, str_eq,
  ◌==◌, is_some, Json, Fields, field, end, obj, str, num, prop, str_prop, null,
}
use droneengage_server.Constants.{
  const_storage_state_disconnected, const_storage_state_connecting, const_storage_state_connected,
  const_storage_state_unhealthy, const_storage_state_error, news_push,
}

pub record Endpoint : Type 0 where
  pub host : String
  pub port : ℕ

-- What a promise of `fn_sendRequest` comes to.
pub data Outcome : Type 0 where
  resolved : Fields → Outcome
  not_connected timed_out disconnected send_failed : Outcome

-- What the client does to the world, in order. An answer names the request by its `rid`; a request that
-- was refused before it had one is not of the table.
pub data Action : Type 0 where
  send_request : String → ℕ → Json → Action
  send_response : Json → Action
  close_ws : ℕ → Action
  open_ws : ℕ → Action
  send_status : String → Option String → Option Endpoint → Action
  push_news : Option Json → Action
  settle : String → Outcome → Action
  refuse : Action

pub record Client : Type 0 where
  pub ws : Option ℕ
  pub next_ws : ℕ
  pub authenticated : Bool
  pub endpoint : Option Endpoint
  pub reconnect_timer : Option ℕ
  pub heartbeat_timer : Bool
  pub auth_timer : Bool
  pub pending_requests : List String
  pub reconnect_attempts : ℕ
  pub connection_state : String
  pub last_sent_status : Option String
  -- whether the callbacks are set
  pub to_auth : Bool
  pub to_news : Bool
  pub actions : List Action

-- Node's and the WebSocket's part: whether a socket is open, whether its `send` throws, and the signed
-- reply to a challenge, which is none where the private key cannot be loaded.
pub record World : Type 0 where
  pub is_open : ℕ → Bool
  pub send_throws : ℕ → Bool
  pub sign : Option Json → Option Json

abbrev pub act : Action → Client → Client
act a c = record c { actions = c.actions ++ a ∷ [] }

-- the keys of `m_pendingRequests` in the order in which they were added, each of which is there once
unfoldable pub is_pending : String → List String → Bool
is_pending rid [] = false
is_pending rid (k ∷ ks) = if str_eq k rid then true else is_pending rid ks

unfoldable pub add_pending : String → List String → List String
add_pending rid ks = if is_pending rid ks then ks else ks ++ rid ∷ []

unfoldable pub delete_pending : String → List String → List String
delete_pending rid [] = []
delete_pending rid (k ∷ ks) =
    let rest = delete_pending rid ks in if str_eq k rid then ks else k ∷ rest

-- `fn_clearPending`
unfoldable pub reject_all : List String → Client → Client
reject_all [] c = c
reject_all (k ∷ ks) c = reject_all ks (act (settle k disconnected) c)

unfoldable pub clear_pending : Client → Client
clear_pending c = record (reject_all c.pending_requests c) { pending_requests = [] }

-- `fn_sendStorageStatus`
unfoldable pub send_storage_status : String → Option String → Bool → Client → Client
send_storage_status status error force c =
    if not c.to_auth
    then c
    else if not force && opt_eq c.last_sent_status (some status)
    then c
    else act (send_status status error c.endpoint) (record c { last_sent_status = some status })

-- `v_msg.mt === CONST_TYPE_AndruavSystem_NewsPush`
unfoldable pub is_news_push : Fields → Bool
is_news_push fs = elim (prop "mt" fs) [ some (num n) ↦ n == news_push | _ ↦ false ]

-- `fn_onOpen`
unfoldable pub on_open : Client → Client
on_open c =
    let c₁ = record c {
      reconnect_attempts = 0;
      connection_state = const_storage_state_connecting;
    } in
    let c₂ = send_storage_status const_storage_state_connecting none true c₁ in
    record c₂ { auth_timer = true }

-- what an authentication, or the lack of one, leads to
unfoldable pub authenticate : Client → Client
authenticate c =
    let c₁ = record c { authenticated = true; connection_state = const_storage_state_connected } in
    let c₂ = send_storage_status const_storage_state_connected none true c₁ in
    record c₂ { heartbeat_timer = true }

unfoldable pub ws_is_open : World → Client → Bool
ws_is_open w c = elim c.ws [ none ↦ false | some ws ↦ w.is_open ws ]

-- the timer that `fn_onOpen` sets
unfoldable pub on_auth_timer : World → Client → Client
on_auth_timer w c =
    if not c.auth_timer
    then c
    else let c₁ = record c { auth_timer = false } in
      if not c.authenticated && ws_is_open w c then authenticate c₁ else c₁

-- the answer to a challenge
unfoldable pub answer_challenge : World → ℕ → Option Json → Client → Client
answer_challenge w ws nonce c =
    let c₁ = record c { auth_timer = false } in
    elim (w.sign nonce) [
      | none ↦ act (close_ws ws) c₁
      | some response ↦
          if w.send_throws ws then act (close_ws ws) c₁ else act (send_response response) c₁
    ]

-- a message that is an envelope of the server-to-server authentication
unfoldable pub on_envelope : World → Fields → Client → Client
on_envelope w env c = elim c.ws [
  | none ↦ c
  | some ws ↦
      if opt_eq (str_prop "s2s_auth" env) (some "challenge")
      then answer_challenge w ws (prop "nonce" env) c
      else c
]

-- the property name that an `rid` that is neither missing nor null gives
unfoldable pub reply_key : (Json → String) → Fields → Option String
reply_key key_text fs = elim (prop "rid" fs) [
  | none ↦ none
  | some null ↦ none
  | some j ↦ some (key_text j)
]

-- the push of news without a request
unfoldable pub on_push : Fields → Client → Client
on_push fs c = if c.to_news && is_news_push fs then act (push_news (prop "ms" fs)) c else c

-- the answer to a request that is pending
unfoldable pub answer : String → Fields → Client → Client
answer rid fs c =
    if is_pending rid c.pending_requests
    then act (settle rid (resolved fs))
        (record c { pending_requests = delete_pending rid c.pending_requests })
    else on_push fs c

-- any other message that is an object
unfoldable pub on_reply : (Json → String) → Fields → Client → Client
on_reply key_text fs c =
    if opt_eq (str_prop "type" fs) (some "auth_success")
    then authenticate (record c { auth_timer = false })
    else if opt_eq (str_prop "type" fs) (some "error")
    then c
    else (elim (reply_key key_text fs) [ none ↦ on_push fs c | some rid ↦ answer rid fs c ])

-- `fn_onMessage`, of the envelope and the JSON value that the data is; a null makes it throw
unfoldable pub on_message :
    World → (Json → String) → Option Fields → Option Json → Client → Client × Bool
on_message w key_text (some env) parsed c = (on_envelope w env c, false)
on_message w key_text none none c = (c, false)
on_message w key_text none (some (obj fs)) c = (on_reply key_text fs c, false)
on_message w key_text none (some null) c = (c, true)
on_message w key_text none (some _) c = (c, false)
