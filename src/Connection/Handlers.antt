-- ===== src/Connection/Handlers.antt =====
-- The handlers of one socket's events: `fn_onConnect_Handler` and the functions inside it.
use droneengage_server.Base.{
  ℕ, Bool, true, false, not, ◌&&◌, Option, none, some, List, [], String, Dict, has, put,
  if◌then◌else◌, opt_eq, Fields, null, obj, str, end, field, str_prop, prop, property_key,
  Coercions, JsonText,
}
use droneengage_server.Constants.{
  const_cs_login_temp_key, const_cs_sender_id, const_ws_msg_routing_system,
}
use droneengage_server.Relay.{RelayConfig}
use droneengage_server.Rooms.{send, call, set_socket, delete_active_sender}
use droneengage_server.Rooms.Registry.{del_member_from_account_by_name}
use droneengage_server.Routing.{Server, parse_message}
use droneengage_server.Connection.{
  Hub, ConnectionConfig, update_auth_server, logout_request, close_udp_socket, rooms_of, on_rooms,
  effect, close_socket, complete_connection,
}

-- What `fn_sendAuthAck` sends.
unfoldable pub auth_ack : Bool → String → Fields
auth_ack ok reason = field "ty" (str const_ws_msg_routing_system) (
    field "mt" (str "de_auth_ack") (
      field "r" (str (if ok then "ok" else "fail"))
        (if ok then end else field "em" (str reason) end)))

-- A field of the authentication frame that is not null, as the text that it is used by.
unfoldable pub frame_param : Coercions → String → Fields → Option String
frame_param js k fs = elim (prop k fs) [
  | none ↦ none
  | some null ↦ none
  | some j ↦ some (property_key js (some j))
]

unfoldable pub add_param : String → Option String → Dict String → Dict String
add_param k none params = params
add_param k (some v) params = put k v params

-- `c_frameParams`
unfoldable pub frame_params : Coercions → Fields → Dict String
unfolding frame_param add_param
frame_params js fs = add_param "at" (frame_param js "at" fs) (
    add_param const_cs_sender_id (frame_param js "s" fs)
      (add_param const_cs_login_temp_key (frame_param js "f" fs) []))

-- The test for a `de_auth` system frame.
unfoldable pub is_auth_frame : Fields → Bool
is_auth_frame fs =
    opt_eq (str_prop "ty" fs) (some const_ws_msg_routing_system)
    && opt_eq (str_prop "mt" fs) (some "de_auth")

module _ {B : Type 0} (c : JsonText B) where
  -- `fn_sendAuthAck`, with its exceptions caught
  unfoldable pub send_auth_ack : Bool → String → ℕ → Hub B → Hub B
  send_auth_ack ok reason ws h =
      if ((rooms_of h).sockets ws).send_throws
      then h
      else on_rooms (call (send ws (c.stringify (obj (auth_ack ok reason))) false)) h

  abbrev pub set_pending : Bool → ℕ → Hub B → Hub B
  set_pending b ws = on_rooms λ r. set_socket ws (record (r.sockets ws) { auth_pending = b }) r

  -- the answer to a frame that is refused at once
  unfoldable pub refuse_frame : String → ℕ → Hub B → Hub B
  refuse_frame reason ws h =
      close_socket ws (set_pending false ws (send_auth_ack false reason ws h))

  -- the answer after `fn_completeConnection`
  unfoldable pub finish_frame : ℕ → Hub B × Bool → Hub B
  finish_frame ws (h, true) = close_socket ws (send_auth_ack false "validation error" ws h)
  finish_frame ws (h, false) = elim ((rooms_of h).sockets ws).login_request [
    | some login ↦ send_auth_ack true "" ws h
    | none ↦ close_socket ws (send_auth_ack false "auth rejected" ws h)
  ]

  -- the timer of a socket that waits for its frame
  unfoldable pub on_auth_timeout : ℕ → Hub B → Hub B
  on_auth_timeout ws h =
      if ((rooms_of h).sockets ws).auth_pending
      then close_socket ws (send_auth_ack false "auth frame timeout" ws (set_pending false ws h))
      else h

module _ {B : Type 0} (config : ConnectionConfig) where
  -- `fn_onWsClose`
  unfoldable pub on_close : ℕ → Hub B → Hub B
  on_close ws h =
      let socket = (rooms_of h).sockets ws in
      let h₁ = on_rooms (del_member_from_account_by_name socket.login_request true) h in
      let h₂ : Hub B = elim socket.name [
        | none ↦ h₁
        | some name ↦ effect (close_udp_socket name) h₁
      ] in
      if socket.terminated then h else (elim socket.login_request [
        | none ↦ h₂
        | some login ↦
            let h₃ = on_rooms (delete_active_sender login.sender_id) h₂ in
            let h₄ = effect (logout_request login.sender_id) h₃ in
            if config.auth_server then effect update_auth_server h₄ else h₄
      ])

module _ {B : Type 0} (c : JsonText B) (ok_message : ℕ → List B) (js : Coercions)
    (is_alphanumeric : String → Bool) (config : ConnectionConfig) where
  -- `fn_authFrameHandler`, which is installed while the socket is pending
  unfoldable pub on_auth_frame : ℕ → List B → Hub B → Hub B
  on_auth_frame ws message h =
      if not ((rooms_of h).sockets ws).auth_pending then h else (elim (c.parse message) [
        | none ↦ refuse_frame c "bad auth frame format" ws h
        | some (obj fs) ↦
            if is_auth_frame fs
            then finish_frame c ws (
                complete_connection ok_message is_alphanumeric config (frame_params js fs) ws
                  (set_pending c false ws h))
            else refuse_frame c "expected de_auth frame" ws h
        | some _ ↦ refuse_frame c "expected de_auth frame" ws h
      ])

  -- `fn_onConnect_Handler`, after `getHeaderParams`
  unfoldable pub on_connect : Dict String → ℕ → Hub B → Hub B
  on_connect params ws h =
      if has const_cs_login_temp_key params
      then if config.allow_old_compat
        then (complete_connection ok_message is_alphanumeric config params ws h).0
        else close_socket ws h
      else set_pending c true ws h

  -- a message: `fn_onWsMessage` was installed first, then `fn_authFrameHandler`
  module _ (relay : RelayConfig) (on_system : Fields → ℕ → Server B → Server B) where
    unfoldable pub on_message : ℕ → List B → Bool → Hub B → Hub B
    on_message ws message is_binary h =
        on_auth_frame ws message
          (record h { server = parse_message c js relay on_system ws message is_binary h.server })
