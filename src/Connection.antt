-- ===== src/Connection.antt =====
-- src/comm_server/chat_server/js_chat_connection.js: how a WebSocket becomes a logged-in unit, and how
-- it goes. The events of one socket (connection, message, timeout of the authentication frame, close)
-- are functions on the state; the proofs are in the children.
pub mod Handlers
pub mod Admission
pub mod Decided
pub mod TempKeys
use Prim.Native.String.{count}
use droneengage_server.Base.{
  ℕ, ◌+◌, Bool, true, false, not, ◌&&◌, ◌||◌, Option, none, some, List, [], ◌∷◌, ◌++◌, String, Dict,
  get, has, erase, read, own, inherited, undefined, if◌then◌else◌, ltb, Json, Fields, num, str_prop,
  prop, is_some,
}
use droneengage_server.Constants.{
  const_cs_account_id, const_cs_group_id, const_cs_sender_id, const_cs_login_temp_key,
  const_cs_request_id, const_actor_type, const_permission2,
}
use droneengage_server.Rooms.{
  Rooms, Socket, Status, LoginRequest, send, close, call, set_socket, add_active_sender,
  delete_active_sender,
}
use droneengage_server.Rooms.Registry.{add_member_to_account_group, del_member_from_account_by_name}
use droneengage_server.Routing.{Server}

-- The part of the configuration that the handlers read.
pub record ConnectionConfig : Type 0 where
  pub local_server_enabled : Bool
  pub local_server_account_id : Option String
  -- `ws_auth_no_frame_old_compatibility !== false`
  pub allow_old_compat : Bool
  -- whether `fn_updateAuthServer` is set
  pub auth_server : Bool

-- What a handler asks of the Auth server's client and of the UDP proxies.
pub data Effect : Type 0 where
  update_auth_server : Effect
  logout_request : Option String → Effect
  close_udp_socket : String → Effect

-- The rooms and channels, `m_waitingAccounts`, and the effects in order.
pub record Hub (B : Type 0) : Type 0 where
  pub server : Server B
  pub waiting_accounts : Dict Fields
  pub effects : List Effect

module _ {B : Type 0} where
  abbrev pub rooms_of : Hub B → Rooms (List B)
  rooms_of h = h.server.rooms

  abbrev pub on_rooms : (Rooms (List B) → Rooms (List B)) → Hub B → Hub B
  on_rooms f h = record h { server = record (h.server) { rooms = f h.server.rooms } }

  abbrev pub effect : Effect → Hub B → Hub B
  effect e h = record h { effects = h.effects ++ e ∷ [] }

  abbrev pub close_socket : ℕ → Hub B → Hub B
  close_socket ws = on_rooms (call (close ws))

  -- `p_ws.m_loginRequest = null; p_ws.close();`
  abbrev pub reject : ℕ → Hub B → Hub B
  reject ws =
      on_rooms
        λ r. call (close ws) (set_socket ws (record (r.sockets ws) { login_request = none }) r)

  -- the rooms after `_acceptConnection`, but for its reply
  unfoldable pub admit : LoginRequest → ℕ → Rooms (List B) → Rooms (List B)
  admit login ws r =
      let r₁ =
        set_socket ws
          (record (r.sockets ws) {
            login_request = some login;
            status = some (record { m_ttx = 0; m_btx = 0 });
          })
          r in
      let r₂ = add_active_sender login.sender_id ws r₁ in
      let r₃ = del_member_from_account_by_name (some login) true r₂ in
      (add_member_to_account_group ws r₃).0

  -- `_acceptConnection`; true if `send_ok_message`, which comes last, throws
  unfoldable pub accept : (ℕ → List B) → LoginRequest → ℕ → Hub B → Hub B × Bool
  accept ok_message login ws h =
      let r = admit login ws (rooms_of h) in
      if (r.sockets ws).send_throws
      then (on_rooms (λ _. r) h, true)
      else (on_rooms (λ _. call (send ws (ok_message ws) false) r) h, false)

-- the login of a client of a server that runs without the Auth server
unfoldable pub local_login : ConnectionConfig → Dict String → LoginRequest
local_login config params = record {
  sender_id = get const_cs_sender_id params;
  account_id = elim config.local_server_account_id [ none ↦ some "1" | some id ↦ some id ];
  group_id = some "1";
  request_id = get const_cs_sender_id params;
  actor_type = elim (get "at" params) [ none ↦ some "a" | some at ↦ some at ];
  prm = some (num 0xffffffff);
}

-- the login that the Auth server announced; the sender's id is the client's word
unfoldable pub announced_login : Dict String → Fields → LoginRequest
announced_login params request = record {
  sender_id = get const_cs_sender_id params;
  account_id = str_prop const_cs_account_id request;
  group_id = str_prop const_cs_group_id request;
  request_id = str_prop const_cs_request_id request;
  actor_type = str_prop const_actor_type request;
  prm = prop const_permission2 request;
}

-- what the same code makes of a function that every object inherits
unfoldable pub inherited_login : Dict String → LoginRequest
inherited_login params = record {
  sender_id = get const_cs_sender_id params;
  account_id = none;
  group_id = none;
  request_id = none;
  actor_type = none;
  prm = none;
}

module _ {B : Type 0} where
  -- `isLoginExist`
  unfoldable pub is_login_exist : String → Hub B → Bool
  is_login_exist key h = elim (read key h.waiting_accounts) [ undefined ↦ false | _ ↦ true ]

  -- `deleteLogin`
  unfoldable pub delete_login : String → Hub B → Hub B
  delete_login key h = record h { waiting_accounts = erase key h.waiting_accounts }

module _ {B : Type 0} (ok_message : ℕ → List B) where
  unfoldable pub inform : Hub B × Bool → Hub B
  inform (h, true) = h
  inform (h, false) = effect update_auth_server h

  -- `acceptConnection`, with its exceptions caught
  unfoldable pub accept_connection : String → Dict String → ℕ → Hub B → Hub B
  accept_connection key params ws h = elim (read key h.waiting_accounts) [
    | own request ↦
        inform (accept ok_message (announced_login params request) ws (delete_login key h))
    | inherited ↦ inform (accept ok_message (inherited_login params) ws h)
    | undefined ↦ reject ws h
  ]

  -- `fn_validateKey`: it closes the socket on a bad key, and its caller does not read its result
  unfoldable pub validate_key : (String → Bool) → Option String → ℕ → Hub B → Hub B
  validate_key is_alphanumeric none ws h =
      if is_login_exist "undefined" h then h else close_socket ws h
  validate_key is_alphanumeric (some key) ws h =
      if not (is_alphanumeric key) || ltb 200 (count key)
      then close_socket ws h
      else (if is_login_exist key h then h else close_socket ws h)

  -- `fn_completeConnection`; true if an exception leaves it
  unfoldable pub complete_connection :
      (String → Bool) → ConnectionConfig → Dict String → ℕ → Hub B → Hub B × Bool
  complete_connection is_alphanumeric config params ws h =
      let key = get const_cs_login_temp_key params in
      if config.local_server_enabled
      then (elim key [
        | none ↦ (h, true)
        | some k ↦ accept ok_message (local_login config params) ws h
      ])
      else let checked = validate_key is_alphanumeric key ws h in
        (elim key [
          | none ↦ (reject ws checked, false)
          | some k ↦ (accept_connection k params ws checked, false)
        ])
