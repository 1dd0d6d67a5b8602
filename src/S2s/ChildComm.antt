-- ===== src/S2s/ChildComm.antt =====
-- src/comm_server/server_to_server/js_child_comm_server.js: a child server's side of the connection to its
-- super server. The WebSocket library and the signature are parameters.
use droneengage_server.Base.{
  ℕ, suc, ◌-◌, Bool, true, false, Option, none, some, List, [], ◌∷◌, ◌++◌, String, Json, Fields,
  prop, str_prop, opt_eq, JsonText, ◌==◌, if◌then◌else◌,
}
use droneengage_server.S2s.{parse_envelope, build_response, challenge}

-- `readyState` of a socket
pub data ReadyState : Type 0 where
  connecting : ReadyState
  opened : ReadyState
  closing : ReadyState
  closed : ReadyState

pub data Action (B : Type 0) : Type 0 where
  -- `new WebSocket(parentUrl, options)`
  dial : ℕ → Action B
  -- `send`, and whether as a binary message
  send : ℕ → List B → Bool → Action B
  -- `fn_parseExternalMessage(message, v_isBinary, this.parentWs)`, of a Buffer
  relay : List B → Option ℕ → Action B

-- `parentWs`, the state that the library keeps of each socket, the timers of `setTimeout` that are
-- not due, and the calls that were made
pub record ChildComm (B : Type 0) : Type 0 where
  pub parent_ws : Option ℕ
  pub ready_state : ℕ → ReadyState
  pub next_ws : ℕ
  pub reconnect_timers : ℕ
  pub actions : List (Action B)

abbrev pub is_open : ReadyState → Bool
is_open opened = true
is_open connecting = false
is_open closing = false
is_open closed = false

module _ {B : Type 0} where
  abbrev pub act : Action B → ChildComm B → ChildComm B
  act a s = record s { actions = s.actions ++ a ∷ [] }

  abbrev pub set_state : ℕ → ReadyState → ChildComm B → ChildComm B
  set_state ws r s = record s { ready_state = λ w. if w == ws then r else s.ready_state w }

  -- `connectToParent`
  unfoldable pub connect_to_parent : ChildComm B → ChildComm B
  connect_to_parent s =
      let ws = s.next_ws in
      act (dial ws) (set_state ws connecting (record s { parent_ws = some ws; next_ws = suc ws }))

  -- the constructor, which connects
  unfoldable pub create : ChildComm B
  create = connect_to_parent (record {
    parent_ws = none;
    ready_state = λ w. closed;
    next_ws = 0;
    reconnect_timers = 0;
    actions = [];
  })

  -- the `close` event: the timer of ten seconds is started
  unfoldable pub on_close : ℕ → ChildComm B → ChildComm B
  on_close ws s =
      set_state ws closed (record s { parent_ws = none; reconnect_timers = suc s.reconnect_timers })

  -- the timer, when it is due
  unfoldable pub on_reconnect_timer : ChildComm B → ChildComm B
  on_reconnect_timer s = connect_to_parent (record s { reconnect_timers = s.reconnect_timers - 1 })

  -- `isSocketConnected`
  unfoldable pub is_socket_connected : ChildComm B → Bool
  is_socket_connected s = elim s.parent_ws [ none ↦ false | some ws ↦ is_open (s.ready_state ws) ]

  -- `this.parentWs.send`, where `parentWs` is not null
  unfoldable pub send_to : Option ℕ → List B → Bool → ChildComm B → ChildComm B
  send_to none message is_binary s = s
  send_to (some ws) message is_binary s = act (send ws message is_binary) s

  -- `forwardMessage`
  unfoldable pub forward_message : List B → Bool → ChildComm B → ChildComm B
  forward_message message is_binary s =
      if is_socket_connected s then send_to s.parent_ws message is_binary s else s

-- `sign` is `fn_sign`, of whatever the nonce is: `none` where it throws. `server_id` is this server's.
module _ {B : Type 0} (c : JsonText B) (is_open_brace : B → Bool)
    (sign : Option Json → Option String) (server_id : Option Json) where
  -- the answer to a challenge
  unfoldable pub answer_parent : Fields → ChildComm B → ChildComm B
  answer_parent env s = elim (build_response c is_open_brace sign (prop "nonce" env) server_id) [
    | none ↦ s
    | some m ↦ send_to s.parent_ws m false s
  ]

  -- `onReceive`
  unfoldable pub on_receive : List B → ChildComm B → ChildComm B
  on_receive message s = elim (parse_envelope c is_open_brace message) [
    | some env ↦
        if opt_eq (str_prop "s2s_auth" env) (some challenge) then answer_parent env s else s
    | none ↦ act (relay message s.parent_ws) s
  ]
