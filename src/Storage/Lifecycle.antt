-- ===== src/Storage/Lifecycle.antt =====
-- The rest of js_db_proxy_client.js: connecting and losing the connection, sending requests, and the events
-- that the client's callbacks answer.
use droneengage_server.Base.{
  ℕ, suc, ◌+◌, ◌-◌, ◌*◌, ◌/◌, ◌^◌, min, Bool, true, false, not, ◌&&◌, Option, none, some, String,
  if◌then◌else◌, str_eq, ◌==◌, is_some, Json, Fields,
}
use droneengage_server.Constants.{
  const_storage_state_disconnected, const_storage_state_connecting, const_storage_state_connected,
  const_storage_state_unhealthy, const_storage_state_error,
}
use droneengage_server.Storage.{
  Endpoint, timed_out, send_failed, send_request, close_ws, open_ws, settle, refuse, Client, World,
  act, is_pending, add_pending, delete_pending, clear_pending, send_storage_status, on_open,
  ws_is_open, on_auth_timer, on_message,
}

-- `fn_connectInternal`
unfoldable pub connect_internal : Client → Client
connect_internal c = elim c.endpoint [
  | none ↦ c
  | some e ↦ act (open_ws c.next_ws) (record c {
    reconnect_timer = none;
    connection_state = const_storage_state_connecting;
    ws = some c.next_ws;
    next_ws = suc c.next_ws;
  })
]

-- `Math.min(1000 * 2 ** (attempts - 1), 60000)`, for at least one attempt
unfoldable pub base_delay : ℕ → ℕ
base_delay attempts = min (1000 * 2 ^ (attempts - 1)) 60000

-- `Math.floor(base + base * 0.25 * (random * 2 - 1))` for the random number `k / (1 + d)`
unfoldable pub reconnect_delay : ℕ → ℕ → ℕ → ℕ
reconnect_delay attempts k d = base_delay attempts * (3 * suc d + 2 * k) / (4 * suc d)

-- `fn_onClose`, with that random number
unfoldable pub on_close : ℕ → ℕ → Client → Client
on_close k d c =
    let c₁ = record c {
      authenticated = false;
      ws = none;
      connection_state = const_storage_state_disconnected;
      heartbeat_timer = false;
    } in
    let c₂ =
      send_storage_status const_storage_state_disconnected (some "Connection closed") true c₁ in
    let c₃ = clear_pending c₂ in
    let c₄ = record c₃ { auth_timer = false } in
    if is_some c₄.endpoint
    then record c₄ {
      reconnect_attempts = suc c₄.reconnect_attempts;
      reconnect_timer = some (reconnect_delay (suc c₄.reconnect_attempts) k d);
    }
    else c₄

-- `fn_onError`
unfoldable pub on_error : String → Client → Client
on_error error c =
    let c₁ = record c { connection_state = const_storage_state_unhealthy } in
    let c₂ = send_storage_status const_storage_state_error (some error) true c₁ in
    elim c₂.ws [ none ↦ c₂ | some ws ↦ act (close_ws ws) c₂ ]

-- a tick of the heartbeat
unfoldable pub on_heartbeat : Client → Client
on_heartbeat c =
    if c.heartbeat_timer
    then send_storage_status
        (if c.authenticated
          then const_storage_state_connected
          else const_storage_state_disconnected)
        none false c
    else c

-- `fn_connect`
unfoldable pub connect : Endpoint → Client → Client
connect e c =
    let same : Bool = elim c.endpoint [
      | none ↦ false
      | some f ↦ str_eq f.host e.host && (f.port == e.port)
    ] in
    if same
    then c
    else let c₁ : Client = elim c.ws [
      | none ↦ c
      | some ws ↦ record (act (close_ws ws) c) { ws = none }
    ] in
      connect_internal (record c₁ { authenticated = false; endpoint = some e })

-- `fn_isConnected`
unfoldable pub is_connected : World → Client → Bool
is_connected w c = ws_is_open w c && c.authenticated

-- `fn_sendRequest`, with the `rid` that it draws
unfoldable pub request : World → String → ℕ → Json → Client → Client
request w rid mt ms c = if not (is_connected w c) then act refuse c else (elim c.ws [
  | none ↦ act refuse c
  | some ws ↦
      if w.send_throws ws
      then act (settle rid send_failed)
          (record c { pending_requests = delete_pending rid (add_pending rid c.pending_requests) })
      else act (send_request rid mt ms)
          (record c { pending_requests = add_pending rid c.pending_requests })
])

-- the timer of a request, which is cleared where the request is answered
unfoldable pub on_request_timeout : String → Client → Client
on_request_timeout rid c =
    if is_pending rid c.pending_requests
    then act (settle rid timed_out)
        (record c { pending_requests = delete_pending rid c.pending_requests })
    else c

-- The events that the client's callbacks answer, with what each of them reads.
pub data Event : Type 0 where
  opened auth_timer_due heartbeat_due reconnect_due : Event
  received : Option Fields → Option Json → Event
  closed : ℕ → ℕ → Event
  failed : String → Event
  connecting : Endpoint → Event
  requested : String → ℕ → Json → Event
  request_due : String → Event

unfoldable pub step : World → (Json → String) → Event → Client → Client
step w key_text opened c = on_open c
step w key_text auth_timer_due c = on_auth_timer w c
step w key_text heartbeat_due c = on_heartbeat c
step w key_text reconnect_due c = connect_internal c
step w key_text (received env parsed) c = (on_message w key_text env parsed c).0
step w key_text (closed k d) c = on_close k d c
step w key_text (failed error) c = on_error error c
step w key_text (connecting e) c = connect e c
step w key_text (requested rid mt ms) c = request w rid mt ms c
step w key_text (request_due rid) c = on_request_timeout rid c
