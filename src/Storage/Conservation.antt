-- ===== src/Storage/Conservation.antt =====
-- About the requests of js_db_proxy_client.js over runs of its events.
use droneengage_server.Base.{
  ℕ, refl, ◌+◌, ◌≡◌, true, false, ◌&&◌, none, some, List, [], ◌∷◌, String, if◌then◌else◌, str_eq,
  arith, Json, inl, inr, Bool-cases, Option-cases,
}
use droneengage_server.Constants.{
  const_storage_state_disconnected, const_storage_state_connected, const_storage_state_unhealthy,
  const_storage_state_error,
}
use droneengage_server.Storage.{
  Client, World, Endpoint, timed_out, send_failed, settle, send_request, close_ws, open_ws, refuse,
  act, is_pending, add_pending, clear_pending, send_storage_status, ws_is_open,
}
use droneengage_server.Storage.Lifecycle.{
  Event, opened, auth_timer_due, heartbeat_due, reconnect_due, received, closed, failed, connecting,
  requested, request_due, step, connect_internal, on_close, on_error, on_heartbeat, connect,
  is_connected, request, on_request_timeout,
}
use droneengage_server.Storage.Requests.{
  answers, waiting, account_of, waiting-append, delete_pending-append, reject_all-answers,
  answers-act, send_storage_status-account, on_open-account, on_auth_timer-account,
  answered-account, on_message-account,
}

module _ (rid : String) where
  connect_internal-account : (c : Client) → account_of rid (connect_internal c) ≡ account_of rid c
  unfolding connect_internal
  connect_internal-account c = ground (arith, answers-act rid c (open_ws c.next_ws))

  connect-account : (e : Endpoint) (c : Client) → account_of rid (connect e c) ≡ account_of rid c
  unfolding connect
  connect-account e c = elim (Option-cases c.ws) [
    | inl h ↦
        ground (
          arith,
          h,
          connect_internal-account (record c { authenticated = false; endpoint = some e }),
        )
    | inr (ws, h) ↦ ground (
      arith,
      h,
      answers-act rid c (close_ws ws),
      connect_internal-account
          (record (act (close_ws ws) c) { ws = none; authenticated = false; endpoint = some e }),
    )
  ]

  on_error-account :
      (error : String) (c : Client) → account_of rid (on_error error c) ≡ account_of rid c
  unfolding on_error
  on_error-account error c =
      let c₂ =
        send_storage_status const_storage_state_error (some error) true
          (record c { connection_state = const_storage_state_unhealthy }) in
      let same =
        send_storage_status-account rid const_storage_state_error (some error) true
          (record c { connection_state = const_storage_state_unhealthy }) in
      elim (Option-cases c₂.ws) [
        | inl e ↦ ground (arith, e, same)
        | inr (ws, e) ↦ ground (arith, e, same, answers-act rid c₂ (close_ws ws))
      ]

  clear_pending-account : (c : Client) → account_of rid (clear_pending c) ≡ account_of rid c
  unfolding clear_pending
  clear_pending-account c = ground (arith, reject_all-answers rid c.pending_requests c)

  on_close-account : (k d : ℕ) (c : Client) → account_of rid (on_close k d c) ≡ account_of rid c
  unfolding on_close
  on_close-account k d c =
      let c₁ = record c {
        authenticated = false;
        ws = none;
        connection_state = const_storage_state_disconnected;
        heartbeat_timer = false;
      } in
      ground (
        arith,
        clear_pending-account (
            send_storage_status const_storage_state_disconnected (some "Connection closed") true
              c₁),
        send_storage_status-account rid const_storage_state_disconnected (some "Connection closed")
            true c₁,
      )

  on_heartbeat-account : (c : Client) → account_of rid (on_heartbeat c) ≡ account_of rid c
  unfolding on_heartbeat
  on_heartbeat-account c = ground (
    arith,
    send_storage_status-account rid
        (if c.authenticated
          then const_storage_state_connected
          else const_storage_state_disconnected)
        none false c,
  )

  on_request_timeout-account :
      (k : String) (c : Client) → account_of rid (on_request_timeout k c) ≡ account_of rid c
  unfolding on_request_timeout
  on_request_timeout-account k c = elim (Bool-cases (is_pending k c.pending_requests)) [
    | inl e ↦ rw (e, on_request_timeout) (answered-account rid k timed_out c e)
    | inr e ↦ rw (e, on_request_timeout) refl
  ]

  -- whether the event is a request under this `rid` that the client takes
  abbrev pub taken : World → Event → Client → ℕ
  taken w (requested k mt ms) c = if is_connected w c && str_eq k rid then 1 else 0
  taken w _ c = 0

  request-account :
      (w : World) (k : String) (mt : ℕ) (ms : Json) (c : Client)
      → is_pending k c.pending_requests ≡ false
      → account_of rid (request w k mt ms c) ≡ account_of rid c + taken w (requested k mt ms) c
  unfolding request is_connected ws_is_open add_pending
  request-account w k mt ms c fresh = elim (Option-cases c.ws) [
    | inl e ↦ ground (arith, e, answers-act rid c refuse)
    | inr (ws, e) ↦ ground (
      arith,
      e,
      fresh,
      answers-act rid c refuse,
      answers-act rid c (settle k send_failed),
      answers-act rid c (send_request k mt ms),
      waiting-append rid c.pending_requests (k ∷ []),
      delete_pending-append k c.pending_requests fresh,
    )
  ]

-- No request is sent under an `rid` that is pending: `uuidv4` draws fresh ones.
abbrev pub Fresh : Event → Client → Type 0
Fresh (requested k mt ms) c = is_pending k c.pending_requests ≡ false
Fresh _ c = Unit

module _ (w : World) (key_text : Json → String) where
  abbrev pub run : List Event → Client → Client
  run [] c = c
  run (e ∷ es) c = run es (step w key_text e c)

  abbrev pub AllFresh : List Event → Client → Type 0
  AllFresh [] c = Unit
  AllFresh (e ∷ es) c = Fresh e c × AllFresh es (step w key_text e c)

  -- how many requests under the `rid` the client takes in a run
  abbrev pub taken_in : String → List Event → Client → ℕ
  taken_in rid [] c = 0
  taken_in rid (e ∷ es) c = taken rid w e c + taken_in rid es (step w key_text e c)

  step-account :
      (rid : String) (e : Event) (c : Client)
      → Fresh e c
      → account_of rid (step w key_text e c) ≡ account_of rid c + taken rid w e c
  unfolding step
  step-account rid opened c h = omega (arith, on_open-account rid c)
  step-account rid auth_timer_due c h = omega (arith, on_auth_timer-account rid w c)
  step-account rid heartbeat_due c h = omega (arith, on_heartbeat-account rid c)
  step-account rid reconnect_due c h = omega (arith, connect_internal-account rid c)
  step-account rid (received env parsed) c h =
      omega (arith, on_message-account rid w key_text env parsed c)
  step-account rid (closed k d) c h = omega (arith, on_close-account rid k d c)
  step-account rid (failed error) c h = omega (arith, on_error-account rid error c)
  step-account rid (connecting e) c h = omega (arith, connect-account rid e c)
  step-account rid (requested k mt ms) c h = request-account rid w k mt ms c h
  step-account rid (request_due k) c h = omega (arith, on_request_timeout-account rid k c)

  -- Over every run of events, the answers given to an `rid` and the request if it is pending are as many
  -- as they were and the requests taken under it: no request is lost, and none is answered twice.
  pub run-account :
      (rid : String) (es : List Event) (c : Client)
      → AllFresh es c
      → answers rid (run es c).actions + waiting rid (run es c).pending_requests
        ≡ answers rid c.actions + waiting rid c.pending_requests + taken_in rid es c
  run-account rid [] c h = omega arith
  run-account rid (e ∷ es) c (h, hs) =
      omega (arith, run-account rid es (step w key_text e c) hs, step-account rid e c h)

  -- After a run with fresh ids from a state in which no request of the id is pending or answered, and
  -- a close of the connection, the id has as many answers as requests were taken under it.
  pub closed-answered :
      (rid : String) (es : List Event) (c : Client) (k d : ℕ)
      → AllFresh es c
      → answers rid c.actions ≡ 0
      → waiting rid c.pending_requests ≡ 0
      → answers rid (on_close k d (run es c)).actions ≡ taken_in rid es c
  unfolding on_close clear_pending
  closed-answered rid es c k d h none_answered none_pending = ground (
    arith,
    run-account rid es c h,
    on_close-account rid k d (run es c),
    none_answered,
    none_pending,
  )
