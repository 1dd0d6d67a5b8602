-- ===== src/Connection/Decided.antt =====
-- About the authentication frame's handler and its timer in js_chat_connection.js.
use droneengage_server.Base.{
  ℕ, ◌≡◌, Fields, end, get, read, own, inherited, undefined, refl, ◌∙◌, Bool, true, false, Option,
  none, some, List, String, Dict, arith, JsonText, Coercions, Json, obj, inl, inr, Option-cases,
}
use droneengage_server.Rooms.{Rooms, LoginRequest, add_member, add_active_sender}
use droneengage_server.Rooms.Registry.{
  add_member_to_account_group, add_with_login, find_account, find_group,
  del_member_from_account_by_name,
}
use droneengage_server.Rooms.Eviction.{del_member_from_account_by_name-Detaches}
use droneengage_server.Connection.{
  Hub, ConnectionConfig, announced_login, inherited_login, local_login, delete_login, rooms_of,
  reject, admit, accept, accept_connection, inform, validate_key, complete_connection,
}
use droneengage_server.Constants.{const_cs_login_temp_key}
use droneengage_server.Connection.Admission.{announced}
use droneengage_server.Connection.Handlers.{
  on_auth_frame, on_auth_timeout, refuse_frame, finish_frame, send_auth_ack, frame_params,
  set_pending,
}

-- whether the socket waits for its frame
abbrev pub pending : {B : Type 0} → ℕ → Hub B → Bool
pending ws h = ((rooms_of h).sockets ws).auth_pending

add_member_to_account_group-pending :
    {M : Type 0} (ws w : ℕ) (r : Rooms M)
    → ((add_member_to_account_group ws r).0.sockets w).auth_pending ≡ (r.sockets w).auth_pending
unfolding add_member_to_account_group add_with_login find_account find_group add_member
add_member_to_account_group-pending ws w r = ground arith

admit-pending :
    {B : Type 0} (login : LoginRequest) (ws w : ℕ) (r : Rooms (List B))
    → ((admit login ws r).sockets w).auth_pending ≡ (r.sockets w).auth_pending
unfolding admit add_active_sender
admit-pending login ws w r =
    let d = del_member_from_account_by_name-Detaches (some login) true (announced login ws r) in
    add_member_to_account_group-pending ws w
      (del_member_from_account_by_name (some login) true (announced login ws r))
    ∙ d.same_pending w
    ∙ ground arith

module _ {B : Type 0} (ok_message : ℕ → List B) (w : ℕ) where
  accept-pending :
      (login : LoginRequest) (ws : ℕ) (h : Hub B)
      → pending w (accept ok_message login ws h).0 ≡ pending w h
  unfolding accept
  accept-pending login ws h = ground (arith, admit-pending login ws w (rooms_of h))

  accept_connection-pending :
      (key : String) (params : Dict String) (ws : ℕ) (h : Hub B)
      → pending w (accept_connection ok_message key params ws h) ≡ pending w h
  unfolding accept_connection inform delete_login
  accept_connection-pending key params ws h =
      elim (read key h.waiting_accounts)
        as (λ p.
          pending w (elim p [
            | own request ↦
                inform ok_message
                  (accept ok_message (announced_login params request) ws (delete_login key h))
            | inherited ↦ inform ok_message (accept ok_message (inherited_login params) ws h)
            | undefined ↦ reject ws h
          ])
          ≡ pending w h) [
            | own request ↦
                ground
                  (arith, accept-pending (announced_login params request) ws (delete_login key h))
            | inherited ↦ ground (arith, accept-pending (inherited_login params) ws h)
            | undefined ↦ ground arith
          ]

  validate_key-pending :
      (is_alphanumeric : String → Bool) (key : Option String) (ws : ℕ) (h : Hub B)
      → pending w (validate_key ok_message is_alphanumeric key ws h) ≡ pending w h
  unfolding validate_key
  validate_key-pending is_alphanumeric none ws h = ground arith
  validate_key-pending is_alphanumeric (some key) ws h = ground arith

  complete_connection-pending :
      (is_alphanumeric : String → Bool) (config : ConnectionConfig) (params : Dict String) (ws : ℕ)
      (h : Hub B)
      → pending w (complete_connection ok_message is_alphanumeric config params ws h).0
        ≡ pending w h
  unfolding complete_connection
  complete_connection-pending is_alphanumeric config params ws h =
      let key = get const_cs_login_temp_key params in
      let checked = validate_key ok_message is_alphanumeric key ws h in
      elim (Option-cases key) [
        | inl e ↦ ground (arith, e, validate_key-pending is_alphanumeric key ws h)
        | inr (k, e) ↦ ground (
          arith,
          e,
          accept-pending (local_login config params) ws h,
          validate_key-pending is_alphanumeric key ws h,
          accept_connection-pending k params ws checked,
        )
      ]

module _ {B : Type 0} (c : JsonText B) (ws : ℕ) where
  send_auth_ack-pending :
      (ok : Bool) (reason : String) (h : Hub B)
      → pending ws (send_auth_ack c ok reason ws h) ≡ pending ws h
  unfolding send_auth_ack
  send_auth_ack-pending ok reason h = ground arith

  refuse_frame-pending :
      (reason : String) (h : Hub B) → pending ws (refuse_frame c reason ws h) ≡ false
  unfolding refuse_frame
  refuse_frame-pending reason h = ground arith

  finish_frame-pending :
      (h : Hub B) (thrown : Bool) → pending ws (finish_frame c ws (h, thrown)) ≡ pending ws h
  unfolding finish_frame
  finish_frame-pending h true = ground (arith, send_auth_ack-pending false "validation error" h)
  finish_frame-pending h false =
      ground (arith, send_auth_ack-pending true "" h, send_auth_ack-pending false "auth rejected" h)

  on_auth_timeout-pending : (h : Hub B) → pending ws (on_auth_timeout c ws h) ≡ false
  unfolding on_auth_timeout send_auth_ack
  on_auth_timeout-pending h = ground arith

-- the fields of a message that is an object
abbrev fields_of : Option Json → Fields
fields_of (some (obj fs)) = fs
fields_of _ = end

module _ {B : Type 0} (c : JsonText B) (ok_message : ℕ → List B) (js : Coercions)
    (is_alphanumeric : String → Bool) (config : ConnectionConfig) where
  on_auth_frame-pending :
      (ws : ℕ) (message : List B) (h : Hub B)
      → pending ws (on_auth_frame c ok_message js is_alphanumeric config ws message h) ≡ false
  unfolding on_auth_frame
  on_auth_frame-pending ws message h =
      let refused = refuse_frame-pending c ws in
      let h₁ = set_pending c false ws h in
      let completed =
        complete_connection ok_message is_alphanumeric config
          (frame_params js (fields_of (c.parse message))) ws h₁ in
      let cleared : pending ws h₁ ≡ false = ground arith in
      let kept =
        complete_connection-pending ok_message ws is_alphanumeric config
          (frame_params js (fields_of (c.parse message))) ws h₁ in
      let finished = finish_frame-pending c ws completed.0 completed.1 in
      ground (
        arith,
        refused "bad auth frame format" h,
        refused "expected de_auth frame" h,
        cleared,
        kept,
        finished,
      )

  on_auth_frame-idle :
      (ws : ℕ) (message : List B) (h : Hub B)
      → pending ws h ≡ false
      → on_auth_frame c ok_message js is_alphanumeric config ws message h ≡ h
  unfolding on_auth_frame
  on_auth_frame-idle ws message h e = rw (e, on_auth_frame) refl

  on_auth_timeout-idle : (ws : ℕ) (h : Hub B) → pending ws h ≡ false → on_auth_timeout c ws h ≡ h
  unfolding on_auth_timeout
  on_auth_timeout-idle ws h e = rw (e, on_auth_timeout) refl

  -- The first of a frame and the timer decides on a socket: once either was handled, the timer and every
  -- further frame change nothing.
  pub authentication-decided :
      (ws : ℕ) (message later : List B) (h : Hub B)
      → let framed = on_auth_frame c ok_message js is_alphanumeric config ws message h in
        let expired = on_auth_timeout c ws h in
        (on_auth_timeout c ws framed ≡ framed)
        × (on_auth_frame c ok_message js is_alphanumeric config ws later framed ≡ framed)
        × (on_auth_timeout c ws expired ≡ expired)
        × (on_auth_frame c ok_message js is_alphanumeric config ws later expired ≡ expired)
  authentication-decided ws message later h =
      let framed = on_auth_frame c ok_message js is_alphanumeric config ws message h in
      let expired = on_auth_timeout c ws h in
      let after_frame = on_auth_frame-pending ws message h in
      let after_timer = on_auth_timeout-pending c ws h in
      (
        on_auth_timeout-idle ws framed after_frame,
        on_auth_frame-idle ws later framed after_frame,
        on_auth_timeout-idle ws expired after_timer,
        on_auth_frame-idle ws later expired after_timer,
      )
