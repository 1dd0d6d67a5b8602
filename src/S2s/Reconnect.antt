-- ===== src/S2s/Reconnect.antt =====
-- About the reconnection of js_child_comm_server.js, over runs of what the WebSocket library and the timers
-- do. The library opens a socket that is connecting, hands on messages while a socket is not closed, and
-- says once of each socket that it is closed.
use droneengage_server.Base.{
  ℕ, suc, ◌-◌, ap, ◌≡◌, ◌≢◌, ◌<◌, ◌⊎◌, refl, Bool, true, false, Option, none, some, List, [], ◌∷◌,
  ◌++◌, String, Json, Fields, prop, str_prop, opt_eq, if_cases, JsonText, arith, All, All-append,
  Option-cases, inl, inr,
}
use droneengage_server.S2s.{parse_envelope, build_response, challenge}
use droneengage_server.S2s.ChildComm.{
  ReadyState, connecting, opened, closing, closed, Action, dial, send, relay, ChildComm,
  connect_to_parent, create, on_close, on_reconnect_timer, forward_message, on_receive, set_state,
  answer_parent, send_to, is_socket_connected,
}

-- not yet closed
abbrev pub is_live : ReadyState → Bool
is_live connecting = true
is_live opened = true
is_live closing = true
is_live closed = false

-- Either a socket of the server's and no timer, or no socket and one timer that will make one; any
-- other socket is closed.
pub record IsAttached {B : Type 0} (s : ChildComm B) : Type 0 where
  pub one_way :
      ((ws : ℕ) × (s.parent_ws ≡ some ws) × (ws < s.next_ws) × (s.reconnect_timers ≡ 0))
      ⊎ ((s.parent_ws ≡ none) × (s.reconnect_timers ≡ 1))
  pub others_closed : (ws : ℕ) → is_live (s.ready_state ws) ≡ true → s.parent_ws ≡ some ws

module _ {B : Type 0} (c : JsonText B) (is_open_brace : B → Bool)
    (sign : Option Json → Option String) (server_id : Option Json) where
  -- The states that a child server comes to.
  pub data Reached : ChildComm B → Type 0 where
    begins : Reached create
    opens :
        {s : ChildComm B} (ws : ℕ)
        → Reached s
        → s.ready_state ws ≡ connecting
        → Reached (set_state ws opened s)
    begins_closing :
        {s : ChildComm B} (ws : ℕ)
        → Reached s
        → is_live (s.ready_state ws) ≡ true
        → Reached (set_state ws closing s)
    closes :
        {s : ChildComm B} (ws : ℕ)
        → Reached s
        → is_live (s.ready_state ws) ≡ true
        → Reached (on_close ws s)
    timer_due :
        {s : ChildComm B} → Reached s → s.reconnect_timers ≢ 0 → Reached (on_reconnect_timer s)
    receives :
        {s : ChildComm B} (ws : ℕ) (message : List B)
        → Reached s
        → is_live (s.ready_state ws) ≡ true
        → Reached (on_receive c is_open_brace sign server_id message s)
    forwards :
        {s : ChildComm B} (message : List B) (is_binary : Bool)
        → Reached s
        → Reached (forward_message message is_binary s)

  -- what is handed to the chat server is no envelope
  abbrev pub Clean : Action B → Type 0
  Clean (relay m ws) = parse_envelope c is_open_brace m ≡ none
  Clean (dial ws) = Unit
  Clean (send ws m b) = Unit

  connect-IsAttached :
      (s : ChildComm B)
      → s.reconnect_timers ≡ 0
      → ((ws : ℕ) → is_live (s.ready_state ws) ≡ false)
      → IsAttached (connect_to_parent s)
  unfolding connect_to_parent
  connect-IsAttached s t h = record {
    one_way = inl (s.next_ws, refl, omega arith, t);
    others_closed = λ ws k. ground (arith, h ws);
  }

  marked-IsAttached :
      (ws : ℕ) (r : ReadyState) (s : ChildComm B)
      → IsAttached s
      → is_live (s.ready_state ws) ≡ true
      → IsAttached (set_state ws r s)
  marked-IsAttached ws r s i live = record {
    one_way = i.one_way;
    others_closed = λ w k. ground (arith, i.others_closed w, i.others_closed ws live);
  }

  on_close-IsAttached :
      (ws : ℕ) (s : ChildComm B)
      → IsAttached s
      → is_live (s.ready_state ws) ≡ true
      → IsAttached (on_close ws s)
  unfolding on_close
  on_close-IsAttached ws s i live = elim i.one_way [
    | inl (v, e, l, t) ↦ record {
      one_way = inr (refl, ap suc t);
      others_closed = λ w k. ground (arith, i.others_closed w, i.others_closed ws live);
    }
    | inr (e, t) ↦ ground (arith, i.others_closed ws live, e)
  ]

  on_reconnect_timer-IsAttached :
      (s : ChildComm B) → IsAttached s → s.reconnect_timers ≢ 0 → IsAttached (on_reconnect_timer s)
  unfolding on_reconnect_timer
  on_reconnect_timer-IsAttached s i due = elim i.one_way [
    | inl (v, e, l, t) ↦ absurd (due t)
    | inr (e, t) ↦
        connect-IsAttached (record s { reconnect_timers = s.reconnect_timers - 1 }) (omega arith)
          (λ ws. ground (arith, i.others_closed ws))
  ]

  acted-IsAttached :
      (as' : List (Action B)) (s : ChildComm B)
      → IsAttached s
      → IsAttached (record s { actions = as' })
  acted-IsAttached as' s i = record { one_way = i.one_way; others_closed = i.others_closed }

  -- What holds of every state that is reached.
  abbrev pub Sound : ChildComm B → Type 0
  Sound s = IsAttached s × All Clean s.actions

  acted-Sound :
      (a : Action B) (s : ChildComm B)
      → Sound s
      → Clean a
      → Sound (record s { actions = s.actions ++ a ∷ [] })
  acted-Sound a s (i, h) k =
      (acted-IsAttached (s.actions ++ a ∷ []) s i, All-append Clean s.actions (a ∷ []) h (k, tt))

  connect-Clean : (s : ChildComm B) → All Clean s.actions → All Clean (connect_to_parent s).actions
  unfolding connect_to_parent
  connect-Clean s h = All-append Clean s.actions (dial s.next_ws ∷ []) h (tt, tt)

  send_to-Sound :
      (ws : Option ℕ) (message : List B) (is_binary : Bool) (s : ChildComm B)
      → Sound s
      → Sound (send_to ws message is_binary s)
  unfolding send_to
  send_to-Sound none message is_binary s h = h
  send_to-Sound (some ws) message is_binary s h = acted-Sound (send ws message is_binary) s h tt

  answer_parent-Sound :
      (env : Fields) (s : ChildComm B)
      → Sound s
      → Sound (answer_parent c is_open_brace sign server_id env s)
  unfolding answer_parent
  answer_parent-Sound env s h =
      elim (Option-cases (build_response c is_open_brace sign (prop "nonce" env) server_id)) [
        | inl f ↦ rw (f, answer_parent) h
        | inr (m, f) ↦ rw (f, answer_parent) (send_to-Sound s.parent_ws m false s h)
      ]

  on_receive-Sound :
      (message : List B) (s : ChildComm B)
      → Sound s
      → Sound (on_receive c is_open_brace sign server_id message s)
  unfolding on_receive
  on_receive-Sound message s h = elim (Option-cases (parse_envelope c is_open_brace message)) [
    | inl e ↦ rw (e, on_receive) (acted-Sound (relay message s.parent_ws) s h e)
    | inr (env, e) ↦
        rw (e, on_receive)
          (if_cases Sound (opt_eq (str_prop "s2s_auth" env) (some challenge))
            (answer_parent c is_open_brace sign server_id env s) s (answer_parent-Sound env s h) h)
  ]

  forward_message-Sound :
      (message : List B) (is_binary : Bool) (s : ChildComm B)
      → Sound s
      → Sound (forward_message message is_binary s)
  unfolding forward_message
  forward_message-Sound message is_binary s h =
      if_cases Sound (is_socket_connected s) (send_to s.parent_ws message is_binary s) s
        (send_to-Sound s.parent_ws message is_binary s h) h

  -- In every state that a child server comes to, it has either a socket to its super server and no timer, or
  -- no socket and exactly one timer that makes one; every other socket is closed; and no message that it
  -- handed to the chat server is an envelope of the authentication.
  pub Reached-Sound : (s : ChildComm B) → Reached s → Sound s
  unfolding create on_close on_reconnect_timer connect_to_parent
  Reached-Sound _ begins = (
    connect-IsAttached
        (record {
          parent_ws = none;
          ready_state = λ w. closed;
          next_ws = 0;
          reconnect_timers = 0;
          actions = [];
        })
        refl (λ ws. refl),
    (tt, tt),
  )
  Reached-Sound _ (opens {s = s} ws r k) =
      let (i, h) = Reached-Sound s r in (marked-IsAttached ws opened s i (ground arith), h)
  Reached-Sound _ (begins_closing {s = s} ws r k) =
      let (i, h) = Reached-Sound s r in (marked-IsAttached ws closing s i k, h)
  Reached-Sound _ (closes {s = s} ws r k) =
      let (i, h) = Reached-Sound s r in (on_close-IsAttached ws s i k, h)
  Reached-Sound _ (timer_due {s = s} r k) =
      let (i, h) = Reached-Sound s r in
      (
        on_reconnect_timer-IsAttached s i k,
        connect-Clean (record s { reconnect_timers = s.reconnect_timers - 1 }) h,
      )
  Reached-Sound _ (receives {s = s} ws message r k) = on_receive-Sound message s (Reached-Sound s r)
  Reached-Sound _ (forwards {s = s} message is_binary r) =
      forward_message-Sound message is_binary s (Reached-Sound s r)
