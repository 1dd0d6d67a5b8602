-- ===== src/Examples/Children.antt =====
-- The theorems on child servers at a small handshake and at a connection that is lost and made again.
use droneengage_server.Base.{
  ◌≡◌, refl, ℕ, read, get, prop, opt_eq, str_prop, arith, str_eq, true, false, none, some, [], ◌∷◌,
  ◌++◌, String, Bool, Json, str, All, Cell, cell_text, cell_text-IsJsonText, Option,
}
use droneengage_server.S2s.{build_challenge, build_response, parse_envelope, envelope_of}
use droneengage_server.S2s.Parent.{Parent, started, on_connection}
use droneengage_server.S2s.Parent.{forward_message as forward_message_down}
use droneengage_server.S2s.Parent.{send as send_down}
use droneengage_server.S2s.ChildComm.{
  ChildComm, create, connect_to_parent, on_close, on_reconnect_timer, on_receive, forward_message,
  set_state, opened, send, answer_parent, send_to, is_socket_connected,
}
use droneengage_server.S2s.Handshake.{IsPaired, Authenticates, answer_of, handshake-relays}
use droneengage_server.S2s.Reconnect.{
  IsAttached, Clean, begins, opens, receives, closes, timer_due, forwards, Reached-Sound,
}
use droneengage_server.Examples.Services.{js, trusted}

abbrev sign : Option Json → Option String
sign (some (str nonce)) = some nonce
sign _ = none

-- a signature that is the nonce itself
abbrev check : ℕ → String → Option Json → Option Bool
check key nonce (some (str sig)) = some (str_eq nonce sig)
check key nonce _ = none

abbrev is_brace : Cell → Bool
is_brace b = true

pair : IsPaired cell_text is_brace js check trusted sign "srv2" "nonce" "nonce"
unfolding read get
pair = record {
  text = cell_text-IsJsonText;
  braced = λ fs. refl;
  trusted = ("srv2", 1) ∷ [];
  key = 1;
  keys_read = refl;
  named = refl;
  signed = refl;
  checked = refl;
}

abbrev online : ChildComm Cell
online = set_state 0 opened create

handshake-relays_example :
    let m = build_challenge cell_text is_brace "nonce" in
    let q = on_connection cell_text is_brace js check trusted "10.0.0.2:4000" "nonce" started in
    let t = on_receive cell_text is_brace sign (some (str "srv2")) m online in
    (q.actions ≡ send_down 0 m ∷ [])
    × (t.actions
        ≡ online.actions
          ++ send 0 (answer_of cell_text is_brace js check trusted sign "srv2" "nonce") false ∷ [])
    × Authenticates cell_text is_brace js check trusted sign "srv2" "nonce" "nonce" pair 0
        (none ∷ [])
        q
unfolding create connect_to_parent
handshake-relays_example =
    handshake-relays cell_text is_brace js check trusted sign "srv2" "nonce" "nonce" pair
      "10.0.0.2:4000" 0 (none ∷ []) started online refl

-- connected, challenged, and in use; the connection is lost and made again
Reached-Sound_example :
    let id = some (str "srv2") in
    let challenged =
      on_receive cell_text is_brace sign id (build_challenge cell_text is_brace "nonce") online in
    let told = on_receive cell_text is_brace sign id (none ∷ []) challenged in
    let s = on_reconnect_timer (on_close 0 (forward_message (none ∷ []) true told)) in
    IsAttached s × All (Clean cell_text is_brace sign id) s.actions
unfolding create connect_to_parent on_receive answer_parent send_to on_close forward_message
    parse_envelope build_challenge envelope_of prop opt_eq str_prop build_response
    is_socket_connected
Reached-Sound_example = Reached-Sound cell_text is_brace sign (some (str "srv2")) _ (
    timer_due
      (closes 0
        (forwards (none ∷ []) true (
          receives 0 (none ∷ [])
            (receives 0 (build_challenge cell_text is_brace "nonce") (opens 0 begins refl) refl)
            refl))
        refl)
      (λ h. ground (arith, h)))

-- a child that gave its answer
abbrev answered : Parent Cell
answered = record {
  children = λ ws. record {
    s2s_authed = true;
    s2s_nonce = some "nonce";
    s2s_server_id = some (str "srv2");
    is_open = true;
    auth_timer = false;
  };
  next_child = 2;
  client_data = ("10.0.0.2:4000", 0) ∷ ("10.0.0.3:4000", 1) ∷ [];
  actions = [];
}
