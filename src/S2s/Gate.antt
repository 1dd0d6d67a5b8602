-- ===== src/S2s/Gate.antt =====
-- About the gate of js_parent_comm_server.js, over runs of its events.
use droneengage_server.Base.{
  Coercions, ℕ, ◌≡◌, Bool, true, Option, List, [], ◌∷◌, String, Dict, values, Json, JsonText, arith,
  All,
}
use droneengage_server.S2s.Parent.{
  Parent, forward_message, Event, connected, timed_out, closed, received, forwarded, step, started,
}
use droneengage_server.S2s.Gated.{
  Gated, Verified, IsGated, on_connection-IsGated, on_child_message-IsGated, on_child_close-IsGated,
  on_handshake_timeout-IsGated, forward_to-IsGated,
}

module _ {Key : Type 0} (js : Coercions) (check : Key → String → Option Json → Option Bool)
    (keys : Option (Dict Key)) {B : Type 0} (c : JsonText B) (is_open_brace : B → Bool) where
  step-IsGated :
      (e : Event B) (p : Parent B)
      → IsGated js check keys p
      → IsGated js check keys (step c is_open_brace js check keys e p)
  unfolding step forward_message
  step-IsGated (connected client_key nonce) p i =
      on_connection-IsGated js check keys c is_open_brace client_key nonce p i
  step-IsGated (timed_out ws) p i =
      on_handshake_timeout-IsGated js check keys c is_open_brace ws p i
  step-IsGated (closed client_key ws) p i =
      on_child_close-IsGated js check keys c is_open_brace client_key ws p i
  step-IsGated (received ws message) p i =
      on_child_message-IsGated js check keys c is_open_brace ws message p i
  step-IsGated (forwarded message exclude) p i =
      forward_to-IsGated js check keys c is_open_brace (values p.client_data) message exclude p i

  -- a run of events
  abbrev pub run_children : List (Event B) → Parent B → Parent B
  run_children [] p = p
  run_children (e ∷ es) p = run_children es (step c is_open_brace js check keys e p)

  run_children-IsGated :
      (es : List (Event B)) (p : Parent B)
      → IsGated js check keys p
      → IsGated js check keys (run_children es p)
  run_children-IsGated [] p i = i
  run_children-IsGated (e ∷ es) p i =
      run_children-IsGated es (step c is_open_brace js check keys e p) (step-IsGated e p i)

  started-IsGated : IsGated js check keys {B = B} started
  started-IsGated = record {
    authed = λ ws h. ground (arith, h);
    nonce_made = λ ws h. ground (arith, h);
    relayed = tt;
  }

  -- Over every run of events of a super server, whatever connects, closes and sends in whatever order,
  -- each child that is authenticated gave a signature of its own nonce that the key of the server it names
  -- verifies, and each message that was handed to the chat server came from a child that is authenticated.
  pub relayed_from_Verified :
      (es : List (Event B))
      → ((ws : ℕ)
          → ((run_children es started).children ws).s2s_authed ≡ true
          → Verified js check keys ((run_children es started).children ws))
        × All (Gated (run_children es started)) (run_children es started).actions
  relayed_from_Verified es =
      let i = run_children-IsGated es started started-IsGated in (i.authed, i.relayed)
