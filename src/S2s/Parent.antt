-- ===== src/S2s/Parent.antt =====
-- src/comm_server/server_to_server/js_parent_comm_server.js: the super server's side of a connection to
-- a child server: the handshake, the gate that it makes for the child's messages, and what is sent down.
use droneengage_server.Base.{
  Coercions, ℕ, suc, Bool, true, false, not, ◌&&◌, Option, none, some, List, [], ◌∷◌, ◌++◌, String,
  Dict, put, erase, values, Json, Fields, prop, str_prop, opt_eq, JsonText, if◌then◌else◌, ◌==◌,
}
use droneengage_server.S2s.{parse_envelope, build_challenge, verify, response}

-- what the server keeps on a child's socket
pub record Child : Type 0 where
  pub s2s_authed : Bool
  pub s2s_nonce : Option String
  pub s2s_server_id : Option Json
  pub is_open : Bool
  pub auth_timer : Bool

pub data Action (B : Type 0) : Type 0 where
  send : ℕ → List B → Action B
  terminate : ℕ → Action B
  -- `fn_parseExternalMessage(p_msg, v_isBinary, child_ws)`
  relay : ℕ → List B → Action B

pub record Parent (B : Type 0) : Type 0 where
  pub children : ℕ → Child
  pub next_child : ℕ
  pub client_data : Dict ℕ
  pub actions : List (Action B)

-- the server before any child connected
abbrev pub nobody : Child
nobody = record {
  s2s_authed = false;
  s2s_nonce = none;
  s2s_server_id = none;
  is_open = false;
  auth_timer = false;
}

abbrev pub started : {B : Type 0} → Parent B
started = record { children = λ ws. nobody; next_child = 0; client_data = []; actions = [] }

abbrev pub update {ℓ} : {A : Type ℓ} → (ℕ → A) → ℕ → A → ℕ → A
update f p v q = if p == q then v else f q

-- The events that the server answers.
pub data Event (B : Type 0) : Type 0 where
  connected : String → String → Event B
  timed_out : ℕ → Event B
  closed : String → ℕ → Event B
  received : ℕ → List B → Event B
  forwarded : List B → Option ℕ → Event B

module _ {B Key : Type 0} (c : JsonText B) (is_open_brace : B → Bool) (js : Coercions)
    (check : Key → String → Option Json → Option Bool) (keys : Option (Dict Key)) where
  abbrev pub act : Action B → Parent B → Parent B
  act a p = record p { actions = p.actions ++ a ∷ [] }

  abbrev pub set_child : ℕ → Child → Parent B → Parent B
  set_child ws x p = record p { children = update p.children ws x }

  -- the `connection` event, with the nonce drawn for it
  unfoldable pub on_connection : String → String → Parent B → Parent B
  on_connection client_key nonce p =
      let ws = p.next_child in
      act (send ws (build_challenge c is_open_brace nonce)) (record p {
        children = update p.children ws (record {
          s2s_authed = false;
          s2s_nonce = some nonce;
          s2s_server_id = none;
          is_open = true;
          auth_timer = true;
        });
        next_child = suc ws;
        client_data = put client_key ws p.client_data;
      })

  -- the timer of the handshake
  unfoldable pub on_handshake_timeout : ℕ → Parent B → Parent B
  on_handshake_timeout ws p =
      let child = p.children ws in
      if child.auth_timer && not child.s2s_authed then act (terminate ws) p else p

  -- the `close` event of a child
  unfoldable pub on_child_close : String → ℕ → Parent B → Parent B
  on_child_close client_key ws p =
      set_child ws (record (p.children ws) { is_open = false; auth_timer = false })
        (record p { client_data = erase client_key p.client_data })

  -- whether an envelope is a response with an id and a signature of the nonce
  unfoldable pub is_response : Option String → Fields → Bool
  is_response nonce env =
      opt_eq (str_prop "s2s_auth" env) (some response)
      && verify js check keys nonce (prop "sig" env) (prop "id" env)

  -- the `message` event of a child
  unfoldable pub on_child_message : ℕ → List B → Parent B → Parent B
  on_child_message ws message p =
      let child = p.children ws in
      if child.s2s_authed
      then act (relay ws message) p
      else (elim (parse_envelope c is_open_brace message) [
        | none ↦ act (terminate ws) p
        | some env ↦
            if is_response child.s2s_nonce env
            then set_child ws
                (record child {
                  s2s_authed = true;
                  s2s_server_id = prop "id" env;
                  auth_timer = false;
                })
                p
            else act (terminate ws) p
      ])

  -- `forwardMessage`
  unfoldable pub forward_to : List ℕ → List B → Option ℕ → Parent B → Parent B
  forward_to [] message exclude p = p
  forward_to (ws ∷ wss) message exclude p =
      let child = p.children ws in
      let excluded = elim exclude as (λ o. Bool) [ none ↦ false | some x ↦ ws == x ] in
      forward_to wss message exclude
        (if child.is_open && child.s2s_authed && not excluded then act (send ws message) p else p)

  unfoldable pub forward_message : List B → Option ℕ → Parent B → Parent B
  forward_message message exclude p = forward_to (values p.client_data) message exclude p

  unfoldable pub step : Event B → Parent B → Parent B
  step (connected client_key nonce) p = on_connection client_key nonce p
  step (timed_out ws) p = on_handshake_timeout ws p
  step (closed client_key ws) p = on_child_close client_key ws p
  step (received ws message) p = on_child_message ws message p
  step (forwarded message exclude) p = forward_message message exclude p
