-- ===== src/S2s/Gated.antt =====
-- About the gate of js_parent_comm_server.js: what each of its handlers keeps.
use droneengage_server.Base.{
  Coercions, ℕ, suc, ◌≡◌, ◌≢◌, ◌<◌, refl, Bool, true, false, not, ◌&&◌, Option, none, some, List,
  [], ◌∷◌, ◌++◌, String, Dict, put, Json, prop, JsonText, ◌==◌, arith, All, All-append, inl, inr,
  Option-cases, Bool-cases,
}
use droneengage_server.S2s.{parse_envelope, build_challenge, verify}
use droneengage_server.S2s.Parent.{
  Parent, Child, Action, send, terminate, relay, update, on_connection, on_handshake_timeout,
  on_child_close, is_response, on_child_message, forward_to,
}

-- What holds of an action in a state: a message was relayed from an authenticated child only.
abbrev pub Gated : {B : Type 0} → Parent B → Action B → Type 0
Gated p (relay ws m) = (p.children ws).s2s_authed ≡ true
Gated p (send ws m) = Unit
Gated p (terminate ws) = Unit

module _ {Key : Type 0} (js : Coercions) (check : Key → String → Option Json → Option Bool)
    (keys : Option (Dict Key)) where
  -- a signature of the child's nonce that the key of the server it names verifies
  abbrev pub Verified : Child → Type 0
  Verified x = (sig : Option Json) × (verify js check keys x.s2s_nonce sig x.s2s_server_id ≡ true)

  -- A child that is authenticated gave a signature of its nonce that its server's key verifies, and
  -- what was relayed came from such children.
  pub record IsGated {B : Type 0} (p : Parent B) : Type 0 where
    pub authed : (ws : ℕ) → (p.children ws).s2s_authed ≡ true → Verified (p.children ws)
    pub nonce_made : (ws : ℕ) → (p.children ws).s2s_nonce ≢ none → ws < p.next_child
    pub relayed : All (Gated p) p.actions

  verify-nonce :
      (nonce : Option String) (sig id : Option Json)
      → verify js check keys nonce sig id ≡ true
      → nonce ≢ none
  unfolding verify
  verify-nonce none sig id h = cc
  verify-nonce (some nonce) sig id h = ground arith

  -- an action that was gated stays so where no child loses its authentication
  Gated-later :
      {B : Type 0} (p q : Parent B)
      → ((ws : ℕ) → (p.children ws).s2s_authed ≡ true → (q.children ws).s2s_authed ≡ true)
      → (as' : List (Action B)) → All (Gated p) as'
      → All (Gated q) as'
  Gated-later p q later [] h = tt
  Gated-later p q later (relay ws m ∷ as') (g, h) = (later ws g, Gated-later p q later as' h)
  Gated-later p q later (send ws m ∷ as') (g, h) = (tt, Gated-later p q later as' h)
  Gated-later p q later (terminate ws ∷ as') (g, h) = (tt, Gated-later p q later as' h)

  module _ {B : Type 0} (c : JsonText B) (is_open_brace : B → Bool) where
    acted-IsGated :
        (a : Action B) (p : Parent B)
        → IsGated p
        → Gated p a
        → IsGated (record p { actions = p.actions ++ a ∷ [] })
    acted-IsGated a p i g =
        let q = record p { actions = p.actions ++ a ∷ [] } in
        let kept = All-append (Gated p) p.actions (a ∷ []) i.relayed (g, tt) in
        record {
          authed = i.authed;
          nonce_made = i.nonce_made;
          relayed = Gated-later p q (λ ws h. h) q.actions kept;
        }

    -- a state in which one child was made or changed
    changed-IsGated :
        (ws n : ℕ) (x : Child) (d : Dict ℕ) (p : Parent B)
        → IsGated p
        → (x.s2s_authed ≡ true → Verified x)
        → ((p.children ws).s2s_authed ≡ true → x.s2s_authed ≡ true)
        → ws < n
        → (p.next_child < suc n)
        → IsGated (record p { children = update p.children ws x; next_child = n; client_data = d })
    changed-IsGated ws n x d p i verified kept made later =
        let q = record p { children = update p.children ws x; next_child = n; client_data = d } in
        record {
          authed = λ w h. elim (Bool-cases (ws == w)) [
            | inl e ↦ rw e (verified (rw e at h))
            | inr e ↦ rw e (i.authed w (rw e at h))
          ];
          nonce_made = λ w h. ground (arith, i.nonce_made w);
          relayed = Gated-later p q (λ w h. ground (arith, kept)) p.actions i.relayed;
        }

    pub on_connection-IsGated :
        (client_key nonce : String) (p : Parent B)
        → IsGated p
        → IsGated (on_connection c is_open_brace js check keys client_key nonce p)
    unfolding on_connection
    on_connection-IsGated client_key nonce p i =
        let fresh : (p.children p.next_child).s2s_authed ≢ true = λ h. ground (
          arith,
          i.nonce_made p.next_child (
              verify-nonce (p.children p.next_child).s2s_nonce (i.authed p.next_child h).0
                (p.children p.next_child).s2s_server_id (i.authed p.next_child h).1),
        ) in
        let x : Child = record {
          s2s_authed = false;
          s2s_nonce = some nonce;
          s2s_server_id = none;
          is_open = true;
          auth_timer = true;
        } in
        let q = record p {
          children = update p.children p.next_child x;
          next_child = suc p.next_child;
          client_data = put client_key p.next_child p.client_data;
        } in
        acted-IsGated (send p.next_child (build_challenge c is_open_brace nonce)) q
          (changed-IsGated p.next_child (suc p.next_child) x
            (put client_key p.next_child p.client_data) p i (λ h. ground (arith, h))
            (λ h. absurd (fresh h)) (omega arith) (omega arith))
          tt

    pub on_child_message-IsGated :
        (ws : ℕ) (message : List B) (p : Parent B)
        → IsGated p
        → IsGated (on_child_message c is_open_brace js check keys ws message p)
    unfolding on_child_message is_response
    on_child_message-IsGated ws message p i =
        let child = p.children ws in
        let terminated = acted-IsGated (terminate ws) p i tt in
        elim (Bool-cases child.s2s_authed) [
          | inl a ↦ rw a (acted-IsGated (relay ws message) p i a)
          | inr a ↦ elim (Option-cases (parse_envelope c is_open_brace message)) [
            | inl e ↦ rw (a, e) terminated
            | inr (env, e) ↦
                elim (Bool-cases (is_response c is_open_brace js check keys child.s2s_nonce env)) [
                  | inl r ↦
                      let x = record child {
                        s2s_authed = true;
                        s2s_server_id = prop "id" env;
                        auth_timer = false;
                      } in
                      let verified : Verified x = (prop "sig" env, ground (arith, r)) in
                      let known : ws < p.next_child = i.nonce_made ws (
                        verify-nonce child.s2s_nonce (prop "sig" env) (prop "id" env) verified.1) in
                      rw (a, e, r)
                        (changed-IsGated ws p.next_child x p.client_data p i (λ h. verified)
                          (λ h. refl) known (omega arith))
                  | inr r ↦ rw (a, e, r) terminated
                ]
          ]
        ]

    pub on_child_close-IsGated :
        (client_key : String) (ws : ℕ) (p : Parent B)
        → IsGated p
        → IsGated (on_child_close c is_open_brace js check keys client_key ws p)
    unfolding on_child_close
    on_child_close-IsGated client_key ws p i =
        let q = on_child_close c is_open_brace js check keys client_key ws p in
        record {
          authed = λ w h. elim (Bool-cases (ws == w)) [
            | inl e ↦ rw e (i.authed ws (rw e at h))
            | inr e ↦ rw e (i.authed w (rw e at h))
          ];
          nonce_made = λ w h. ground (arith, i.nonce_made w);
          relayed = Gated-later p q (λ w h. ground arith) p.actions i.relayed;
        }

    pub on_handshake_timeout-IsGated :
        (ws : ℕ) (p : Parent B)
        → IsGated p
        → IsGated (on_handshake_timeout c is_open_brace js check keys ws p)
    unfolding on_handshake_timeout
    on_handshake_timeout-IsGated ws p i =
        let child = p.children ws in
        elim (Bool-cases (child.auth_timer && not child.s2s_authed)) [
          | inl e ↦ rw e (acted-IsGated (terminate ws) p i tt)
          | inr e ↦ rw e i
        ]

    pub forward_to-IsGated :
        (wss : List ℕ) (message : List B) (exclude : Option ℕ) (p : Parent B)
        → IsGated p
        → IsGated (forward_to c is_open_brace js check keys wss message exclude p)
    unfolding forward_to
    forward_to-IsGated [] message exclude p i = i
    forward_to-IsGated (ws ∷ wss) message exclude p i =
        let excluded : Bool = elim exclude [ none ↦ false | some x ↦ ws == x ] in
        let child = p.children ws in
        elim (Bool-cases (child.is_open && child.s2s_authed && not excluded)) [
          | inl e ↦ rw e (
              forward_to-IsGated wss message exclude
                (record p { actions = p.actions ++ send ws message ∷ [] })
                (acted-IsGated (send ws message) p i tt))
          | inr e ↦ rw e (forward_to-IsGated wss message exclude p i)
        ]
