-- ===== src/S2s/Handshake.antt =====
-- About the two sides of the authentication of a child server together: js_parent_comm_server.js sends the
-- challenge, js_child_comm_server.js answers it, and the answer comes back.
use droneengage_server.Base.{
  Coercions, ℕ, ◌≡◌, ◌∙◌, ap, refl, Bool, true, false, Option, none, some, List, [], ◌∷◌, ◌++◌,
  String, Dict, read, own, Json, Fields, field, end, str, obj, prop, str_prop, set_opt, set_prop,
  opt_eq, property_key, JsonText, IsJsonText, arith,
}
use droneengage_server.S2s.{
  envelope_of, parse_envelope, build_challenge, build_response, challenge, response, verify,
  verify_with_key, is_null,
}
use droneengage_server.S2s.Parent.{
  Parent, on_connection, on_child_message, on_handshake_timeout, is_response, update,
}
use droneengage_server.S2s.Parent.{send as send_down, relay as relay_up}
use droneengage_server.S2s.ChildComm.{ChildComm, send, on_receive, answer_parent, send_to}

-- The text starts with the byte of `{`.
abbrev pub Braced : {B : Type 0} → (B → Bool) → List B → Type 0
Braced is_open_brace [] = ⊥
Braced is_open_brace (b ∷ bs) = is_open_brace b ≡ true

update-same : {A : Type 0} (f : ℕ → A) (p : ℕ) (v : A) → update f p v p ≡ v
update-same f p v = ground arith

module _ {B Key : Type 0} (c : JsonText B) (is_open_brace : B → Bool) (js : Coercions)
    (check : Key → String → Option Json → Option Bool) (keys : Option (Dict Key))
    (sign : Option Json → Option String) where
  -- the answer that a server of a name gives to a nonce, with its signature
  abbrev pub answer_of : String → String → List B
  answer_of id sig =
      c.stringify
        (obj (field "s2s_auth" (str response) (field "sig" (str sig) (field "id" (str id) end))))

  -- The text of an object starts with its brace, and what the child signs is verified by the key that its
  -- super server holds under the child's name.
  pub record IsPaired (id nonce sig : String) : Type 0 where
    pub text : IsJsonText c
    pub braced : (fs : Fields) → Braced is_open_brace (c.stringify (obj fs))
    pub trusted : Dict Key
    pub key : Key
    pub keys_read : keys ≡ some trusted
    pub named : read id trusted ≡ own key
    pub signed : sign (some (str nonce)) ≡ some sig
    pub checked : check key nonce (some (str sig)) ≡ some true

  parse_envelope-Braced :
      (t : List B)
      → Braced is_open_brace t
      → parse_envelope c is_open_brace t ≡ envelope_of (c.parse t)
  unfolding parse_envelope
  parse_envelope-Braced [] h = absurd h
  parse_envelope-Braced (b ∷ bs) h = rw h refl

  parse_envelope-stringify :
      (fs : Fields)
      → IsJsonText c
      → Braced is_open_brace (c.stringify (obj fs))
      → parse_envelope c is_open_brace (c.stringify (obj fs)) ≡ envelope_of (some (obj fs))
  parse_envelope-stringify fs ok h =
      parse_envelope-Braced (c.stringify (obj fs)) h ∙ ap envelope_of (ok.parse-stringify (obj fs))

  module _ (id nonce sig : String) (pair : IsPaired id nonce sig) where
    build_response-answer :
        build_response c is_open_brace sign (some (str nonce)) (some (str id))
        ≡ some (answer_of id sig)
    unfolding build_response set_opt set_prop
    build_response-answer = rw (pair.signed, build_response) refl

    verify-answer : verify js check keys (some nonce) (some (str sig)) (some (str id)) ≡ true
    unfolding verify verify_with_key is_null property_key
    verify-answer = rw (pair.keys_read, pair.named, verify_with_key, pair.checked) refl

    on_receive-challenge :
        (w : ℕ) (s : ChildComm B)
        → s.parent_ws ≡ some w
        → (let t =
              on_receive c is_open_brace sign
                (some (str id))
                (build_challenge c is_open_brace nonce)
                s in
            t.actions ≡ s.actions ++ send w (answer_of id sig) false ∷ [])
    unfolding build_challenge on_receive answer_parent send_to envelope_of prop opt_eq str_prop
    on_receive-challenge w s h =
        let fs = field "s2s_auth" (str challenge) (field "nonce" (str nonce) end) in
        rw
          (
            on_receive,
            parse_envelope-stringify fs pair.text (pair.braced fs),
            answer_parent,
            build_response-answer,
            h,
          )
          refl

    -- what the answer does to a child that was sent the nonce
    on_child_message-answer :
        (ws : ℕ) (q : Parent B)
        → (q.children ws).s2s_authed ≡ false
        → (q.children ws).s2s_nonce ≡ some nonce
        → on_child_message c is_open_brace js check keys ws (answer_of id sig) q ≡ record q {
          children = update q.children ws (record (q.children ws) {
            s2s_authed = true;
            s2s_server_id = some (str id);
            auth_timer = false;
          });
        }
    unfolding on_child_message is_response envelope_of prop opt_eq str_prop
    on_child_message-answer ws q a n =
        let fs =
          field "s2s_auth" (str response) (field "sig" (str sig) (field "id" (str id) end)) in
        rw (a, parse_envelope-stringify fs pair.text (pair.braced fs), n, verify-answer) refl

    -- the answer authenticates, and what is sent after it is relayed
    abbrev pub Authenticates : ℕ → List B → Parent B → Type 0
    Authenticates ws m q =
        let r = on_child_message c is_open_brace js check keys ws (answer_of id sig) q in
        ((r.children ws).s2s_authed ≡ true)
        × ((r.children ws).s2s_server_id ≡ some (str id))
        × (r.actions ≡ q.actions)
        × (on_handshake_timeout c is_open_brace js check keys ws r ≡ r)
        × (on_child_message c is_open_brace js check keys ws m r
            ≡ record r { actions = r.actions ++ relay_up ws m ∷ [] })

    answer-Authenticates :
        (ws : ℕ) (m : List B) (q : Parent B)
        → (q.children ws).s2s_authed ≡ false
        → (q.children ws).s2s_nonce ≡ some nonce
        → Authenticates ws m q
    unfolding on_handshake_timeout on_child_message
    answer-Authenticates ws m q a n =
        let x = record (q.children ws) {
          s2s_authed = true;
          s2s_server_id = some (str id);
          auth_timer = false;
        } in
        let same = update-same q.children ws x in
        rw (on_child_message-answer ws q a n) (
          ap (λ y. y.s2s_authed) same,
          ap (λ y. y.s2s_server_id) same,
          refl,
          rw same refl,
          rw same refl,
        )

    -- For a super server that holds, under a child's name, the key that verifies what the child signs:
    -- when the child's connection arrives it sends the challenge, the child answers the challenge with one
    -- message on its socket, that answer makes the child authenticated under its name without any call, the
    -- timer of the handshake then does nothing, and the child's next message is relayed to the chat server.
    pub handshake-relays :
        (client_key : String) (w : ℕ) (message : List B) (p : Parent B) (s : ChildComm B)
        → s.parent_ws ≡ some w
        → (let m = build_challenge c is_open_brace nonce in
            let q = on_connection c is_open_brace js check keys client_key nonce p in
            let t = on_receive c is_open_brace sign (some (str id)) m s in
            (q.actions ≡ p.actions ++ send_down p.next_child m ∷ [])
            × (t.actions ≡ s.actions ++ send w (answer_of id sig) false ∷ [])
            × Authenticates p.next_child message q)
    unfolding on_connection
    handshake-relays client_key w message p s h =
        let q = on_connection c is_open_brace js check keys client_key nonce p in
        let same = update-same p.children p.next_child (record {
          s2s_authed = false;
          s2s_nonce = some nonce;
          s2s_server_id = none;
          is_open = true;
          auth_timer = true;
        }) in
        (
          refl,
          on_receive-challenge w s h,
          answer-Authenticates p.next_child message q (ap (λ y. y.s2s_authed) same)
              (ap (λ y. y.s2s_nonce) same),
        )
