-- ===== src/System/Closing.antt =====
-- About the end of the connection to the storage server: the replies to the clients that wait.
use droneengage_server.Base.{
  ℕ, suc, is_some, subst, ◌≡◌, refl, sym, ap, ◌∙◌, Bool, true, false, Option, none, some, List, [],
  ◌∷◌, ◌++◌, append_assoc, append-nil, Has, String, get, drop, length, drop-append, if◌then◌else◌,
  inl, inr, Bool-cases, Json, Coercions, JsonText,
}
use droneengage_server.Constants.{const_storage_state_disconnected}
use droneengage_server.Storage.{
  World, Client, Action, disconnected, settle, send_status, act, is_pending, reject_all,
  clear_pending, send_storage_status,
}
use droneengage_server.Storage.Lifecycle.{reconnect_delay, closed, on_close, step}
use droneengage_server.Udp.{Environment}
use droneengage_server.System.{System, Pending, socket_name}
use droneengage_server.System.Answers.{deliver}
use droneengage_server.System.Proxies.{PortRules}
use droneengage_server.System.Commands.{on_storage_event}
use droneengage_server.System.Ending.{error_reply, settles, Quiet, deliver-answers, deliver-Quiet}

reject_all-settles :
    (ks : List String) (c : Client) → (reject_all ks c).actions ≡ c.actions ++ settles ks
unfolding reject_all
reject_all-settles [] c = sym (append-nil c.actions)
reject_all-settles (k ∷ ks) c =
    reject_all-settles ks (act (settle k disconnected) c)
    ∙ append_assoc c.actions (settle k disconnected ∷ []) (settles ks)

-- the client as a close leaves it before its requests end
abbrev closing : Client → Client
closing c =
    send_storage_status const_storage_state_disconnected (some "Connection closed") true (record c {
      authenticated = false;
      ws = none;
      connection_state = const_storage_state_disconnected;
      heartbeat_timer = false;
    })

on_close-logged :
    (k d : ℕ) (c : Client)
    → (on_close k d c).actions ≡ (closing c).actions ++ settles (closing c).pending_requests
unfolding on_close clear_pending
on_close-logged k d c =
    closed_either (is_some ended.endpoint)
    ∙ reject_all-settles (closing c).pending_requests (closing c)
  where
    ended : Client
    ended = reject_all (closing c).pending_requests (closing c)

    closed_either :
        (b : Bool)
        → (if b
            then record ended {
              pending_requests = [];
              auth_timer = false;
              reconnect_attempts = suc ended.reconnect_attempts;
              reconnect_timer = some (reconnect_delay (suc ended.reconnect_attempts) k d);
            }
            else record ended { pending_requests = []; auth_timer = false }).actions
          ≡ ended.actions
    closed_either true = refl
    closed_either false = refl

closing-logged :
    (c : Client)
    → ((closing c).pending_requests ≡ c.pending_requests)
      × ((as' : List Action) × ((closing c).actions ≡ c.actions ++ as') × Quiet as')
unfolding send_storage_status
closing-logged c = elim (Bool-cases c.to_auth) [
  | inl e ↦ (
    rw e refl,
    (
      send_status const_storage_state_disconnected (some "Connection closed") c.endpoint ∷ [],
      rw e refl,
      tt,
    ),
  )
  | inr e ↦ (rw e refl, ([], rw e (sym (append-nil c.actions)), tt))
]

module _ {B : Type 0} (c : JsonText B) (js : Coercions) (parse_body : String → Option Json)
    (env : Environment) (rules : PortRules) where
  -- When the connection to the storage server closes, the client of every request that is pending, and
  -- whose socket can be sent to, is sent the error reply of its command.
  pub closed-answers :
      (w : World) (key_text : Json → String) (k d : ℕ) (rid : String) (p : Pending) (s : System B)
      → is_pending rid s.storage.pending_requests ≡ true
      → get rid s.pending ≡ some p
      → (s.server.rooms.sockets p.ws).send_throws ≡ false
      → Has
          (error_reply c (socket_name p.ws s) p)
          (on_storage_event c js parse_body w env rules key_text (closed k d) s).server.rooms.calls
  unfolding on_storage_event step
  closed-answers w key_text k d rid p s h g ok =
      let st = on_close k d s.storage in
      let t : System B = record s { storage = st } in
      let (same, (as', e, quiet)) = closing-logged s.storage in
      let new : drop (length s.storage.actions) st.actions
          ≡ as' ++ settles s.storage.pending_requests =
        ap (drop (length s.storage.actions)) (
          on_close-logged k d s.storage
          ∙ ap (λ ks. (closing s.storage).actions ++ settles ks) same
          ∙ ap (λ xs. xs ++ settles s.storage.pending_requests) e
          ∙ append_assoc s.storage.actions as' (settles s.storage.pending_requests))
        ∙ drop-append s.storage.actions (as' ++ settles s.storage.pending_requests) in
      subst (λ u. Has (error_reply c (socket_name p.ws s) p) u.server.rooms.calls)
        (sym (
          ap (λ xs. deliver c js xs t) new
          ∙ deliver-Quiet c js as' s.storage.pending_requests t quiet))
        (deliver-answers c js s.storage.pending_requests rid p t h g ok)
