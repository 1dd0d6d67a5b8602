-- ===== src/Examples/Services.antt =====
-- The theorems on the storage client and the super server at small runs.
use droneengage_server.Base.{
  Coercions, ℕ, ◌≡◌, ◌≤◌, ◌*◌, ◌+◌, refl, true, false, Option, none, some, List, [], ◌∷◌, String,
  arith, Json, str, field, end, obj, All, cell_text, Dict,
}
use droneengage_server.Storage.{
  Client, World, on_auth_timer, authenticate, ws_is_open, send_storage_status, add_pending,
  is_pending, on_message, on_reply, reply_key, answer, delete_pending,
}
use droneengage_server.Storage.Lifecycle.{
  Event, auth_timer_due, received, requested, request_due, base_delay, reconnect_delay, on_close,
  step, request, is_connected,
}
use droneengage_server.Storage.Backoff.{reconnect_delay-jitter}
use droneengage_server.Storage.Requests.{answers, waiting}
use droneengage_server.Storage.Conservation.{run, AllFresh, taken_in, run-account, closed-answered}
use droneengage_server.S2s.Parent.{connected, started}
use droneengage_server.S2s.Gated.{Gated, Verified}
use droneengage_server.S2s.Gate.{run_children, relayed_from_Verified}

reconnect_delay-jitter_example :
    (3 * base_delay 3 ≤ 4 * reconnect_delay 3 1 1 + 3)
    × (4 * reconnect_delay 3 1 1 ≤ 5 * base_delay 3)
    × (750 ≤ reconnect_delay 3 1 1)
    × (reconnect_delay 3 1 1 ≤ 75000)
reconnect_delay-jitter_example = reconnect_delay-jitter 3 1 1 (omega arith)

abbrev pub world : World
world = record { is_open = λ ws. true; send_throws = λ ws. false; sign = λ nonce. none }

-- connected, and waiting for a challenge that does not come
abbrev pub client : Client
client = record {
  ws = some 0;
  next_ws = 1;
  authenticated = false;
  endpoint = some (record { host = "storage"; port = 9000 });
  reconnect_timer = none;
  heartbeat_timer = false;
  auth_timer = true;
  pending_requests = [];
  reconnect_attempts = 0;
  connection_state = "cg";
  last_sent_status = none;
  to_auth = true;
  to_news = false;
  actions = [];
}

abbrev session : List Event
session =
    auth_timer_due
    ∷ requested "r1" 9001 (obj end)
    ∷ requested "r2" 9015 (obj end)
    ∷ received none (some (obj (field "rid" (str "r1") end)))
    ∷ request_due "r2"
    ∷ []

abbrev text_of : Json → String
text_of j = "r1"

session-AllFresh : AllFresh world text_of session client
unfolding step on_auth_timer authenticate ws_is_open send_storage_status request is_connected
    add_pending is_pending on_message on_reply reply_key answer delete_pending
session-AllFresh = (tt, (refl, (refl, (tt, (tt, tt)))))

run-account_example :
    answers "r1" (run world text_of session client).actions
      + waiting "r1" (run world text_of session client).pending_requests
    ≡ answers "r1" client.actions
      + waiting "r1" client.pending_requests
      + taken_in world text_of "r1" session client
run-account_example = run-account world text_of "r1" session client session-AllFresh

closed-answered_example :
    answers "r1" (on_close 0 0 (run world text_of session client)).actions
    ≡ taken_in world text_of "r1" session client
closed-answered_example =
    closed-answered world text_of "r1" session client 0 0 session-AllFresh refl refl

abbrev pub js : Coercions
js = record {
  key_text = λ j. "[object]";
  length_is_positive = λ fs. false;
  length_is_zero = λ fs. false;
  indexed = λ j. [];
}

abbrev pub trusted : Option (Dict ℕ)
trusted = some (("srv2", 1) ∷ [])

relayed_from_Verified_example :
    let es = connected "10.0.0.2:4000" "nonce" ∷ [] in
    ((ws : ℕ)
      → ((run_children js (λ k n s. some true) trusted cell_text (λ b. true) es started).children
          ws).s2s_authed
        ≡ true
      → Verified js
          (λ k n s. some true)
          trusted
          ((run_children js (λ k n s. some true) trusted cell_text (λ b. true) es started).children
            ws))
    × All
        (Gated (run_children js (λ k n s. some true) trusted cell_text (λ b. true) es started))
        (run_children js (λ k n s. some true) trusted cell_text (λ b. true) es started).actions
relayed_from_Verified_example =
    relayed_from_Verified js (λ k n s. some true) trusted cell_text (λ b. true)
      (connected "10.0.0.2:4000" "nonce" ∷ [])
