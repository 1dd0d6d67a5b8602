-- ===== src/Examples/Commands.antt =====
-- The theorems on the Auth server's commands and on the queue to it.
use droneengage_server.Base.{
  none, false, get, str_eq, if◌then◌else◌, ℕ, ◌≡◌, true, List, [], ◌∷◌, ◌++◌, String, Dict, Fields,
  field, end, str, Cell, some,
}
use droneengage_server.Connection.{accept_connection}
use droneengage_server.Auth.{
  AuthState, ManagerClient, PublicAddress, handle_login_responses, on_open, on_close,
}
use droneengage_server.Rooms.{call, send}
use droneengage_server.Connection.{admit, rooms_of}
use droneengage_server.Auth.Login.{login_of, announced-accept}
use droneengage_server.Auth.Queue.{send_all, on_open-ordered}
use droneengage_server.Examples.{two_units}
use droneengage_server.Examples.Proxies.{nothing_opened}

abbrev at : PublicAddress
at = record { host = "example.org"; server_port = 9966 }

abbrev request : Fields
request = field "a" (str "team") (field "b" (str "1") (field "r" (str "req1") end))

abbrev params : Dict String
params = ("f", "key9") ∷ ("s", "drone3") ∷ []

abbrev ok_message : ℕ → List Cell
ok_message ws = some (str "ok") ∷ []

abbrev state : AuthState Cell
state = record {
  hub = record {
    server = record { rooms = two_units; relayed = [] };
    waiting_accounts = [];
    effects = [];
  };
  udp = nothing_opened;
  replies = [];
}

announced-accept_example :
    let t =
      accept_connection ok_message "key9" params 3
        (handle_login_responses at "key9" request state).hub in
    let r = admit (login_of params request) 3 (rooms_of state.hub) in
    (rooms_of t ≡ (if (r.sockets 3).send_throws then r else call (send 3 (ok_message 3) false) r))
    × (get "key9" t.waiting_accounts
        ≡ (if str_eq "key9" "key9" then none else get "key9" state.hub.waiting_accounts))
announced-accept_example = announced-accept ok_message at "key9" "key9" request params 3 state

abbrev idle : ManagerClient ℕ
idle = record { ws_open = some true; message_queue = []; sent = 1 ∷ [] }

on_open-ordered_example :
    let opened = on_open 7 (send_all (2 ∷ 3 ∷ []) (on_close idle)) in
    (opened.sent ≡ (1 ∷ []) ++ 7 ∷ 2 ∷ 3 ∷ []) × (opened.message_queue ≡ [])
on_open-ordered_example = on_open-ordered 7 (2 ∷ 3 ∷ []) idle
