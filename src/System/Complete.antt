-- ===== src/System/Complete.antt =====
-- About `fn_parseMessage` with the handler of system messages in its place.
use droneengage_server.Base.{
  ℕ, ◌≡◌, ap, ◌∙◌, ◌⊎◌, inl, inr, Bool, true, false, Option, none, some, List, ◌++◌, All-map,
  String, eq_iff, str_eq, Bool-cases, Json, Fields, obj, str, null, bool, num, decimal, arr, prop,
  set_opt, prop-set_opt, Coercions, JsonText, IsJsonText, arith,
}
use droneengage_server.Constants.{const_ws_msg_routing, const_ws_msg_routing_system}
use droneengage_server.Framing.{frame, StartsNul}
use droneengage_server.Relay.{RelayConfig, with_fields}
use droneengage_server.Rooms.{LoginRequest, Status}
use droneengage_server.Rooms.Linked.{IsLinked}
use droneengage_server.Rooms.Isolation.{Added}
use droneengage_server.Routing.{Server, count_message, route, route_with_permission, parse_message}
use droneengage_server.Routing.Local.{Within, count_message-calls}
use droneengage_server.Routing.Permission.{open_message-frame, parse_message-isolated}
use droneengage_server.Storage.{World}
use droneengage_server.Udp.{Environment}
use droneengage_server.System.{System}
use droneengage_server.System.Tasks.{Inputs}
use droneengage_server.System.Proxies.{PortRules}
use droneengage_server.System.Commands.{system_handler}
use droneengage_server.System.Replies.{To}
use droneengage_server.System.Dispatch.{on_system_message-Replied}

abbrev is_system : Option Json → Bool
is_system (some (str t)) = str_eq t const_ws_msg_routing_system
is_system _ = false

system_of : (o : Option Json) → is_system o ≡ true → o ≡ some (str const_ws_msg_routing_system)
system_of (some (str t)) h = ap (λ x. some (str x)) ((eq_iff t const_ws_msg_routing_system).0 h)
system_of none h = ground arith
system_of (some null) h = ground arith
system_of (some (bool x)) h = ground arith
system_of (some (num x)) h = ground arith
system_of (some (decimal x)) h = ground arith
system_of (some (arr x)) h = ground arith
system_of (some (obj x)) h = ground arith

module _ {B : Type 0} (c : JsonText B) (js : Coercions) (config : RelayConfig)
    (parse_body : String → Option Json) (w : World) (env : Environment) (rules : PortRules)
    (i : Inputs) (whole : System B) (from : ℕ) (login : LoginRequest) where
  abbrev on_system : Fields → ℕ → Server B → Server B
  on_system = system_handler c js parse_body w env rules i whole

  system-answered :
      IsJsonText c
      → (fs : Fields) (payload : List B) (st : Status) (s : Server B) → StartsNul c payload
      → (s.rooms.sockets from).status ≡ some st
      → (s.rooms.sockets from).login_request ≡ some login
      → prop const_ws_msg_routing (set_opt "p" login.prm fs)
        ≡ some (str const_ws_msg_routing_system)
      → Added
          (To from)
          s.rooms
          (parse_message c js config on_system from (frame c (obj fs) payload) true s).rooms
  unfolding parse_message route system_handler route_with_permission with_fields
  system-answered ok fs payload st s h e f kind =
      let message = frame c (obj fs) payload in
      let counted = count_message st message true from s in
      let full = set_opt "p" login.prm fs in
      let (cs, k, ours) =
        on_system_message-Replied c js parse_body w env rules i full from
          (record whole { server = counted }) in
      rw (e, f, open_message-frame c ok (obj fs) payload h, parse_message, kind, route)
        (cs, k ∙ ap (λ ds. ds ++ cs) (count_message-calls from message true st message s), ours)

  -- Whatever binary message a logged-in client frames, of any kind, in linked tables, the calls that it
  -- causes are to send that message, with the permission of the client's login, to sockets of the client's
  -- group, to terminate such sockets, or to send a text to the client itself.
  pub parse_message-answered :
      IsJsonText c
      → (fs : Fields) (payload : List B) (st : Status) (s : Server B) → StartsNul c payload
      → IsLinked s.rooms
      → (s.rooms.sockets from).status ≡ some st
      → (s.rooms.sockets from).login_request ≡ some login
      → Added
          (λ call.
            Within s.rooms from (frame c (obj (set_opt "p" login.prm fs)) payload) true call
            ⊎ To from call)
          s.rooms
          (parse_message c js config on_system from (frame c (obj fs) payload) true s).rooms
  parse_message-answered ok fs payload st s h l e f =
      elim (Bool-cases (is_system (prop const_ws_msg_routing fs))) [
        | inl sys ↦
            let (cs, k, ours) =
              system-answered ok fs payload st s h e f
                (prop-set_opt "p" const_ws_msg_routing login.prm fs ∙ system_of _ sys) in
            (cs, k, All-map _ _ (λ a x. inr x) cs ours)
        | inr user ↦
            let (cs, k, ours) =
              parse_message-isolated c js config on_system from login ok fs payload st s h l e f
                (λ g. absurd (ground (arith, ap is_system g))) in
            (cs, k, All-map _ _ (λ a x. inl x) cs ours)
      ]
