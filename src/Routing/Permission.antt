-- ===== src/Routing/Permission.antt =====
-- About `fn_parseMessage` from the socket to the calls, with the permission that it writes.
use droneengage_server.Base.{
  ℕ, ◌≡◌, ◌≢◌, refl, sym, ap, ◌∙◌, inl, inr, Bool, true, Option, none, some, List, ◌++◌, String,
  eq_iff, str_eq, opt_eq, if◌then◌else◌, Bool-cases, Json, Fields, obj, str, null, bool, num,
  decimal, arr, prop, set_opt, prop-set_opt, Coercions, JsonText, IsJsonText,
}
use droneengage_server.Constants.{
  const_ws_msg_routing, const_ws_msg_routing_group, const_ws_msg_routing_individual,
  const_ws_msg_routing_system, const_actor_type_gcs,
}
use droneengage_server.Framing.{frame, StartsNul, split-frame}
use droneengage_server.Relay.{RelayConfig, with_fields}
use droneengage_server.Rooms.{LoginRequest, Status}
use droneengage_server.Rooms.Linked.{IsLinked}
use droneengage_server.Rooms.Isolation.{Added}
use droneengage_server.Routing.{
  Server, count_message, open_message, route, route_with_permission, parse_message,
}
use droneengage_server.Routing.Local.{
  Within, Within-same, Confined, stay-Confined, count_message-group, count_message-calls,
  count_message-IsLinked, route_individual-Confined, shared,
}

-- A framed message opens to its two parts.
pub open_message-frame :
    {B : Type 0} (c : JsonText B)
    → IsJsonText c
    → (j : Json) (payload : List B) → StartsNul c payload
    → open_message c (frame c j payload) true ≡ some (j, payload)
unfolding open_message
open_message-frame c ok j payload h =
    let parts = split-frame c ok j payload h in
    rw (parts.0, ok.parse-stringify j, open_message) (ap (λ rest. some (j, rest)) parts.1)

module _ {B : Type 0} (c : JsonText B) (js : Coercions) (config : RelayConfig)
    (on_system : Fields → ℕ → Server B → Server B) (from : ℕ) (login : LoginRequest) where
  route-Confined :
      (m : List B) (b : Bool) (s : Server B)
      → IsLinked s.rooms
      → (fs : Fields) → prop const_ws_msg_routing fs ≢ some (str const_ws_msg_routing_system)
      → Confined from m b s (route c js config on_system fs m b login from s)
  unfolding route
  route-Confined m b s l fs user = routed (prop const_ws_msg_routing fs) refl
    where
      kept : Confined from m b s s
      kept = stay-Confined from m b s

      routed_str :
          (ty : String)
          → prop const_ws_msg_routing fs ≡ some (str ty)
          → Confined from m b s (route c js config on_system fs m b login from s)
      routed_str ty e = elim (Bool-cases (str_eq ty const_ws_msg_routing_group)) [
        | inl g ↦
            rw (e, g, route)
              (shared c js config from m b login s l
                (if opt_eq login.actor_type (some const_actor_type_gcs) then none else some "g"))
        | inr g ↦ elim (Bool-cases (str_eq ty const_ws_msg_routing_individual)) [
          | inl i ↦
              rw (e, g, i, route) (route_individual-Confined c js config from m b login s l fs)
          | inr i ↦ elim (Bool-cases (str_eq ty const_ws_msg_routing_system)) [
            | inl y ↦ absurd (user (e ∙ ap (λ t. some (str t)) ((eq_iff ty _).0 y)))
            | inr y ↦ rw (e, g, i, y, route) kept
          ]
        ]
      ]

      routed :
          (o : Option Json)
          → prop const_ws_msg_routing fs ≡ o
          → Confined from m b s (route c js config on_system fs m b login from s)
      routed none e = rw (e, route) kept
      routed (some (str ty)) e = routed_str ty e
      routed (some null) e = rw (e, route) kept
      routed (some (bool x)) e = rw (e, route) kept
      routed (some (num x)) e = rw (e, route) kept
      routed (some (decimal x)) e = rw (e, route) kept
      routed (some (arr x)) e = rw (e, route) kept
      routed (some (obj x)) e = rw (e, route) kept

  -- With the calls counted from before the message was.
  counted-Confined :
      (st : Status) (message m : List B) (b : Bool) (s t : Server B)
      → Confined from m b (count_message st message b from s) t
      → Confined from m b s t
  counted-Confined st message m b s t (cs, e, h) = (
    cs,
    e ∙ ap (λ ds. ds ++ cs) (count_message-calls from m b st message s),
    Within-same s.rooms (count_message st message b from s).rooms from m b
        (count_message-group from m b st message s) cs h,
  )

  user_kind :
      (fs : Fields)
      → prop const_ws_msg_routing fs ≢ some (str const_ws_msg_routing_system)
      → prop const_ws_msg_routing (set_opt "p" login.prm fs)
        ≢ some (str const_ws_msg_routing_system)
  user_kind fs user e = user (sym (prop-set_opt "p" const_ws_msg_routing login.prm fs) ∙ e)

  route_with_permission-frame :
      (fs : Fields) (payload : List B) (s : Server B)
      → route_with_permission c js config on_system (some (obj fs, payload)) true login from s
        ≡ route c js config on_system
            (set_opt "p" login.prm fs)
            (frame c (obj (set_opt "p" login.prm fs)) payload)
            true
            login
            from
            s
  unfolding route_with_permission with_fields frame
  route_with_permission-frame fs payload s = refl

  -- A binary message that a logged-in client frames, of any but the system kind, in linked tables,
  -- causes no call but to send that message, with the permission of the client's login in place of
  -- whatever the client wrote there, to sockets of the client's group, or to terminate such sockets.
  pub parse_message-isolated :
      IsJsonText c
      → (fs : Fields) (payload : List B) (st : Status) (s : Server B) → StartsNul c payload
      → IsLinked s.rooms
      → (s.rooms.sockets from).status ≡ some st
      → (s.rooms.sockets from).login_request ≡ some login
      → prop const_ws_msg_routing fs ≢ some (str const_ws_msg_routing_system)
      → Added
          (Within s.rooms from (frame c (obj (set_opt "p" login.prm fs)) payload) true)
          s.rooms
          (parse_message c js config on_system from (frame c (obj fs) payload) true s).rooms
  unfolding parse_message
  parse_message-isolated ok fs payload st s h l e f user =
      rw (e, f, open_message-frame c ok (obj fs) payload h, parse_message)
        (rw (route_with_permission-frame fs payload counted) (
          counted-Confined st message m true s
            (route c js config on_system (set_opt "p" login.prm fs) m true login from counted)
            (route-Confined m true counted (count_message-IsLinked from m true st message s l)
              (set_opt "p" login.prm fs) (user_kind fs user))))
    where
      message : List B
      message = frame c (obj fs) payload

      m : List B
      m = frame c (obj (set_opt "p" login.prm fs)) payload

      counted : Server B
      counted = count_message st message true from s
