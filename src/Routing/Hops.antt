-- ===== src/Routing/Hops.antt =====
-- About `fn_parseExternalMessage` over several servers: how far a message goes.
use droneengage_server.Base.{
  ℕ, suc, ◌+◌, ◌≤◌, ◌≡◌, ◌∙◌, refl, sym, ap, subst, ◌⊎◌, inl, inr, Bool, true, false, Option, none,
  some, List, [], ◌∷◌, ◌++◌, String, Has, arith, length, if◌then◌else◌, if_cases, Bool-cases,
  Option-cases, str_eq, Json, Fields, null, bool, num, decimal, str, arr, obj, prop, property_key,
  Coercions, JsonText, IsJsonText,
}
use droneengage_server.Constants.{
  const_ws_msg_routing, const_ws_msg_routing_group, const_ws_msg_routing_individual,
}
use droneengage_server.Framing.{frame, StartsNul}
use droneengage_server.Relay.{
  RelayConfig, Outgoing, to_children, to_parent, already_relayed, get_server_origin_id, append_path,
  forward_external_message,
}
use droneengage_server.Relay.Trail.{has_server, unseen, unseen-append_path_lt, unseen-le}
use droneengage_server.Relay.Forwarding.{external_channels, forward_external_message-frame}
use droneengage_server.Rooms.Sending.{send_to_individual_id}
use droneengage_server.Routing.{
  Server, Target, throws, missing, reserved, unit, target_of, set_rooms,
}
use droneengage_server.Routing.Relayed.{
  deliver_external_broadcast, share_external, route_external, parse_external_message,
}
use droneengage_server.Routing.Permission.{open_message-frame}

abbrev pub message_of : {B : Type 0} → Outgoing B → List B
message_of (to_children m b source) = m
message_of (to_parent m b) = m

-- A message arrived, and went on `n` times: each time one of the servers, with nothing on its channels
-- before, handled it as a message of another server and put what goes on next on one of its channels.
pub data Hops {B : Type 0} (c : JsonText B) (js : Coercions) (servers : List String) (m₀ : List B)
    : ℕ → List B → Type 0 where
  start : Hops c js servers m₀ 0 m₀
  hop :
      {n : ℕ} {m : List B} (config : RelayConfig) (source : Option ℕ) (s : Server B)
      (out : Outgoing B)
      → Hops c js servers m₀ n m
      → has_server (get_server_origin_id config) servers ≡ true
      → s.relayed ≡ []
      → Has out (parse_external_message c js config m true source s).relayed
      → Hops c js servers m₀ (suc n) (message_of out)

-- Nothing was put on the channels, or what was forwarded.
abbrev Shared : {B : Type 0} → List (Outgoing B) → Server B → Server B → Type 0
Shared out s t = (t.relayed ≡ s.relayed) ⊎ (t.relayed ≡ s.relayed ++ out)

module _ {B : Type 0} (c : JsonText B) (js : Coercions) (config : RelayConfig) (m : List B)
    (source : Option ℕ) (fs : Fields) (s : Server B) where
  abbrev forwarded : List (Outgoing B)
  forwarded = forward_external_message c config m true source

  share_external-Shared :
      (actor : Option String)
      → Shared forwarded s (share_external c js config actor m true source fs s)
  unfolding share_external
  share_external-Shared actor =
      elim (Option-cases (deliver_external_broadcast js actor m true fs s.rooms)) [
        | inl e ↦ inl (rw (e, share_external) refl)
        | inr (r, e) ↦ inr (rw (e, share_external) refl)
      ]

  individual-Shared :
      (t : Target)
      → Shared forwarded s (elim t [
        | throws ↦ s
        | reserved actor ↦ share_external c js config actor m true source fs s
        | missing ↦ share_external c js config none m true source fs s
        | unit target ↦
            set_rooms
              (send_to_individual_id m true target
                (property_key js (prop "sd" fs))
                (prop "_gid" fs)
                s.rooms)
              s
      ])
  individual-Shared throws = inl refl
  individual-Shared (reserved actor) = share_external-Shared actor
  individual-Shared missing = share_external-Shared none
  individual-Shared (unit target) = inl refl

  route_external-Shared : Shared forwarded s (route_external c js config m true source fs s)
  unfolding route_external
  route_external-Shared = routed (prop const_ws_msg_routing fs) refl
    where
      routed :
          (o : Option Json)
          → prop const_ws_msg_routing fs ≡ o
          → Shared forwarded s (route_external c js config m true source fs s)
      routed (some (str ty)) e =
          rw (e, route_external)
            (if_cases (Shared forwarded s) (str_eq ty const_ws_msg_routing_group) _ _
              (share_external-Shared none)
              (if_cases (Shared forwarded s) (str_eq ty const_ws_msg_routing_individual) _ _
                (individual-Shared (target_of js fs)) (inl refl)))
      routed none e = inl (rw (e, route_external) refl)
      routed (some null) e = inl (rw (e, route_external) refl)
      routed (some (bool b)) e = inl (rw (e, route_external) refl)
      routed (some (num n)) e = inl (rw (e, route_external) refl)
      routed (some (decimal d)) e = inl (rw (e, route_external) refl)
      routed (some (arr xs)) e = inl (rw (e, route_external) refl)
      routed (some (obj o)) e = inl (rw (e, route_external) refl)

  Shared-Has :
      (t : Server B) (out : Outgoing B)
      → Shared forwarded s t
      → s.relayed ≡ []
      → Has out t.relayed
      → Has out forwarded
  Shared-Has t out (inl e) empty h = absurd (subst (Has out) (e ∙ empty) h)
  Shared-Has t out (inr e) empty h =
      subst (Has out) (e ∙ ap (λ (r : List (Outgoing B)). r ++ forwarded) empty) h

module _ {B : Type 0} (c : JsonText B) (ok : IsJsonText c) (js : Coercions) where
  channel-message :
      (config : RelayConfig) (n : List B) (source : Option ℕ) (out : Outgoing B)
      → Has out (external_channels config (to_parent n true) (to_children n true source))
      → message_of out ≡ n
  channel-message config n source out =
      opened config.enable_persistant_relay config.enable_super_server
    where
      opened :
          (up down : Bool)
          → Has out (
              (if up then to_parent n true ∷ [] else [])
              ++ (if down then to_children n true source ∷ [] else []))
          → message_of out ≡ n
      opened true down (inl e) = sym (ap message_of e)
      opened true true (inr (inl e)) = sym (ap message_of e)
      opened true true (inr (inr h)) = absurd h
      opened true false (inr h) = absurd h
      opened false true (inl e) = sym (ap message_of e)
      opened false true (inr h) = absurd h
      opened false false h = absurd h

  -- what a server puts on its channels for a framed message, which it has not seen then
  hop-frame :
      (config : RelayConfig) (source : Option ℕ) (s : Server B) (out : Outgoing B) (fs : Fields)
      (payload : List B)
      → StartsNul c payload
      → s.relayed ≡ []
      → Has out
          (parse_external_message c js config (frame c (obj fs) payload) true source s).relayed
      → (already_relayed (get_server_origin_id config) fs ≡ false)
        × (message_of out ≡ frame c (obj (append_path (get_server_origin_id config) fs)) payload)
  unfolding parse_external_message
  hop-frame config source s out fs payload nul empty h =
      let m = frame c (obj fs) payload in
      let id = get_server_origin_id config in
      elim (Bool-cases (already_relayed id fs)) [
        | inl seen ↦ absurd (
            subst (Has out) empty (
              rw (open_message-frame c ok (obj fs) payload nul, parse_external_message, seen) at h))
        | inr new ↦ (
          new,
          channel-message config (frame c (obj (append_path id fs)) payload) source out (
              subst (Has out) (forward_external_message-frame c ok config fs payload source nul) (
                Shared-Has c js config m source fs s (route_external c js config m true source fs s)
                  out (route_external-Shared c js config m source fs s) empty
                  (rw (open_message-frame c ok (obj fs) payload nul, parse_external_message, new) at
                    h))),
        )
      ]

  Hops-unseen :
      (servers : List String) (fs : Fields) (payload : List B) (n : ℕ) (m : List B)
      → StartsNul c payload
      → Hops c js servers (frame c (obj fs) payload) n m
      → (gs : Fields) × (m ≡ frame c (obj gs) payload) × (n + unseen servers gs ≤ unseen servers fs)
  Hops-unseen servers fs payload n m nul start = (fs, refl, omega arith)
  Hops-unseen servers fs payload n m nul (hop config source s out h known empty sent) =
      let (gs, e, bound) = Hops-unseen servers fs payload _ _ nul h in
      let id = get_server_origin_id config in
      let next = hop-frame config source s out gs payload nul empty (
        subst (λ x. Has out (parse_external_message c js config x true source s).relayed) e sent) in
      (
        append_path id gs,
        next.1,
        omega (arith, bound, unseen-append_path_lt servers id gs known next.0),
      )

  -- A framed message, which the servers of a network hand on to each other as messages of other servers,
  -- is handed on at most as often as there are servers, whatever the shape of the network, the servers'
  -- states and the kind of the message.
  pub Hops-bounded :
      (servers : List String) (fs : Fields) (payload : List B) (n : ℕ) (m : List B)
      → StartsNul c payload
      → Hops c js servers (frame c (obj fs) payload) n m
      → n ≤ length servers
  Hops-bounded servers fs payload n m nul h =
      omega (arith, (Hops-unseen servers fs payload n m nul h).2, unseen-le servers fs)
