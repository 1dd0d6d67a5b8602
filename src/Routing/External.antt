-- ===== src/Routing/External.antt =====
-- Messages that other servers relay: scoped delivery, and one-to-one messages.
use droneengage_server.Base.{
  ℕ, ◌≡◌, refl, ap, ◌⊎◌, inl, inr, Bool, true, false, Option, none, some, List, ◌++◌, String, arith,
  ◌==◌, Bool-cases, Option-cases, Json, Fields, obj, str, prop, same_id, property_key, Coercions,
  JsonText, IsJsonText, get, read,
}
use droneengage_server.Constants.{
  const_ws_msg_routing, const_ws_msg_routing_group, const_ws_msg_routing_individual,
}
use droneengage_server.Framing.{frame, StartsNul}
use droneengage_server.Relay.{
  RelayConfig, Outgoing, to_children, to_parent, already_relayed, get_server_origin_id, append_path,
}
use droneengage_server.Relay.Forwarding.{external_channels, forward_external_message-frame}
use droneengage_server.Rooms.{Rooms, send, call}
use droneengage_server.Rooms.Sending.{
  broadcast, send_to_account_group, send_to_individual_id, may_send_to, same_group,
}
use droneengage_server.Rooms.Linked.{IsLinked}
use droneengage_server.Rooms.Isolation.{Allowed, Added, broadcast-isolated}
use droneengage_server.Routing.{Server, unit, target_of}
use droneengage_server.Routing.Relayed.{
  deliver_external_broadcast, share_external, route_external, parse_external_message,
}
use droneengage_server.Routing.Permission.{open_message-frame}

module _ {B : Type 0} (c : JsonText B) (ok : IsJsonText c) (js : Coercions) (config : RelayConfig)
    (fs : Fields) (payload : List B) (source : Option ℕ) (s : Server B) (account group : String)
    (a g : ℕ) where
  external_scoped-broadcast :
      (actor : Option String) (m : List B) (b : Bool)
      → prop "_aid" fs ≡ some (str account)
      → prop "_gid" fs ≡ some (str group)
      → get account s.rooms.c_accounts ≡ some a
      → get group (s.rooms.accounts a).groups ≡ some g
      → deliver_external_broadcast js actor m b fs s.rooms
        ≡ some (broadcast g m b (prop "sd" fs) actor s.rooms)
  unfolding deliver_external_broadcast send_to_account_group read property_key
  external_scoped-broadcast actor m b aid gid found listed =
      rw (aid, gid, found, listed, deliver_external_broadcast, send_to_account_group, read)

  parse_external_message-group :
      StartsNul c payload
      → already_relayed (get_server_origin_id config) fs ≡ false
      → prop const_ws_msg_routing fs ≡ some (str const_ws_msg_routing_group)
      → parse_external_message c js config (frame c (obj fs) payload) true source s
        ≡ share_external c js config none (frame c (obj fs) payload) true source fs s
  unfolding parse_external_message route_external
  parse_external_message-group h new ty =
      rw (open_message-frame c ok (obj fs) payload h, parse_external_message)
        (rw (new, ty, route_external))

  pub external_group-scoped :
      StartsNul c payload
      → IsLinked s.rooms
      → already_relayed (get_server_origin_id config) fs ≡ false
      → prop const_ws_msg_routing fs ≡ some (str const_ws_msg_routing_group)
      → prop "_aid" fs ≡ some (str account)
      → prop "_gid" fs ≡ some (str group)
      → get account s.rooms.c_accounts ≡ some a
      → get group (s.rooms.accounts a).groups ≡ some g
      → let m = frame c (obj fs) payload in
        let t = parse_external_message c js config m true source s in
        (t.rooms ≡ broadcast g m true (prop "sd" fs) none s.rooms)
        × Added (Allowed s.rooms g m true (prop "sd" fs) none) s.rooms t.rooms
        × (t.relayed
            ≡ s.relayed
              ++ (let n = frame c (obj (append_path (get_server_origin_id config) fs)) payload in
                  external_channels config (to_parent n true) (to_children n true source)))
  unfolding share_external
  external_group-scoped h l new ty aid gid found listed =
      let m = frame c (obj fs) payload in
      rw
        (
          parse_external_message-group h new ty,
          external_scoped-broadcast none m true aid gid found listed,
          share_external,
        )
        (
          refl,
          broadcast-isolated g m true (prop "sd" fs) none s.rooms l,
          ap (λ (out : List (Outgoing B)). s.relayed ++ out)
              (forward_external_message-frame c ok config fs payload source h),
        )

-- The socket was found to belong to a sender in the target's group, or the message carries the id of
-- the target's group, or the target is in no group.
abbrev pub Vouched : {M : Type 0} → Rooms M → String → Option Json → ℕ → Type 0
Vouched r from_key group_id ws =
    ((from : ℕ) × (get from_key r.active_senders ≡ some from)
      × ((r.sockets from).group ≡ (r.sockets ws).group))
    ⊎ ((g : ℕ) × ((r.sockets ws).group ≡ some g) × (same_id (r.groups g).id group_id ≡ true))
    ⊎ ((r.sockets ws).group ≡ none)

module _ {M : Type 0} (r : Rooms M) where
  same_group-eq : (o p : Option ℕ) → same_group o p ≡ true → o ≡ p
  unfolding same_group
  same_group-eq none none h = refl
  same_group-eq none (some q) h = cc
  same_group-eq (some p) none h = cc
  same_group-eq (some p) (some q) h = ground arith

  same_group_of_none : (g : ℕ) → same_group none (some g) ≡ false
  unfolding same_group
  same_group_of_none g = refl

  may_send_to-Vouched :
      (from_key : String) (group_id : Option Json) (ws : ℕ)
      → may_send_to from_key group_id ws r ≡ true
      → Vouched r from_key group_id ws
  unfolding may_send_to read
  may_send_to-Vouched from_key group_id ws h = elim (Option-cases (get from_key r.active_senders)) [
    | inl e ↦ elim (Option-cases (r.sockets ws).group) [
      | inl out ↦ inr (inr out)
      | inr (g, here) ↦ inr (inl (g, here, ground (arith, same_group_of_none g)))
    ]
    | inr (from, e) ↦
        inl (from, e, same_group-eq (r.sockets from).group (r.sockets ws).group (ground arith))
  ]

-- Nothing, or one send to the active socket of the target, if the sender is vouched for.
abbrev pub OneSend :
    {M : Type 0} → M → Bool → String → String → Option Json → Rooms M → Rooms M → Type 0
OneSend m b target from_key group_id r t =
    (t ≡ r)
    ⊎ ((ws : ℕ) × (get target r.active_senders ≡ some ws)
        × ((r.sockets ws).ready_state ≡ 1)
        × (t ≡ call (send ws m b) r)
        × Vouched r from_key group_id ws)

send_to_individual_id-OneSend :
    {M : Type 0} (m : M) (b : Bool) (target from_key : String) (group_id : Option Json)
    (r : Rooms M)
    → OneSend m b target from_key group_id r (send_to_individual_id m b target from_key group_id r)
unfolding send_to_individual_id read
send_to_individual_id-OneSend m b target from_key group_id r =
    elim (Option-cases (get target r.active_senders)) [
      | inl e ↦ inl (ground arith)
      | inr (ws, e) ↦ elim (Bool-cases (may_send_to from_key group_id ws r)) [
        | inr n ↦ inl (ground arith)
        | inl v ↦ elim (Bool-cases (r.sockets ws).send_throws) [
          | inl t ↦ inl (ground arith)
          | inr t ↦ elim (Bool-cases ((r.sockets ws).ready_state == 1)) [
            | inr n ↦ inl (ground arith)
            | inl open' ↦
                inr
                  (ws, e, ground arith, ground arith, may_send_to-Vouched r from_key group_id ws v)
          ]
        ]
      ]
    ]

-- A relayed one-to-one message is never relayed on, and is sent at most once: to the open socket that
-- is active under the target's name, and then its sender is active here in the target's group, or it
-- names the target's group id, or the target is in no group.
pub external_individual-OneSend :
    {B : Type 0} (c : JsonText B)
    → IsJsonText c
    → (js : Coercions) (config : RelayConfig) (fs : Fields) (payload : List B) (source : Option ℕ)
      (s : Server B) (target : String)
    → StartsNul c payload
    → already_relayed (get_server_origin_id config) fs ≡ false
    → prop const_ws_msg_routing fs ≡ some (str const_ws_msg_routing_individual)
    → target_of js fs ≡ unit target
    → let m = frame c (obj fs) payload in
      let t = parse_external_message c js config m true source s in
      (t.relayed ≡ s.relayed)
      × OneSend m true target (property_key js (prop "sd" fs)) (prop "_gid" fs) s.rooms t.rooms
unfolding parse_external_message route_external
external_individual-OneSend c ok js config fs payload source s target h new ty tg =
    rw (open_message-frame c ok (obj fs) payload h, parse_external_message)
      (rw (new, ty, tg, route_external)
        (
          refl,
          send_to_individual_id-OneSend (frame c (obj fs) payload) true target
              (property_key js (prop "sd" fs)) (prop "_gid" fs) s.rooms,
        ))
