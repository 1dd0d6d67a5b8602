-- ===== src/Routing/Echo.antt =====
-- About the loop test of `fn_parseExternalMessage` and the trail that the relay writes.
use droneengage_server.Base.{
  ℕ, ◌≡◌, inl, inr, Bool, true, false, Option, none, some, List, [], ◌∷◌, ◌++◌, All, String, arith,
  eq_iff, if◌then◌else◌, Bool-cases, Fields, obj, Coercions, JsonText, IsJsonText,
}
use droneengage_server.Framing.{frame, StartsNul}
use droneengage_server.Relay.{
  RelayConfig, GroupIds, Origin, Outgoing, to_children, to_parent, already_relayed,
  get_server_origin_id, append_path, forward_message, forward_external_message,
}
use droneengage_server.Relay.Metadata.{stamp, already_relayed-append_path, path_of-add_group}
use droneengage_server.Relay.Forwarding.{forward_message-frame, forward_external_message-frame}
use droneengage_server.Routing.{Server}
use droneengage_server.Routing.Relayed.{parse_external_message}
use droneengage_server.Routing.Permission.{open_message-frame}

-- The bytes that a call on a channel carries.
abbrev pub sent : {B : Type 0} → Outgoing B → List B
sent (to_children m b source) = m
sent (to_parent m b) = m

-- What holds of two calls holds of whichever of them are made.
All-channels :
    {A : Type 0} (P : A → Type 0) (first second : Bool) (a b : A)
    → P a
    → P b
    → All P ((if first then a ∷ [] else []) ++ (if second then b ∷ [] else []))
All-channels P true true a b h k = (h, (k, tt))
All-channels P true false a b h k = (h, tt)
All-channels P false true a b h k = (k, tt)
All-channels P false false a b h k = tt

already_relayed-append_self :
    (id : String) (fs : Fields) → already_relayed id (append_path id fs) ≡ true
already_relayed-append_self id fs =
    ground (arith, already_relayed-append_path id id fs, eq_iff id id)

already_relayed-stamp :
    (id : String) (g : Option GroupIds) (fs : Fields) → already_relayed id (stamp id g fs) ≡ true
unfolding already_relayed
already_relayed-stamp id g fs =
    rw (path_of-add_group g (append_path id fs)) (already_relayed-append_self id fs)

module _ {B : Type 0} (c : JsonText B) (ok : IsJsonText c) (js : Coercions)
    (config : RelayConfig) where
  -- A message whose trail names this server is dropped.
  parse_external_message-seen :
      (fs : Fields) (payload : List B) (source : Option ℕ) (s : Server B)
      → StartsNul c payload
      → already_relayed (get_server_origin_id config) fs ≡ true
      → parse_external_message c js config (frame c (obj fs) payload) true source s ≡ s
  unfolding parse_external_message
  parse_external_message-seen fs payload source s h seen =
      rw (open_message-frame c ok (obj fs) payload h, seen, parse_external_message)

  -- Coming back, what the call carries has no effect on this server.
  abbrev pub Harmless : Outgoing B → Type 0
  Harmless o =
      (source : Option ℕ) (s : Server B)
      → parse_external_message c js config (sent o) true source s ≡ s

  -- Whatever this server puts on its channels for a binary message, of a local client or relayed, is
  -- dropped without effect when another server sends it back.
  pub no_echo :
      (ws : Origin) (fs : Fields) (payload : List B) (source : Option ℕ)
      → StartsNul c payload
      → All Harmless (forward_message c config (frame c (obj fs) payload) true (some ws))
        × All Harmless (forward_external_message c config (frame c (obj fs) payload) true source)
  unfolding forward_message
  no_echo ws fs payload source h = (local_harmless, external_harmless)
    where
      id : String
      id = get_server_origin_id config

      harmless :
          (gs : Fields)
          → already_relayed id gs ≡ true
          → Harmless (to_parent (frame c (obj gs) payload) true)
      harmless gs seen source' s = parse_external_message-seen gs payload source' s h seen

      stamped : Fields
      stamped = stamp id ws.group fs

      local_harmless :
          All Harmless (forward_message c config (frame c (obj fs) payload) true (some ws))
      local_harmless = elim (Bool-cases ws.logged_in) [
        | inl logged ↦ rw (forward_message-frame c ok config ws fs payload h logged) (
            All-channels Harmless config.enable_super_server config.enable_persistant_relay
              (to_children (frame c (obj stamped) payload) true none)
              (to_parent (frame c (obj stamped) payload) true)
              (harmless stamped (already_relayed-stamp id ws.group fs))
              (harmless stamped (already_relayed-stamp id ws.group fs)))
        | inr out ↦ rw (out, forward_message) tt
      ]

      external_harmless :
          All Harmless (forward_external_message c config (frame c (obj fs) payload) true source)
      external_harmless = rw (forward_external_message-frame c ok config fs payload source h) (
          All-channels Harmless config.enable_persistant_relay config.enable_super_server
            (to_parent (frame c (obj (append_path id fs)) payload) true)
            (to_children (frame c (obj (append_path id fs)) payload) true source)
            (harmless (append_path id fs) (already_relayed-append_self id fs))
            (harmless (append_path id fs) (already_relayed-append_self id fs)))
