-- ===== src/Relay/Forwarding.antt =====
-- What `forwardMessage` and `forwardExternalMessage` put on the channels.
use droneengage_server.Base.{
  ℕ, ◌≡◌, refl, ◌∙◌, Bool, true, false, Option, none, some, List, [], ◌∷◌, ◌++◌, arith, append-nil,
  if◌then◌else◌, Fields, obj, JsonText, IsJsonText,
}
use droneengage_server.Framing.{frame, StartsNul, split-frame, index_of_nul, json_part}
use droneengage_server.Relay.{
  RelayConfig, Origin, to_children, to_parent, get_server_origin_id, append_path, with_fields,
  rewrite_text, rewrite_message, forward_message, forward_external_message,
}
use droneengage_server.Relay.Metadata.{stamp}

-- The channels that a configuration opens, in the order that each function calls them.
abbrev pub local_channels {ℓ} : {A : Type ℓ} → RelayConfig → A → A → List A
local_channels config children parent =
    (if config.enable_super_server then children ∷ [] else [])
    ++ (if config.enable_persistant_relay then parent ∷ [] else [])

abbrev pub external_channels {ℓ} : {A : Type ℓ} → RelayConfig → A → A → List A
external_channels config parent children =
    (if config.enable_persistant_relay then parent ∷ [] else [])
    ++ (if config.enable_super_server then children ∷ [] else [])

module _ {B : Type 0} (c : JsonText B) (ok : IsJsonText c) (f : Fields → Fields) (fs : Fields) where
  rewrite_text-stringify :
      (original payload : List B)
      → rewrite_text c f original (c.stringify (obj fs)) payload
        ≡ c.stringify (obj (f fs)) ++ payload
  unfolding rewrite_text with_fields
  rewrite_text-stringify original payload = rw (ok.parse-stringify (obj fs), rewrite_text)

  -- Rewriting a binary message changes its header and keeps its payload, byte by byte.
  pub rewrite_message-frame :
      (payload : List B)
      → StartsNul c payload
      → rewrite_message c f (frame c (obj fs) payload) true ≡ frame c (obj (f fs)) payload
  unfolding rewrite_message
  rewrite_message-frame payload h =
      let parts = split-frame c ok (obj fs) payload h in
      rw (parts.0, parts.1)
        (rewrite_text-stringify (frame c (obj fs) payload) payload ∙ (unfold frame in refl))

  pub rewrite_message-stringify :
      rewrite_message c f (c.stringify (obj fs)) false ≡ c.stringify (obj (f fs))
  unfolding rewrite_message
  rewrite_message-stringify =
      rw (rewrite_text-stringify (c.stringify (obj fs)) []) (append-nil (c.stringify (obj (f fs))))

-- A malformed message is relayed as it came.
pub rewrite_message-malformed :
    {B : Type 0} (c : JsonText B) (f : Fields → Fields) (message : List B) (is_binary : Bool)
    → c.parse (if is_binary then json_part (index_of_nul c.is_nul message) message else message)
      ≡ none
    → rewrite_message c f message is_binary ≡ message
unfolding rewrite_message rewrite_text
rewrite_message-malformed c f message true h = ground arith
rewrite_message-malformed c f message false h = ground arith

module _ {B : Type 0} (c : JsonText B) (ok : IsJsonText c) (config : RelayConfig) where
  -- A binary message of a logged-in local sender goes, with its payload untouched and its header
  -- stamped with the server's id and the sender's group, to the children first and then to the parent.
  pub forward_message-frame :
      (ws : Origin) (fs : Fields) (payload : List B)
      → StartsNul c payload
      → ws.logged_in ≡ true
      → forward_message c config (frame c (obj fs) payload) true (some ws) ≡ (
          let sent = frame c (obj (stamp (get_server_origin_id config) ws.group fs)) payload in
          local_channels config (to_children sent true none) (to_parent sent true))
  unfolding forward_message
  forward_message-frame ws fs payload h logged = rw (
    logged,
    rewrite_message-frame c ok (stamp (get_server_origin_id config) ws.group) fs payload h,
  )

  -- A message of another server that is handed on goes with only the trail extended, and its payload
  -- untouched, to the parent's and then to the children's channel, which is told where it came from.
  pub forward_external_message-frame :
      (fs : Fields) (payload : List B) (source : Option ℕ)
      → StartsNul c payload
      → forward_external_message c config (frame c (obj fs) payload) true source ≡ (
          let sent = frame c (obj (append_path (get_server_origin_id config) fs)) payload in
          external_channels config (to_parent sent true) (to_children sent true source))
  unfolding forward_external_message
  forward_external_message-frame fs payload source h =
      rw (rewrite_message-frame c ok (append_path (get_server_origin_id config)) fs payload h)

-- A message without a logged-in sender goes nowhere.
pub forward_message_unauthorised :
    {B : Type 0} (c : JsonText B) (config : RelayConfig) (message : List B) (is_binary : Bool)
    (ws : Option Origin)
    → ((o : Origin) → ws ≡ some o → o.logged_in ≡ false)
    → forward_message c config message is_binary ws ≡ []
unfolding forward_message
forward_message_unauthorised c config message is_binary none h = refl
forward_message_unauthorised c config message is_binary (some o) h = rw (h o refl)
