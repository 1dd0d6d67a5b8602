-- ===== src/Relay.antt =====
-- src/comm_server/chat_server/js_chat_relay.js: the metadata that a message gets before it is
-- relayed to other servers, and the channels that it is relayed on. The proofs are in the children.
pub mod Metadata
pub mod Forwarding
pub mod Trail
use droneengage_server.Base.{
  ℕ, Bool, true, false, Option, none, some, List, [], ◌∷◌, ◌++◌, String, if◌then◌else◌, str_eq,
  Json, Items, Fields, obj, arr, str, nil, prop, set_prop, set_str, push, includes, JsonText,
}
use droneengage_server.Framing.{index_of_nul, json_part, payload_part}

-- The part of the configuration that the relay reads.
pub record RelayConfig : Type 0 where
  pub server_id : Option String
  pub enable_super_server : Bool
  pub enable_persistant_relay : Bool

-- `server_id || 'unknown'`: an empty id counts as none.
unfoldable pub get_server_origin_id : RelayConfig → String
get_server_origin_id c = elim c.server_id [
  | none ↦ "unknown"
  | some id ↦ if str_eq id "" then "unknown" else id
]

-- The ids of a group and of its account.
pub record GroupIds : Type 0 where
  pub gid : Option String
  pub aid : Option String

-- What the relay reads of the socket that sent a message.
pub record Origin : Type 0 where
  pub logged_in : Bool
  pub group : Option GroupIds

-- A call of `forwardMessage` on one of the two channels.
pub data Outgoing (B : Type 0) : Type 0 where
  to_children : List B → Bool → Option ℕ → Outgoing B
  to_parent : List B → Bool → Outgoing B

-- `Array.isArray(v_jmsg._path) ? v_jmsg._path : []`
unfoldable pub as_array : Option Json → Items
as_array (some (arr xs)) = xs
as_array _ = nil

unfoldable pub path_of : Fields → Items
unfolding as_array
path_of fs = as_array (prop "_path" fs)

unfoldable pub append_path : String → Fields → Fields
append_path id fs = set_prop "_path" (arr (push (path_of fs) (str id))) fs

unfoldable pub add_group : Option GroupIds → Fields → Fields
add_group none fs = fs
add_group (some g) fs = set_str "_aid" g.aid (set_str "_gid" g.gid fs)

-- Properties set on an array are not printed; on `null` or a primitive the assignment throws.
unfoldable pub with_fields : (Fields → Fields) → Json → Option Json
with_fields f (obj fs) = some (obj (f fs))
with_fields f (arr xs) = some (arr xs)
with_fields f _ = none

-- The parse, change, print sequence of both functions; what does not parse is relayed as it came.
module _ {B : Type 0} (c : JsonText B) where
  unfoldable pub rewrite_text : (Fields → Fields) → List B → List B → List B → List B
  rewrite_text f original json payload = elim (c.parse json) [
    | none ↦ original
    | some j ↦ elim (with_fields f j) [ none ↦ original | some k ↦ c.stringify k ++ payload ]
  ]

  unfoldable pub rewrite_message : (Fields → Fields) → List B → Bool → List B
  rewrite_message f message true =
      let i = index_of_nul c.is_nul message in
      rewrite_text f message (json_part i message) (payload_part i message)
  rewrite_message f message false = rewrite_text f message message []

  -- `forwardMessage`
  unfoldable pub forward_message : RelayConfig → List B → Bool → Option Origin → List (Outgoing B)
  forward_message config message is_binary none = []
  forward_message config message is_binary (some ws) =
      let id = get_server_origin_id config in
      let fwd = rewrite_message (λ fs. add_group ws.group (append_path id fs)) message is_binary in
      if ws.logged_in
      then (if config.enable_super_server then to_children fwd is_binary none ∷ [] else [])
        ++ (if config.enable_persistant_relay then to_parent fwd is_binary ∷ [] else [])
      else []

  -- `forwardExternalMessage`; `source` is the child that the message came from
  unfoldable pub forward_external_message :
      RelayConfig → List B → Bool → Option ℕ → List (Outgoing B)
  forward_external_message config message is_binary source =
      let fwd = rewrite_message (append_path (get_server_origin_id config)) message is_binary in
      (if config.enable_persistant_relay then to_parent fwd is_binary ∷ [] else [])
      ++ (if config.enable_super_server then to_children fwd is_binary source ∷ [] else [])

-- The loop test of `fn_parseExternalMessage`.
unfoldable pub already_relayed : String → Fields → Bool
already_relayed id fs = includes id (path_of fs)
