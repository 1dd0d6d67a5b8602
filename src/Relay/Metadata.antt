-- ===== src/Relay/Metadata.antt =====
-- What the relay writes into a message's fields.
use droneengage_server.Base.{
  ◌≡◌, refl, ◌∙◌, true, false, Option, none, some, String, if◌then◌else◌, str_eq, Fields, prop,
  prop-set_prop, prop-set_str, str_of, includes-push, push, str,
}
use droneengage_server.Relay.{GroupIds, path_of, append_path, add_group, already_relayed}

pub path_of-append_path :
    (id : String) (fs : Fields) → path_of (append_path id fs) ≡ push (path_of fs) (str id)
unfolding append_path path_of
path_of-append_path id fs = rw (prop-set_prop "_path" "_path")

pub path_of-add_group : (g : Option GroupIds) (fs : Fields) → path_of (add_group g fs) ≡ path_of fs
unfolding add_group path_of
path_of-add_group none fs = refl
path_of-add_group (some g) fs = rw (prop-set_str "_aid" "_path", prop-set_str "_gid" "_path")

-- Relaying marks a message with the relay's id, and takes no id out of the trail.
pub already_relayed-append_path :
    (id other : String) (fs : Fields)
    → already_relayed other (append_path id fs)
      ≡ (if already_relayed other fs then true else str_eq id other)
unfolding already_relayed
already_relayed-append_path id other fs =
    rw path_of-append_path (includes-push other id (path_of fs))

-- The fields that relaying leaves alone: all but the trail and the two ids.
abbrev pub Untouched : String → Type 0
Untouched k = (str_eq "_path" k ≡ false) × (str_eq "_gid" k ≡ false) × (str_eq "_aid" k ≡ false)

prop-append_path :
    (k id : String) (fs : Fields) → Untouched k → prop k (append_path id fs) ≡ prop k fs
unfolding append_path
prop-append_path k id fs u = rw (prop-set_prop "_path" k, u.0)

prop-add_group :
    (k : String) (g : Option GroupIds) (fs : Fields)
    → Untouched k
    → prop k (add_group g fs) ≡ prop k fs
unfolding add_group
prop-add_group k none fs u = refl
prop-add_group k (some g) fs u = rw (prop-set_str "_aid" k, u.2, prop-set_str "_gid" k, u.1)

-- The metadata of a message from a local client.
abbrev pub stamp : String → Option GroupIds → Fields → Fields
stamp id g fs = add_group g (append_path id fs)

-- A stamped message carries the server's id at the end of its trail, the sender's group and
-- account, and all else as it was.
pub stamp_fields :
    (id : String) (g : GroupIds) (fs : Fields)
    → (path_of (stamp id (some g) fs) ≡ push (path_of fs) (str id))
      × (prop "_gid" (stamp id (some g) fs) ≡ str_of g.gid)
      × (prop "_aid" (stamp id (some g) fs) ≡ str_of g.aid)
      × ((k : String) → Untouched k → prop k (stamp id (some g) fs) ≡ prop k fs)
stamp_fields id g fs = (
  path_of-add_group (some g) (append_path id fs) ∙ path_of-append_path id fs,
  unfold add_group in rw (prop-set_str "_aid" "_gid", prop-set_str "_gid" "_gid"),
  unfold add_group in rw (prop-set_str "_aid" "_aid"),
  λ k u. prop-add_group k (some g) (append_path id fs) u ∙ prop-append_path k id fs u,
)
