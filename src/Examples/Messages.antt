-- ===== src/Examples/Messages.antt =====
-- The theorems on messages and their relaying at the two units, with a text whose cells are values.
use droneengage_server.Base.{
  ◌≡◌, ◌≢◌, ◌≤◌, String, refl, true, false, none, some, List, [], ◌∷◌, Fields, str, num, obj, field,
  end, prop, set_opt, All, Cell, cell_text, cell_text-IsJsonText, Coercions, property_key, length,
  subst, sym, Has, inl, ap, same_id, includes,
}
use droneengage_server.Relay.{GroupIds, path_of}
use droneengage_server.Relay.Metadata.{stamp, stamp_fields, Untouched}
use droneengage_server.Base.{push, cell_is_nul}
use droneengage_server.Framing.{index_of_nul, json_part, payload_part, split-frame, frame}
use droneengage_server.Relay.{
  RelayConfig, Origin, to_children, to_parent, forward_message, forward_external_message,
  append_path, get_server_origin_id, already_relayed, path_of, as_array,
}
use droneengage_server.Relay.Forwarding.{forward_message-frame, local_channels}
use droneengage_server.Relay.Metadata.{stamp}
use droneengage_server.Routing.Hops.{Hops, start, hop, Hops-bounded}
use droneengage_server.Relay.Trail.{has_server}
use droneengage_server.Rooms.Isolation.{Added}
use droneengage_server.Routing.{Server, unit, target_of, named_target, parse_message}
use droneengage_server.Routing.Relayed.{parse_external_message}
use droneengage_server.Routing.Local.{Within}
use droneengage_server.Routing.Permission.{parse_message-isolated}
use droneengage_server.Routing.Echo.{Harmless, no_echo}
use droneengage_server.Routing.External.{
  OneSend, external_group-scoped, external_individual-OneSend,
}
use droneengage_server.Examples.{drone, two_units, two_units-IsLinked, two_units-facts}

abbrev pub config : RelayConfig
config = record {
  server_id = some "srv1";
  enable_super_server = true;
  enable_persistant_relay = true;
}

abbrev pub js : Coercions
js = record {
  key_text = λ j. "[object]";
  length_is_positive = λ fs. false;
  length_is_zero = λ fs. false;
  indexed = λ j. [];
}

abbrev pub server : Server Cell
server = record { rooms = two_units; relayed = [] }

-- a group message, a message to the ground station and the payload after the NUL
abbrev to_group : Fields
to_group = field "ty" (str "g") (field "sd" (str "drone1") end)

abbrev pub payload : List Cell
payload = none ∷ some (num 5) ∷ []

to_group-user : prop "ty" to_group ≢ some (str "s")
unfolding prop same_id
to_group-user h = let e : false ≡ true = ap (same_id (some "s")) h in cc

parse_message-isolated_example :
    Added
      (Within two_units 1 (frame cell_text (obj (set_opt "p" drone.prm to_group)) payload) true)
      two_units
      (parse_message cell_text js config
        (λ fs ws s. s)
        1
        (frame cell_text (obj to_group) payload)
        true
        server).rooms
parse_message-isolated_example =
    parse_message-isolated cell_text js config (λ fs ws s. s) 1 drone cell_text-IsJsonText to_group
      payload (record { m_ttx = 0; m_btx = 0 }) server refl two_units-IsLinked two_units-facts.4
      two_units-facts.2 to_group-user

abbrev origin : Origin
origin = record { logged_in = true; group = some (record { gid = some "1"; aid = some "team" }) }

no_echo_example :
    All
      (Harmless cell_text cell_text-IsJsonText js config)
      (forward_message cell_text config (frame cell_text (obj to_group) payload) true (some origin))
    × All (Harmless cell_text cell_text-IsJsonText js config) (
        forward_external_message cell_text config
          (frame cell_text (obj to_group) payload)
          true
          (some 1))
no_echo_example =
    no_echo cell_text cell_text-IsJsonText js config origin to_group payload (some 1) refl

abbrev pub from_afar : Fields
from_afar =
    field "ty" (str "g")
      (field "sd" (str "far") (field "_aid" (str "team") (field "_gid" (str "1") end)))

from_afar-new : already_relayed (get_server_origin_id config) from_afar ≡ false
unfolding already_relayed path_of as_array includes prop get_server_origin_id
from_afar-new = refl

from_afar-props :
    (prop "ty" from_afar ≡ some (str "g"))
    × (prop "_aid" from_afar ≡ some (str "team"))
    × (prop "_gid" from_afar ≡ some (str "1"))
unfolding prop
from_afar-props = (refl, refl, refl)

abbrev to_gcs : Fields
to_gcs = field "ty" (str "i") (field "sd" (str "far") (field "tg" (str "gcs1") end))

to_gcs-facts :
    (already_relayed (get_server_origin_id config) to_gcs ≡ false)
    × (prop "ty" to_gcs ≡ some (str "i"))
    × (target_of js to_gcs ≡ unit "gcs1")
unfolding already_relayed path_of as_array includes prop get_server_origin_id target_of named_target
to_gcs-facts = (refl, refl, refl)

external_individual-OneSend_example :
    let m = frame cell_text (obj to_gcs) payload in
    let t = parse_external_message cell_text js config m true (some 9) server in
    (t.relayed ≡ [])
    × OneSend m true "gcs1"
        (property_key js (prop "sd" to_gcs))
        (prop "_gid" to_gcs)
        two_units
        t.rooms
external_individual-OneSend_example =
    external_individual-OneSend cell_text cell_text-IsJsonText js config to_gcs payload (some 9)
      server "gcs1" refl to_gcs-facts.0 to_gcs-facts.1 to_gcs-facts.2

forward_message-frame_example :
    forward_message cell_text config (frame cell_text (obj to_group) payload) true (some origin) ≡ (
      let sent =
        frame cell_text (obj (stamp (get_server_origin_id config) origin.group to_group)) payload in
      local_channels config (to_children sent true none) (to_parent sent true))
forward_message-frame_example =
    forward_message-frame cell_text cell_text-IsJsonText config origin to_group payload refl refl

to_group_hop :
    Hops cell_text js
      ("srv1" ∷ "srv2" ∷ [])
      (frame cell_text (obj from_afar) payload)
      1
      (frame cell_text (obj (append_path (get_server_origin_id config) from_afar)) payload)
unfolding has_server get_server_origin_id
to_group_hop =
    let n = frame cell_text (obj (append_path "srv1" from_afar)) payload in
    hop config (some 9) server (to_parent n true) start refl refl (
      subst (Has (to_parent n true))
        (sym
          (external_group-scoped cell_text cell_text-IsJsonText js config from_afar payload (some 9)
            server "team" "1" 0 0 refl two_units-IsLinked from_afar-new from_afar-props.0
            from_afar-props.1 from_afar-props.2 two_units-facts.7 two_units-facts.8).2)
        (inl refl))

Hops-bounded_example : 1 ≤ length {A = String} ("srv1" ∷ "srv2" ∷ [])
Hops-bounded_example =
    Hops-bounded cell_text cell_text-IsJsonText js ("srv1" ∷ "srv2" ∷ []) from_afar payload 1 _ refl
      to_group_hop

split-frame_example :
    let m = frame cell_text (obj to_group) payload in
    (json_part (index_of_nul cell_is_nul m) m ≡ some (obj to_group) ∷ [])
    × (payload_part (index_of_nul cell_is_nul m) m ≡ payload)
split-frame_example = split-frame cell_text cell_text-IsJsonText (obj to_group) payload refl

abbrev group_ids : GroupIds
group_ids = record { gid = some "1"; aid = some "team" }

stamp_fields_example :
    (path_of (stamp "srv1" (some group_ids) from_afar) ≡ push (path_of from_afar) (str "srv1"))
    × (prop "_gid" (stamp "srv1" (some group_ids) from_afar) ≡ some (str "1"))
    × (prop "_aid" (stamp "srv1" (some group_ids) from_afar) ≡ some (str "team"))
    × ((k : String)
        → Untouched k
        → prop k (stamp "srv1" (some group_ids) from_afar) ≡ prop k from_afar)
stamp_fields_example = stamp_fields "srv1" group_ids from_afar
