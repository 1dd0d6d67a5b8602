-- ===== src/S2s/Downlink.antt =====
-- About the way of a relayed message from js_chat_relay.js to the children of js_parent_comm_server.js.
use droneengage_server.Base.{
  ℕ, ◌≡◌, ◌≢◌, Bool, true, false, not, ◌&&◌, Option, none, some, List, [], ◌∷◌, ◌==◌, if◌then◌else◌,
}
use droneengage_server.S2s.Parent.{Parent, Action, send, terminate, relay}

-- The message, to a child that is open and authenticated and is not the one left out.
abbrev pub SentDown : {B : Type 0} → Parent B → List B → Option ℕ → Action B → Type 0
SentDown p message exclude (send ws m) =
    (m ≡ message)
    × ((p.children ws).is_open ≡ true)
    × ((p.children ws).s2s_authed ≡ true)
    × (exclude ≢ some ws)
SentDown p message exclude (terminate ws) = ⊥
SentDown p message exclude (relay ws m) = ⊥

abbrev is_excluded : Option ℕ → ℕ → Bool
is_excluded none ws = false
is_excluded (some x) ws = ws == x

-- the children that a message is for
abbrev pub is_for : {B : Type 0} → Parent B → Option ℕ → ℕ → Bool
is_for p exclude ws =
    (p.children ws).is_open && (p.children ws).s2s_authed && not (is_excluded exclude ws)

abbrev pub sends : {B : Type 0} → Parent B → List B → Option ℕ → List ℕ → List (Action B)
sends p message exclude [] = []
sends p message exclude (ws ∷ wss) =
    if is_for p exclude ws
    then send ws message ∷ sends p message exclude wss
    else sends p message exclude wss
