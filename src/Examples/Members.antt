-- ===== src/Examples/Members.antt =====
-- The theorems on rooms and connections at the two units.
use droneengage_server.Base.{
  ℕ, ◌≡◌, ◌≢◌, refl, true, false, none, some, List, [], ◌∷◌, ◌++◌, String, get, arith, str, All,
  Has, Cell, cell_text, same_id, opt_eq, is_inherited, read, undefined, Dict, Coercions, end,
}
use droneengage_server.Rooms.{Call, send}
use droneengage_server.Rooms.Registry.{
  add_member_to_account_group, del_member_from_group, del_member_from_account_by_name,
}
use droneengage_server.Rooms.Sending.{broadcast, is_recipient}
use droneengage_server.Rooms.Linked.{
  IsLinked, add_member_to_account_group-IsLinked, broadcast-IsLinked,
  del_member_from_group-IsLinked, del_member_from_account_by_name-IsLinked,
}
use droneengage_server.Rooms.Isolation.{Allowed, broadcast-isolated}
use droneengage_server.Rooms.Delivery.{Eligible, broadcast-reaches}
use droneengage_server.Rooms.Seating.{Seated}
use droneengage_server.Connection.{
  Hub, ConnectionConfig, admit, on_rooms, reject, accept_connection, complete_connection,
}
use droneengage_server.Connection.Handlers.{on_close, on_auth_frame, on_auth_timeout}
use droneengage_server.Connection.Admission.{admit-replaces, replaced-on_close}
use droneengage_server.Connection.Decided.{authentication-decided}
use droneengage_server.Connection.TempKeys.{
  Refused, accept_connection-once, complete_connection-Refused,
}
use droneengage_server.Examples.{drone, gcs, two_units, two_units-IsLinked, two_units-facts}

abbrev hello : List Cell
hello = some (str "hello") ∷ []

broadcast-isolated_example :
    (cs : List (Call (List Cell))) × ((broadcast 0 hello true
        (some (str "drone1"))
        none
        two_units).calls
      ≡ two_units.calls ++ cs)
    × All (Allowed two_units 0 hello true (some (str "drone1")) none) cs
broadcast-isolated_example =
    broadcast-isolated 0 hello true (some (str "drone1")) none two_units two_units-IsLinked

gcs-Eligible : Eligible 0 (some (str "drone1")) none "gcs1" 2 two_units
unfolding is_recipient same_id opt_eq
gcs-Eligible = record {
  login = gcs;
  member = two_units-facts.5;
  logged_in = two_units-facts.3;
  recipient = refl;
  alive = two_units-facts.9;
}

broadcast-reaches_example :
    (cs : List (Call (List Cell))) × ((broadcast 0 hello true
        (some (str "drone1"))
        none
        two_units).calls
      ≡ two_units.calls ++ cs)
    × Has (send 2 hello true) cs
broadcast-reaches_example =
    broadcast-reaches 0 hello true (some (str "drone1")) none "gcs1" 2 two_units two_units-IsLinked
      gcs-Eligible

add_member_to_account_group-IsLinked_example : IsLinked (add_member_to_account_group 3 two_units).0
add_member_to_account_group-IsLinked_example =
    add_member_to_account_group-IsLinked 3 two_units two_units-IsLinked two_units-facts.10

broadcast-IsLinked_example : IsLinked (broadcast 0 hello true none none two_units)
broadcast-IsLinked_example = broadcast-IsLinked 0 hello true none none two_units two_units-IsLinked

named : (two_units.sockets 1).name ≢ none
named h = ground (arith, h, two_units-facts.11)

del_member_from_group-IsLinked_example : IsLinked (del_member_from_group 1 two_units)
del_member_from_group-IsLinked_example =
    del_member_from_group-IsLinked 1 two_units two_units-IsLinked named

del_member_from_account_by_name-IsLinked_example :
    IsLinked (del_member_from_account_by_name (some drone) true two_units)
del_member_from_account_by_name-IsLinked_example =
    del_member_from_account_by_name-IsLinked (some drone) true two_units two_units-IsLinked

-- the drone connects again, on a third socket
admit-replaces_example :
    IsLinked (admit drone 3 two_units)
    × Seated "drone1" (some "team") (some "1") 3 (admit drone 3 two_units)
    × (get "drone1" (admit drone 3 two_units).active_senders ≡ some 3)
    × ((a g old : ℕ) (k : String)
        → get "team" two_units.c_accounts ≡ some a
        → get k (two_units.accounts a).groups ≡ some g
        → get "drone1" (two_units.groups g).units ≡ some old
        → ((admit drone 3 two_units).sockets old).terminated ≡ true)
admit-replaces_example =
    admit-replaces drone "drone1" "team" 3 two_units two_units-IsLinked two_units-facts.10 refl refl

abbrev config : ConnectionConfig
config = record {
  local_server_enabled = false;
  local_server_account_id = none;
  allow_old_compat = true;
  auth_server = true;
}

abbrev hub : Hub Cell
hub = record {
  server = record { rooms = two_units; relayed = [] };
  waiting_accounts = ("key1", end) ∷ [];
  effects = [];
}

replaced-on_close_example :
    on_close config 1 (on_rooms (admit drone 3) hub) ≡ on_rooms (admit drone 3) hub
replaced-on_close_example =
    replaced-on_close config drone "drone1" "team" "1" 3 0 0 1 hub refl refl two_units-facts.7
      two_units-facts.8 two_units-facts.6

abbrev js : Coercions
js = record {
  key_text = λ j. "[object]";
  length_is_positive = λ fs. false;
  length_is_zero = λ fs. false;
  indexed = λ j. [];
}

abbrev ok_message : ℕ → List Cell
ok_message ws = hello

authentication-decided_example :
    let framed = on_auth_frame cell_text ok_message js (λ s. true) config 1 hello hub in
    let expired = on_auth_timeout cell_text 1 hub in
    (on_auth_timeout cell_text 1 framed ≡ framed)
    × (on_auth_frame cell_text ok_message js (λ s. true) config 1 hello framed ≡ framed)
    × (on_auth_timeout cell_text 1 expired ≡ expired)
    × (on_auth_frame cell_text ok_message js (λ s. true) config 1 hello expired ≡ expired)
authentication-decided_example =
    authentication-decided cell_text ok_message js (λ s. true) config 1 hello hello hub

abbrev params : Dict String
params = ("f", "key1") ∷ ("s", "drone2") ∷ []

key1_plain : is_inherited "key1" ≡ false
unfolding is_inherited
key1_plain = refl

accept_connection-once_example :
    let first = accept_connection ok_message "key1" params 3 hub in
    accept_connection ok_message "key1" params 4 first ≡ reject 4 first
accept_connection-once_example =
    accept_connection-once ok_message "key1" params params 3 4 hub key1_plain

abbrev bad_params : Dict String
bad_params = ("f", "key2") ∷ []

some_inj : {a b : String} → some a ≡ some b → a ≡ b
some_inj h = cc

key2_unknown : (k : String) → get "f" bad_params ≡ some k → read k hub.waiting_accounts ≡ undefined
unfolding get read is_inherited
key2_unknown k h = let e : "key2" ≡ k = some_inj h in rw (← e) refl

complete_connection-Refused_example :
    Refused 3 hub (complete_connection ok_message (λ s. true) config bad_params 3 hub).0
complete_connection-Refused_example =
    complete_connection-Refused ok_message (λ s. true) 3 config bad_params hub refl key2_unknown
