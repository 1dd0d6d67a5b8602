-- ===== src/Examples/Places.antt =====
-- The theorems on places at the two units.
use droneengage_server.Base.{◌≡◌}
use droneengage_server.Rooms.Registry.{add_member_to_account_group, del_member_from_group}
use droneengage_server.Rooms.Seats.{sit, rise, seats_of}
use droneengage_server.Rooms.Refinement.{join-refines, leave-refines}
use droneengage_server.Examples.{drone, two_units, two_units-IsLinked, two_units-facts}

-- the drone's socket joins once more: its place is taken
join-refines_example :
    (seats_of (add_member_to_account_group 1 two_units).0
      ≡ (sit "team" "1" "drone1" 1 (seats_of two_units)).0)
    × ((add_member_to_account_group 1 two_units).1
        ≡ (sit "team" "1" "drone1" 1 (seats_of two_units)).1)
join-refines_example = join-refines 1 drone two_units two_units-IsLinked two_units-facts.2

leave-refines_example :
    seats_of (del_member_from_group 1 two_units) ≡ rise "team" "1" "drone1" (seats_of two_units)
leave-refines_example =
    leave-refines 1 0 0 "team" "1" "drone1" two_units two_units-IsLinked two_units-facts.7
      two_units-facts.8 two_units-facts.0 two_units-facts.11
