-- ===== src/Examples.antt =====
-- Concrete runs: two units of one group who were admitted one after the other, and the theorems at them in the children.
mod Members
mod Messages
mod Services
mod Children
mod Proxies
mod Commands
mod Systems
mod Places
mod Statements
use droneengage_server.Base.{
  ℕ, suc, ◌≡◌, ◌≢◌, refl, inl, inr, Bool, true, false, Option, none, some, List, [], ◌∷◌, String,
  get, put, erase, has, is_empty, keys, values, key_of, read, arith, Json, Fields, null, obj, str,
  num, end, field, prop, Cell, cell_text, cell_text-IsJsonText, Coercions, if◌then◌else◌, opt_eq,
  str_eq, same_id,
}
use droneengage_server.Rooms.{
  Rooms, Socket, Group, Account, LoginRequest, Status, Call, send, add_active_sender, add_member,
  drop_if_empty, delete_member_by_name, delete_from_groups, delete_member_from_account,
}
use droneengage_server.Rooms.Registry.{
  find_account, find_group, add_with_login, add_member_to_account_group,
  del_member_from_account_by_name,
}
use droneengage_server.Rooms.Linked.{IsLinked}
use droneengage_server.Connection.{admit}
use droneengage_server.Connection.Admission.{admit-IsLinked}

abbrev pub blank_socket : Socket
blank_socket = record {
  login_request = none;
  status = none;
  name = none;
  group = none;
  terminated = false;
  auth_pending = false;
  ready_state = 1;
  send_throws = false;
}

abbrev pub empty_rooms : Rooms (List Cell)
empty_rooms = record {
  sockets = λ ws. blank_socket;
  groups = λ g. record { id = none; parent_account = 0; units = [] };
  accounts = λ a. record { account_id = none; groups = [] };
  next_group = 0;
  next_account = 0;
  c_accounts = [];
  active_senders = [];
  calls = [];
}

abbrev pub login_of : String → String → LoginRequest
login_of sender actor = record {
  sender_id = some sender;
  account_id = some "team";
  group_id = some "1";
  request_id = some "r";
  actor_type = some actor;
  prm = some (num 7);
}

abbrev pub drone : LoginRequest
drone = login_of "drone1" "d"

abbrev pub gcs : LoginRequest
gcs = login_of "gcs1" "g"

pub empty_rooms-IsLinked : IsLinked empty_rooms
unfolding get
empty_rooms-IsLinked = record {
  unit_group = λ g u ws h. ground (arith, h);
  unit_name = λ g u ws h. ground (arith, h);
  group_unit = λ ws g h. ground (arith, h);
  listed_id = λ a k g h. ground (arith, h);
  listed_parent = λ a k g h. ground (arith, h);
  listed_fresh = λ a k g h. ground (arith, h);
  unit_listed = λ g u ws h. ground (arith, h);
  account_id = λ k a h. ground (arith, h);
  account_fresh = λ k a h. ground (arith, h);
  group_account = λ a k g h. ground (arith, h);
}

abbrev pub one_unit : Rooms (List Cell)
one_unit = admit drone 1 empty_rooms

abbrev pub two_units : Rooms (List Cell)
two_units = admit gcs 2 one_unit

pub one_unit-IsLinked : IsLinked one_unit
one_unit-IsLinked = admit-IsLinked drone 1 empty_rooms empty_rooms-IsLinked refl

two_units-free : (one_unit.sockets 2).group ≡ none
unfolding admit add_active_sender del_member_from_account_by_name delete_member_from_account
    delete_from_groups delete_member_by_name drop_if_empty add_member_to_account_group
    add_with_login find_account find_group add_member get put has
two_units-free = refl

pub two_units-IsLinked : IsLinked two_units
two_units-IsLinked = admit-IsLinked gcs 2 one_unit one_unit-IsLinked two_units-free

-- What the tables and the sockets hold in the end.
pub two_units-facts :
    ((two_units.sockets 1).group ≡ some 0)
    × ((two_units.sockets 2).group ≡ some 0)
    × ((two_units.sockets 1).login_request ≡ some drone)
    × ((two_units.sockets 2).login_request ≡ some gcs)
    × ((two_units.sockets 1).status ≡ some (record { m_ttx = 0; m_btx = 0 }))
    × (get "gcs1" (two_units.groups 0).units ≡ some 2)
    × (get "drone1" (two_units.groups 0).units ≡ some 1)
    × (get "team" two_units.c_accounts ≡ some 0)
    × (get "1" (two_units.accounts 0).groups ≡ some 0)
    × ((two_units.sockets 2).send_throws ≡ false)
    × ((two_units.sockets 3).group ≡ none)
    × ((two_units.sockets 1).name ≡ some "drone1")
unfolding admit add_active_sender del_member_from_account_by_name delete_member_from_account
    delete_from_groups delete_member_by_name drop_if_empty add_member_to_account_group
    add_with_login find_account find_group add_member get put has values is_empty erase
two_units-facts = (refl, refl, refl, refl, refl, refl, refl, refl, refl, refl, refl, refl)
