-- ===== src/Connection/Admission.antt =====
-- About `_acceptConnection` and `fn_onWsClose`: the rooms that an admission leaves behind.
use droneengage_server.Base.{
  ℕ, ◌≡◌, refl, ◌∙◌, true, none, some, List, String, get, arith, eq_iff, get-put,
}
use droneengage_server.Rooms.{Rooms, LoginRequest, set_socket, add_active_sender, add_member}
use droneengage_server.Rooms.Registry.{
  add_member_to_account_group, del_member_from_account_by_name, add_with_login, find_account,
  find_group,
}
use droneengage_server.Rooms.Linked.{
  IsLinked, add_member_to_account_group-IsLinked, del_member_from_account_by_name-IsLinked,
}
use droneengage_server.Rooms.Eviction.{
  del_member_from_account_by_name-Detaches, del_member_from_account_by_name-Clear,
}
use droneengage_server.Rooms.Kicking.{del_member_from_account_by_name-terminated}
use droneengage_server.Rooms.Seating.{Seated, add_member_to_account_group-Seated}
use droneengage_server.Connection.{admit, Hub, ConnectionConfig, rooms_of, on_rooms}
use droneengage_server.Connection.Handlers.{on_close}

module _ {M : Type 0} (login : LoginRequest) (ws : ℕ) (r : Rooms M) where
  -- the rooms before the deletion, the socket announced as an active sender
  abbrev pub announced : Rooms M
  announced = add_active_sender login.sender_id ws (
      set_socket ws
        (record (r.sockets ws) {
          login_request = some login;
          status = some (record { m_ttx = 0; m_btx = 0 });
        })
        r)

  pub announced-IsLinked : IsLinked r → IsLinked announced
  unfolding add_active_sender
  announced-IsLinked l = record {
    unit_group = λ g u ws' h. ground (arith, l.unit_group g u ws' h);
    unit_name = λ g u ws' h. ground (arith, l.unit_name g u ws' h);
    group_unit = λ ws' g h. ground (arith, l.group_unit ws' g);
    listed_id = l.listed_id;
    listed_parent = l.listed_parent;
    listed_fresh = l.listed_fresh;
    unit_listed = l.unit_listed;
    account_id = l.account_id;
    account_fresh = l.account_fresh;
    group_account = l.group_account;
  }

  announced-group : (ws' : ℕ) → (announced.sockets ws').group ≡ (r.sockets ws').group
  unfolding add_active_sender
  announced-group ws' = ground arith

  announced-login : (announced.sockets ws).login_request ≡ some login
  unfolding add_active_sender
  announced-login = ground arith

  -- the rooms after the deletion
  abbrev pub cleared : Rooms M
  cleared = del_member_from_account_by_name (some login) true announced

  cleared-free : (r.sockets ws).group ≡ none → (cleared.sockets ws).group ≡ none
  cleared-free free =
      (del_member_from_account_by_name-Detaches (some login) true announced).no_group ws
        (announced-group ws ∙ free)

module _ {M : Type 0} where
  add_member_to_account_group-senders :
      (ws : ℕ) (r : Rooms M)
      → (add_member_to_account_group ws r).0.active_senders ≡ r.active_senders
  unfolding add_member_to_account_group add_with_login find_account find_group add_member
  add_member_to_account_group-senders ws r = ground arith

  add_member_to_account_group-stays :
      (ws old : ℕ) (r : Rooms M)
      → ((add_member_to_account_group ws r).0.sockets old).terminated ≡ (r.sockets old).terminated
  unfolding add_member_to_account_group add_with_login find_account find_group add_member
  add_member_to_account_group-stays ws old r = ground arith

module _ {B : Type 0} (login : LoginRequest) (ws : ℕ) (r : Rooms (List B)) where
  -- A socket that is in no group is admitted: the tables and the sockets stay linked.
  pub admit-IsLinked : IsLinked r → (r.sockets ws).group ≡ none → IsLinked (admit login ws r)
  unfolding admit
  admit-IsLinked l free =
      add_member_to_account_group-IsLinked ws (cleared login ws r)
        (del_member_from_account_by_name-IsLinked (some login) true (announced login ws r)
          (announced-IsLinked login ws r l))
        (cleared-free login ws r free)

  module _ (u id : String) (hu : login.sender_id ≡ some u) (hid : login.account_id ≡ some id) where
    admit-Seated : Seated u login.account_id login.group_id ws (admit login ws r)
    unfolding admit
    admit-Seated =
        let d = del_member_from_account_by_name-Detaches (some login) true (announced login ws r) in
        add_member_to_account_group-Seated u login ws (cleared login ws r)
          (d.same_login ws ∙ announced-login login ws r) hu
          (del_member_from_account_by_name-Clear login u id true (announced login ws r) hu hid)

    admit-active : get u (admit login ws r).active_senders ≡ some ws
    unfolding admit add_active_sender
    admit-active =
        let d = del_member_from_account_by_name-Detaches (some login) true (announced login ws r) in
        rw (add_member_to_account_group-senders ws (cleared login ws r), d.same_senders, hu)
          (ground (arith, get-put u u ws r.active_senders, eq_iff u u))

    admit-terminated :
        (a g old : ℕ) (k : String)
        → get id r.c_accounts ≡ some a
        → get k (r.accounts a).groups ≡ some g
        → get u (r.groups g).units ≡ some old
        → ((admit login ws r).sockets old).terminated ≡ true
    unfolding admit add_active_sender
    admit-terminated a g old k ha hg hw =
        add_member_to_account_group-stays ws old (cleared login ws r)
        ∙ del_member_from_account_by_name-terminated u login id k (announced login ws r) a g old hu
            hid ha hg hw

-- A login with a sender and an account is admitted on a socket that is in no group: the tables stay
-- linked, the socket is the one unit of the sender's name in the account and its active sender, and every
-- unit of that name that the account had is marked as terminated.
pub admit-replaces :
    {B : Type 0} (login : LoginRequest) (u id : String) (ws : ℕ) (r : Rooms (List B))
    → IsLinked r
    → (r.sockets ws).group ≡ none
    → login.sender_id ≡ some u
    → login.account_id ≡ some id
    → IsLinked (admit login ws r)
      × Seated u login.account_id login.group_id ws (admit login ws r)
      × (get u (admit login ws r).active_senders ≡ some ws)
      × ((a g old : ℕ) (k : String)
          → get id r.c_accounts ≡ some a
          → get k (r.accounts a).groups ≡ some g
          → get u (r.groups g).units ≡ some old
          → ((admit login ws r).sockets old).terminated ≡ true)
admit-replaces login u id ws r l free hu hid = (
  admit-IsLinked login ws r l free,
  admit-Seated login ws r u id hu hid,
  admit-active login ws r u id hu hid,
  admit-terminated login ws r u id hu hid,
)

-- The close of a socket that a newer login of its name replaced changes nothing: neither the rooms nor
-- the replacement, and no logout is announced.
pub replaced-on_close :
    {B : Type 0} (config : ConnectionConfig) (login : LoginRequest) (u id k : String)
    (ws a g old : ℕ) (h : Hub B)
    → login.sender_id ≡ some u
    → login.account_id ≡ some id
    → get id (rooms_of h).c_accounts ≡ some a
    → get k ((rooms_of h).accounts a).groups ≡ some g
    → get u ((rooms_of h).groups g).units ≡ some old
    → on_close config old (on_rooms (admit login ws) h) ≡ on_rooms (admit login ws) h
unfolding on_close
replaced-on_close config login u id k ws a g old h hu hid ha hg hw =
    rw (admit-terminated login ws (rooms_of h) u id hu hid a g old k ha hg hw, on_close) refl
