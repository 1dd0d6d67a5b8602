-- ===== src/Rooms/Linked/Leaving.antt =====
-- The invariant and logging out, kicking out, and the removal of dead sockets during a broadcast.
use droneengage_server.Base.{
  ℕ, Json, ◌≡◌, ◌≢◌, Bool, false, Option, none, some, List, [], ◌∷◌, String, get, key_of, keys,
  arith, if◌then◌else◌, inl, inr, Option-cases,
}
use droneengage_server.Rooms.{
  Rooms, LoginRequest, delete_member_by_name, drop_if_empty, delete_member_from_account, call,
  terminate, send, set_socket,
}
use droneengage_server.Rooms.Registry.{del_member_from_group, del_member_from_account_by_name}
use droneengage_server.Rooms.Sending.{
  handle_orphan_socket, broadcast_unit, broadcast_units, broadcast, is_recipient,
}
use droneengage_server.Rooms.Linked.Invariant.{IsLinked}
use droneengage_server.Rooms.Linked.Deleting.{
  delete_member_by_name-IsLinked, delete_member_from_account-IsLinked,
}

module _ {M : Type 0} where
  -- The socket that `fn_deleteMemberByName` finds is in no group afterwards.
  pub delete_member_by_name-group :
      (g : ℕ) (unit : Option String) (t : Bool) (r : Rooms M) (old : ℕ)
      → get (key_of unit) (r.groups g).units ≡ some old
      → ((delete_member_by_name g unit t r).sockets old).group ≡ none
  unfolding delete_member_by_name drop_if_empty
  delete_member_by_name-group g unit t r old found = ground arith

  unnamed-IsLinked :
      (ws : ℕ) (r : Rooms M)
      → IsLinked r
      → (r.sockets ws).group ≡ none
      → IsLinked (call (terminate ws) (set_socket ws (record (r.sockets ws) { name = none }) r))
  unnamed-IsLinked ws r l free = record {
    unit_group = λ g u ws' h. ground (arith, l.unit_group g u ws' h);
    unit_name = λ g u ws' h. ground (arith, l.unit_name g u ws' h, l.unit_group g u ws' h);
    group_unit = λ ws' g h. ground (arith, l.group_unit ws' g);
    listed_id = l.listed_id;
    listed_parent = l.listed_parent;
    listed_fresh = l.listed_fresh;
    unit_listed = l.unit_listed;
    account_id = l.account_id;
    account_fresh = l.account_fresh;
    group_account = l.group_account;
  }

  pub handle_orphan_socket-IsLinked :
      (ws : ℕ) (r : Rooms M) → IsLinked r → IsLinked (handle_orphan_socket ws r)
  unfolding handle_orphan_socket
  handle_orphan_socket-IsLinked ws r l = elim (Option-cases (r.sockets ws).group) [
    | inl e ↦ rw (e, handle_orphan_socket) l
    | inr (g, e) ↦
        let name = (r.sockets ws).name in
        rw (e, handle_orphan_socket)
          (unnamed-IsLinked ws (delete_member_by_name g name false r)
            (delete_member_by_name-IsLinked g name false r l)
            (delete_member_by_name-group g name false r ws (l.group_unit ws g e)))
  ]

  send-IsLinked :
      (ws : ℕ) (m : M) (b : Bool) (r : Rooms M) → IsLinked r → IsLinked (call (send ws m b) r)
  send-IsLinked ws m b r l = record {
    unit_group = l.unit_group;
    unit_name = l.unit_name;
    group_unit = l.group_unit;
    listed_id = l.listed_id;
    listed_parent = l.listed_parent;
    listed_fresh = l.listed_fresh;
    unit_listed = l.unit_listed;
    account_id = l.account_id;
    account_fresh = l.account_fresh;
    group_account = l.group_account;
  }

module _ {M : Type 0} (g : ℕ) (m : M) (b : Bool) (sender : Option Json)
    (actor : Option String) where
  pub broadcast_unit-IsLinked :
      (u : String) (r : Rooms M) → IsLinked r → IsLinked (broadcast_unit g m b sender actor u r)
  unfolding broadcast_unit
  broadcast_unit-IsLinked u r l =
      elim (get u (r.groups g).units)
        as (λ o. IsLinked (elim o [
          | none ↦ r
          | some ws ↦ elim (r.sockets ws).login_request [
            | none ↦ handle_orphan_socket ws r
            | some login ↦
                if is_recipient sender actor login
                then if (r.sockets ws).send_throws
                  then handle_orphan_socket ws r
                  else call (send ws m b) r
                else r
          ]
        ])) [
          | none ↦ l
          | some ws ↦ ground (arith, handle_orphan_socket-IsLinked ws r l, send-IsLinked ws m b r l)
        ]

  broadcast_units-IsLinked :
      (us : List String) (r : Rooms M)
      → IsLinked r
      → IsLinked (broadcast_units g m b sender actor us r)
  unfolding broadcast_units
  broadcast_units-IsLinked [] r l = l
  broadcast_units-IsLinked (u ∷ us) r l =
      broadcast_units-IsLinked us (broadcast_unit g m b sender actor u r)
        (broadcast_unit-IsLinked u r l)

  -- A broadcast keeps the tables and the sockets linked, whatever sockets turn out to be dead on the way.
  pub broadcast-IsLinked : (r : Rooms M) → IsLinked r → IsLinked (broadcast g m b sender actor r)
  unfolding broadcast
  broadcast-IsLinked r l = broadcast_units-IsLinked (keys (r.groups g).units) r l

module _ {M : Type 0} where
  -- Logging out by `fn_del_member_fromGroup` keeps the tables and the sockets linked, for a socket that
  -- has a name.
  pub del_member_from_group-IsLinked :
      (ws : ℕ) (r : Rooms M)
      → IsLinked r
      → (r.sockets ws).name ≢ none
      → IsLinked (del_member_from_group ws r)
  unfolding del_member_from_group
  del_member_from_group-IsLinked ws r l named = elim (Option-cases (r.sockets ws).group) [
    | inl e ↦ rw (e, del_member_from_group) l
    | inr (g, e) ↦ elim (Option-cases (r.sockets ws).name) [
      | inl n ↦ absurd (named n)
      | inr (name, n) ↦
          rw (e, n, del_member_from_group) (delete_member_by_name-IsLinked g (some name) false r l)
    ]
  ]

  -- `fn_del_member_fromAccountByName` keeps the tables and the sockets linked, whatever the login names
  -- and whether the sockets are terminated.
  pub del_member_from_account_by_name-IsLinked :
      (login : Option LoginRequest) (t : Bool) (r : Rooms M)
      → IsLinked r
      → IsLinked (del_member_from_account_by_name login t r)
  unfolding del_member_from_account_by_name
  del_member_from_account_by_name-IsLinked none t r l = l
  del_member_from_account_by_name-IsLinked (some login) t r l =
      ground (arith, delete_found login.sender_id (get (key_of login.account_id) r.c_accounts))
    where
      delete_found :
          (sender : Option String) (o : Option ℕ)
          → get (key_of login.account_id) r.c_accounts ≡ o
          → IsLinked (elim o [ none ↦ r | some a ↦ delete_member_from_account a sender t r ])
      delete_found sender none e = l
      delete_found sender (some a) e =
          delete_member_from_account-IsLinked a sender t r l
            (rw (l.account_id (key_of login.account_id) a e) e)
