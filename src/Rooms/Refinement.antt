-- ===== src/Rooms/Refinement.antt =====
-- About joining and leaving in js_andruav_chat_account_rooms.js, seen as taking and leaving places.
use droneengage_server.Base.{
  ℕ, ◌≡◌, ap, ◌∙◌, fun_ext, some, String, get, key_of, arith, eq_iff, get-put,
}
use droneengage_server.Rooms.{Rooms, LoginRequest, delete_member_by_name}
use droneengage_server.Rooms.Registry.{
  find_account, find_group, add_member_to_account_group, del_member_from_group,
}
use droneengage_server.Rooms.Linked.{
  IsLinked, find_account-Registered, find_account-IsLinked, find_group-IsLinked, unlink,
  unlink-IsLinked, unlink-Listed,
}
use droneengage_server.Rooms.Seats.{sit, rise, seats_of}
use droneengage_server.Rooms.Places.{
  find_account-seats, find_group-seats, add_member-seats, add_member-seated, unlink-seats,
  drop_if_empty-seats,
}

module _ {M : Type 0} (login : LoginRequest) (r : Rooms M) where
  abbrev with_account : ℕ × Rooms M
  with_account = find_account login.account_id r

  abbrev with_group : ℕ × Rooms M
  with_group = find_group with_account.0 login.group_id with_account.1

  account_registered : get (key_of login.account_id) with_group.1.c_accounts ≡ some with_account.0
  unfolding find_account find_group
  account_registered = ground (
    arith,
    get-put (key_of login.account_id) (key_of login.account_id) r.next_account r.c_accounts,
    eq_iff (key_of login.account_id) (key_of login.account_id),
  )

  group_listed :
      get (key_of login.group_id) (with_group.1.accounts with_account.0).groups ≡ some with_group.0
  unfolding find_group
  group_listed = ground (
    arith,
    get-put (key_of login.group_id) (key_of login.group_id) with_account.1.next_group
        (with_account.1.accounts with_account.0).groups,
    eq_iff (key_of login.group_id) (key_of login.group_id),
  )

  with_group-seats : IsLinked r → seats_of with_group.1 ≡ seats_of r
  with_group-seats l = fun_ext (λ b. fun_ext (λ h. fun_ext (λ v.
      find_group-seats with_account.1 (find_account-IsLinked r l login.account_id) with_account.0
        login.group_id b h v
      ∙ find_account-seats r l login.account_id b h v)))

  with_group-IsLinked : IsLinked r → IsLinked with_group.1
  with_group-IsLinked l =
      find_group-IsLinked with_account.1 (find_account-IsLinked r l login.account_id) with_account.0
        (find_account-Registered r l login.account_id) login.group_id

module _ {M : Type 0} where
  -- Joining is taking a place: in linked tables, a socket that logged in joins the place of its login if
  -- that is free, and every other place is as it was; if the place is taken it is refused, and no place
  -- changes.
  pub join-refines :
      (ws : ℕ) (login : LoginRequest) (r : Rooms M)
      → IsLinked r
      → (r.sockets ws).login_request ≡ some login
      → let joined = add_member_to_account_group ws r in
        let specified =
          sit
            (key_of login.account_id)
            (key_of login.group_id)
            (key_of login.sender_id)
            ws
            (seats_of r) in
        (seats_of joined.0 ≡ specified.0) × (joined.1 ≡ specified.1)
  unfolding add_member_to_account_group
  join-refines ws login r l e =
      let a = key_of login.account_id in
      let g = key_of login.group_id in
      let t = (with_group login r).1 in
      let x = (with_account login r).0 in
      let z = (with_group login r).0 in
      let linked = with_group-IsLinked login r l in
      let registered = account_registered login r in
      let listed = group_listed login r in
      let same = with_group-seats login r l in
      rw (e, add_member_to_account_group)
        (
          fun_ext (λ b. fun_ext (λ h. fun_ext (λ v.
                add_member-seats t linked a g login.sender_id x z ws registered listed b h v)))
              ∙ ap (λ s. (sit a g (key_of login.sender_id) ws s).0) same,
          add_member-seated t linked a g login.sender_id x z ws registered listed
              ∙ ap (λ s. (sit a g (key_of login.sender_id) ws s).1) same,
        )

  -- Leaving is giving up a place: in linked tables, the logout of a socket with a name in a group, which
  -- the tables list in an account, frees the place of account, group and name; every other place is as it
  -- was.
  pub leave-refines :
      (ws x z : ℕ) (account group name : String) (r : Rooms M)
      → IsLinked r
      → get account r.c_accounts ≡ some x
      → get group (r.accounts x).groups ≡ some z
      → (r.sockets ws).group ≡ some z
      → (r.sockets ws).name ≡ some name
      → seats_of (del_member_from_group ws r) ≡ rise account group name (seats_of r)
  unfolding del_member_from_group delete_member_by_name
  leave-refines ws x z account group name r l ea eg ez en =
      fun_ext (λ b. fun_ext (λ h. fun_ext (λ v. left b h v)))
    where
      seated : get name (r.groups z).units ≡ some ws
      seated = rw (ap key_of en) at (l.group_unit ws z ez)

      left :
          (b h v : String)
          → seats_of (del_member_from_group ws r) b h v ≡ rise account group name (seats_of r) b h v
      left b h v =
          rw (ez, en, seated, del_member_from_group, delete_member_by_name)
            (drop_if_empty-seats (unlink z name ws r) (unlink-IsLinked r l z name ws seated) z
                (unlink-Listed r l z name ws seated) b h v
              ∙ unlink-seats r l x z ws account group name b h v ea eg)
