-- ===== src/Rooms/Registry.antt =====
-- The functions of js_andruav_chat_account_rooms.js that find, make and drop accounts and groups.
use droneengage_server.Base.{ℕ, suc, Bool, false, Option, none, some, String, [], get, put, key_of}
use droneengage_server.Rooms.{
  Rooms, LoginRequest, set_socket, update, add_member, delete_member_by_name,
  delete_member_from_account,
}

module _ {M : Type 0} where
  -- `new Account(id)` where `c_accounts` has none of that id
  unfoldable pub find_account : Option String → Rooms M → ℕ × Rooms M
  find_account id r = elim (get (key_of id) r.c_accounts) [
    | some a ↦ (a, r)
    | none ↦ (
      r.next_account,
      record r {
        accounts = update r.accounts r.next_account (record { account_id = id; groups = [] });
        next_account = suc r.next_account;
        c_accounts = put (key_of id) r.next_account r.c_accounts;
      },
    )
  ]

  -- `new Group(this, name)` where the account has none of that name
  unfoldable pub find_group : ℕ → Option String → Rooms M → ℕ × Rooms M
  find_group a name r = elim (get (key_of name) (r.accounts a).groups) [
    | some g ↦ (g, r)
    | none ↦
        let acc = r.accounts a in
        (
          r.next_group,
          record r {
            groups =
                update r.groups r.next_group (record { id = name; parent_account = a; units = [] });
            next_group = suc r.next_group;
            accounts =
                update r.accounts a
                  (record acc { groups = put (key_of name) r.next_group acc.groups });
          },
        )
  ]

  unfoldable pub add_with_login : Option LoginRequest → ℕ → Rooms M → Rooms M × Bool
  add_with_login none ws r = (r, false)
  add_with_login (some login) ws r =
      let (a, r₁) = find_account login.account_id r in
      let (g, r₂) = find_group a login.group_id r₁ in add_member g login.sender_id ws r₂

  -- `fn_add_member_to_AccountGroup`, called on a socket with a login request
  unfoldable pub add_member_to_account_group : ℕ → Rooms M → Rooms M × Bool
  unfolding add_with_login
  add_member_to_account_group ws r = add_with_login (r.sockets ws).login_request ws r

  -- `fn_del_member_fromGroup`
  unfoldable pub del_member_from_group : ℕ → Rooms M → Rooms M
  del_member_from_group ws r = elim (r.sockets ws).group [
    | none ↦ r
    | some g ↦ elim (r.sockets ws).name [
      | none ↦ set_socket ws (record (r.sockets ws) { group = none }) r
      | some name ↦ delete_member_by_name g (some name) false r
    ]
  ]

  -- `fn_del_member_fromAccountByName`; the ids of accounts come from the Auth server
  unfoldable pub del_member_from_account_by_name : Option LoginRequest → Bool → Rooms M → Rooms M
  del_member_from_account_by_name none terminate_socket r = r
  del_member_from_account_by_name (some login) terminate_socket r = elim login.account_id [
    | none ↦ r
    | some id ↦ elim login.sender_id [
      | none ↦ r
      | some sender ↦ elim (get id r.c_accounts) [
        | none ↦ r
        | some a ↦ delete_member_from_account a (some sender) terminate_socket r
      ]
    ]
  ]
