-- ===== src/Rooms/Seating.antt =====
-- About `fn_add_member_to_AccountGroup` where the account has no unit of the name yet.
use droneengage_server.Base.{
  ℕ, ◌≡◌, inl, inr, Option, some, String, get, has, key_of, arith, eq_iff, get-put, get-nil,
  Option-cases,
}
use droneengage_server.Rooms.{Rooms, LoginRequest, add_member}
use droneengage_server.Rooms.Registry.{find_account, find_group, add_member_to_account_group}
use droneengage_server.Rooms.Eviction.{Absent, Clear}

-- The socket is a unit of the group that the ids name, and the only one of its name in the account.
pub record Seated {M : Type 0} (u : String) (id name : Option String) (ws : ℕ) (r : Rooms M)
    : Type 0 where
  pub account : ℕ
  pub group : ℕ
  pub registered : get (key_of id) r.c_accounts ≡ some account
  pub listed : get (key_of name) (r.accounts account).groups ≡ some group
  pub unit : get u (r.groups group).units ≡ some ws
  pub socket_group : (r.sockets ws).group ≡ some group
  pub socket_name : (r.sockets ws).name ≡ some u
  pub only :
      (k : String) (g w : ℕ)
      → get k (r.accounts account).groups ≡ some g
      → get u (r.groups g).units ≡ some w
      → w ≡ ws

module _ {M : Type 0} (u : String) (id name : Option String) (r : Rooms M) where
  find_account-registered :
      get (key_of id) (find_account id r).1.c_accounts ≡ some (find_account id r).0
  unfolding find_account
  find_account-registered = ground (
    arith,
    get-put (key_of id) (key_of id) r.next_account r.c_accounts,
    eq_iff (key_of id) (key_of id),
  )

  find_account-Absent : Clear u id r → Absent u (find_account id r).0 (find_account id r).1
  unfolding find_account
  find_account-Absent clear k g h = elim (Option-cases (get (key_of id) r.c_accounts)) [
    | inl e ↦ ground (arith, get-nil {V = ℕ} k)
    | inr (a, e) ↦ ground (arith, clear a e k g)
  ]

  module _ (a : ℕ) (absent : Absent u a r) where
    find_group-listed :
        get (key_of name) ((find_group a name r).1.accounts a).groups ≡ some (find_group a name r).0
    unfolding find_group
    find_group-listed = ground (
      arith,
      get-put (key_of name) (key_of name) r.next_group (r.accounts a).groups,
      eq_iff (key_of name) (key_of name),
    )

    find_group-Absent : Absent u a (find_group a name r).1
    unfolding find_group
    find_group-Absent k g h = ground (
      arith,
      get-nil {V = ℕ} u,
      get-put (key_of name) k r.next_group (r.accounts a).groups,
      absent k g,
    )

    find_group-accounts : (find_group a name r).1.c_accounts ≡ r.c_accounts
    unfolding find_group
    find_group-accounts = ground arith

module _ {M : Type 0} (u : String) (id name : Option String) (ws a g : ℕ) (r : Rooms M) where
  add_member-Seated :
      get (key_of id) r.c_accounts ≡ some a
      → get (key_of name) (r.accounts a).groups ≡ some g
      → Absent u a r
      → Seated u id name ws (add_member g (some u) ws r).0
  unfolding add_member has
  add_member-Seated registered listed absent =
      let empty = absent (key_of name) g listed in
      rw (empty, add_member, has)
        (record {
          account = a;
          group = g;
          registered = registered;
          listed = listed;
          unit = ground (arith, get-put u u ws (r.groups g).units, eq_iff u u);
          socket_group = ground arith;
          socket_name = ground arith;
          only = λ k g' w h e.
              ground (arith, get-put u u ws (r.groups g).units, eq_iff u u, absent k g');
        })

-- A socket whose account has no unit of its name is seated.
pub add_member_to_account_group-Seated :
    {M : Type 0} (u : String) (login : LoginRequest) (ws : ℕ) (r : Rooms M)
    → (r.sockets ws).login_request ≡ some login
    → login.sender_id ≡ some u
    → Clear u login.account_id r
    → Seated u login.account_id login.group_id ws (add_member_to_account_group ws r).0
unfolding add_member_to_account_group
add_member_to_account_group-Seated u login ws r h hu clear =
    let a = (find_account login.account_id r).0 in
    let r₁ = (find_account login.account_id r).1 in
    let absent = find_account-Absent u login.account_id login.group_id r clear in
    let r₂ = (find_group a login.group_id r₁).1 in
    rw (h, hu, add_member_to_account_group)
      (add_member-Seated u login.account_id login.group_id ws a (find_group a login.group_id r₁).0
        r₂
        (rw (find_group-accounts u login.account_id login.group_id r₁ a absent)
          (find_account-registered u login.account_id login.group_id r))
        (find_group-listed u login.account_id login.group_id r₁ a absent)
        (find_group-Absent u login.account_id login.group_id r₁ a absent))
