-- ===== src/Rooms/Linked/Joining.antt =====
-- The invariant and `fn_add_member_to_AccountGroup` with what it calls.
use droneengage_server.Base.{
  ℕ, suc, ◌<◌, ◌≡◌, ◌∙◌, Option, none, some, [], String, get, put, has, key_of, arith, eq_iff,
  get-put, get-nil, inl, inr, Option-cases,
}
use droneengage_server.Rooms.{Rooms, add_member, update}
use droneengage_server.Rooms.Registry.{
  find_account, find_group, add_with_login, add_member_to_account_group,
}
use droneengage_server.Rooms.Linked.Invariant.{IsLinked}
use droneengage_server.Rooms.Linked.Unlinking.{Listed}

-- The account is registered under its id.
abbrev pub Registered : {M : Type 0} → ℕ → Rooms M → Type 0
Registered a r = get (key_of (r.accounts a).account_id) r.c_accounts ≡ some a

module _ {M : Type 0} (r : Rooms M) (l : IsLinked r) where
  unit_account_fresh :
      (g : ℕ) (u : String) (ws : ℕ)
      → get u (r.groups g).units ≡ some ws
      → (r.groups g).parent_account < r.next_account
  unit_account_fresh g u ws h =
      let p = (r.groups g).parent_account in
      l.account_fresh (key_of (r.accounts p).account_id) p
        (l.group_account p (key_of (r.groups g).id) g (l.unit_listed g u ws h))

  pub find_account-Registered :
      (id : Option String) → Registered (find_account id r).0 (find_account id r).1
  unfolding find_account
  find_account-Registered id = ground (
    arith,
    l.account_id (key_of id) (find_account id r).0,
    get-put (key_of id) (key_of id) r.next_account r.c_accounts,
    eq_iff (key_of id) (key_of id),
  )

  new_account-IsLinked :
      (id : Option String)
      → get (key_of id) r.c_accounts ≡ none
      → IsLinked (record r {
        accounts = update r.accounts r.next_account (record { account_id = id; groups = [] });
        next_account = suc r.next_account;
        c_accounts = put (key_of id) r.next_account r.c_accounts;
      })
  new_account-IsLinked id missing = record {
    unit_group = l.unit_group;
    unit_name = l.unit_name;
    group_unit = l.group_unit;
    listed_id = λ a k g h. ground (arith, l.listed_id a k g, get-nil {V = ℕ} k);
    listed_parent = λ a k g h. ground (arith, l.listed_parent a k g, get-nil {V = ℕ} k);
    listed_fresh = λ a k g h. ground (arith, l.listed_fresh a k g, get-nil {V = ℕ} k);
    unit_listed = λ g u ws h. ground (arith, l.unit_listed g u ws h, unit_account_fresh g u ws h);
    account_id = λ k a h. ground (
      arith,
      get-put (key_of id) k r.next_account r.c_accounts,
      eq_iff (key_of id) k,
      l.account_id k a,
      l.account_fresh k a,
    );
    account_fresh = λ k a h.
        ground (arith, get-put (key_of id) k r.next_account r.c_accounts, l.account_fresh k a);
    group_account = λ a k g h. ground (
      arith,
      get-nil {V = ℕ} k,
      get-put (key_of id) (key_of (r.accounts a).account_id) r.next_account r.c_accounts,
      eq_iff (key_of id) (key_of (r.accounts a).account_id),
      l.group_account a k g,
    );
  }

  pub find_account-IsLinked : (id : Option String) → IsLinked (find_account id r).1
  unfolding find_account
  find_account-IsLinked id = elim (Option-cases (get (key_of id) r.c_accounts)) [
    | inl e ↦ rw (e, find_account) (new_account-IsLinked id e)
    | inr (a, e) ↦ rw (e, find_account) l
  ]

  -- No socket points to a group that was never made.
  group_fresh : (ws g : ℕ) → (r.sockets ws).group ≡ some g → g < r.next_group
  group_fresh ws g h =
      let u = key_of (r.sockets ws).name in
      l.listed_fresh (r.groups g).parent_account (key_of (r.groups g).id) g
        (l.unit_listed g u ws (l.group_unit ws g h))

  unit_fresh : (g : ℕ) (u : String) (ws : ℕ) → get u (r.groups g).units ≡ some ws → g < r.next_group
  unit_fresh g u ws h =
      l.listed_fresh (r.groups g).parent_account (key_of (r.groups g).id) g (l.unit_listed g u ws h)

-- A new group of an account, listed under its name.
abbrev new_group : {M : Type 0} → ℕ → Option String → Rooms M → Rooms M
new_group a name r =
    let acc = r.accounts a in
    record r {
      groups = update r.groups r.next_group (record { id = name; parent_account = a; units = [] });
      next_group = suc r.next_group;
      accounts =
          update r.accounts a (record acc { groups = put (key_of name) r.next_group acc.groups });
    }

module _ {M : Type 0} (r : Rooms M) (l : IsLinked r) (a : ℕ) (registered : Registered a r)
    (name : Option String) (missing : get (key_of name) (r.accounts a).groups ≡ none) where
  new_group-IsLinked : IsLinked (new_group a name r)
  new_group-IsLinked = record {
    unit_group = λ g u ws h. ground (arith, l.unit_group g u ws, get-nil {V = ℕ} u);
    unit_name = λ g u ws h. ground (arith, l.unit_name g u ws, get-nil {V = ℕ} u);
    group_unit = λ ws g h. ground (arith, l.group_unit ws g, group_fresh r l ws g);
    listed_id = λ b k g h. ground (
      arith,
      get-put (key_of name) k r.next_group (r.accounts a).groups,
      eq_iff (key_of name) k,
      l.listed_id b k g,
      l.listed_fresh b k g,
    );
    listed_parent = λ b k g h. ground (
      arith,
      get-put (key_of name) k r.next_group (r.accounts a).groups,
      l.listed_parent b k g,
      l.listed_fresh b k g,
    );
    listed_fresh = λ b k g h.
        ground
          (arith, get-put (key_of name) k r.next_group (r.accounts a).groups, l.listed_fresh b k g);
    unit_listed = λ g u ws h. ground (
      arith,
      get-nil {V = ℕ} u,
      get-put (key_of name) (key_of (r.groups g).id) r.next_group (r.accounts a).groups,
      eq_iff (key_of name) (key_of (r.groups g).id),
      l.unit_listed g u ws,
    );
    account_id = λ k b h. ground (arith, l.account_id k b);
    account_fresh = l.account_fresh;
    group_account = λ b k g h. ground (arith, l.group_account b k g);
  }

module _ {M : Type 0} (r : Rooms M) (l : IsLinked r) (a : ℕ) (registered : Registered a r) where
  pub find_group-IsLinked : (name : Option String) → IsLinked (find_group a name r).1
  unfolding find_group
  find_group-IsLinked name = elim (Option-cases (get (key_of name) (r.accounts a).groups)) [
    | inl e ↦ rw (e, find_group) (new_group-IsLinked r l a registered name e)
    | inr (g, e) ↦ rw (e, find_group) l
  ]

  find_group-Listed :
      (name : Option String) → Listed (find_group a name r).0 (find_group a name r).1
  unfolding find_group
  find_group-Listed name = ground (
    arith,
    l.listed_id a (key_of name) (find_group a name r).0,
    l.listed_parent a (key_of name) (find_group a name r).0,
    get-put (key_of name) (key_of name) r.next_group (r.accounts a).groups,
    eq_iff (key_of name) (key_of name),
  )

module _ {M : Type 0} (r : Rooms M) (l : IsLinked r) (ws : ℕ)
    (free : (r.sockets ws).group ≡ none) where
  add_member-IsLinked :
      (g : ℕ) (unit : Option String) → Listed g r → IsLinked (add_member g unit ws r).0
  unfolding add_member has
  add_member-IsLinked g unit listed = record {
    unit_group = λ g' u ws' h.
        ground (arith, get-put (key_of unit) u ws (r.groups g).units, l.unit_group g' u ws');
    unit_name = λ g' u ws' h. ground (
      arith,
      get-put (key_of unit) u ws (r.groups g).units,
      eq_iff (key_of unit) u,
      l.unit_name g' u ws',
      l.unit_group g' u ws',
    );
    group_unit = λ ws' g' h. ground (
      arith,
      get-put (key_of unit) (key_of (r.sockets ws').name) ws (r.groups g).units,
      get-put (key_of unit) (key_of unit) ws (r.groups g).units,
      eq_iff (key_of unit) (key_of unit),
      eq_iff (key_of unit) (key_of (r.sockets ws').name),
      l.group_unit ws' g',
    );
    listed_id = λ a k g' h. ground (arith, l.listed_id a k g');
    listed_parent = λ a k g' h. ground (arith, l.listed_parent a k g');
    listed_fresh = λ a k g' h. ground (arith, l.listed_fresh a k g');
    unit_listed = λ g' u ws' h. ground (arith, l.unit_listed g' u ws');
    account_id = λ k a h. ground (arith, l.account_id k a);
    account_fresh = λ k a h. ground (arith, l.account_fresh k a);
    group_account = λ a k g' h. ground (arith, l.group_account a k g');
  }

module _ {M : Type 0} where
  find_account-sockets :
      (id : Option String) (r : Rooms M) → (find_account id r).1.sockets ≡ r.sockets
  unfolding find_account
  find_account-sockets id r = ground arith

  find_group-sockets :
      (a : ℕ) (name : Option String) (r : Rooms M) → (find_group a name r).1.sockets ≡ r.sockets
  unfolding find_group
  find_group-sockets a name r = ground arith

  -- A socket in no group joins the group that its login names: the invariant is kept, whether the
  -- account, the group or the unit's name were there before or not.
  pub add_member_to_account_group-IsLinked :
      (ws : ℕ) (r : Rooms M)
      → IsLinked r
      → (r.sockets ws).group ≡ none
      → IsLinked (add_member_to_account_group ws r).0
  unfolding add_member_to_account_group
  add_member_to_account_group-IsLinked ws r l free =
      elim (r.sockets ws).login_request as (λ o. IsLinked (add_with_login o ws r).0) [
        | none ↦ l
        | some login ↦
            let a = (find_account login.account_id r).0 in
            let r₁ = (find_account login.account_id r).1 in
            let l₁ = find_account-IsLinked r l login.account_id in
            let known = find_account-Registered r l login.account_id in
            let r₂ = (find_group a login.group_id r₁).1 in
            let same =
              find_group-sockets a login.group_id r₁ ∙ find_account-sockets login.account_id r in
            add_member-IsLinked r₂ (find_group-IsLinked r₁ l₁ a known login.group_id) ws
              (rw same free) (find_group a login.group_id r₁).0 login.sender_id
              (find_group-Listed r₁ l₁ a known login.group_id)
      ]
