-- ===== src/Rooms/Linked/Deleting.antt =====
-- The invariant and `fn_deleteMemberByName` and its callers.
use droneengage_server.Base.{
  ℕ, ◌≡◌, refl, ◌∙◌, Bool, true, false, Option, some, List, [], ◌∷◌, String, get, erase, key_of,
  is_empty, values, arith, eq_iff, get-erase, get_of_is_empty, if◌then◌else◌, Bool-cases, inl, inr,
  Option-cases,
}
use droneengage_server.Rooms.{
  Rooms, drop_if_empty, delete_member_by_name, delete_from_groups, delete_member_from_account, call,
  terminate, set_socket,
}
use droneengage_server.Rooms.Linked.Invariant.{IsLinked}
use droneengage_server.Rooms.Linked.Unlinking.{
  unlink, unlink-IsLinked, unlink-Listed, drop_if_empty-IsLinked,
}

-- What no deletion of members touches.
pub record SameTables {M : Type 0} (r s : Rooms M) : Type 0 where
  pub same_accounts : s.c_accounts ≡ r.c_accounts
  pub same_account_id : (a : ℕ) → (s.accounts a).account_id ≡ (r.accounts a).account_id
  pub same_senders : s.active_senders ≡ r.active_senders
  pub same_login : (ws : ℕ) → (s.sockets ws).login_request ≡ (r.sockets ws).login_request
  pub same_name : (ws : ℕ) → (s.sockets ws).name ≡ (r.sockets ws).name

pub SameTables-refl : {M : Type 0} (r : Rooms M) → SameTables r r
SameTables-refl r = record {
  same_accounts = refl;
  same_account_id = λ a. refl;
  same_senders = refl;
  same_login = λ ws. refl;
  same_name = λ ws. refl;
}

pub SameTables-trans :
    {M : Type 0} (r s t : Rooms M) → SameTables r s → SameTables s t → SameTables r t
SameTables-trans r s t h k = record {
  same_accounts = k.same_accounts ∙ h.same_accounts;
  same_account_id = λ a. k.same_account_id a ∙ h.same_account_id a;
  same_senders = k.same_senders ∙ h.same_senders;
  same_login = λ ws. k.same_login ws ∙ h.same_login ws;
  same_name = λ ws. k.same_name ws ∙ h.same_name ws;
}

module _ {M : Type 0} where
  pub delete_member_by_name-SameTables :
      (g : ℕ) (unit : Option String) (t : Bool) (r : Rooms M)
      → SameTables r (delete_member_by_name g unit t r)
  unfolding delete_member_by_name drop_if_empty
  delete_member_by_name-SameTables g unit t r = record {
    same_accounts = ground arith;
    same_account_id = λ a. ground arith;
    same_senders = ground arith;
    same_login = λ ws. ground arith;
    same_name = λ ws. ground arith;
  }

  -- Marking a socket and calling `terminate` changes no table.
  terminated-IsLinked :
      (old : ℕ) (r : Rooms M)
      → IsLinked r
      → IsLinked
          (call (terminate old) (set_socket old (record (r.sockets old) { terminated = true }) r))
  terminated-IsLinked old r l = record {
    unit_group = λ g u ws h. ground (arith, l.unit_group g u ws h);
    unit_name = λ g u ws h. ground (arith, l.unit_name g u ws h);
    group_unit = λ ws g h. ground (arith, l.group_unit ws g);
    listed_id = l.listed_id;
    listed_parent = l.listed_parent;
    listed_fresh = l.listed_fresh;
    unit_listed = l.unit_listed;
    account_id = l.account_id;
    account_fresh = l.account_fresh;
    group_account = l.group_account;
  }

  terminated_if-IsLinked :
      (t : Bool) (old : ℕ) (r : Rooms M)
      → IsLinked r
      → IsLinked (
          if t
          then call
              (terminate old)
              (set_socket old (record (r.sockets old) { terminated = true }) r)
          else r)
  terminated_if-IsLinked true old r l = terminated-IsLinked old r l
  terminated_if-IsLinked false old r l = l

  -- `fn_deleteMemberByName` keeps the invariant.
  pub delete_member_by_name-IsLinked :
      (g : ℕ) (unit : Option String) (t : Bool) (r : Rooms M)
      → IsLinked r
      → IsLinked (delete_member_by_name g unit t r)
  unfolding delete_member_by_name
  delete_member_by_name-IsLinked g unit t r l =
      elim (Option-cases (get (key_of unit) (r.groups g).units)) [
        | inl e ↦ rw (e, delete_member_by_name) l
        | inr (old, e) ↦
            let r₂ = unlink g (key_of unit) old r in
            rw (e, delete_member_by_name)
              (terminated_if-IsLinked t old (drop_if_empty g r₂) (
                drop_if_empty-IsLinked r₂ (unlink-IsLinked r l g (key_of unit) old e) g
                  (unlink-Listed r l g (key_of unit) old e)))
      ]

  delete_from_groups-IsLinked :
      (gs : List ℕ) (unit : Option String) (t : Bool) (r : Rooms M)
      → IsLinked r
      → IsLinked (delete_from_groups gs unit t r)
  unfolding delete_from_groups
  delete_from_groups-IsLinked [] unit t r l = l
  delete_from_groups-IsLinked (g ∷ gs) unit t r l =
      delete_from_groups-IsLinked gs unit t (delete_member_by_name g unit t r)
        (delete_member_by_name-IsLinked g unit t r l)

  pub delete_from_groups-SameTables :
      (gs : List ℕ) (unit : Option String) (t : Bool) (r : Rooms M)
      → SameTables r (delete_from_groups gs unit t r)
  unfolding delete_from_groups
  delete_from_groups-SameTables [] unit t r = SameTables-refl r
  delete_from_groups-SameTables (g ∷ gs) unit t r =
      let r₁ = delete_member_by_name g unit t r in
      SameTables-trans r r₁ (delete_from_groups gs unit t r₁)
        (delete_member_by_name-SameTables g unit t r) (delete_from_groups-SameTables gs unit t r₁)

  -- Forgetting a registered account that has no group.
  forget-IsLinked :
      (a : ℕ) (r : Rooms M)
      → IsLinked r
      → get (key_of (r.accounts a).account_id) r.c_accounts ≡ some a
      → is_empty (r.accounts a).groups ≡ true
      → IsLinked (record r { c_accounts = erase (key_of (r.accounts a).account_id) r.c_accounts })
  forget-IsLinked a r l registered e = record {
    unit_group = l.unit_group;
    unit_name = l.unit_name;
    group_unit = l.group_unit;
    listed_id = l.listed_id;
    listed_parent = l.listed_parent;
    listed_fresh = l.listed_fresh;
    unit_listed = l.unit_listed;
    account_id = λ k b h.
        ground
          (arith, get-erase (key_of (r.accounts a).account_id) k r.c_accounts, l.account_id k b);
    account_fresh = λ k b h.
        ground
          (arith, get-erase (key_of (r.accounts a).account_id) k r.c_accounts, l.account_fresh k b);
    group_account = λ b k g h. ground (
      arith,
      get-erase (key_of (r.accounts a).account_id) (key_of (r.accounts b).account_id) r.c_accounts,
      eq_iff (key_of (r.accounts a).account_id) (key_of (r.accounts b).account_id),
      l.group_account b k g h,
      get_of_is_empty k (r.accounts a).groups e,
    );
  }

  -- `Account.fn_del_member_fromAccountByName` keeps the invariant.
  pub delete_member_from_account-IsLinked :
      (a : ℕ) (unit : Option String) (t : Bool) (r : Rooms M)
      → IsLinked r
      → get (key_of (r.accounts a).account_id) r.c_accounts ≡ some a
      → IsLinked (delete_member_from_account a unit t r)
  unfolding delete_member_from_account
  delete_member_from_account-IsLinked a unit t r l registered =
      let r₁ = delete_from_groups (values (r.accounts a).groups) unit t r in
      let l₁ = delete_from_groups-IsLinked (values (r.accounts a).groups) unit t r l in
      let k = delete_from_groups-SameTables (values (r.accounts a).groups) unit t r in
      elim (Bool-cases (is_empty (r₁.accounts a).groups)) [
        | inl e ↦
            rw e (forget-IsLinked a r₁ l₁ (rw (k.same_account_id a, k.same_accounts) registered) e)
        | inr e ↦ rw e l₁
      ]
