-- ===== src/Rooms/Linked/Unlinking.antt =====
-- The invariant and the steps of `fn_deleteMemberByName`.
use droneengage_server.Base.{
  ℕ, ◌≡◌, none, some, String, get, erase, key_of, arith, eq_iff, get-erase, get_of_is_empty,
}
use droneengage_server.Rooms.{Rooms, set_group, set_socket, drop_if_empty}
use droneengage_server.Rooms.Linked.Invariant.{IsLinked}

-- The unit taken out of the table, and its socket detached.
abbrev pub unlink : {M : Type 0} → ℕ → String → ℕ → Rooms M → Rooms M
unlink g u old r =
    let r₁ = set_group g (record (r.groups g) { units = erase u (r.groups g).units }) r in
    set_socket old (record (r₁.sockets old) { group = none }) r₁

module _ {M : Type 0} (r : Rooms M) (l : IsLinked r) (g : ℕ) (u : String) (old : ℕ)
    (found : get u (r.groups g).units ≡ some old) where
  unlink-unit_group :
      (g' : ℕ) (u' : String) (ws : ℕ)
      → get u' ((unlink g u old r).groups g').units ≡ some ws
      → ((unlink g u old r).sockets ws).group ≡ some g'
  unlink-unit_group g' u' ws h = ground (
    arith,
    get-erase u u' (r.groups g).units,
    eq_iff u u',
    l.unit_group g u old found,
    l.unit_name g u old found,
    l.unit_group g' u' ws,
    l.unit_name g' u' ws,
  )

  pub unlink-IsLinked : IsLinked (unlink g u old r)
  unlink-IsLinked = record {
    unit_group = unlink-unit_group;
    unit_name = λ g' u' ws h.
        ground (arith, get-erase u u' (r.groups g).units, eq_iff u u', l.unit_name g' u' ws);
    group_unit = λ ws g' h. ground (
      arith,
      get-erase u (key_of (r.sockets ws).name) (r.groups g).units,
      eq_iff u (key_of (r.sockets ws).name),
      l.group_unit ws g',
      l.unit_group g u old found,
    );
    listed_id = λ a k g' h. ground (arith, l.listed_id a k g' h);
    listed_parent = λ a k g' h. ground (arith, l.listed_parent a k g' h);
    listed_fresh = l.listed_fresh;
    unit_listed = λ g' u' ws h.
        ground (arith, get-erase u u' (r.groups g).units, eq_iff u u', l.unit_listed g' u' ws);
    account_id = l.account_id;
    account_fresh = l.account_fresh;
    group_account = l.group_account;
  }

-- An account lists the group under its id.
abbrev pub Listed : {M : Type 0} → ℕ → Rooms M → Type 0
Listed g r = get (key_of (r.groups g).id) (r.accounts (r.groups g).parent_account).groups ≡ some g

pub unlink-Listed :
    {M : Type 0} (r : Rooms M)
    → IsLinked r
    → (g : ℕ) (u : String) (old : ℕ) → get u (r.groups g).units ≡ some old
    → Listed g (unlink g u old r)
unlink-Listed r l g u old found = ground (arith, l.unit_listed g u old found)

module _ {M : Type 0} (r : Rooms M) (l : IsLinked r) (g : ℕ) (listed : Listed g r) where
  drop_if_empty-unit-Listed :
      (g' : ℕ) (u : String) (ws : ℕ)
      → get u ((drop_if_empty g r).groups g').units ≡ some ws
      → Listed g' (drop_if_empty g r)
  unfolding drop_if_empty
  drop_if_empty-unit-Listed g' u ws h = ground (
    arith,
    l.unit_listed g' u ws,
    get_of_is_empty u (r.groups g).units,
    get-erase (key_of (r.groups g).id) (key_of (r.groups g').id)
        (r.accounts (r.groups g).parent_account).groups,
    eq_iff (key_of (r.groups g).id) (key_of (r.groups g').id),
  )

  pub drop_if_empty-IsLinked : IsLinked (drop_if_empty g r)
  unfolding drop_if_empty
  drop_if_empty-IsLinked = record {
    unit_group = λ g' u ws h. ground (arith, l.unit_group g' u ws);
    unit_name = λ g' u ws h. ground (arith, l.unit_name g' u ws);
    group_unit = λ ws g' h. ground (arith, l.group_unit ws g');
    listed_id = λ a k g' h. ground (
      arith,
      get-erase (key_of (r.groups g).id) k (r.accounts (r.groups g).parent_account).groups,
      l.listed_id a k g',
    );
    listed_parent = λ a k g' h. ground (
      arith,
      get-erase (key_of (r.groups g).id) k (r.accounts (r.groups g).parent_account).groups,
      l.listed_parent a k g',
    );
    listed_fresh = λ a k g' h. ground (
      arith,
      get-erase (key_of (r.groups g).id) k (r.accounts (r.groups g).parent_account).groups,
      l.listed_fresh a k g',
    );
    unit_listed = drop_if_empty-unit-Listed;
    account_id = λ k a h. ground (arith, l.account_id k a);
    account_fresh = λ k a h. ground (arith, l.account_fresh k a);
    group_account = λ a k g' h. ground (
      arith,
      get-erase (key_of (r.groups g).id) k (r.accounts (r.groups g).parent_account).groups,
      l.group_account a k g',
    );
  }
