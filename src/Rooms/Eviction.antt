-- ===== src/Rooms/Eviction.antt =====
-- About `fn_del_member_fromAccountByName` as `_acceptConnection` calls it: what it leaves behind.
use droneengage_server.Base.{
  ℕ, ◌≡◌, refl, ◌∙◌, inl, inr, Bool, Option, none, some, List, [], ◌∷◌, String, get, erase, key_of,
  values, values_have, Has, arith, eq_iff, get-erase, is_empty, Bool-cases,
}
use droneengage_server.Rooms.{
  Rooms, LoginRequest, drop_if_empty, delete_member_by_name, delete_from_groups,
  delete_member_from_account,
}
use droneengage_server.Rooms.Registry.{del_member_from_account_by_name}

-- What no deletion of members gives or takes.
pub record Detaches {M : Type 0} (r s : Rooms M) : Type 0 where
  pub no_group : (ws : ℕ) → (r.sockets ws).group ≡ none → (s.sockets ws).group ≡ none
  pub same_login : (ws : ℕ) → (s.sockets ws).login_request ≡ (r.sockets ws).login_request
  pub same_pending : (ws : ℕ) → (s.sockets ws).auth_pending ≡ (r.sockets ws).auth_pending
  pub same_throws : (ws : ℕ) → (s.sockets ws).send_throws ≡ (r.sockets ws).send_throws
  pub same_senders : s.active_senders ≡ r.active_senders
  pub absent :
      (u : String) (g : ℕ) → get u (r.groups g).units ≡ none → get u (s.groups g).units ≡ none
  pub was_listed :
      (a : ℕ) (k : String) (g : ℕ)
      → get k (s.accounts a).groups ≡ some g
      → get k (r.accounts a).groups ≡ some g
  pub was_registered :
      (k : String) (a : ℕ) → get k s.c_accounts ≡ some a → get k r.c_accounts ≡ some a

pub Detaches-refl : {M : Type 0} (r : Rooms M) → Detaches r r
Detaches-refl r = record {
  no_group = λ ws h. h;
  same_login = λ ws. refl;
  same_pending = λ ws. refl;
  same_throws = λ ws. refl;
  same_senders = refl;
  absent = λ u g h. h;
  was_listed = λ a k g h. h;
  was_registered = λ k a h. h;
}

pub Detaches-trans : {M : Type 0} (r s t : Rooms M) → Detaches r s → Detaches s t → Detaches r t
Detaches-trans r s t h k = record {
  no_group = λ ws e. k.no_group ws (h.no_group ws e);
  same_login = λ ws. k.same_login ws ∙ h.same_login ws;
  same_pending = λ ws. k.same_pending ws ∙ h.same_pending ws;
  same_throws = λ ws. k.same_throws ws ∙ h.same_throws ws;
  same_senders = k.same_senders ∙ h.same_senders;
  absent = λ u g e. k.absent u g (h.absent u g e);
  was_listed = λ a n g e. h.was_listed a n g (k.was_listed a n g e);
  was_registered = λ n a e. h.was_registered n a (k.was_registered n a e);
}

module _ {M : Type 0} where
  pub delete_member_by_name-Detaches :
      (g : ℕ) (unit : Option String) (t : Bool) (r : Rooms M)
      → Detaches r (delete_member_by_name g unit t r)
  unfolding delete_member_by_name drop_if_empty
  delete_member_by_name-Detaches g unit t r = record {
    no_group = λ ws h. ground arith;
    same_login = λ ws. ground arith;
    same_pending = λ ws. ground arith;
    same_throws = λ ws. ground arith;
    same_senders = ground arith;
    absent = λ u g' h. ground (arith, get-erase (key_of unit) u (r.groups g).units);
    was_listed = λ a k g' h. ground (
      arith,
      get-erase (key_of (r.groups g).id) k (r.accounts (r.groups g).parent_account).groups,
    );
    was_registered = λ k a h. ground arith;
  }

  delete_member_by_name-absent :
      (g : ℕ) (u : String) (t : Bool) (r : Rooms M)
      → get u ((delete_member_by_name g (some u) t r).groups g).units ≡ none
  unfolding delete_member_by_name drop_if_empty
  delete_member_by_name-absent g u t r =
      ground (arith, get-erase u u (r.groups g).units, eq_iff u u)

  pub delete_from_groups-Detaches :
      (gs : List ℕ) (unit : Option String) (t : Bool) (r : Rooms M)
      → Detaches r (delete_from_groups gs unit t r)
  unfolding delete_from_groups
  delete_from_groups-Detaches [] unit t r = Detaches-refl r
  delete_from_groups-Detaches (g ∷ gs) unit t r =
      let r₁ = delete_member_by_name g unit t r in
      Detaches-trans r r₁ (delete_from_groups gs unit t r₁)
        (delete_member_by_name-Detaches g unit t r) (delete_from_groups-Detaches gs unit t r₁)

  delete_from_groups-absent :
      (gs : List ℕ) (u : String) (t : Bool) (r : Rooms M) (g : ℕ)
      → Has g gs
      → get u ((delete_from_groups gs (some u) t r).groups g).units ≡ none
  unfolding delete_from_groups
  delete_from_groups-absent [] u t r g h = elim h [ ]
  delete_from_groups-absent (g' ∷ gs) u t r g (inl e) =
      let r₁ = delete_member_by_name g' (some u) t r in
      rw (← e) (
        (delete_from_groups-Detaches gs (some u) t r₁).absent u g'
          (delete_member_by_name-absent g' u t r))
  delete_from_groups-absent (g' ∷ gs) u t r g (inr h) =
      delete_from_groups-absent gs u t (delete_member_by_name g' (some u) t r) g h

  forget-Detaches :
      (k : String) (r s : Rooms M)
      → Detaches r s
      → Detaches r (record s { c_accounts = erase k s.c_accounts })
  forget-Detaches k r s d = record {
    no_group = d.no_group;
    same_login = d.same_login;
    same_pending = d.same_pending;
    same_throws = d.same_throws;
    same_senders = d.same_senders;
    absent = d.absent;
    was_listed = d.was_listed;
    was_registered = λ j a h. d.was_registered j a (ground (arith, get-erase k j s.c_accounts));
  }

  pub delete_member_from_account-Detaches :
      (a : ℕ) (unit : Option String) (t : Bool) (r : Rooms M)
      → Detaches r (delete_member_from_account a unit t r)
  unfolding delete_member_from_account
  delete_member_from_account-Detaches a unit t r =
      let s = delete_from_groups (values (r.accounts a).groups) unit t r in
      let d = delete_from_groups-Detaches (values (r.accounts a).groups) unit t r in
      elim (Bool-cases (is_empty (s.accounts a).groups)) [
        | inl e ↦ rw e (forget-Detaches (key_of (s.accounts a).account_id) r s d)
        | inr e ↦ rw e d
      ]

  pub del_member_from_account_by_name-Detaches :
      (login : Option LoginRequest) (t : Bool) (r : Rooms M)
      → Detaches r (del_member_from_account_by_name login t r)
  unfolding del_member_from_account_by_name
  del_member_from_account_by_name-Detaches none t r = Detaches-refl r
  del_member_from_account_by_name-Detaches (some login) t r = ground (
    arith,
    Detaches-refl r,
    delete_found login.sender_id (get (key_of login.account_id) r.c_accounts),
  )
    where
      delete_found :
          (sender : Option String) (o : Option ℕ)
          → Detaches r (elim o [ none ↦ r | some a ↦ delete_member_from_account a sender t r ])
      delete_found sender none = Detaches-refl r
      delete_found sender (some a) = delete_member_from_account-Detaches a sender t r

-- No group of the account has a unit of the name.
abbrev pub Absent : {M : Type 0} → String → ℕ → Rooms M → Type 0
Absent u a r =
    (k : String) (g : ℕ) → get k (r.accounts a).groups ≡ some g → get u (r.groups g).units ≡ none

-- The account of an id, if it is registered, has no unit of the name.
abbrev pub Clear : {M : Type 0} → String → Option String → Rooms M → Type 0
Clear u id r = (a : ℕ) → get (key_of id) r.c_accounts ≡ some a → Absent u a r

module _ {M : Type 0} where
  delete_member_from_account-Absent :
      (a : ℕ) (u : String) (t : Bool) (r : Rooms M)
      → Absent u a (delete_member_from_account a (some u) t r)
  unfolding delete_member_from_account
  delete_member_from_account-Absent a u t r =
      let gs = values (r.accounts a).groups in
      let s = delete_from_groups gs (some u) t r in
      let d = delete_from_groups-Detaches gs (some u) t r in
      let gone : Absent u a s = λ k g h.
        delete_from_groups-absent gs u t r g
          (values_have k g (r.accounts a).groups (d.was_listed a k g h)) in
      elim (Bool-cases (is_empty (s.accounts a).groups)) [ inl e ↦ rw e gone | inr e ↦ rw e gone ]

  -- After `fn_del_member_fromAccountByName` the account of the login has no unit of its name.
  pub del_member_from_account_by_name-Clear :
      (login : LoginRequest) (u id : String) (t : Bool) (r : Rooms M)
      → login.sender_id ≡ some u
      → login.account_id ≡ some id
      → Clear u login.account_id (del_member_from_account_by_name (some login) t r)
  unfolding del_member_from_account_by_name
  del_member_from_account_by_name-Clear login u id t r hu hid b found =
      let d = del_member_from_account_by_name-Detaches (some login) t r in
      let before = d.was_registered (key_of login.account_id) b found in
      rw (hid, hu, rw hid at before, del_member_from_account_by_name)
        (delete_member_from_account-Absent b u t r)
