-- ===== src/Rooms/Kicking.antt =====
-- About `fn_del_member_fromAccountByName` with `terminateSocket`: the flag `m__terminated`.
use droneengage_server.Base.{
  ℕ, ◌≡◌, inl, inr, true, some, List, [], ◌∷◌, String, get, values, values_have, Has, arith,
  Bool-cases, ◌==◌, ◌≢◌, ◌∙◌,
}
use droneengage_server.Rooms.{
  Rooms, LoginRequest, drop_if_empty, delete_member_by_name, delete_from_groups,
  delete_member_from_account,
}
use droneengage_server.Rooms.Registry.{del_member_from_account_by_name}

module _ {M : Type 0} (u : String) where
  delete_member_by_name-stays :
      (g old : ℕ) (r : Rooms M)
      → (r.sockets old).terminated ≡ true
      → ((delete_member_by_name g (some u) true r).sockets old).terminated ≡ true
  unfolding delete_member_by_name drop_if_empty
  delete_member_by_name-stays g old r h = ground arith

  delete_member_by_name-terminated :
      (g old : ℕ) (r : Rooms M)
      → get u (r.groups g).units ≡ some old
      → ((delete_member_by_name g (some u) true r).sockets old).terminated ≡ true
  unfolding delete_member_by_name drop_if_empty
  delete_member_by_name-terminated g old r h = ground arith

  delete_member_by_name-elsewhere :
      (g g' : ℕ) (r : Rooms M)
      → g' ≢ g
      → get u ((delete_member_by_name g' (some u) true r).groups g).units ≡ get u (r.groups g).units
  unfolding delete_member_by_name drop_if_empty
  delete_member_by_name-elsewhere g g' r h = ground arith

  delete_from_groups-stays :
      (gs : List ℕ) (old : ℕ) (r : Rooms M)
      → (r.sockets old).terminated ≡ true
      → ((delete_from_groups gs (some u) true r).sockets old).terminated ≡ true
  unfolding delete_from_groups
  delete_from_groups-stays [] old r h = h
  delete_from_groups-stays (g ∷ gs) old r h =
      delete_from_groups-stays gs old (delete_member_by_name g (some u) true r)
        (delete_member_by_name-stays g old r h)

  delete_from_groups-terminated :
      (gs : List ℕ) (g old : ℕ) (r : Rooms M)
      → Has g gs
      → get u (r.groups g).units ≡ some old
      → ((delete_from_groups gs (some u) true r).sockets old).terminated ≡ true
  unfolding delete_from_groups
  delete_from_groups-terminated [] g old r h e = elim h [ ]
  delete_from_groups-terminated (g' ∷ gs) g old r h e = elim (Bool-cases (g' == g)) [
    | inl q ↦
        let here : g' ≡ g = ground (arith, q) in
        delete_from_groups-stays gs old (delete_member_by_name g' (some u) true r)
          (delete_member_by_name-terminated g' old r (rw here e))
    | inr q ↦ elim h [
      | inl p ↦ ground (arith, p, q)
      | inr p ↦
          delete_from_groups-terminated gs g old (delete_member_by_name g' (some u) true r) p
            (delete_member_by_name-elsewhere g g' r (λ p'. ground (arith, p', q)) ∙ e)
    ]
  ]

  -- Every unit of the login's name in the login's account is terminated.
  pub del_member_from_account_by_name-terminated :
      (login : LoginRequest) (id k : String) (r : Rooms M) (a g old : ℕ)
      → login.sender_id ≡ some u
      → login.account_id ≡ some id
      → get id r.c_accounts ≡ some a
      → get k (r.accounts a).groups ≡ some g
      → get u (r.groups g).units ≡ some old
      → ((del_member_from_account_by_name (some login) true r).sockets old).terminated ≡ true
  unfolding del_member_from_account_by_name delete_member_from_account
  del_member_from_account_by_name-terminated login id k r a g old hu hid ha hg hw =
      let gone =
        delete_from_groups-terminated (values (r.accounts a).groups) g old r
          (values_have k g (r.accounts a).groups hg) hw in
      rw (hid, hu, ha, del_member_from_account_by_name, delete_member_from_account)
        (ground (arith, gone))
