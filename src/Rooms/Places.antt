-- ===== src/Rooms/Places.antt =====
-- About the operations on the tables of js_andruav_chat_account_rooms.js: what each does to the places.
use droneengage_server.Base.{
  ℕ, ◌≡◌, refl, Option, some, String, get, has, key_of, is_empty, arith, eq_iff, get-put, get-erase,
  get-nil, get_of_is_empty, inl, inr, Bool-cases, Option-cases,
}
use droneengage_server.Rooms.{Rooms, add_member, drop_if_empty}
use droneengage_server.Rooms.Registry.{find_account, find_group}
use droneengage_server.Rooms.Linked.{IsLinked, unlink, Listed}
use droneengage_server.Rooms.Seats.{sit, rise, seats_of}

module _ {M : Type 0} (r : Rooms M) (l : IsLinked r) where
  pub find_account-seats :
      (id : Option String) (a g u : String)
      → seats_of (find_account id r).1 a g u ≡ seats_of r a g u
  unfolding find_account seats_of
  find_account-seats id a g u = elim (Option-cases (get (key_of id) r.c_accounts)) [
    | inr (x, e) ↦ rw (e, find_account) refl
    | inl e ↦ elim (Option-cases (get a r.c_accounts)) [
      | inl n ↦ ground (
        arith,
        e,
        n,
        get-put (key_of id) a r.next_account r.c_accounts,
        eq_iff (key_of id) a,
        get-nil {V = ℕ} g,
      )
      | inr (x, n) ↦ ground (
        arith,
        e,
        n,
        get-put (key_of id) a r.next_account r.c_accounts,
        eq_iff (key_of id) a,
        l.account_fresh a x,
      )
    ]
  ]

  pub find_group-seats :
      (x : ℕ) (name : Option String) (a g u : String)
      → seats_of (find_group x name r).1 a g u ≡ seats_of r a g u
  unfolding find_group seats_of
  find_group-seats x name a g u = elim (Option-cases (get (key_of name) (r.accounts x).groups)) [
    | inr (y, e) ↦ rw (e, find_group) refl
    | inl e ↦ elim (Option-cases (get a r.c_accounts)) [
      | inl n ↦ ground (arith, e, n)
      | inr (y, n) ↦ elim (Option-cases (get g (r.accounts y).groups)) [
        | inl k ↦ ground (
          arith,
          e,
          n,
          k,
          get-put (key_of name) g r.next_group (r.accounts x).groups,
          eq_iff (key_of name) g,
          get-nil {V = ℕ} u,
        )
        | inr (z, k) ↦ ground (
          arith,
          e,
          n,
          k,
          get-put (key_of name) g r.next_group (r.accounts x).groups,
          eq_iff (key_of name) g,
          l.listed_fresh y g z,
        )
      ]
    ]
  ]

  -- a group stands in one place only
  same_place :
      (a b g h : String) (x y z : ℕ)
      → get a r.c_accounts ≡ some x
      → get g (r.accounts x).groups ≡ some z
      → get b r.c_accounts ≡ some y
      → get h (r.accounts y).groups ≡ some z
      → (a ≡ b) × (g ≡ h)
  same_place a b g h x y z ea eg eb eh = ground (
    arith,
    l.account_id a x ea,
    l.account_id b y eb,
    l.listed_parent x g z eg,
    l.listed_parent y h z eh,
    l.listed_id x g z eg,
    l.listed_id y h z eh,
  )

  pub add_member-seats :
      (a g : String) (unit : Option String) (x z ws : ℕ)
      → get a r.c_accounts ≡ some x
      → get g (r.accounts x).groups ≡ some z
      → (b h v : String)
      → seats_of (add_member z unit ws r).0 b h v ≡ (sit a g (key_of unit) ws (seats_of r)).0 b h v
  unfolding add_member has seats_of
  add_member-seats a g unit x z ws ea eg b h v =
      let u = key_of unit in
      elim (Option-cases (get u (r.groups z).units)) [
        | inr (w, e) ↦ rw (e, add_member) (ground (arith, ea, eg, e))
        | inl e ↦ elim (Option-cases (get b r.c_accounts)) [
          | inl n ↦ ground (arith, ea, eg, e, n, eq_iff a b)
          | inr (y, n) ↦ elim (Option-cases (get h (r.accounts y).groups)) [
            | inl k ↦ ground (arith, ea, eg, e, n, k, eq_iff a b, eq_iff g h)
            | inr (t, k) ↦ ground (
              arith,
              ea,
              eg,
              e,
              n,
              k,
              eq_iff a b,
              eq_iff g h,
              eq_iff u v,
              get-put u v ws (r.groups z).units,
              same_place a b g h x y t,
            )
          ]
        ]
      ]

  pub add_member-seated :
      (a g : String) (unit : Option String) (x z ws : ℕ)
      → get a r.c_accounts ≡ some x
      → get g (r.accounts x).groups ≡ some z
      → (add_member z unit ws r).1 ≡ (sit a g (key_of unit) ws (seats_of r)).1
  unfolding add_member has seats_of
  add_member-seated a g unit x z ws ea eg = ground (arith, ea, eg)

  -- a unit that leaves: its place, and no other, is free then
  pub unlink-seats :
      (x z old : ℕ) (a g n b h v : String)
      → get a r.c_accounts ≡ some x
      → get g (r.accounts x).groups ≡ some z
      → seats_of (unlink z n old r) b h v ≡ rise a g n (seats_of r) b h v
  unfolding seats_of
  unlink-seats x z old a g n b h v ea eg = elim (Option-cases (get b r.c_accounts)) [
    | inl e ↦ ground (arith, ea, eg, e)
    | inr (y, e) ↦ elim (Option-cases (get h (r.accounts y).groups)) [
      | inl k ↦ ground (arith, ea, eg, e, k)
      | inr (t, k) ↦ ground (
        arith,
        ea,
        eg,
        e,
        k,
        eq_iff a b,
        eq_iff g h,
        eq_iff n v,
        get-erase n v (r.groups z).units,
        same_place a b g h x y t,
      )
    ]
  ]

  -- a group without units holds no place
  pub drop_if_empty-seats :
      (z : ℕ)
      → Listed z r
      → (b h v : String) → seats_of (drop_if_empty z r) b h v ≡ seats_of r b h v
  unfolding drop_if_empty seats_of
  drop_if_empty-seats z listed b h v = elim (Bool-cases (is_empty (r.groups z).units)) [
    | inr e ↦ rw e refl
    | inl e ↦ elim (Option-cases (get b r.c_accounts)) [
      | inl n ↦ ground (arith, e, n)
      | inr (y, n) ↦ ground (
        arith,
        e,
        n,
        listed,
        get_of_is_empty v (r.groups z).units,
        get-erase (key_of (r.groups z).id) h (r.accounts (r.groups z).parent_account).groups,
        eq_iff (key_of (r.groups z).id) h,
      )
    ]
  ]
