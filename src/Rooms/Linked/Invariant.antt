-- ===== src/Rooms/Linked/Invariant.antt =====
-- The invariant of the heap: how the tables and the sockets agree.
use droneengage_server.Base.{ℕ, ◌<◌, ◌≡◌, some, String, get, key_of}
use droneengage_server.Rooms.{Rooms}

-- A unit's socket points back to its group under the unit's name, and the other way round; a group
-- that an account lists has that account as its parent, a group with units is listed, and an account
-- with groups is registered.
pub record IsLinked {M : Type 0} (r : Rooms M) : Type 0 where
  pub unit_group :
      (g : ℕ) (u : String) (ws : ℕ)
      → get u (r.groups g).units ≡ some ws
      → (r.sockets ws).group ≡ some g
  pub unit_name :
      (g : ℕ) (u : String) (ws : ℕ)
      → get u (r.groups g).units ≡ some ws
      → key_of (r.sockets ws).name ≡ u
  pub group_unit :
      (ws g : ℕ)
      → (r.sockets ws).group ≡ some g
      → get (key_of (r.sockets ws).name) (r.groups g).units ≡ some ws
  pub listed_id :
      (a : ℕ) (k : String) (g : ℕ)
      → get k (r.accounts a).groups ≡ some g
      → key_of (r.groups g).id ≡ k
  pub listed_parent :
      (a : ℕ) (k : String) (g : ℕ)
      → get k (r.accounts a).groups ≡ some g
      → (r.groups g).parent_account ≡ a
  pub listed_fresh :
      (a : ℕ) (k : String) (g : ℕ) → get k (r.accounts a).groups ≡ some g → g < r.next_group
  pub unit_listed :
      (g : ℕ) (u : String) (ws : ℕ)
      → get u (r.groups g).units ≡ some ws
      → get (key_of (r.groups g).id) (r.accounts (r.groups g).parent_account).groups ≡ some g
  pub account_id :
      (k : String) (a : ℕ) → get k r.c_accounts ≡ some a → key_of (r.accounts a).account_id ≡ k
  pub account_fresh : (k : String) (a : ℕ) → get k r.c_accounts ≡ some a → a < r.next_account
  pub group_account :
      (a : ℕ) (k : String) (g : ℕ)
      → get k (r.accounts a).groups ≡ some g
      → get (key_of (r.accounts a).account_id) r.c_accounts ≡ some a
