-- ===== src/Rooms.antt =====
-- src/comm_server/chat_server/js_andruav_chat_account_rooms.js and js_andruav_active_senders.js:
-- the accounts, their groups, the units in them, and the sockets, on an explicit heap, since a
-- socket points to its group, a group to its account, and the same socket stands in several tables.
pub mod Details
pub mod Registry
pub mod Sending
pub mod Linked
pub mod Isolation
pub mod Delivery
pub mod Eviction
pub mod Seating
pub mod Kicking
pub mod Seats
pub mod Places
pub mod Refinement
use droneengage_server.Base.{
  ℕ, suc, ◌+◌, Bool, true, false, not, ◌&&◌, Option, none, some, List, [], ◌∷◌, ◌++◌, String, Dict,
  get, put, erase, has, is_empty, keys, values, key_of, read, Property, if◌then◌else◌, opt_eq, ◌==◌,
  Json,
}

-- `m_loginRequest`; a field that the login did not carry is `undefined`
pub record LoginRequest : Type 0 where
  pub sender_id : Option String
  pub account_id : Option String
  pub group_id : Option String
  pub request_id : Option String
  pub actor_type : Option String
  pub prm : Option Json

-- `m_status`: how much text and how many bytes a socket has sent.
pub record Status : Type 0 where
  pub m_ttx : ℕ
  pub m_btx : ℕ

-- What the code keeps on a WebSocket, and what the WebSocket does when it is sent to.
pub record Socket : Type 0 where
  pub login_request : Option LoginRequest
  pub status : Option Status
  pub name : Option String
  pub group : Option ℕ
  pub terminated : Bool
  pub auth_pending : Bool
  pub ready_state : ℕ
  pub send_throws : Bool

pub record Group : Type 0 where
  pub id : Option String
  pub parent_account : ℕ
  pub units : Dict ℕ

pub record Account : Type 0 where
  pub account_id : Option String
  pub groups : Dict ℕ

-- The calls on sockets, in the order in which they are made.
pub data Call (M : Type 0) : Type 0 where
  send : ℕ → M → Bool → Call M
  terminate close : ℕ → Call M

pub record Rooms (M : Type 0) : Type 0 where
  pub sockets : ℕ → Socket
  pub groups : ℕ → Group
  pub accounts : ℕ → Account
  pub next_group : ℕ
  pub next_account : ℕ
  pub c_accounts : Dict ℕ
  pub active_senders : Dict ℕ
  pub calls : List (Call M)

abbrev pub update {ℓ} : {A : Type ℓ} → (ℕ → A) → ℕ → A → ℕ → A
update f p v q = if p == q then v else f q

module _ {M : Type 0} where
  abbrev pub set_socket : ℕ → Socket → Rooms M → Rooms M
  set_socket p s r = record r { sockets = update r.sockets p s }

  abbrev pub set_group : ℕ → Group → Rooms M → Rooms M
  set_group p g r = record r { groups = update r.groups p g }

  abbrev pub set_account : ℕ → Account → Rooms M → Rooms M
  set_account p a r = record r { accounts = update r.accounts p a }

  abbrev pub call : Call M → Rooms M → Rooms M
  call c r = record r { calls = r.calls ++ c ∷ [] }

  -- js_andruav_active_senders.js
  unfoldable pub add_active_sender : Option String → ℕ → Rooms M → Rooms M
  add_active_sender sender ws r = record r {
    active_senders = put (key_of sender) ws r.active_senders;
  }

  unfoldable pub delete_active_sender : Option String → Rooms M → Rooms M
  delete_active_sender none r = r
  delete_active_sender (some sender) r = record r { active_senders = erase sender r.active_senders }

  -- an inherited name gives a function, which has no `readyState` and no group
  unfoldable pub get_active_sender : Option String → Rooms M → Property ℕ
  get_active_sender sender r = read (key_of sender) r.active_senders

  -- `Group.fn_addMember`
  unfoldable pub add_member : ℕ → Option String → ℕ → Rooms M → Rooms M × Bool
  add_member g unit ws r =
      let gr = r.groups g in
      if has (key_of unit) gr.units then (r, false) else (
        set_socket ws (record (r.sockets ws) { name = unit; group = some g })
            (set_group g (record gr { units = put (key_of unit) ws gr.units }) r),
        true,
      )

  -- `delete this.m_parentAccount.m_groups[this.m_ID]` where the group has no unit left
  unfoldable pub drop_if_empty : ℕ → Rooms M → Rooms M
  drop_if_empty g r =
      let gr = r.groups g in
      let acc = r.accounts gr.parent_account in
      if is_empty gr.units
      then set_account gr.parent_account (record acc { groups = erase (key_of gr.id) acc.groups }) r
      else r

  -- `Group.fn_deleteMemberByName`
  unfoldable pub delete_member_by_name : ℕ → Option String → Bool → Rooms M → Rooms M
  delete_member_by_name g unit terminate_socket r = elim (get (key_of unit) (r.groups g).units) [
    | none ↦ r
    | some old ↦
        let gr = r.groups g in
        let r₁ = set_group g (record gr { units = erase (key_of unit) gr.units }) r in
        let r₂ = set_socket old (record (r₁.sockets old) { group = none }) r₁ in
        let r₃ = drop_if_empty g r₂ in
        if terminate_socket
        then call (terminate old)
            (set_socket old (record (r₃.sockets old) { terminated = true }) r₃)
        else r₃
  ]

  -- `Account.forEach(group => group.fn_deleteMemberByName(...))` over the groups it had at the start
  unfoldable pub delete_from_groups : List ℕ → Option String → Bool → Rooms M → Rooms M
  delete_from_groups [] unit terminate_socket r = r
  delete_from_groups (g ∷ gs) unit terminate_socket r =
      delete_from_groups gs unit terminate_socket (delete_member_by_name g unit terminate_socket r)

  -- `Account.fn_del_member_fromAccountByName`
  unfoldable pub delete_member_from_account : ℕ → Option String → Bool → Rooms M → Rooms M
  delete_member_from_account a unit terminate_socket r =
      let r₁ = delete_from_groups (values (r.accounts a).groups) unit terminate_socket r in
      if is_empty (r₁.accounts a).groups
      then record r₁ { c_accounts = erase (key_of (r₁.accounts a).account_id) r₁.c_accounts }
      else r₁
