-- ===== src/Rooms/Sending.antt =====
-- The functions of js_andruav_chat_account_rooms.js that send: to one unit, to a group, to the
-- groups of one account, and to all.
use droneengage_server.Base.{
  ℕ, Bool, true, false, not, ◌&&◌, ◌||◌, Option, none, some, List, [], ◌∷◌, String, get, keys,
  values, read, own, inherited, undefined, if◌then◌else◌, opt_eq, ◌==◌, Json, same_id,
}
use droneengage_server.Rooms.{
  Rooms, LoginRequest, send, terminate, call, set_socket, delete_member_by_name,
}

-- How a send to one unit ends: the last is an exception that leaves the function.
pub data Sent : Type 0 where
  delivered not_found threw : Sent

-- the test of `fn_broadcast`; `actor` is `null` for all units
unfoldable pub is_recipient : Option Json → Option String → LoginRequest → Bool
is_recipient sender actor login =
    not (same_id login.sender_id sender)
    && (elim actor [ none ↦ true | some a ↦ opt_eq login.actor_type (some a) ])

-- `===` on the groups of two sockets, either of which may be `undefined`
unfoldable pub same_group : Option ℕ → Option ℕ → Bool
same_group none none = true
same_group none (some h) = false
same_group (some g) none = false
same_group (some g) (some h) = g == h

module _ {M : Type 0} where
  -- `Group.fn_handleOrphanSocket`; with no group on the socket it throws and is caught at once
  unfoldable pub handle_orphan_socket : ℕ → Rooms M → Rooms M
  handle_orphan_socket ws r = elim (r.sockets ws).group [
    | none ↦ r
    | some g ↦
        let r₁ = delete_member_by_name g (r.sockets ws).name false r in
        call (terminate ws) (set_socket ws (record (r₁.sockets ws) { name = none }) r₁)
  ]

  -- the body of the loop of `fn_broadcast`; a unit deleted on the way is not visited
  unfoldable pub broadcast_unit :
      ℕ → M → Bool → Option Json → Option String → String → Rooms M → Rooms M
  broadcast_unit g message is_binary sender actor unit r = elim (get unit (r.groups g).units) [
    | none ↦ r
    | some ws ↦ elim (r.sockets ws).login_request [
      | none ↦ handle_orphan_socket ws r
      | some login ↦
          if is_recipient sender actor login
          then if (r.sockets ws).send_throws
            then handle_orphan_socket ws r
            else call (send ws message is_binary) r
          else r
    ]
  ]

  unfoldable pub broadcast_units :
      ℕ → M → Bool → Option Json → Option String → List String → Rooms M → Rooms M
  broadcast_units g message is_binary sender actor [] r = r
  broadcast_units g message is_binary sender actor (u ∷ us) r =
      broadcast_units g message is_binary sender actor us
        (broadcast_unit g message is_binary sender actor u r)

  -- `Group.fn_broadcast`; `fn_broadcastToGCS` gives "g" and `fn_broadcastToDrone` "d"
  unfoldable pub broadcast : ℕ → M → Bool → Option Json → Option String → Rooms M → Rooms M
  broadcast g message is_binary sender actor r =
      broadcast_units g message is_binary sender actor (keys (r.groups g).units) r

  unfoldable pub broadcast_groups :
      List ℕ → M → Bool → Option Json → Option String → Rooms M → Rooms M
  broadcast_groups [] message is_binary sender actor r = r
  broadcast_groups (g ∷ gs) message is_binary sender actor r =
      broadcast_groups gs message is_binary sender actor
        (broadcast g message is_binary sender actor r)

  unfoldable pub broadcast_accounts :
      List ℕ → M → Bool → Option Json → Option String → Rooms M → Rooms M
  broadcast_accounts [] message is_binary sender actor r = r
  broadcast_accounts (a ∷ as') message is_binary sender actor r =
      broadcast_accounts as' message is_binary sender actor
        (broadcast_groups (values (r.accounts a).groups) message is_binary sender actor r)

  -- `fn_sendToAll`, `fn_sendToAllGCS`, `fn_sendToAllAgent`
  unfoldable pub send_to_all : Option String → M → Bool → Option Json → Rooms M → Rooms M
  send_to_all actor message is_binary sender r =
      broadcast_accounts (values r.c_accounts) message is_binary sender actor r

  -- `fn_sendToAllGCSInAccount`, at an account id that is no inherited property
  unfoldable pub send_to_all_gcs_in_account :
      M → Bool → Option Json → String → Rooms M → Rooms M × Bool
  send_to_all_gcs_in_account message is_binary sender account r = elim (get account r.c_accounts) [
    | none ↦ (r, false)
    | some a ↦ (
      broadcast_groups (values (r.accounts a).groups) message is_binary sender (some "g") r,
      true,
    )
  ]

  -- `fn_sendToAccountGroup`; `none` is the exception that an inherited account name makes, and a
  -- group name that is inherited makes
  unfoldable pub send_to_account_group :
      M → Bool → Option Json → String → String → Option String → Rooms M → Rooms M × Option Bool
  send_to_account_group message is_binary sender account group actor r =
      elim (read account r.c_accounts) [
        | inherited ↦ (r, none)
        | undefined ↦ (r, some false)
        | own a ↦ elim (read group (r.accounts a).groups) [
          | inherited ↦ (r, none)
          | undefined ↦ (r, some false)
          | own g ↦ (broadcast g message is_binary sender actor r, some true)
        ]
      ]

  -- `Group.fn_sendToIndividual`. The handler of its `catch` names a variable of the `try` block, so
  -- a send that throws, and a target that is an inherited name, throw out of the function.
  unfoldable pub send_to_individual : ℕ → M → Bool → String → Rooms M → Rooms M × Sent
  send_to_individual g message is_binary target r = elim (read target (r.groups g).units) [
    | inherited ↦ (r, threw)
    | undefined ↦ (r, not_found)
    | own ws ↦
        if (r.sockets ws).send_throws
        then (r, threw)
        else (call (send ws message is_binary) r, delivered)
  ]

  -- `fn_sendTIndividualId`, whose callback does nothing in every call: the checks on the sender,
  -- found under the key `from_key`
  unfoldable pub may_send_to : String → Option Json → ℕ → Rooms M → Bool
  may_send_to from_key group_id ws r =
      let target_group = (r.sockets ws).group in
      elim (read from_key r.active_senders) [
        | own from ↦ same_group (r.sockets from).group target_group
        | inherited ↦ same_group none target_group
        | undefined ↦ same_group none target_group || (elim group_id [
          | none ↦ false
          | some id ↦ elim target_group [
            | none ↦ false
            | some g ↦ same_id (r.groups g).id (some id)
          ]
        ])
      ]

  unfoldable pub send_to_individual_id :
      M → Bool → String → String → Option Json → Rooms M → Rooms M
  send_to_individual_id message is_binary target from_key group_id r =
      elim (read target r.active_senders) [
        | inherited ↦ r
        | undefined ↦ r
        | own ws ↦
            if (r.sockets ws).ready_state == 1
              && may_send_to from_key group_id ws r
              && not (r.sockets ws).send_throws
            then call (send ws message is_binary) r
            else r
      ]
