-- ===== src/Connection/TempKeys.antt =====
-- About the temporary login keys: `fn_validateKey`, `acceptConnection` and `deleteLogin`.
use droneengage_server.Base.{
  ℕ, ◌≡◌, refl, Bool, false, Option, none, some, List, String, Dict, get, read, undefined,
  is_inherited, arith, get-erase, eq_iff, ◌∷◌, [], ◌++◌, ◌⊎◌, append-nil, inl, inr, Option-cases,
}
use droneengage_server.Constants.{const_cs_login_temp_key}
use droneengage_server.Rooms.{LoginRequest, Call, close, update}
use droneengage_server.Connection.{
  Hub, ConnectionConfig, rooms_of, close_socket, reject, accept, accept_connection, inform,
  announced_login, delete_login, validate_key, complete_connection,
}

module _ {B : Type 0} (ok_message : ℕ → List B) where
  pub accept-waiting :
      (login : LoginRequest) (ws : ℕ) (h : Hub B)
      → (inform ok_message (accept ok_message login ws h)).waiting_accounts ≡ h.waiting_accounts
  unfolding accept inform
  accept-waiting login ws h = ground arith

  accept_connection-waiting :
      (key : String) (params : Dict String) (ws : ℕ) (h : Hub B)
      → is_inherited key ≡ false
      → read key (accept_connection ok_message key params ws h).waiting_accounts ≡ undefined
  unfolding accept_connection delete_login read
  accept_connection-waiting key params ws h plain =
      elim (Option-cases (get key h.waiting_accounts)) [
        | inl e ↦ ground (arith, e, plain)
        | inr (request, e) ↦
            let login = announced_login params request in
            let after = delete_login key h in
            ground (
              arith,
              e,
              plain,
              accept-waiting login ws after,
              get-erase key key h.waiting_accounts,
              eq_iff key key,
            )
      ]

  -- A key that is no inherited property name admits at most one connection: a second one with the same
  -- key is rejected, with the state otherwise as the first one left it.
  pub accept_connection-once :
      (key : String) (params later : Dict String) (ws ws' : ℕ) (h : Hub B)
      → is_inherited key ≡ false
      → let first = accept_connection ok_message key params ws h in
        accept_connection ok_message key later ws' first ≡ reject ws' first
  unfolding accept_connection
  accept_connection-once key params later ws ws' h plain =
      rw (accept_connection-waiting key params ws h plain, accept_connection) refl

-- All that a refusal changes: the socket has no login, and it was closed, once or twice.
pub record Refused {B : Type 0} (ws : ℕ) (h s : Hub B) : Type 0 where
  pub before : List (Call (List B))
  pub closed_before : (before ≡ []) ⊎ (before ≡ close ws ∷ [])
  pub left : s ≡ (
      let r = rooms_of h in
      let sockets = update r.sockets ws (record (r.sockets ws) { login_request = none }) in
      let calls = (r.calls ++ before) ++ close ws ∷ [] in
      record h {
        server = record (h.server) { rooms = record r { sockets = sockets; calls = calls } };
      })

module _ {B : Type 0} (ws : ℕ) where
  reject-Refused : (h : Hub B) → Refused ws h (reject ws h)
  reject-Refused h = record {
    before = [];
    closed_before = inl refl;
    left = rw (append-nil (rooms_of h).calls) refl;
  }

  reject_closed-Refused : (h : Hub B) → Refused ws h (reject ws (close_socket ws h))
  reject_closed-Refused h = record { before = close ws ∷ []; closed_before = inr refl; left = refl }

module _ {B : Type 0} (ok_message : ℕ → List B) (is_alphanumeric : String → Bool) (ws : ℕ) where
  validate_key-closes :
      (key : Option String) (h : Hub B)
      → Refused ws h (reject ws (validate_key ok_message is_alphanumeric key ws h))
  unfolding validate_key
  validate_key-closes none h = ground (arith, reject-Refused ws h, reject_closed-Refused ws h)
  validate_key-closes (some k) h = ground (arith, reject-Refused ws h, reject_closed-Refused ws h)

  validate_key-waiting :
      (key : Option String) (h : Hub B)
      → (validate_key ok_message is_alphanumeric key ws h).waiting_accounts ≡ h.waiting_accounts
  unfolding validate_key
  validate_key-waiting none h = ground arith
  validate_key-waiting (some k) h = ground arith

  -- Without the local mode, a connection whose key is absent, or is neither announced nor the name of an
  -- inherited property, is refused: the socket is closed, once or twice, and left without a login, and the
  -- state is otherwise as it was.
  pub complete_connection-Refused :
      (config : ConnectionConfig) (params : Dict String) (h : Hub B)
      → config.local_server_enabled ≡ false
      → ((k : String)
          → get const_cs_login_temp_key params ≡ some k
          → read k h.waiting_accounts ≡ undefined)
      → Refused ws h (complete_connection ok_message is_alphanumeric config params ws h).0
  unfolding complete_connection accept_connection
  complete_connection-Refused config params h remote unknown =
      let key = get const_cs_login_temp_key params in
      let checked = validate_key ok_message is_alphanumeric key ws h in
      let closes = validate_key-closes key h in
      let same = validate_key-waiting key h in
      elim (Option-cases key) [
        | inl e ↦ rw (remote, e, complete_connection) closes
        | inr (k, e) ↦
            let missing : read k checked.waiting_accounts ≡ undefined = rw same (unknown k e) in
            rw (remote, e, complete_connection, accept_connection, missing) closes
      ]
