-- ===== src/Auth/Login.antt =====
-- About `fn_handleLoginResponses` and `acceptConnection` together: the way of a login from the Auth server.
use droneengage_server.Base.{
  ℕ, ◌≡◌, refl, some, List, String, Dict, get, read, arith, get-put, eq_iff, Fields, str, set_prop,
  prop, str_prop, str_eq, none, true, false, Bool, if◌then◌else◌, prop-set_prop, get-erase, ap, ◌∙◌,
}
use droneengage_server.Constants.{const_cs_login_temp_key}
use droneengage_server.Connection.{
  Hub, admit, rooms_of, on_rooms, accept, accept_connection, inform, announced_login, delete_login,
}
use droneengage_server.Rooms.{Rooms, LoginRequest, call, send}
use droneengage_server.Connection.TempKeys.{accept-waiting}
use droneengage_server.Auth.{AuthState, PublicAddress, handle_login_responses, add_waiting_account}

-- the login that the Auth server's request and the connection's parameters make
abbrev pub login_of : Dict String → Fields → LoginRequest
login_of params d = record {
  sender_id = get "s" params;
  account_id = str_prop "a" d;
  group_id = str_prop "b" d;
  request_id = str_prop "r" d;
  actor_type = str_prop "at" d;
  prm = prop "prm" d;
}

prop-keyed :
    (key k : String) (d : Fields)
    → str_eq const_cs_login_temp_key k ≡ false
    → prop k (set_prop const_cs_login_temp_key (str key) d) ≡ prop k d
prop-keyed key k d h = prop-set_prop const_cs_login_temp_key k (str key) d ∙ rw h refl

str_prop-keyed :
    (key k : String) (d : Fields)
    → str_eq const_cs_login_temp_key k ≡ false
    → str_prop k (set_prop const_cs_login_temp_key (str key) d) ≡ str_prop k d
unfolding str_prop
str_prop-keyed key k d h = rw (prop-keyed key k d h, str_prop) refl

announced_login-login_of :
    (key : String) (d : Fields) (params : Dict String)
    → announced_login params (set_prop const_cs_login_temp_key (str key) d) ≡ login_of params d
unfolding announced_login
announced_login-login_of key d params =
    rw
      (
        str_prop-keyed key "a" d refl,
        str_prop-keyed key "b" d refl,
        str_prop-keyed key "r" d refl,
        str_prop-keyed key "at" d refl,
        prop-keyed key "prm" d refl,
      )
      refl

module _ {B : Type 0} (ok_message : ℕ → List B) where
  accept-rooms :
      (login : LoginRequest) (ws : ℕ) (h : Hub B)
      → let r = admit login ws (rooms_of h) in
        rooms_of (inform ok_message (accept ok_message login ws h))
        ≡ (if (r.sockets ws).send_throws then r else call (send ws (ok_message ws) false) r)
  unfolding accept inform
  accept-rooms login ws h = chosen (r.sockets ws).send_throws
    where
      r : Rooms (List B)
      r = admit login ws (rooms_of h)

      answered : Rooms (List B)
      answered = call (send ws (ok_message ws) false) r

      chosen :
          (b : Bool)
          → rooms_of (
              inform ok_message
                (if b then (on_rooms (λ _. r) h, true) else (on_rooms (λ _. answered) h, false)))
            ≡ (if b then r else answered)
      chosen true = refl
      chosen false = refl

  -- After the Auth server's login request was answered with a key, a connection with that key is admitted
  -- with the request's account, group, id, actor type and permission and the sender that the connection
  -- names, in the rooms as they were; the key is used up, and every other announced login waits as before.
  pub announced-accept :
      (at : PublicAddress) (key other : String) (d : Fields) (params : Dict String) (ws : ℕ)
      (s : AuthState B)
      → let t =
          accept_connection ok_message key params ws (handle_login_responses at key d s).hub in
        let r = admit (login_of params d) ws (rooms_of s.hub) in
        (rooms_of t
          ≡ (if (r.sockets ws).send_throws then r else call (send ws (ok_message ws) false) r))
        × (get other t.waiting_accounts
            ≡ (if str_eq key other then none else get other s.hub.waiting_accounts))
  unfolding accept_connection handle_login_responses add_waiting_account read delete_login
  announced-accept at key other d params ws s =
      let request = set_prop const_cs_login_temp_key (str key) d in
      let announced = (handle_login_responses at key d s).hub in
      let found : get key announced.waiting_accounts ≡ some request =
        ground (arith, get-put key key request s.hub.waiting_accounts, eq_iff key key) in
      let after = delete_login key announced in
      rw (accept_connection, found, announced_login-login_of key d params)
        (
          accept-rooms (login_of params d) ws after,
          ap (λ m. get other m) (accept-waiting ok_message (login_of params d) ws after)
              ∙ ground (
                arith,
                get-erase key other announced.waiting_accounts,
                get-put key other request s.hub.waiting_accounts,
                eq_iff key other,
              ),
        )
