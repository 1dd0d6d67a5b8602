-- ===== src/Udp/Logged.antt =====
-- About js_udp_proxy.js: whom a request for a proxy, or its end, answers at once.
use droneengage_server.Base.{
  ℕ, ◌≡◌, refl, sym, true, ◌&&◌, Option, none, some, List, [], ◌∷◌, ◌++◌, append_assoc, append-nil,
  String, get, inl, inr, Bool-cases, Option-cases, All, All-append,
}
use droneengage_server.Udp.{
  Udp, Action, bind, close, send, reply, notify_closed, Callback, refreshed, Environment, new_proxy,
  new_socket, close_socket, close_end, close_proxy, set_blocked, get_config, proxy_is_ready,
}
use droneengage_server.Udp.Registry.{
  asks_for, recreate_proxy, close_udp_socket, open_udp_socket, get_udp_socket,
}

-- no reply but to one unit
abbrev pub OnlyTo : {M : Type 0} → String → Action M → Type 0
OnlyTo unit (reply name config en) = name ≡ unit
OnlyTo unit (bind s port) = Unit
OnlyTo unit (close s) = Unit
OnlyTo unit (send s m a) = Unit
OnlyTo unit (notify_closed name) = Unit

-- The actions from one state to a later one reply to no other unit.
abbrev pub Logs : {M : Type 0} → String → Udp M → Udp M → Type 0
Logs {M} unit u v = (as' : List (Action M)) × (v.actions ≡ u.actions ++ as') × All (OnlyTo unit) as'

module _ {M : Type 0} (unit : String) where
  pub Logs-refl : (u : Udp M) → Logs unit u u
  Logs-refl u = ([], sym (append-nil u.actions), tt)

  pub Logs-trans : (u v x : Udp M) → Logs unit u v → Logs unit v x → Logs unit u x
  Logs-trans u v x (as', e, h) (bs, f, k) =
      (as' ++ bs, rw (f, e) (append_assoc u.actions as' bs), All-append (OnlyTo unit) as' bs h k)

  close_end-Logs : (end : Option ℕ) (u : Udp M) → Logs unit u (close_end end u)
  unfolding close_end close_socket
  close_end-Logs none u = Logs-refl u
  close_end-Logs (some s) u = (close s ∷ [], refl, (tt, tt))

  pub close_proxy-Logs : (p : ℕ) (u : Udp M) → Logs unit u (close_proxy p u)
  unfolding close_proxy
  close_proxy-Logs p u =
      let proxy = u.proxies p in
      let v = close_end proxy.udp_socket1 u in
      Logs-trans u v (close_end proxy.udp_socket2 v) (close_end-Logs proxy.udp_socket1 u)
        (close_end-Logs proxy.udp_socket2 v)

  new_proxy-Logs :
      (p q : ℕ) (callback : Callback) (u : Udp M) → Logs unit u (new_proxy p q callback u).1
  unfolding new_proxy new_socket
  new_proxy-Logs p q callback u =
      (bind u.next_socket p ∷ bind _ q ∷ [], append_assoc u.actions _ _, (tt, (tt, tt)))

  module _ (env : Environment) where
    recreate_proxy-Logs :
        (e : ℕ) (callback : Callback) (now : ℕ) (u : Udp M)
        → Logs unit u (recreate_proxy env e callback now u)
    unfolding recreate_proxy set_blocked
    recreate_proxy-Logs e callback now u =
        let v = close_proxy (u.entries e).udpproxy u in
        Logs-trans u v (new_proxy _ _ callback v).1 (close_proxy-Logs (u.entries e).udpproxy u)
          (new_proxy-Logs _ _ callback v)

    pub close_udp_socket-Logs :
        (name : String) (u : Udp M) → Logs unit u (close_udp_socket env name u).0
    unfolding close_udp_socket
    close_udp_socket-Logs name u = elim (Option-cases (get name u.active_udp_proxy)) [
      | inl e ↦ rw (e, close_udp_socket) (Logs-refl u)
      | inr (x, e) ↦ rw (e, close_udp_socket) (close_proxy-Logs (u.entries x).udpproxy u)
    ]

    pub open_udp_socket-Logs :
        (name : String) (p q now : ℕ) (u : Udp M) → Logs unit u (open_udp_socket name p q now u)
    unfolding open_udp_socket
    open_udp_socket-Logs name p q now u =
        new_proxy-Logs p q _ (record u { active_udp_proxy = _; next_entry = _ })

    pub reopen-Logs :
        (name : String) (p q now : ℕ) (u : Udp M)
        → Logs unit u (open_udp_socket name p q now (close_udp_socket env name u).0)
    reopen-Logs name p q now u =
        let v = (close_udp_socket env name u).0 in
        Logs-trans u v (open_udp_socket name p q now v) (close_udp_socket-Logs name u)
          (open_udp_socket-Logs name p q now v)

module _ {M : Type 0} (env : Environment) (unit : String) where
  pub get_udp_socket-Logs :
      (p q now : ℕ) (u : Udp M) → Logs unit u (get_udp_socket env unit p q now u)
  unfolding get_udp_socket
  get_udp_socket-Logs p q now u = elim (Option-cases (get unit u.active_udp_proxy)) [
    | inl e ↦ rw (e, get_udp_socket) (open_udp_socket-Logs unit env unit p q now u)
    | inr (x, e) ↦
        let config = get_config env (u.entries x).udpproxy u in
        elim (Bool-cases (asks_for p config.socket1.port && asks_for q config.socket2.port)) [
          | inr a ↦ rw (e, a, get_udp_socket) (reopen-Logs unit env unit p q now u)
          | inl a ↦ elim (Bool-cases (proxy_is_ready (u.entries x).udpproxy u)) [
            | inl r ↦ rw (e, a, r, get_udp_socket) (reply unit config true ∷ [], refl, (refl, tt))
            | inr r ↦
                rw (e, a, r, get_udp_socket)
                  (recreate_proxy-Logs unit env x (refreshed unit x) now u)
          ]
        ]
  ]
