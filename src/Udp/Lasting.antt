-- ===== src/Udp/Lasting.antt =====
-- About the flag that blocks a proxy: the functions on the table of proxies.
use droneengage_server.Base.{
  ℕ, ◌<◌, refl, Bool, true, String, get, read, arith, get-put, eq_iff, get-erase, inl, inr,
  Option-cases,
}
use droneengage_server.Udp.{
  Udp, Callback, refreshed, Environment, act, new_socket, new_proxy, close_proxy, set_blocked,
  get_config, reply,
}
use droneengage_server.Udp.Registry.{
  set_entry, recreate_proxy, set_proxy_blocked, close_udp_socket, open_udp_socket, get_udp_socket,
  or_else,
}
use droneengage_server.Udp.Blocking.{
  IsFlagged, SameFlags, SameFlags-IsFlagged, SameFlags-refl, close_proxy-SameFlags,
}

module _ {M : Type 0} where
  replaced-IsFlagged :
      (env : Environment) (e port1 port2 : ℕ) (callback : Callback) (now : ℕ) (u : Udp M)
      → IsFlagged u
      → e < u.next_entry
      → let made = new_proxy port1 port2 callback u in
        let u₃ = set_entry e (record (made.1.entries e) { udpproxy = made.0 }) made.1 in
        let u₄ = set_blocked made.0 (u₃.entries e).admin_blocked u₃ in
        IsFlagged (set_entry e (record (u₄.entries e) { last_access = now }) u₄)
  unfolding new_proxy new_socket set_blocked
  replaced-IsFlagged env e port1 port2 callback now u i known = record {
    proxy_made = λ f h. ground (arith, i.proxy_made f);
    own_proxy = λ f g h k q. ground (arith, i.own_proxy f g, i.proxy_made f, i.proxy_made g);
    flag = λ f h. ground (arith, i.flag f, i.proxy_made f, i.own_proxy e f);
    listed = λ name f h. i.listed name f h;
    one_name = λ n m f h k. i.one_name n m f h k;
  }

  pub recreate_proxy-IsFlagged :
      (env : Environment) (e : ℕ) (callback : Callback) (now : ℕ) (u : Udp M)
      → IsFlagged u
      → e < u.next_entry
      → IsFlagged (recreate_proxy env e callback now u)
  unfolding recreate_proxy
  recreate_proxy-IsFlagged env e callback now u i known =
      let entry = u.entries e in
      let config = get_config env entry.udpproxy u in
      let u₁ = close_proxy entry.udpproxy u in
      let same = close_proxy-SameFlags entry.udpproxy u in
      replaced-IsFlagged env e (or_else entry.socket1_port config.socket1.port)
        (or_else entry.socket2_port config.socket2.port) callback now u₁
        (SameFlags-IsFlagged u u₁ same i) (rw same.same_next_entry known)

  pub set_proxy_blocked-IsFlagged :
      (name : String) (b : Bool) (u : Udp M)
      → IsFlagged u
      → IsFlagged (set_proxy_blocked name b u).0
  unfolding set_proxy_blocked set_blocked read
  set_proxy_blocked-IsFlagged name b u i = elim (Option-cases (get name u.active_udp_proxy)) [
    | inl h ↦ ground (arith, h, i)
    | inr (e, h) ↦
        let known = i.listed name e h in
        rw (h, set_proxy_blocked, read)
          (record {
            proxy_made = λ f k. ground (arith, i.proxy_made f);
            own_proxy = λ f g k l q. ground (arith, i.own_proxy f g);
            flag = λ f k. ground (arith, i.flag f, i.own_proxy e f);
            listed = λ n f k. i.listed n f k;
            one_name = λ n m f k l. i.one_name n m f k l;
          })
  ]

  pub close_udp_socket-SameFlags :
      (env : Environment) (name : String) (u : Udp M) → SameFlags u (close_udp_socket env name u).0
  unfolding close_udp_socket
  close_udp_socket-SameFlags env name u = elim (Option-cases (get name u.active_udp_proxy)) [
    | inl h ↦ rw (h, close_udp_socket) (SameFlags-refl u)
    | inr (e, h) ↦
        let s = close_proxy-SameFlags (u.entries e).udpproxy u in
        rw (h, close_udp_socket)
          (record {
            same_next_entry = s.same_next_entry;
            same_next_proxy = s.same_next_proxy;
            same_proxy = s.same_proxy;
            same_admin = s.same_admin;
            same_blocked = s.same_blocked;
            was_listed = λ n f k. s.was_listed n f (
                ground (
                  arith,
                  get-erase name n (close_proxy (u.entries e).udpproxy u).active_udp_proxy,
                ));
          })
  ]

  open_udp_socket-IsFlagged :
      (name : String) (port1 port2 now : ℕ) (u : Udp M)
      → IsFlagged u
      → IsFlagged (open_udp_socket name port1 port2 now u)
  unfolding open_udp_socket new_proxy new_socket
  open_udp_socket-IsFlagged name port1 port2 now u i = record {
    proxy_made = λ f h. ground (arith, i.proxy_made f);
    own_proxy = λ f g h k q. ground (arith, i.own_proxy f g, i.proxy_made f, i.proxy_made g);
    flag = λ f h. ground (arith, i.flag f, i.proxy_made f);
    listed = λ n f h. ground (arith, get-put name n u.next_entry u.active_udp_proxy, i.listed n f);
    one_name = λ n m f h k. ground (
      arith,
      get-put name n u.next_entry u.active_udp_proxy,
      get-put name m u.next_entry u.active_udp_proxy,
      eq_iff name n,
      eq_iff name m,
      i.listed n f,
      i.listed m f,
      i.one_name n m f,
    );
  }

  pub get_udp_socket-IsFlagged :
      (env : Environment) (name : String) (port1 port2 now : ℕ) (u : Udp M)
      → IsFlagged u
      → IsFlagged (get_udp_socket env name port1 port2 now u)
  unfolding get_udp_socket
  get_udp_socket-IsFlagged env name port1 port2 now u i =
      elim (Option-cases (get name u.active_udp_proxy)) [
        | inl h ↦ rw (h, get_udp_socket) (open_udp_socket-IsFlagged name port1 port2 now u i)
        | inr (e, h) ↦
            let config = get_config env (u.entries e).udpproxy u in
            let touched =
              act (reply name config true)
                (set_entry e (record (u.entries e) { last_access = now }) u) in
            let used : SameFlags u touched = record {
              same_next_entry = refl;
              same_next_proxy = refl;
              same_proxy = λ f. ground arith;
              same_admin = λ f. ground arith;
              same_blocked = λ q. refl;
              was_listed = λ n f k. k;
            } in
            let closed = (close_udp_socket env name u).0 in
            let closed-flagged =
              SameFlags-IsFlagged u closed (close_udp_socket-SameFlags env name u) i in
            rw (h, get_udp_socket)
              (ground (
                arith,
                SameFlags-IsFlagged u touched used i,
                recreate_proxy-IsFlagged env e (refreshed name e) now u i (i.listed name e h),
                open_udp_socket-IsFlagged name port1 port2 now closed closed-flagged,
              ))
      ]
