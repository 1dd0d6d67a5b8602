-- ===== src/Udp/Blocking.antt =====
-- About the flag that blocks a proxy: the invariant, and the events that do not touch it.
use droneengage_server.Base.{
  ℕ, suc, ◌<◌, ◌≡◌, refl, Bool, true, false, some, String, get, arith, inl, inr, Option-cases,
  Bool-cases, ◌==◌, ◌&&◌, ◌∙◌,
}
use droneengage_server.Udp.{
  Udp, UdpSocket, Address, Callback, Environment, update, close_socket, close_end, close_proxy,
  send_message, send_end, on_socket_receive, on_message,
}
use droneengage_server.Udp.Registry.{
  keep_ports, notify_unit_proxy_closed, start_reaper, on_complete, on_ready, on_listening,
  on_address_in_use,
}

-- Entries have proxies of their own and one name each, and an entry's flag is its proxy's.
pub record IsFlagged {M : Type 0} (u : Udp M) : Type 0 where
  pub proxy_made : (e : ℕ) → e < u.next_entry → (u.entries e).udpproxy < u.next_proxy
  pub own_proxy :
      (e f : ℕ)
      → e < u.next_entry
      → f < u.next_entry
      → (u.entries e).udpproxy ≡ (u.entries f).udpproxy
      → e ≡ f
  pub flag :
      (e : ℕ)
      → e < u.next_entry
      → (u.proxies (u.entries e).udpproxy).blocked ≡ (u.entries e).admin_blocked
  pub listed : (name : String) (e : ℕ) → get name u.active_udp_proxy ≡ some e → e < u.next_entry
  pub one_name :
      (n m : String) (e : ℕ)
      → get n u.active_udp_proxy ≡ some e
      → get m u.active_udp_proxy ≡ some e
      → n ≡ m

-- Two states that agree in all that the invariant reads.
pub record SameFlags {M : Type 0} (u v : Udp M) : Type 0 where
  pub same_next_entry : v.next_entry ≡ u.next_entry
  pub same_next_proxy : v.next_proxy ≡ u.next_proxy
  pub same_proxy : (e : ℕ) → (v.entries e).udpproxy ≡ (u.entries e).udpproxy
  pub same_admin : (e : ℕ) → (v.entries e).admin_blocked ≡ (u.entries e).admin_blocked
  pub same_blocked : (p : ℕ) → (v.proxies p).blocked ≡ (u.proxies p).blocked
  pub was_listed :
      (name : String) (e : ℕ)
      → get name v.active_udp_proxy ≡ some e
      → get name u.active_udp_proxy ≡ some e

module _ {M : Type 0} where
  pub SameFlags-IsFlagged : (u v : Udp M) → SameFlags u v → IsFlagged u → IsFlagged v
  SameFlags-IsFlagged u v s i = record {
    proxy_made =
        λ e h. ground (arith, s.same_next_entry, s.same_next_proxy, s.same_proxy e, i.proxy_made e);
    own_proxy = λ e f h k q.
        ground (arith, s.same_next_entry, s.same_proxy e, s.same_proxy f, i.own_proxy e f);
    flag = λ e h. ground (
      arith,
      s.same_next_entry,
      s.same_proxy e,
      s.same_admin e,
      s.same_blocked (u.entries e).udpproxy,
      i.flag e,
    );
    listed = λ name e h. ground (arith, s.same_next_entry, s.was_listed name e, i.listed name e);
    one_name = λ n m e h k. i.one_name n m e (s.was_listed n e h) (s.was_listed m e k);
  }

  pub SameFlags-refl : (u : Udp M) → SameFlags u u
  SameFlags-refl u = record {
    same_next_entry = refl;
    same_next_proxy = refl;
    same_proxy = λ e. refl;
    same_admin = λ e. refl;
    same_blocked = λ p. refl;
    was_listed = λ name e h. h;
  }

  pub close_proxy-SameFlags : (p : ℕ) (u : Udp M) → SameFlags u (close_proxy p u)
  unfolding close_proxy close_end close_socket
  close_proxy-SameFlags p u = record {
    same_next_entry = ground arith;
    same_next_proxy = ground arith;
    same_proxy = λ e. ground arith;
    same_admin = λ e. ground arith;
    same_blocked = λ q. ground arith;
    was_listed = λ name e h. ground arith;
  }

  pub on_message-SameFlags :
      (s : ℕ) (m : M) (remote : Address) (now : ℕ) (u : Udp M)
      → SameFlags u (on_message s m remote now u)
  unfolding on_message on_socket_receive send_end send_message
  on_message-SameFlags s m remote now u = record {
    same_next_entry = ground arith;
    same_next_proxy = ground arith;
    same_proxy = λ e. ground arith;
    same_admin = λ e. ground arith;
    same_blocked = λ q. ground arith;
    was_listed = λ name e h. ground arith;
  }

  pub keep_ports-SameFlags :
      (env : Environment) (e : ℕ) (u : Udp M) → SameFlags u (keep_ports env e u)
  unfolding keep_ports
  keep_ports-SameFlags env e u = record {
    same_next_entry = ground arith;
    same_next_proxy = ground arith;
    same_proxy = λ f. ground arith;
    same_admin = λ f. ground arith;
    same_blocked = λ q. ground arith;
    was_listed = λ name f h. ground arith;
  }

  on_complete-SameFlags :
      (env : Environment) (k : Callback) (b : Bool) (now : ℕ) (u : Udp M)
      → SameFlags u (on_complete env k b now u)
  unfolding on_complete start_reaper notify_unit_proxy_closed keep_ports
  on_complete-SameFlags env k b now u = record {
    same_next_entry = ground arith;
    same_next_proxy = ground arith;
    same_proxy = λ f. ground arith;
    same_admin = λ f. ground arith;
    same_blocked = λ q. ground arith;
    was_listed = λ name f h. ground arith;
  }

  pub SameFlags-trans : (u v w : Udp M) → SameFlags u v → SameFlags v w → SameFlags u w
  SameFlags-trans u v w h k = record {
    same_next_entry = k.same_next_entry ∙ h.same_next_entry;
    same_next_proxy = k.same_next_proxy ∙ h.same_next_proxy;
    same_proxy = λ e. k.same_proxy e ∙ h.same_proxy e;
    same_admin = λ e. k.same_admin e ∙ h.same_admin e;
    same_blocked = λ p. k.same_blocked p ∙ h.same_blocked p;
    was_listed = λ name e q. h.was_listed name e (k.was_listed name e q);
  }

  on_ready-SameFlags :
      (env : Environment) (p : ℕ) (b : Bool) (now : ℕ) (u : Udp M)
      → SameFlags u (on_ready env p b now u)
  unfolding on_ready
  on_ready-SameFlags env p b now u =
      let proxy = u.proxies p in
      let u₁ = record u {
        proxies = update u.proxies p (record proxy {
          ready_proxy = proxy.ready_proxy && b;
          ready_counter = suc proxy.ready_counter;
        });
      } in
      let counted : SameFlags u u₁ = record {
        same_next_entry = refl;
        same_next_proxy = refl;
        same_proxy = λ e. refl;
        same_admin = λ e. refl;
        same_blocked = λ q. ground arith;
        was_listed = λ name e h. h;
      } in
      let completed = on_complete-SameFlags env proxy.callback (proxy.ready_proxy && b) now u₁ in
      elim (Bool-cases (suc proxy.ready_counter == 2)) [
        | inl e ↦ rw e (
            SameFlags-trans u u₁ (on_complete env proxy.callback (proxy.ready_proxy && b) now u₁)
              counted completed)
        | inr e ↦ rw e counted
      ]

  socket-SameFlags :
      (s : ℕ) (x : UdpSocket) (u : Udp M)
      → SameFlags u (record u { sockets = update u.sockets s x })
  socket-SameFlags s x u = record {
    same_next_entry = refl;
    same_next_proxy = refl;
    same_proxy = λ e. refl;
    same_admin = λ e. refl;
    same_blocked = λ q. refl;
    was_listed = λ name e h. h;
  }

  pub on_listening-SameFlags :
      (env : Environment) (s : ℕ) (bound : Address) (now : ℕ) (u : Udp M)
      → SameFlags u (on_listening env s bound now u)
  unfolding on_listening
  on_listening-SameFlags env s bound now u = elim (Option-cases (u.sockets s).parent) [
    | inl e ↦ rw (e, on_listening) (SameFlags-refl u)
    | inr (p, e) ↦
        let x = record (u.sockets s) {
          bound_port = bound.port;
          host = bound.address;
          is_ready = true;
        } in
        let v = record u { sockets = update u.sockets s x } in
        rw (e, on_listening)
          (SameFlags-trans u v (on_ready env p true now v) (socket-SameFlags s x u)
            (on_ready-SameFlags env p true now v))
  ]

  pub on_address_in_use-SameFlags :
      (env : Environment) (s now : ℕ) (u : Udp M) → SameFlags u (on_address_in_use env s now u)
  unfolding on_address_in_use
  on_address_in_use-SameFlags env s now u = elim (Option-cases (u.sockets s).parent) [
    | inl e ↦ rw (e, on_address_in_use) (SameFlags-refl u)
    | inr (p, e) ↦
        let x = record (u.sockets s) { is_ready = false } in
        let v = record u { sockets = update u.sockets s x } in
        rw (e, on_address_in_use)
          (SameFlags-trans u v (on_ready env p false now v) (socket-SameFlags s x u)
            (on_ready-SameFlags env p false now v))
  ]
