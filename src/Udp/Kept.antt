-- ===== src/Udp/Kept.antt =====
-- About the flag that blocks a proxy: which events leave an entry its flag.
use droneengage_server.Base.{
  ℕ, ◌-◌, ◌*◌, ◌&&◌, ◌∙◌, ◌<◌, ◌≡◌, refl, true, Option, none, some, List, [], ◌∷◌, String, get,
  erase, keys, if◌then◌else◌, arith, get-put, inl, inr, Option-cases, ltb,
}
use droneengage_server.Udp.{
  Udp, Callback, refreshed, health_checked, resumed, reply, act, Environment, new_socket, new_proxy,
  close_proxy, set_blocked, get_config,
}
use droneengage_server.Udp.Registry.{
  set_entry, recreate_proxy, notify_unit_proxy_closed, close_udp_socket, open_udp_socket,
  get_udp_socket, or_else,
}
use droneengage_server.Udp.Reaper.{recover_all, reap_entry, reap, reaper_tick, reaper_interval_ms}
use droneengage_server.Udp.Blocking.{SameFlags, SameFlags-trans, close_proxy-SameFlags}
use droneengage_server.Udp.Lasting.{close_udp_socket-SameFlags}
use droneengage_server.Udp.Silence.{forgotten-SameFlags}

-- The entry is still there with its flag, under no name that it had not.
pub record Kept {M : Type 0} (e : ℕ) (u v : Udp M) : Type 0 where
  pub known : e < v.next_entry
  pub same_flag : (v.entries e).admin_blocked ≡ (u.entries e).admin_blocked
  pub no_new_name :
      (n : String) → get n v.active_udp_proxy ≡ some e → get n u.active_udp_proxy ≡ some e

module _ {M : Type 0} (e : ℕ) where
  pub SameFlags-Kept : (u v : Udp M) → SameFlags u v → e < u.next_entry → Kept e u v
  SameFlags-Kept u v s h = record {
    known = ground (arith, s.same_next_entry);
    same_flag = s.same_admin e;
    no_new_name = λ n k. s.was_listed n e k;
  }

  pub Kept-refl : (u : Udp M) → e < u.next_entry → Kept e u u
  Kept-refl u h = record { known = h; same_flag = refl; no_new_name = λ n k. k }

  Kept-trans : (u v w : Udp M) → Kept e u v → Kept e v w → Kept e u w
  Kept-trans u v w h k = record {
    known = k.known;
    same_flag = k.same_flag ∙ h.same_flag;
    no_new_name = λ n l. h.no_new_name n (k.no_new_name n l);
  }

  replaced-Kept :
      (f port1 port2 : ℕ) (callback : Callback) (now : ℕ) (u : Udp M)
      → e < u.next_entry
      → let made = new_proxy port1 port2 callback u in
        let u₃ = set_entry f (record (made.1.entries f) { udpproxy = made.0 }) made.1 in
        let u₄ = set_blocked made.0 (u₃.entries f).admin_blocked u₃ in
        Kept e u (set_entry f (record (u₄.entries f) { last_access = now }) u₄)
  unfolding new_proxy new_socket set_blocked
  replaced-Kept f port1 port2 callback now u h = record {
    known = h;
    same_flag = ground arith;
    no_new_name = λ n k. k;
  }

  recreate_proxy-Kept :
      (env : Environment) (f : ℕ) (callback : Callback) (now : ℕ) (u : Udp M)
      → e < u.next_entry
      → Kept e u (recreate_proxy env f callback now u)
  unfolding recreate_proxy
  recreate_proxy-Kept env f callback now u h =
      let entry = u.entries f in
      let config = get_config env entry.udpproxy u in
      let u₁ = close_proxy entry.udpproxy u in
      let closed = SameFlags-Kept u u₁ (close_proxy-SameFlags entry.udpproxy u) h in
      Kept-trans u u₁ (recreate_proxy env f callback now u) closed (
        replaced-Kept f (or_else entry.socket1_port config.socket1.port)
          (or_else entry.socket2_port config.socket2.port) callback now u₁ closed.known)

  recover_all-Kept :
      (env : Environment) (names : List String) (now : ℕ) (u : Udp M)
      → e < u.next_entry
      → Kept e u (recover_all env names now u)
  unfolding recover_all
  recover_all-Kept env [] now u h = Kept-refl u h
  recover_all-Kept env (name ∷ names) now u h = elim (Option-cases (get name u.active_udp_proxy)) [
    | inl k ↦ rw (k, recover_all) (recover_all-Kept env names now u h)
    | inr (f, k) ↦
        let v = recreate_proxy env f (resumed name f) now u in
        let made = recreate_proxy-Kept env f (resumed name f) now u h in
        rw (k, recover_all)
          (Kept-trans u v (recover_all env names now v) made
            (recover_all-Kept env names now v made.known))
  ]

  reap_entry-Kept :
      (env : Environment) (name : String) (f now : ℕ) (u : Udp M)
      → e < u.next_entry
      → Kept e u (reap_entry env name f now u)
  unfolding reap_entry
  reap_entry-Kept env name f now u h =
      let closed = close_proxy (u.entries f).udpproxy u in
      let left =
        notify_unit_proxy_closed env name
          (record closed { active_udp_proxy = erase name closed.active_udp_proxy }) in
      let removed =
        SameFlags-Kept u left
          (SameFlags-trans u closed left (close_proxy-SameFlags (u.entries f).udpproxy u)
            (forgotten-SameFlags env name closed))
          h in
      ground
        (arith, Kept-refl u h, removed, recreate_proxy-Kept env f (health_checked name f) now u h)

  reap-Kept :
      (env : Environment) (names : List String) (now : ℕ) (u : Udp M)
      → e < u.next_entry
      → Kept e u (reap env names now u)
  unfolding reap
  reap-Kept env [] now u h = Kept-refl u h
  reap-Kept env (name ∷ names) now u h = elim (Option-cases (get name u.active_udp_proxy)) [
    | inl k ↦ rw (k, reap) (reap-Kept env names now u h)
    | inr (f, k) ↦
        let v = reap_entry env name f now u in
        let one = reap_entry-Kept env name f now u h in
        rw (k, reap)
          (Kept-trans u v (reap env names now v) one (reap-Kept env names now v one.known))
  ]

  ticked-Kept : (t : Option ℕ) (u v : Udp M) → Kept e u v → Kept e u (record v { reaper = t })
  ticked-Kept t u v k = record {
    known = k.known;
    same_flag = k.same_flag;
    no_new_name = k.no_new_name;
  }

  pub reaper_tick-Kept :
      (env : Environment) (now : ℕ) (u : Udp M)
      → e < u.next_entry
      → Kept e u (reaper_tick env now u)
  unfolding reaper_tick
  reaper_tick-Kept env now u h = elim (Option-cases u.reaper) [
    | inl k ↦ ground (arith, k, Kept-refl u h)
    | inr (last, k) ↦
        let late = ltb 0 last && ltb (reaper_interval_ms * 3) (now - last) in
        let u₁ = if late then recover_all env (keys u.active_udp_proxy) now u else u in
        let recovered : Kept e u u₁ =
          ground (arith, Kept-refl u h, recover_all-Kept env (keys u.active_udp_proxy) now u h) in
        let u₂ = record u₁ { reaper = some now } in
        let u₃ = reap env (keys u₂.active_udp_proxy) now u₂ in
        let reaped =
          Kept-trans u u₂ u₃ (ticked-Kept (some now) u u₁ recovered)
            (reap-Kept env (keys u₂.active_udp_proxy) now u₂ recovered.known) in
        rw (k, reaper_tick) (ground (arith, reaped, ticked-Kept none u u₃ reaped))
  ]

  open_udp_socket-Kept :
      (name : String) (port1 port2 now : ℕ) (u : Udp M)
      → e < u.next_entry
      → Kept e u (open_udp_socket name port1 port2 now u)
  unfolding open_udp_socket new_proxy new_socket
  open_udp_socket-Kept name port1 port2 now u h = record {
    known = ground arith;
    same_flag = ground arith;
    no_new_name = λ n k. ground (arith, get-put name n u.next_entry u.active_udp_proxy);
  }

  pub get_udp_socket-Kept :
      (env : Environment) (name : String) (port1 port2 now : ℕ) (u : Udp M)
      → e < u.next_entry
      → Kept e u (get_udp_socket env name port1 port2 now u)
  unfolding get_udp_socket
  get_udp_socket-Kept env name port1 port2 now u h =
      elim (Option-cases (get name u.active_udp_proxy)) [
        | inl k ↦ rw (k, get_udp_socket) (open_udp_socket-Kept name port1 port2 now u h)
        | inr (f, k) ↦
            let config = get_config env (u.entries f).udpproxy u in
            let touched =
              act (reply name config true)
                (set_entry f (record (u.entries f) { last_access = now }) u) in
            let used : Kept e u touched = record {
              known = h;
              same_flag = ground arith;
              no_new_name = λ n l. l;
            } in
            let closed = (close_udp_socket env name u).0 in
            let left = SameFlags-Kept u closed (close_udp_socket-SameFlags env name u) h in
            rw (k, get_udp_socket)
              (ground (
                arith,
                used,
                recreate_proxy-Kept env f (refreshed name f) now u h,
                Kept-trans u closed (open_udp_socket name port1 port2 now closed) left
                    (open_udp_socket-Kept name port1 port2 now closed left.known),
              ))
      ]
