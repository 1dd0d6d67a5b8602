-- ===== src/Udp/Silence.antt =====
-- About the flag that blocks a proxy, over runs of events.
use droneengage_server.Base.{
  ℕ, ◌-◌, ◌*◌, ◌&&◌, ◌<◌, Option, none, some, List, [], ◌∷◌, String, get, erase, keys,
  if◌then◌else◌, arith, get-erase, inl, inr, Option-cases, ltb,
}
use droneengage_server.Udp.{Udp, health_checked, resumed, Environment, close_proxy, on_message}
use droneengage_server.Udp.Registry.{
  recreate_proxy, notify_unit_proxy_closed, on_listening, on_address_in_use, close_udp_socket,
}
use droneengage_server.Udp.Reaper.{
  recover_all, reap_entry, reap, reaper_tick, Event, received, listening, in_use, block, closing,
  opening, tick, step, reaper_interval_ms,
}
use droneengage_server.Udp.Blocking.{
  IsFlagged, SameFlags, SameFlags-IsFlagged, SameFlags-trans, close_proxy-SameFlags,
  on_message-SameFlags, on_listening-SameFlags, on_address_in_use-SameFlags,
}
use droneengage_server.Udp.Lasting.{
  recreate_proxy-IsFlagged, set_proxy_blocked-IsFlagged, close_udp_socket-SameFlags,
  get_udp_socket-IsFlagged,
}

module _ {M : Type 0} where
  recover_all-IsFlagged :
      (env : Environment) (names : List String) (now : ℕ) (u : Udp M)
      → IsFlagged u
      → IsFlagged (recover_all env names now u)
  unfolding recover_all
  recover_all-IsFlagged env [] now u i = i
  recover_all-IsFlagged env (name ∷ names) now u i =
      elim (Option-cases (get name u.active_udp_proxy)) [
        | inl h ↦ rw (h, recover_all) (recover_all-IsFlagged env names now u i)
        | inr (e, h) ↦
            rw (h, recover_all)
              (recover_all-IsFlagged env names now (recreate_proxy env e (resumed name e) now u)
                (recreate_proxy-IsFlagged env e (resumed name e) now u i (i.listed name e h)))
      ]

  pub forgotten-SameFlags :
      (env : Environment) (name : String) (u : Udp M)
      → SameFlags u (
          notify_unit_proxy_closed env name
            (record u { active_udp_proxy = erase name u.active_udp_proxy }))
  unfolding notify_unit_proxy_closed
  forgotten-SameFlags env name u = record {
    same_next_entry = ground arith;
    same_next_proxy = ground arith;
    same_proxy = λ f. ground arith;
    same_admin = λ f. ground arith;
    same_blocked = λ q. ground arith;
    was_listed = λ n f h. ground (arith, get-erase name n u.active_udp_proxy);
  }

  reap_entry-IsFlagged :
      (env : Environment) (name : String) (e now : ℕ) (u : Udp M)
      → IsFlagged u
      → e < u.next_entry
      → IsFlagged (reap_entry env name e now u)
  unfolding reap_entry
  reap_entry-IsFlagged env name e now u i known =
      let closed = close_proxy (u.entries e).udpproxy u in
      let left =
        notify_unit_proxy_closed env name
          (record closed { active_udp_proxy = erase name closed.active_udp_proxy }) in
      let removed =
        SameFlags-IsFlagged u left
          (SameFlags-trans u closed left (close_proxy-SameFlags (u.entries e).udpproxy u)
            (forgotten-SameFlags env name closed))
          i in
      ground
        (arith, i, removed, recreate_proxy-IsFlagged env e (health_checked name e) now u i known)

  reap-IsFlagged :
      (env : Environment) (names : List String) (now : ℕ) (u : Udp M)
      → IsFlagged u
      → IsFlagged (reap env names now u)
  unfolding reap
  reap-IsFlagged env [] now u i = i
  reap-IsFlagged env (name ∷ names) now u i = elim (Option-cases (get name u.active_udp_proxy)) [
    | inl h ↦ rw (h, reap) (reap-IsFlagged env names now u i)
    | inr (e, h) ↦
        rw (h, reap)
          (reap-IsFlagged env names now (reap_entry env name e now u)
            (reap_entry-IsFlagged env name e now u i (i.listed name e h)))
  ]

  ticked-IsFlagged : (t : Option ℕ) (u : Udp M) → IsFlagged u → IsFlagged (record u { reaper = t })
  ticked-IsFlagged t u i = record {
    proxy_made = i.proxy_made;
    own_proxy = i.own_proxy;
    flag = i.flag;
    listed = i.listed;
    one_name = i.one_name;
  }

  reaper_tick-IsFlagged :
      (env : Environment) (now : ℕ) (u : Udp M) → IsFlagged u → IsFlagged (reaper_tick env now u)
  unfolding reaper_tick
  reaper_tick-IsFlagged env now u i = elim (Option-cases u.reaper) [
    | inl h ↦ rw (h, reaper_tick) i
    | inr (last, h) ↦
        let late = ltb 0 last && ltb (reaper_interval_ms * 3) (now - last) in
        let u₁ = if late then recover_all env (keys u.active_udp_proxy) now u else u in
        let recovered : IsFlagged u₁ =
          ground (arith, i, recover_all-IsFlagged env (keys u.active_udp_proxy) now u i) in
        let u₂ = record u₁ { reaper = some now } in
        let u₃ = reap env (keys u₂.active_udp_proxy) now u₂ in
        let reaped =
          reap-IsFlagged env (keys u₂.active_udp_proxy) now u₂
            (ticked-IsFlagged (some now) u₁ recovered) in
        rw (h, reaper_tick) (ground (arith, reaped, ticked-IsFlagged none u₃ reaped))
  ]

  -- Every event keeps the flags of the entries and of their proxies the same.
  pub step-IsFlagged :
      (env : Environment) (now : ℕ) (e : Event M) (u : Udp M)
      → IsFlagged u
      → IsFlagged (step env now e u)
  unfolding step
  step-IsFlagged env now (received s m remote) u i =
      SameFlags-IsFlagged u (on_message s m remote now u) (on_message-SameFlags s m remote now u) i
  step-IsFlagged env now (listening s bound) u i =
      SameFlags-IsFlagged u (on_listening env s bound now u)
        (on_listening-SameFlags env s bound now u) i
  step-IsFlagged env now (in_use s) u i =
      SameFlags-IsFlagged u (on_address_in_use env s now u)
        (on_address_in_use-SameFlags env s now u) i
  step-IsFlagged env now (block name b) u i = set_proxy_blocked-IsFlagged name b u i
  step-IsFlagged env now (closing name) u i =
      SameFlags-IsFlagged u (close_udp_socket env name u).0 (close_udp_socket-SameFlags env name u)
        i
  step-IsFlagged env now (opening name port1 port2) u i =
      get_udp_socket-IsFlagged env name port1 port2 now u i
  step-IsFlagged env now tick u i = reaper_tick-IsFlagged env now u i

  -- a run of events, each at its time
  abbrev pub run_proxies : Environment → List (ℕ × Event M) → Udp M → Udp M
  run_proxies env [] u = u
  run_proxies env ((now, e) ∷ es) u = run_proxies env es (step env now e u)

  pub run_proxies-IsFlagged :
      (env : Environment) (es : List (ℕ × Event M)) (u : Udp M)
      → IsFlagged u
      → IsFlagged (run_proxies env es u)
  run_proxies-IsFlagged env [] u i = i
  run_proxies-IsFlagged env ((now, e) ∷ es) u i =
      run_proxies-IsFlagged env es (step env now e u) (step-IsFlagged env now e u i)
