-- ===== src/Udp/Reaping.antt =====
-- About the reaper and the units that are connected.
use droneengage_server.Base.{
  ℕ, ◌-◌, ◌*◌, ◌&&◌, ◌≡◌, refl, ◌∙◌, true, some, List, [], ◌∷◌, String, get, keys, if◌then◌else◌,
  arith, get-erase, eq_iff, inl, inr, Option-cases, ltb,
}
use droneengage_server.Udp.{
  Udp, Callback, resumed, health_checked, Environment, new_socket, new_proxy, close_socket,
  close_end, close_proxy, set_blocked,
}
use droneengage_server.Udp.Registry.{recreate_proxy, notify_unit_proxy_closed}
use droneengage_server.Udp.Reaper.{recover_all, reap_entry, reap, reaper_tick, reaper_interval_ms}

module _ {M : Type 0} (env : Environment) (name : String) where
  recreate_proxy-listed :
      (e : ℕ) (k : Callback) (now : ℕ) (u : Udp M)
      → (recreate_proxy env e k now u).active_udp_proxy ≡ u.active_udp_proxy
  unfolding recreate_proxy close_proxy close_end close_socket new_proxy new_socket set_blocked
  recreate_proxy-listed e k now u = ground arith

  recover_all-listed :
      (names : List String) (now : ℕ) (u : Udp M)
      → (recover_all env names now u).active_udp_proxy ≡ u.active_udp_proxy
  unfolding recover_all
  recover_all-listed [] now u = refl
  recover_all-listed (n ∷ names) now u = elim (Option-cases (get n u.active_udp_proxy)) [
    | inl h ↦ rw (h, recover_all) (recover_all-listed names now u)
    | inr (e, h) ↦
        let v = recreate_proxy env e (resumed n e) now u in
        rw (h, recover_all)
          (recover_all-listed names now v ∙ recreate_proxy-listed e (resumed n e) now u)
  ]

  module _ (connected : env.is_connected name ≡ true) where
    reap_entry-listed :
        (n : String) (e now : ℕ) (u : Udp M)
        → get name (reap_entry env n e now u).active_udp_proxy ≡ get name u.active_udp_proxy
    unfolding reap_entry notify_unit_proxy_closed close_proxy close_end close_socket
    reap_entry-listed n e now u = ground (
      arith,
      connected,
      eq_iff n name,
      recreate_proxy-listed e (health_checked n e) now u,
      get-erase n name u.active_udp_proxy,
    )

    reap-listed :
        (names : List String) (now : ℕ) (u : Udp M)
        → get name (reap env names now u).active_udp_proxy ≡ get name u.active_udp_proxy
    unfolding reap
    reap-listed [] now u = refl
    reap-listed (n ∷ names) now u = elim (Option-cases (get n u.active_udp_proxy)) [
      | inl h ↦ rw (h, reap) (reap-listed names now u)
      | inr (e, h) ↦
          rw (h, reap)
            (reap-listed names now (reap_entry env n e now u) ∙ reap_entry-listed n e now u)
    ]

    -- A tick of the reaper, late or not, leaves a connected unit its entry.
    pub reaper_tick-connected :
        (now : ℕ) (u : Udp M)
        → get name (reaper_tick env now u).active_udp_proxy ≡ get name u.active_udp_proxy
    unfolding reaper_tick
    reaper_tick-connected now u = elim (Option-cases u.reaper) [
      | inl h ↦ rw (h, reaper_tick) refl
      | inr (last, h) ↦
          let late = ltb 0 last && ltb (reaper_interval_ms * 3) (now - last) in
          let u₁ = if late then recover_all env (keys u.active_udp_proxy) now u else u in
          let same : u₁.active_udp_proxy ≡ u.active_udp_proxy =
            ground (arith, recover_all-listed (keys u.active_udp_proxy) now u) in
          let u₂ = record u₁ { reaper = some now } in
          let reaped = reap-listed (keys u₂.active_udp_proxy) now u₂ in
          rw (h, reaper_tick) (ground (arith, reaped, same))
    ]
