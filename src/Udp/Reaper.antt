-- ===== src/Udp/Reaper.antt =====
-- The reaper of js_udp_proxy.js, which recreates and drops the units' proxies, and the events that the
-- module answers.
use droneengage_server.Base.{
  ℕ, ◌-◌, ◌*◌, max, Bool, not, ◌&&◌, Option, none, some, List, [], ◌∷◌, String, get, erase, keys,
  is_empty, if◌then◌else◌, ltb,
}
use droneengage_server.Udp.{
  Udp, Address, health_checked, resumed, Environment, close_proxy, proxy_is_ready, on_message,
}
use droneengage_server.Udp.Registry.{
  recreate_proxy, notify_unit_proxy_closed, on_listening, on_address_in_use, set_proxy_blocked,
  close_udp_socket, get_udp_socket,
}

abbrev pub proxy_idle_timeout_ms : ℕ
proxy_idle_timeout_ms = 300000

abbrev pub reaper_interval_ms : ℕ
reaper_interval_ms = 60000

module _ {M : Type 0} where
  abbrev pub last_access_of_end : Option ℕ → Udp M → ℕ
  last_access_of_end none u = 0
  last_access_of_end (some s) u = (u.sockets s).last_access_time

  unfoldable pub last_access_of : ℕ → Udp M → ℕ
  last_access_of e u =
      let proxy = u.proxies (u.entries e).udpproxy in
      max (u.entries e).last_access
        (max (last_access_of_end proxy.udp_socket1 u) (last_access_of_end proxy.udp_socket2 u))

  -- `recoverAllProxiesAfterResume`
  unfoldable pub recover_all : Environment → List String → ℕ → Udp M → Udp M
  recover_all env [] now u = u
  recover_all env (name ∷ names) now u =
      recover_all env names now (elim (get name u.active_udp_proxy) [
        | none ↦ u
        | some e ↦ recreate_proxy env e (resumed name e) now u
      ])

  -- the reaper's step for one entry
  unfoldable pub reap_entry : Environment → String → ℕ → ℕ → Udp M → Udp M
  reap_entry env name e now u =
      let closed = close_proxy (u.entries e).udpproxy u in
      if not (proxy_is_ready (u.entries e).udpproxy u)
      then recreate_proxy env e (health_checked name e) now u
      else if ltb proxy_idle_timeout_ms (now - last_access_of e u)
      then if env.is_connected name
        then u
        else notify_unit_proxy_closed env name
            (record closed { active_udp_proxy = erase name closed.active_udp_proxy })
      else u

  unfoldable pub reap : Environment → List String → ℕ → Udp M → Udp M
  reap env [] now u = u
  reap env (name ∷ names) now u =
      reap env names now
        (elim (get name u.active_udp_proxy) [ none ↦ u | some e ↦ reap_entry env name e now u ])

  -- a tick of the reaper, which runs
  unfoldable pub reaper_tick : Environment → ℕ → Udp M → Udp M
  reaper_tick env now u = elim u.reaper [
    | none ↦ u
    | some last ↦
        let late = ltb 0 last && ltb (reaper_interval_ms * 3) (now - last) in
        let u₁ = if late then recover_all env (keys u.active_udp_proxy) now u else u in
        let u₂ = record u₁ { reaper = some now } in
        let u₃ = reap env (keys u₂.active_udp_proxy) now u₂ in
        if is_empty u₃.active_udp_proxy then record u₃ { reaper = none } else u₃
  ]

-- The events that the module answers.
pub data Event (M : Type 0) : Type 0 where
  received : ℕ → M → Address → Event M
  listening : ℕ → Address → Event M
  in_use : ℕ → Event M
  block : String → Bool → Event M
  closing : String → Event M
  opening : String → ℕ → ℕ → Event M
  tick : Event M

unfoldable pub step : {M : Type 0} → Environment → ℕ → Event M → Udp M → Udp M
step env now (received s m remote) u = on_message s m remote now u
step env now (listening s bound) u = on_listening env s bound now u
step env now (in_use s) u = on_address_in_use env s now u
step env now (block name b) u = (set_proxy_blocked name b u).0
step env now (closing name) u = (close_udp_socket env name u).0
step env now (opening name port1 port2) u = get_udp_socket env name port1 port2 now u
step env now tick u = reaper_tick env now u
