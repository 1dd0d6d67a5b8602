-- ===== src/Udp/Registry.antt =====
-- The functions of js_udp_proxy.js on the table of the units' proxies: opening, closing, blocking and
-- recreating.
use droneengage_server.Base.{
  ℕ, suc, Bool, true, false, ◌&&◌, ◌||◌, none, some, String, get, read, own, inherited, undefined,
  put, erase, if◌then◌else◌, ◌==◌,
}
use droneengage_server.Udp.{
  Udp, Entry, Config, Address, Callback, created, refreshed, health_checked, resumed, reply,
  notify_closed, Environment, update, no_config, act, new_proxy, close_proxy, set_blocked,
  proxy_is_ready, get_config,
}

-- `a || b` on numbers
abbrev pub or_else : ℕ → ℕ → ℕ
or_else a b = if a == 0 then b else a

-- whether a port serves who asks for one, or for any
abbrev pub asks_for : ℕ → ℕ → Bool
asks_for asked port = asked == 0 || port == asked

module _ {M : Type 0} where
  abbrev pub set_entry : ℕ → Entry → Udp M → Udp M
  set_entry e x u = record u { entries = update u.entries e x }

  -- `recreateProxy`, of an entry that has a proxy
  unfoldable pub recreate_proxy : Environment → ℕ → Callback → ℕ → Udp M → Udp M
  recreate_proxy env e callback now u =
      let entry = u.entries e in
      let config = get_config env entry.udpproxy u in
      let u₁ = close_proxy entry.udpproxy u in
      let (p, u₂) =
        new_proxy (or_else entry.socket1_port config.socket1.port)
          (or_else entry.socket2_port config.socket2.port) callback u₁ in
      let u₃ = set_entry e (record (u₂.entries e) { udpproxy = p }) u₂ in
      let u₄ = set_blocked p (u₃.entries e).admin_blocked u₃ in
      set_entry e (record (u₄.entries e) { last_access = now }) u₄

  -- the ports that the sockets were given
  unfoldable pub keep_ports : Environment → ℕ → Udp M → Udp M
  keep_ports env e u =
      let config = get_config env (u.entries e).udpproxy u in
      set_entry e
        (record (u.entries e) {
          socket1_port = config.socket1.port;
          socket2_port = config.socket2.port;
        })
        u

  -- `notifyUnitProxyClosed`
  unfoldable pub notify_unit_proxy_closed : Environment → String → Udp M → Udp M
  notify_unit_proxy_closed env name u =
      if env.is_connected name then act (notify_closed name) u else u

  -- `startReaper`
  unfoldable pub start_reaper : ℕ → Udp M → Udp M
  start_reaper now u = elim u.reaper [ some last ↦ u | none ↦ record u { reaper = some now } ]

  -- the functions that `new udp_proxy` is given
  unfoldable pub on_complete : Environment → Callback → Bool → ℕ → Udp M → Udp M
  on_complete env (created name e) enabled now u =
      let u₁ = start_reaper now (keep_ports env e u) in
      act (reply name (get_config env (u₁.entries e).udpproxy u₁) enabled) u₁
  on_complete env (refreshed name e) enabled now u =
      let u₁ = if enabled then keep_ports env e u else u in
      act (reply name (get_config env (u₁.entries e).udpproxy u₁) enabled) u₁
  on_complete env (health_checked name e) enabled now u =
      if enabled then keep_ports env e u else notify_unit_proxy_closed env name u
  on_complete env (resumed name e) enabled now u = if enabled then keep_ports env e u else u

  -- `udp_proxy._onReady`
  unfoldable pub on_ready : Environment → ℕ → Bool → ℕ → Udp M → Udp M
  on_ready env p status now u =
      let proxy = u.proxies p in
      let u₁ = record u {
        proxies = update u.proxies p (record proxy {
          ready_proxy = proxy.ready_proxy && status;
          ready_counter = suc proxy.ready_counter;
        });
      } in
      if suc proxy.ready_counter == 2
      then on_complete env proxy.callback (proxy.ready_proxy && status) now u₁
      else u₁

  -- a socket's `listening` event, and its `error` event where the port is in use
  unfoldable pub on_listening : Environment → ℕ → Address → ℕ → Udp M → Udp M
  on_listening env s bound now u = elim (u.sockets s).parent [
    | none ↦ u
    | some p ↦ on_ready env p true now (record u {
      sockets =
          update u.sockets s (record (u.sockets s) {
            bound_port = bound.port;
            host = bound.address;
            is_ready = true;
          });
    })
  ]

  unfoldable pub on_address_in_use : Environment → ℕ → ℕ → Udp M → Udp M
  on_address_in_use env s now u = elim (u.sockets s).parent [
    | none ↦ u
    | some p ↦
        on_ready env p false now
          (record u { sockets = update u.sockets s (record (u.sockets s) { is_ready = false }) })
  ]

  -- `fn_setProxyBlocked`; the flag is the proxy's and its entry's. A name that every object inherits counts
  -- as one of a proxy, and no entry is touched.
  unfoldable pub set_proxy_blocked : String → Bool → Udp M → Udp M × Bool
  set_proxy_blocked name blocked u = elim (read name u.active_udp_proxy) [
    | undefined ↦ (u, false)
    | inherited ↦ (u, true)
    | own e ↦ (
      set_blocked (u.entries e).udpproxy blocked
          (set_entry e (record (u.entries e) { admin_blocked = blocked }) u),
      true,
    )
  ]

  -- `closeUDPSocket`, with the configuration that its callback gets
  unfoldable pub close_udp_socket : Environment → String → Udp M → Udp M × Config
  close_udp_socket env name u = elim (get name u.active_udp_proxy) [
    | none ↦ (u, no_config)
    | some e ↦
        let p = (u.entries e).udpproxy in
        let u₁ = close_proxy p u in
        (record u₁ { active_udp_proxy = erase name u₁.active_udp_proxy }, get_config env p u)
  ]

  -- the new socket of `getUDPSocket`
  unfoldable pub open_udp_socket : String → ℕ → ℕ → ℕ → Udp M → Udp M
  open_udp_socket name port1 port2 now u =
      let e = u.next_entry in
      let u₁ = record u { active_udp_proxy = put name e u.active_udp_proxy; next_entry = suc e } in
      let (p, u₂) = new_proxy port1 port2 (created name e) u₁ in
      set_entry e
        (record {
          udpproxy = p;
          socket1_port = port1;
          socket2_port = port2;
          admin_blocked = false;
          last_access = now;
          created_at = now;
        })
        u₂

  -- `getUDPSocket`; its recursive call finds no entry, so that it opens a new socket
  unfoldable pub get_udp_socket : Environment → String → ℕ → ℕ → ℕ → Udp M → Udp M
  get_udp_socket env name port1 port2 now u = elim (get name u.active_udp_proxy) [
    | none ↦ open_udp_socket name port1 port2 now u
    | some e ↦
        let config = get_config env (u.entries e).udpproxy u in
        if asks_for port1 config.socket1.port && asks_for port2 config.socket2.port
        then if proxy_is_ready (u.entries e).udpproxy u
          then act (reply name config true)
              (set_entry e (record (u.entries e) { last_access = now }) u)
          else recreate_proxy env e (refreshed name e) now u
        else open_udp_socket name port1 port2 now (close_udp_socket env name u).0
  ]
