-- ===== src/Udp.antt =====
-- src/comm_server/js_udp_proxy.js: pairs of UDP sockets that forward to each other, the table of the
-- units' proxies, and its reaper. Sockets, proxies and entries are objects of a heap, since the table, the
-- callbacks and the sockets share them; what reaches the network or a callback is a log.
pub mod Registry
pub mod Reaper
pub mod Reaping
pub mod Blocking
pub mod Lasting
pub mod Silence
pub mod Kept
pub mod Blocked
pub mod Logged
use droneengage_server.Base.{
  ℕ, suc, ◌+◌, ◌-◌, ◌*◌, max, Bool, true, false, not, ◌&&◌, ◌||◌, Option, none, some, List, [], ◌∷◌,
  ◌++◌, String, Dict, get, put, erase, has, keys, is_empty, if◌then◌else◌, str_eq, ◌==◌, ltb,
  is_some,
}

pub record Address : Type 0 where
  pub address : String
  pub port : ℕ

pub record Config : Type 0 where
  pub socket1 : Address
  pub socket2 : Address

pub record UdpSocket : Type 0 where
  pub is_ready : Bool
  pub parent : Option ℕ
  pub caller : Option Address
  pub host : String
  pub bound_port : ℕ
  pub last_access_time : ℕ
  -- which of the two handlers of the proxy its messages go to
  pub is_first : Bool

-- Whom a proxy tells that its sockets are ready: the request that made it, or what recreated it.
pub data Callback : Type 0 where
  created refreshed health_checked resumed : String → ℕ → Callback

pub record UdpProxy : Type 0 where
  pub ready_counter : ℕ
  pub ready_proxy : Bool
  pub blocked : Bool
  pub udp_socket1 : Option ℕ
  pub udp_socket2 : Option ℕ
  pub callback : Callback

pub record Entry : Type 0 where
  pub udpproxy : ℕ
  pub socket1_port : ℕ
  pub socket2_port : ℕ
  pub admin_blocked : Bool
  pub last_access : ℕ
  pub created_at : ℕ

pub data Action (M : Type 0) : Type 0 where
  bind : ℕ → ℕ → Action M
  close : ℕ → Action M
  send : ℕ → M → Address → Action M
  reply : String → Config → Bool → Action M
  notify_closed : String → Action M

pub record Udp (M : Type 0) : Type 0 where
  pub sockets : ℕ → UdpSocket
  pub proxies : ℕ → UdpProxy
  pub entries : ℕ → Entry
  pub next_socket : ℕ
  pub next_proxy : ℕ
  pub next_entry : ℕ
  pub active_udp_proxy : Dict ℕ
  -- when the reaper ticked last, while it runs
  pub reaper : Option ℕ
  pub actions : List (Action M)

-- The configuration and the table of active senders, which the module reads.
pub record Environment : Type 0 where
  pub public_host : String
  pub is_connected : String → Bool

abbrev pub update {ℓ} : {A : Type ℓ} → (ℕ → A) → ℕ → A → ℕ → A
update f p v q = if p == q then v else f q

abbrev pub no_address : Address
no_address = record { address = "0.0.0.0"; port = 0 }

abbrev pub no_config : Config
no_config = record { socket1 = no_address; socket2 = no_address }

module _ {M : Type 0} where
  abbrev pub act : Action M → Udp M → Udp M
  act a u = record u { actions = u.actions ++ a ∷ [] }

  -- `new udp_socket("0.0.0.0", port, func, parent)`
  unfoldable pub new_socket : ℕ → Bool → ℕ → Udp M → Udp M
  new_socket port is_first parent u = act (bind u.next_socket port) (record u {
    sockets = update u.sockets u.next_socket (record {
      is_ready = false;
      parent = some parent;
      caller = none;
      host = "0.0.0.0";
      bound_port = port;
      last_access_time = 0;
      is_first = is_first;
    });
    next_socket = suc u.next_socket;
  })

  -- `new udp_proxy("0.0.0.0", port1, "0.0.0.0", port2, callback)`
  unfoldable pub new_proxy : ℕ → ℕ → Callback → Udp M → ℕ × Udp M
  new_proxy port1 port2 callback u =
      let p = u.next_proxy in
      let u₁ = new_socket port1 true p u in
      let u₂ = new_socket port2 false p u₁ in
      (
        p,
        record u₂ {
          proxies = update u.proxies p (record {
            ready_counter = 0;
            ready_proxy = true;
            blocked = false;
            udp_socket1 = some u.next_socket;
            udp_socket2 = some u₁.next_socket;
            callback = callback;
          });
          next_proxy = suc p;
        },
      )

  -- `udp_socket.close`
  unfoldable pub close_socket : ℕ → Udp M → Udp M
  close_socket s u = act (close s) (record u {
    sockets = update u.sockets s (record (u.sockets s) { is_ready = false; parent = none });
  })

  unfoldable pub close_end : Option ℕ → Udp M → Udp M
  close_end none u = u
  close_end (some s) u = close_socket s u

  -- `udp_proxy.close`
  unfoldable pub close_proxy : ℕ → Udp M → Udp M
  close_proxy p u =
      let proxy = u.proxies p in
      let u₁ = close_end proxy.udp_socket2 (close_end proxy.udp_socket1 u) in
      record u₁ {
        proxies = update u.proxies p (record proxy { udp_socket1 = none; udp_socket2 = none });
      }

  -- `udp_proxy.setBlocked`
  unfoldable pub set_blocked : ℕ → Bool → Udp M → Udp M
  set_blocked p b u = record u {
    proxies = update u.proxies p (record (u.proxies p) { blocked = b });
  }

  -- `udp_socket.sendMessage`
  unfoldable pub send_message : ℕ → M → Udp M → Udp M
  send_message s m u = elim (u.sockets s).caller [ none ↦ u | some to ↦ act (send s m to) u ]

  unfoldable pub send_end : Option ℕ → M → Udp M → Udp M
  send_end none m u = u
  send_end (some s) m u = send_message s m u

  -- `udp_proxy.onSocket1Receive` and `onSocket2Receive`
  unfoldable pub on_socket_receive : Bool → M → ℕ → Udp M → Udp M
  on_socket_receive is_first m p u =
      let proxy = u.proxies p in
      if proxy.blocked
      then u
      else send_end (if is_first then proxy.udp_socket2 else proxy.udp_socket1) m u

  -- the handler of a socket's `message` event; the events of a closed socket do not come
  unfoldable pub on_message : ℕ → M → Address → ℕ → Udp M → Udp M
  on_message s m remote now u =
      let socket = u.sockets s in
      let u₁ = record u {
        sockets =
            update u.sockets s (record socket { last_access_time = now; caller = some remote });
      } in
      elim socket.parent [ none ↦ u | some p ↦ on_socket_receive socket.is_first m p u₁ ]

  -- `udp_proxy.isReady`
  unfoldable pub is_ready_end : Option ℕ → Udp M → Bool
  is_ready_end none u = false
  is_ready_end (some s) u = (u.sockets s).is_ready

  unfoldable pub proxy_is_ready : ℕ → Udp M → Bool
  proxy_is_ready p u =
      is_ready_end (u.proxies p).udp_socket1 u && is_ready_end (u.proxies p).udp_socket2 u

  -- `udp_proxy.getConfig`, of a proxy that is not closed
  unfoldable pub config_of_end : Environment → Option ℕ → Udp M → Address
  config_of_end env none u = no_address
  config_of_end env (some s) u =
      let socket = u.sockets s in
      record {
        address = if str_eq socket.host "0.0.0.0" then env.public_host else socket.host;
        port = socket.bound_port;
      }

  unfoldable pub get_config : Environment → ℕ → Udp M → Config
  get_config env p u = record {
    socket1 = config_of_end env (u.proxies p).udp_socket1 u;
    socket2 = config_of_end env (u.proxies p).udp_socket2 u;
  }
