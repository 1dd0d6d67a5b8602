-- ===== src/System/ProxyReplies.antt =====
-- About the case of UDP proxies in js_chat_system_commands.js: to which socket it answers.
use droneengage_server.Base.{
  ℕ, ◌≡◌, refl, ◌∙◌, Bool, true, false, ◌&&◌, Option, none, some, List, [], ◌∷◌, String, get,
  get-put, key_of, arith, drop-append, if◌then◌else◌, eq_refl, opt_eq, inl, inr, Bool-cases,
  Option-cases, All, Json, Fields, null, bool, num, decimal, str, arr, obj, prop, fields_of,
  JsonText,
}
use droneengage_server.Constants.{const_actor_type_drone}
use droneengage_server.Udp.{
  Udp, Action, bind, close, send, reply, notify_closed, Config, Environment,
}
use droneengage_server.Udp.Logged.{Logs, OnlyTo, get_udp_socket-Logs, reopen-Logs}
use droneengage_server.System.{System, socket_name, send_json}
use droneengage_server.System.Proxies.{
  PortRules, takes_port, close_proxy_of, on_proxy, deliver_proxies, reopen_socket, get_socket_at,
  port_number, open_proxy_of, enable_at_ports, enable_at_any, enable_proxy, switch_proxy,
  handle_udp_proxy,
}
use droneengage_server.System.Replies.{Replied, Replied-refl, Replied-trans, send_json-Replied}

module _ {B : Type 0} (c : JsonText B) (env : Environment) (rules : PortRules) where
  close_proxy_of-Replied :
      (ws : ℕ) (fs : Fields) (s : System B) → Replied ws s (close_proxy_of c env rules ws fs s)
  unfolding close_proxy_of
  close_proxy_of-Replied ws fs s = send_json-Replied c ws _ (record s { udp = _ })

  on_proxy-Replied :
      (unit : String) (ws : ℕ) (fs : Fields) (config : Config) (en : Bool) (s : System B)
      → get unit s.proxy_requests ≡ some (ws, fs)
      → Replied ws s (on_proxy c env rules unit config en s)
  unfolding on_proxy
  on_proxy-Replied unit ws fs config en s h = elim (Bool-cases en) [
    | inl e ↦ rw (h, e, on_proxy) (send_json-Replied c ws _ s)
    | inr e ↦ rw (h, e, on_proxy) (close_proxy_of-Replied ws fs s)
  ]

  on_proxy-requests :
      (unit : String) (config : Config) (en : Bool) (s : System B)
      → (on_proxy c env rules unit config en s).proxy_requests ≡ s.proxy_requests
  unfolding on_proxy send_json close_proxy_of
  on_proxy-requests unit config en s = elim (Option-cases (get unit s.proxy_requests)) [
    | inl e ↦ ground (arith, e)
    | inr ((ws, fs), e) ↦ ground (arith, e)
  ]

  deliver_proxies-Replied :
      (unit : String) (ws : ℕ) (fs : Fields) (as' : List (Action (List B))) (s : System B)
      → All (OnlyTo unit) as'
      → get unit s.proxy_requests ≡ some (ws, fs)
      → Replied ws s (deliver_proxies c env rules as' s)
  unfolding deliver_proxies
  deliver_proxies-Replied unit ws fs [] s h k = Replied-refl ws s
  deliver_proxies-Replied unit ws fs (reply name config en ∷ as') s (e, h) k =
      let t = on_proxy c env rules name config en s in
      Replied-trans ws s t (deliver_proxies c env rules as' t)
        (on_proxy-Replied name ws fs config en s (rw e k))
        (deliver_proxies-Replied unit ws fs as' t h (rw (on_proxy-requests name config en s) k))
  deliver_proxies-Replied unit ws fs (bind x p ∷ as') s (_, h) k =
      deliver_proxies-Replied unit ws fs as' s h k
  deliver_proxies-Replied unit ws fs (close x ∷ as') s (_, h) k =
      deliver_proxies-Replied unit ws fs as' s h k
  deliver_proxies-Replied unit ws fs (send x m a ∷ as') s (_, h) k =
      deliver_proxies-Replied unit ws fs as' s h k
  deliver_proxies-Replied unit ws fs (notify_closed name ∷ as') s (_, h) k =
      deliver_proxies-Replied unit ws fs as' s h k

  get_socket_at-Logs :
      (unit : String) (p q : Option Json) (now : ℕ) (u : Udp (List B))
      → Logs unit u (get_socket_at c env rules unit p q now u)
  unfolding get_socket_at reopen_socket
  get_socket_at-Logs unit p q now u = elim (Option-cases (port_number p)) [
    | inl e ↦ rw (e, get_socket_at) (reopened p q)
    | inr (n, e) ↦ elim (Option-cases (port_number q)) [
      | inl k ↦ rw (e, k, get_socket_at) (reopened p q)
      | inr (m, k) ↦ rw (e, k, get_socket_at) (get_udp_socket-Logs env unit n m now u)
    ]
  ]
    where
      reopened : (p q : Option Json) → Logs unit u (reopen_socket c env rules unit p q now u)
      reopened p q = reopen-Logs unit env unit (rules.bound_port p) (rules.bound_port q) now u

  open_proxy_of-Replied :
      (p q : Option Json) (now ws : ℕ) (fs : Fields) (s : System B)
      → Replied ws s (open_proxy_of c env rules p q now ws fs s)
  unfolding open_proxy_of
  open_proxy_of-Replied p q now ws fs s =
      let unit = key_of (socket_name ws s) in
      let (as', e, h) = get_socket_at-Logs unit p q now s.udp in
      rw (e, drop-append s.udp.actions as')
        (deliver_proxies-Replied unit ws fs as' _ h
          (get-put unit unit (ws, fs) s.proxy_requests ∙ rw (eq_refl unit) refl))

  module _ (ms : Fields) (now ws : ℕ) (fs : Fields) (s : System B) where
    enable_at_ports-Replied : Replied ws s (enable_at_ports c env rules ms now ws fs s)
    unfolding enable_at_ports
    enable_at_ports-Replied = elim (Option-cases (fields_of (prop "socket1" ms))) [
      | inl n ↦ rw (n, enable_at_ports) (Replied-refl ws s)
      | inr (o₁, n) ↦ elim (Option-cases (fields_of (prop "socket2" ms))) [
        | inl k ↦ rw (n, k, enable_at_ports) (Replied-refl ws s)
        | inr (o₂, k) ↦
            rw (n, k, enable_at_ports)
              (open_proxy_of-Replied (prop "port" o₁) (prop "port" o₂) now ws fs s)
      ]
    ]

    enable_at_any-Replied : Replied ws s (enable_at_any c env rules ms now ws fs s)
    unfolding enable_at_any
    enable_at_any-Replied =
        elim (Bool-cases (takes_port (prop "socket1" ms) && takes_port (prop "socket2" ms))) [
          | inl t ↦
              rw (t, enable_at_any)
                (open_proxy_of-Replied (some (num 0)) (some (num 0)) now ws fs s)
          | inr t ↦ rw (t, enable_at_any) (Replied-refl ws s)
        ]

    enable_proxy-Replied : Replied ws s (enable_proxy c env rules ms now ws fs s)
    unfolding enable_proxy
    enable_proxy-Replied = enabled rules.allow_fixed_port
      where
        enabled :
            (fixed : Bool)
            → Replied ws s (
                if fixed
                then enable_at_ports c env rules ms now ws fs s
                else enable_at_any c env rules ms now ws fs s)
        enabled true = enable_at_ports-Replied
        enabled false = enable_at_any-Replied

  switch_proxy-Replied :
      (ms : Fields) (now ws : ℕ) (fs : Fields) (s : System B)
      → Replied ws s (switch_proxy c env rules ms now ws fs s)
  unfolding switch_proxy
  switch_proxy-Replied ms now ws fs s = switched (prop "en" ms) refl
    where
      switched :
          (o : Option Json)
          → prop "en" ms ≡ o
          → Replied ws s (switch_proxy c env rules ms now ws fs s)
      switched (some (bool true)) e = rw (e, switch_proxy) (enable_proxy-Replied ms now ws fs s)
      switched (some (bool false)) e = rw (e, switch_proxy) (close_proxy_of-Replied ws fs s)
      switched none e = rw (e, switch_proxy) (Replied-refl ws s)
      switched (some null) e = rw (e, switch_proxy) (Replied-refl ws s)
      switched (some (num x)) e = rw (e, switch_proxy) (Replied-refl ws s)
      switched (some (decimal x)) e = rw (e, switch_proxy) (Replied-refl ws s)
      switched (some (str x)) e = rw (e, switch_proxy) (Replied-refl ws s)
      switched (some (arr x)) e = rw (e, switch_proxy) (Replied-refl ws s)
      switched (some (obj x)) e = rw (e, switch_proxy) (Replied-refl ws s)

  pub handle_udp_proxy-Replied :
      (now : ℕ) (fs : Fields) (ws : ℕ) (s : System B)
      → Replied ws s (handle_udp_proxy c env rules now fs ws s)
  unfolding handle_udp_proxy
  handle_udp_proxy-Replied now fs ws s =
      elim (Option-cases (s.server.rooms.sockets ws).login_request) [
        | inl e ↦ rw (e, handle_udp_proxy) (Replied-refl ws s)
        | inr (login, e) ↦
            elim (Bool-cases (opt_eq login.actor_type (some const_actor_type_drone))) [
              | inr d ↦ rw (e, d, handle_udp_proxy) (Replied-refl ws s)
              | inl d ↦ elim (Option-cases (fields_of (prop "ms" fs))) [
                | inl n ↦ rw (e, d, n, handle_udp_proxy) (Replied-refl ws s)
                | inr (ms, n) ↦ rw (e, d, n, handle_udp_proxy) (switch_proxy-Replied ms now ws fs s)
              ]
            ]
      ]
