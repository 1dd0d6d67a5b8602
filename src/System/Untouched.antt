-- ===== src/System/Untouched.antt =====
-- About the case of UDP proxies in js_chat_system_commands.js: what it leaves alone.
use droneengage_server.Base.{
  ℕ, ◌≡◌, refl, Bool, Option, List, [], ◌∷◌, String, get, ◌&&◌, arith, inl, inr, Bool-cases,
  Option-cases, if_cases, ◌∙◌, Json, Fields, prop, fields_of, JsonText,
}
use droneengage_server.Udp.Registry.{close_udp_socket}
use droneengage_server.Udp.{Action, bind, close, send, reply, notify_closed, Config, Environment}
use droneengage_server.System.{System}
use droneengage_server.System.Proxies.{
  PortRules, takes_port, close_proxy_of, on_proxy, deliver_proxies, open_proxy_of, enable_at_ports,
  enable_at_any, enable_proxy, switch_proxy, handle_udp_proxy,
}
use droneengage_server.System.Scope.{send_json-storage}

module _ {B : Type 0} (c : JsonText B) (env : Environment) (rules : PortRules) where
  close_proxy_of-storage :
      (ws : ℕ) (fs : Fields) (s : System B)
      → (close_proxy_of c env rules ws fs s).storage ≡ s.storage
  unfolding close_proxy_of
  close_proxy_of-storage ws fs s =
      send_json-storage c ws _ (record s { udp = (close_udp_socket env _ s.udp).0 })

  on_proxy-storage :
      (unit : String) (config : Config) (en : Bool) (s : System B)
      → (on_proxy c env rules unit config en s).storage ≡ s.storage
  unfolding on_proxy
  on_proxy-storage unit config en s = elim (Option-cases (get unit s.proxy_requests)) [
    | inl e ↦ rw (e, on_proxy) refl
    | inr ((ws, fs), e) ↦ elim (Bool-cases en) [
      | inl n ↦ rw (e, n, on_proxy) (send_json-storage c ws _ s)
      | inr n ↦ rw (e, n, on_proxy) (close_proxy_of-storage ws fs s)
    ]
  ]

  deliver_proxies-storage :
      (as' : List (Action (List B))) (s : System B)
      → (deliver_proxies c env rules as' s).storage ≡ s.storage
  unfolding deliver_proxies
  deliver_proxies-storage [] s = refl
  deliver_proxies-storage (reply name config en ∷ as') s =
      deliver_proxies-storage as' (on_proxy c env rules name config en s)
      ∙ on_proxy-storage name config en s
  deliver_proxies-storage (bind x p ∷ as') s = deliver_proxies-storage as' s
  deliver_proxies-storage (close x ∷ as') s = deliver_proxies-storage as' s
  deliver_proxies-storage (send x m a ∷ as') s = deliver_proxies-storage as' s
  deliver_proxies-storage (notify_closed name ∷ as') s = deliver_proxies-storage as' s

  open_proxy_of-storage :
      (p q : Option Json) (now ws : ℕ) (fs : Fields) (s : System B)
      → (open_proxy_of c env rules p q now ws fs s).storage ≡ s.storage
  unfolding open_proxy_of
  open_proxy_of-storage p q now ws fs s =
      deliver_proxies-storage _ (record s { udp = _; proxy_requests = _ })

  module _ (ms : Fields) (now ws : ℕ) (fs : Fields) (s : System B) where
    enable_at_ports-storage : (enable_at_ports c env rules ms now ws fs s).storage ≡ s.storage
    unfolding enable_at_ports
    enable_at_ports-storage = elim (Option-cases (fields_of (prop "socket1" ms))) [
      | inl n ↦ rw (n, enable_at_ports) refl
      | inr (o₁, n) ↦ elim (Option-cases (fields_of (prop "socket2" ms))) [
        | inl k ↦ rw (n, k, enable_at_ports) refl
        | inr (o₂, k) ↦ rw (n, k, enable_at_ports) (open_proxy_of-storage _ _ now ws fs s)
      ]
    ]

    enable_proxy-storage : (enable_proxy c env rules ms now ws fs s).storage ≡ s.storage
    unfolding enable_proxy enable_at_any
    enable_proxy-storage =
        if_cases {A = System B} (λ t. t.storage ≡ s.storage) rules.allow_fixed_port _ _
          enable_at_ports-storage
          (if_cases {A = System B} (λ t. t.storage ≡ s.storage)
            (takes_port (prop "socket1" ms) && takes_port (prop "socket2" ms)) _ _
            (open_proxy_of-storage _ _ now ws fs s) refl)

  switch_proxy-storage :
      (ms : Fields) (now ws : ℕ) (fs : Fields) (s : System B)
      → (switch_proxy c env rules ms now ws fs s).storage ≡ s.storage
  unfolding switch_proxy
  switch_proxy-storage ms now ws fs s =
      ground (arith, enable_proxy-storage ms now ws fs s, close_proxy_of-storage ws fs s)

  pub handle_udp_proxy-storage :
      (now : ℕ) (fs : Fields) (ws : ℕ) (s : System B)
      → (handle_udp_proxy c env rules now fs ws s).storage ≡ s.storage
  unfolding handle_udp_proxy
  handle_udp_proxy-storage now fs ws s =
      elim (Option-cases (s.server.rooms.sockets ws).login_request) [
        | inl e ↦ rw (e, handle_udp_proxy) refl
        | inr (login, e) ↦ elim (Option-cases (fields_of (prop "ms" fs))) [
          | inl n ↦ ground (arith, e, n)
          | inr (ms, n) ↦ ground (arith, e, n, switch_proxy-storage ms now ws fs s)
        ]
      ]
