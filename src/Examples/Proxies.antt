-- ===== src/Examples/Proxies.antt =====
-- The theorems on the UDP proxies at a run that opens a proxy and blocks it.
use droneengage_server.Base.{
  ℕ, ◌≡◌, refl, read, true, false, none, some, List, [], ◌∷◌, get, put, arith, num, Cell,
}
use droneengage_server.Udp.{
  Udp, Environment, created, no_address, on_message, new_proxy, new_socket, set_blocked,
  proxy_is_ready, is_ready_end, close_proxy, close_end, close_socket, get_config, config_of_end,
}
use droneengage_server.Udp.Registry.{
  get_udp_socket, open_udp_socket, set_proxy_blocked, recreate_proxy,
}
use droneengage_server.Udp.Reaper.{Event, opening, block, step, reaper_tick}
use droneengage_server.Udp.Blocking.{IsFlagged}
use droneengage_server.Udp.Silence.{run_proxies}
use droneengage_server.Udp.Lasting.{get_udp_socket-IsFlagged}
use droneengage_server.Udp.Blocked.{after_block, blocked-silent}
use droneengage_server.Udp.Reaping.{reaper_tick-connected}

abbrev pub env : Environment
env = record { public_host = "example.org"; is_connected = λ name. true }

-- a module in which nothing was opened
abbrev pub nothing_opened : {M : Type 0} → Udp M
nothing_opened = record {
  sockets = λ s. record {
    is_ready = false;
    parent = none;
    caller = none;
    host = "0.0.0.0";
    bound_port = 0;
    last_access_time = 0;
    is_first = false;
  };
  proxies = λ p. record {
    ready_counter = 0;
    ready_proxy = false;
    blocked = false;
    udp_socket1 = none;
    udp_socket2 = none;
    callback = created "" 0;
  };
  entries = λ e. record {
    udpproxy = 0;
    socket1_port = 0;
    socket2_port = 0;
    admin_blocked = false;
    last_access = 0;
    created_at = 0;
  };
  next_socket = 0;
  next_proxy = 0;
  next_entry = 0;
  active_udp_proxy = [];
  reaper = none;
  actions = [];
}

abbrev no_proxies : Udp Cell
no_proxies = nothing_opened

no_proxies-IsFlagged : IsFlagged no_proxies
unfolding get
no_proxies-IsFlagged = record {
  proxy_made = λ e h. ground (arith, h);
  own_proxy = λ e f h k q. ground (arith, h);
  flag = λ e h. ground (arith, h);
  listed = λ name e h. ground (arith, h);
  one_name = λ n m e h k. ground (arith, h);
}

abbrev day : List (ℕ × Event Cell)
day = (1, opening "drone1" 0 0) ∷ (2, block "drone1" true) ∷ []

abbrev opened_at_one : Udp Cell
opened_at_one = get_udp_socket env "drone1" 0 0 1 no_proxies

-- the unit asks for its proxy again, which is not ready and is made anew
abbrev later_day : List (ℕ × Event Cell)
later_day = (3, opening "drone1" 0 0) ∷ []

later-facts :
    (get "drone1" opened_at_one.active_udp_proxy ≡ some 0)
    × (((after_block env "drone1" 0 later_day opened_at_one).sockets 2).parent
        ≡ some ((after_block env "drone1" 0 later_day opened_at_one).entries 0).udpproxy)
unfolding step get_udp_socket open_udp_socket new_proxy new_socket set_proxy_blocked set_blocked
    read get put proxy_is_ready is_ready_end recreate_proxy close_proxy close_end close_socket
    get_config config_of_end
later-facts = (refl, refl)

opened_at_one-IsFlagged : IsFlagged opened_at_one
opened_at_one-IsFlagged =
    get_udp_socket-IsFlagged env "drone1" 0 0 1 no_proxies no_proxies-IsFlagged

blocked-silent_example :
    (((after_block env "drone1" 0 later_day opened_at_one).entries 0).admin_blocked ≡ true)
    × ((on_message 2
          (some (num 1))
          no_address
          5
          (after_block env "drone1" 0 later_day opened_at_one)).actions
        ≡ (after_block env "drone1" 0 later_day opened_at_one).actions)
blocked-silent_example =
    blocked-silent env "drone1" 0 opened_at_one later_day 2 (some (num 1)) no_address 5
      opened_at_one-IsFlagged later-facts.0 (tt, tt) later-facts.1

reaper_tick-connected_example :
    get "drone1" (reaper_tick env 600000 (run_proxies env day no_proxies)).active_udp_proxy
    ≡ get "drone1" (run_proxies env day no_proxies).active_udp_proxy
reaper_tick-connected_example =
    reaper_tick-connected env "drone1" refl 600000 (run_proxies env day no_proxies)
