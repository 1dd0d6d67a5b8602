-- ===== src/Udp/Blocked.antt =====
-- About the flag that blocks a proxy: that a block lasts, over runs of events.
use droneengage_server.Base.{
  ℕ, ◌||◌, ◌∙◌, ◌<◌, ◌≡◌, refl, Bool, true, not, some, List, [], ◌∷◌, String, All, get, read,
  str_eq, arith, eq_iff, inl, inr, Option-cases,
}
use droneengage_server.Udp.{Udp, Address, Environment, on_message, on_socket_receive, set_blocked}
use droneengage_server.Udp.Registry.{set_proxy_blocked}
use droneengage_server.Udp.Reaper.{
  Event, received, listening, in_use, block, closing, opening, tick, step,
}
use droneengage_server.Udp.Blocking.{
  IsFlagged, on_message-SameFlags, on_listening-SameFlags, on_address_in_use-SameFlags,
}
use droneengage_server.Udp.Lasting.{close_udp_socket-SameFlags, set_proxy_blocked-IsFlagged}
use droneengage_server.Udp.Silence.{step-IsFlagged, run_proxies}
use droneengage_server.Udp.Kept.{Kept, SameFlags-Kept, reaper_tick-Kept, get_udp_socket-Kept}

-- not the administrator's order to unblock the name
abbrev pub Keeps : {M : Type 0} → String → ℕ × Event M → Type 0
Keeps name (now, block n b) = (not (str_eq n name) || b) ≡ true
Keeps name (now, _) = Unit

-- The entry is blocked, and has no other name than this.
record IsBlocked {M : Type 0} (name : String) (e : ℕ) (u : Udp M) : Type 0 where
  flagged : IsFlagged u
  known : e < u.next_entry
  blocked : (u.entries e).admin_blocked ≡ true
  only_name : (n : String) → get n u.active_udp_proxy ≡ some e → n ≡ name

module _ {M : Type 0} (env : Environment) (name : String) (e : ℕ) where
  Kept-IsBlocked :
      (u v : Udp M) → IsFlagged v → Kept e u v → IsBlocked name e u → IsBlocked name e v
  Kept-IsBlocked u v flagged k i = record {
    flagged = flagged;
    known = k.known;
    blocked = k.same_flag ∙ i.blocked;
    only_name = λ n h. i.only_name n (k.no_new_name n h);
  }

  set_proxy_blocked-IsBlocked :
      (n : String) (b : Bool) (u : Udp M)
      → (not (str_eq n name) || b) ≡ true
      → IsBlocked name e u
      → IsBlocked name e (set_proxy_blocked n b u).0
  unfolding set_proxy_blocked set_blocked read
  set_proxy_blocked-IsBlocked n b u keeps i =
      let after = set_proxy_blocked-IsFlagged n b u i.flagged in
      elim (Option-cases (get n u.active_udp_proxy)) [
        | inl h ↦ ground (arith, h, i)
        | inr (f, h) ↦ record {
          flagged = after;
          known = ground (arith, h, i.known);
          blocked = ground (arith, h, i.blocked, i.only_name n, eq_iff n name, keeps);
          only_name = λ m k. ground (arith, h, i.only_name m);
        }
      ]

  step-IsBlocked :
      (now : ℕ) (ev : Event M) (u : Udp M)
      → Keeps name (now, ev)
      → IsBlocked name e u
      → IsBlocked name e (step env now ev u)
  unfolding step
  step-IsBlocked now ev u keeps i = go ev keeps
    where
      kept : (ev : Event M) → Kept e u (step env now ev u) → IsBlocked name e (step env now ev u)
      kept ev k = Kept-IsBlocked u (step env now ev u) (step-IsFlagged env now ev u i.flagged) k i

      go : (ev : Event M) → Keeps name (now, ev) → IsBlocked name e (step env now ev u)
      go (received s m remote) h =
          kept (received s m remote)
            (SameFlags-Kept e u _ (on_message-SameFlags s m remote now u) i.known)
      go (listening s bound) h =
          kept (listening s bound)
            (SameFlags-Kept e u _ (on_listening-SameFlags env s bound now u) i.known)
      go (in_use s) h =
          kept (in_use s) (SameFlags-Kept e u _ (on_address_in_use-SameFlags env s now u) i.known)
      go (block n b) h = set_proxy_blocked-IsBlocked n b u h i
      go (closing n) h =
          kept (closing n) (SameFlags-Kept e u _ (close_udp_socket-SameFlags env n u) i.known)
      go (opening n port1 port2) h =
          kept (opening n port1 port2) (get_udp_socket-Kept e env n port1 port2 now u i.known)
      go tick h = kept tick (reaper_tick-Kept e env now u i.known)

  run_proxies-IsBlocked :
      (es : List (ℕ × Event M)) (u : Udp M)
      → All (Keeps name) es
      → IsBlocked name e u
      → IsBlocked name e (run_proxies env es u)
  run_proxies-IsBlocked [] u h i = i
  run_proxies-IsBlocked ((now, ev) ∷ es) u (h, hs) i =
      run_proxies-IsBlocked es (step env now ev u) hs (step-IsBlocked now ev u h i)

  set_proxy_blocked-IsBlocked_self :
      (u : Udp M)
      → IsFlagged u
      → get name u.active_udp_proxy ≡ some e
      → IsBlocked name e (set_proxy_blocked name true u).0
  unfolding set_proxy_blocked set_blocked read
  set_proxy_blocked-IsBlocked_self u i h = record {
    flagged = set_proxy_blocked-IsFlagged name true u i;
    known = ground (arith, h, i.listed name e h);
    blocked = ground (arith, h);
    only_name = λ n k. ground (arith, h, i.one_name n name e);
  }

  -- the state after a block and further events
  abbrev pub after_block : List (ℕ × Event M) → Udp M → Udp M
  after_block es u = run_proxies env es (set_proxy_blocked name true u).0

  -- From a state in which the flags of entries and proxies agree, once the proxy of a unit was blocked, and
  -- over whatever events follow but the order to unblock the unit's name, the entry of the unit stays
  -- blocked, also where its proxy is recreated, and a packet that comes in on a socket of the entry's proxy
  -- goes nowhere.
  pub blocked-silent :
      (u : Udp M) (es : List (ℕ × Event M)) (s : ℕ) (m : M) (remote : Address) (now : ℕ)
      → IsFlagged u
      → get name u.active_udp_proxy ≡ some e
      → All (Keeps name) es
      → ((after_block es u).sockets s).parent ≡ some ((after_block es u).entries e).udpproxy
      → (((after_block es u).entries e).admin_blocked ≡ true)
        × ((on_message s m remote now (after_block es u)).actions ≡ (after_block es u).actions)
  unfolding on_message on_socket_receive
  blocked-silent u es s m remote now i listed keeps parent =
      let v = run_proxies env es (set_proxy_blocked name true u).0 in
      let after =
        run_proxies-IsBlocked es (set_proxy_blocked name true u).0 keeps
          (set_proxy_blocked-IsBlocked_self u i listed) in
      let flag = after.flagged.flag e after.known in
      (after.blocked, rw (parent, flag ∙ after.blocked, on_message, on_socket_receive) refl)
