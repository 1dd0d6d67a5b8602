-- ===== src/Rooms/Delivery.antt =====
-- About `fn_broadcast`: whom it reaches.
use droneengage_server.Base.{
  ℕ, ◌≡◌, refl, ap, ◌∙◌, Bool, true, false, Option, some, List, [], ◌∷◌, ◌++◌, append_assoc, String,
  get, keys, keys_have, Has, Has-append_right, get-erase, arith, Json, inl, inr, str_eq, eq_iff,
  Option-cases, Bool-cases,
}
use droneengage_server.Rooms.{
  Rooms, LoginRequest, Call, send, call, delete_member_by_name, drop_if_empty,
}
use droneengage_server.Rooms.Sending.{
  handle_orphan_socket, broadcast_unit, broadcast_units, broadcast, is_recipient,
}
use droneengage_server.Rooms.Linked.{IsLinked, broadcast_unit-IsLinked}
use droneengage_server.Rooms.Isolation.{broadcast_unit-Round, broadcast_units-Round}

-- The unit is a live member that the broadcast is meant for.
pub record Eligible {M : Type 0} (g : ℕ) (sender : Option Json) (actor : Option String) (u : String)
    (ws : ℕ) (r : Rooms M) : Type 0 where
  pub login : LoginRequest
  pub member : get u (r.groups g).units ≡ some ws
  pub logged_in : (r.sockets ws).login_request ≡ some login
  pub recipient : is_recipient sender actor login ≡ true
  pub alive : (r.sockets ws).send_throws ≡ false

module _ {M : Type 0} where
  -- Removing a dead unit leaves the other units of the group where they are.
  handle_orphan_socket-units :
      (g : ℕ) (u v : String) (dead : ℕ) (r : Rooms M)
      → IsLinked r
      → get v (r.groups g).units ≡ some dead
      → str_eq v u ≡ false
      → get u ((handle_orphan_socket dead r).groups g).units ≡ get u (r.groups g).units
  unfolding handle_orphan_socket delete_member_by_name drop_if_empty
  handle_orphan_socket-units g u v dead r l e n =
      ground
        (arith, l.unit_group g v dead e, l.unit_name g v dead e, get-erase v u (r.groups g).units)

module _ {M : Type 0} (g : ℕ) (m : M) (b : Bool) (sender : Option Json) (actor : Option String)
    (u : String) (ws : ℕ) where
  broadcast_unit-units :
      (v : String) (r : Rooms M)
      → IsLinked r
      → str_eq v u ≡ false
      → get u ((broadcast_unit g m b sender actor v r).groups g).units ≡ get u (r.groups g).units
  unfolding broadcast_unit
  broadcast_unit-units v r l n = elim (Option-cases (get v (r.groups g).units)) [
    | inl e ↦ ground arith
    | inr (dead, e) ↦ ground (arith, handle_orphan_socket-units g u v dead r l e n)
  ]

  Eligible-later :
      (v : String) (r : Rooms M)
      → IsLinked r
      → str_eq v u ≡ false
      → Eligible g sender actor u ws r
      → Eligible g sender actor u ws (broadcast_unit g m b sender actor v r)
  Eligible-later v r l n e =
      let k = (broadcast_unit-Round g m b sender actor v r l).shrinks in
      record {
        login = e.login;
        member = broadcast_unit-units v r l n ∙ e.member;
        logged_in = k.login_was ws ∙ e.logged_in;
        recipient = e.recipient;
        alive = k.throws_was ws ∙ e.alive;
      }

  broadcast_unit-sends :
      (r : Rooms M)
      → Eligible g sender actor u ws r
      → broadcast_unit g m b sender actor u r ≡ call (send ws m b) r
  unfolding broadcast_unit
  broadcast_unit-sends r e = rw (e.member, e.logged_in, e.recipient, e.alive, broadcast_unit)

  later_Has : (v : String) (us : List String) → str_eq v u ≡ false → Has u (v ∷ us) → Has u us
  later_Has v us other (inl e) = absurd (ground (arith, eq_iff v u))
  later_Has v us other (inr h) = h

  broadcast_units-reaches :
      (us : List String) (r : Rooms M)
      → IsLinked r
      → Eligible g sender actor u ws r
      → Has u us
      → (cs : List (Call M)) × ((broadcast_units g m b sender actor us r).calls ≡ r.calls ++ cs)
        × Has (send ws m b) cs
  unfolding broadcast_units
  broadcast_units-reaches [] r l e h = elim h [ ]
  broadcast_units-reaches (v ∷ us) r l e h =
      let s = broadcast_unit g m b sender actor v r in
      let ls = broadcast_unit-IsLinked g m b sender actor v r l in
      elim (Bool-cases (str_eq v u)) [
        | inl same ↦
            let (cs, f, _) = (broadcast_units-Round g m b sender actor us s ls).added in
            let hit : s.calls ≡ r.calls ++ send ws m b ∷ [] =
              rw ((eq_iff v u).0 same) (ap (λ (t : Rooms M). t.calls) (broadcast_unit-sends r e)) in
            (send ws m b ∷ cs, rw (f, hit) (append_assoc r.calls (send ws m b ∷ []) cs), inl refl)
        | inr other ↦
            let (ds, p, _) = (broadcast_unit-Round g m b sender actor v r l).added in
            let rest =
              broadcast_units-reaches us s ls (Eligible-later v r l other e)
                (later_Has v us other h) in
            (
              ds ++ rest.0,
              rw (rest.1, p) (append_assoc r.calls ds rest.0),
              Has-append_right (send ws m b) ds rest.0 rest.2,
            )
      ]

  -- A broadcast in linked tables reaches every member of the group that it is meant for and that
  -- can be sent to, also where other members turn out to be dead and are removed on the way.
  pub broadcast-reaches :
      (r : Rooms M)
      → IsLinked r
      → Eligible g sender actor u ws r
      → (cs : List (Call M)) × ((broadcast g m b sender actor r).calls ≡ r.calls ++ cs)
        × Has (send ws m b) cs
  unfolding broadcast
  broadcast-reaches r l e =
      broadcast_units-reaches (keys (r.groups g).units) r l e
        (keys_have u ws (r.groups g).units e.member)
