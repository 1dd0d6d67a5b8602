-- ===== src/Rooms/Isolation.antt =====
-- About `fn_broadcast`: whom it calls.
use droneengage_server.Base.{
  ℕ, ◌≡◌, refl, sym, ap, ◌∙◌, Bool, true, false, Option, some, List, [], ◌∷◌, ◌++◌, append_assoc,
  append-nil, String, get, keys, All, All-append, arith, Json, if◌then◌else◌, inl, inr,
  Option-cases, Bool-cases,
}
use droneengage_server.Rooms.{
  Rooms, LoginRequest, Call, send, terminate, close, call, delete_member_by_name, drop_if_empty,
}
use droneengage_server.Rooms.Registry.{del_member_from_group}
use droneengage_server.Rooms.Sending.{
  handle_orphan_socket, broadcast_unit, broadcast_units, broadcast, is_recipient,
}
use droneengage_server.Rooms.Linked.{IsLinked, broadcast_unit-IsLinked}

-- A call that a broadcast of one message to one group may make: to send it to a member that is a
-- recipient, or to terminate a member.
abbrev pub Allowed :
    {M : Type 0} → Rooms M → ℕ → M → Bool → Option Json → Option String → Call M → Type 0
Allowed r g m b sender actor (send ws m' b') =
    (m' ≡ m)
    × (b' ≡ b)
    × ((r.sockets ws).group ≡ some g)
    × ((login : LoginRequest) × ((r.sockets ws).login_request ≡ some login)
        × (is_recipient sender actor login ≡ true))
Allowed r g m b sender actor (terminate ws) = (r.sockets ws).group ≡ some g
Allowed r g m b sender actor (close ws) = ⊥

-- The calls from one state to a later one, all of a kind.
abbrev pub Added : {M : Type 0} → (Call M → Type 0) → Rooms M → Rooms M → Type 0
Added {M} P r s = (cs : List (Call M)) × (s.calls ≡ r.calls ++ cs) × All P cs

pub Added-refl : {M : Type 0} (P : Call M → Type 0) (r : Rooms M) → Added P r r
Added-refl P r = ([], sym (append-nil r.calls), tt)

pub Added-trans :
    {M : Type 0} (P : Call M → Type 0) (r s t : Rooms M) → Added P r s → Added P s t → Added P r t
Added-trans P r s t (cs, e, h) (ds, f, k) =
    (cs ++ ds, rw (f, e) (append_assoc r.calls cs ds), All-append P cs ds h k)

-- Groups are only left, and logins stay.
pub record Shrinks {M : Type 0} (r s : Rooms M) : Type 0 where
  pub group_was : (ws g : ℕ) → (s.sockets ws).group ≡ some g → (r.sockets ws).group ≡ some g
  pub login_was : (ws : ℕ) → (s.sockets ws).login_request ≡ (r.sockets ws).login_request
  pub throws_was : (ws : ℕ) → (s.sockets ws).send_throws ≡ (r.sockets ws).send_throws

pub Shrinks-refl : {M : Type 0} (r : Rooms M) → Shrinks r r
Shrinks-refl r = record { group_was = λ ws g h. h; login_was = λ ws. refl; throws_was = λ ws. refl }

pub Shrinks-trans : {M : Type 0} (r s t : Rooms M) → Shrinks r s → Shrinks s t → Shrinks r t
Shrinks-trans r s t h k = record {
  group_was = λ ws g e. h.group_was ws g (k.group_was ws g e);
  login_was = λ ws. k.login_was ws ∙ h.login_was ws;
  throws_was = λ ws. k.throws_was ws ∙ h.throws_was ws;
}

module _ {M : Type 0} where
  delete_member_by_name-Shrinks :
      (g : ℕ) (unit : Option String) (r : Rooms M)
      → Shrinks r (delete_member_by_name g unit false r)
  unfolding delete_member_by_name drop_if_empty
  delete_member_by_name-Shrinks g unit r = record {
    group_was = λ ws g' h. ground arith;
    login_was = λ ws. ground arith;
    throws_was = λ ws. ground arith;
  }

  delete_member_by_name-calls :
      (g : ℕ) (unit : Option String) (r : Rooms M)
      → (delete_member_by_name g unit false r).calls ≡ r.calls
  unfolding delete_member_by_name drop_if_empty
  delete_member_by_name-calls g unit r = ground arith

  pub del_member_from_group-calls :
      (ws : ℕ) (r : Rooms M) → (del_member_from_group ws r).calls ≡ r.calls
  unfolding del_member_from_group
  del_member_from_group-calls ws r = elim (Option-cases (r.sockets ws).group) [
    | inl e ↦ rw (e, del_member_from_group) refl
    | inr (g, e) ↦ elim (Option-cases (r.sockets ws).name) [
      | inl n ↦ rw (e, n, del_member_from_group) refl
      | inr (name, n) ↦
          rw (e, n, del_member_from_group) (delete_member_by_name-calls g (some name) r)
    ]
  ]

  pub handle_orphan_socket-Shrinks : (ws : ℕ) (r : Rooms M) → Shrinks r (handle_orphan_socket ws r)
  unfolding handle_orphan_socket
  handle_orphan_socket-Shrinks ws r = elim (Option-cases (r.sockets ws).group) [
    | inl e ↦ rw (e, handle_orphan_socket) (Shrinks-refl r)
    | inr (g, e) ↦
        let k = delete_member_by_name-Shrinks g (r.sockets ws).name r in
        rw (e, handle_orphan_socket)
          (record {
            group_was = λ ws' g' h. ground (arith, k.group_was ws' g', k.group_was ws g');
            login_was = λ ws'. ground (arith, k.login_was ws', k.login_was ws);
            throws_was = λ ws'. ground (arith, k.throws_was ws', k.throws_was ws);
          })
  ]

  pub handle_orphan_socket-calls :
      (ws g : ℕ) (r : Rooms M)
      → (r.sockets ws).group ≡ some g
      → (handle_orphan_socket ws r).calls ≡ r.calls ++ terminate ws ∷ []
  unfolding handle_orphan_socket
  handle_orphan_socket-calls ws g r e =
      rw (e, handle_orphan_socket)
        (ap (λ cs. cs ++ terminate ws ∷ []) (delete_member_by_name-calls g (r.sockets ws).name r))

module _ {M : Type 0} (g : ℕ) (m : M) (b : Bool) (sender : Option Json)
    (actor : Option String) where
  pub Allowed-earlier :
      (r s : Rooms M)
      → Shrinks r s
      → (cs : List (Call M)) → All (Allowed s g m b sender actor) cs
      → All (Allowed r g m b sender actor) cs
  Allowed-earlier r s k [] h = tt
  Allowed-earlier r s k (send ws m' b' ∷ cs) ((e, f, i, (login, j, q)), h) =
      ((e, f, k.group_was ws g i, (login, sym (k.login_was ws) ∙ j, q)), Allowed-earlier r s k cs h)
  Allowed-earlier r s k (terminate ws ∷ cs) (i, h) =
      (k.group_was ws g i, Allowed-earlier r s k cs h)
  Allowed-earlier r s k (close ws ∷ cs) (i, h) = absurd i

  -- What one round of the loop does, all branches of it.
  pub record Round (r s : Rooms M) : Type 0 where
    pub shrinks : Shrinks r s
    pub added : Added (Allowed r g m b sender actor) r s

  orphan-Round :
      (ws : ℕ) (r : Rooms M) → (r.sockets ws).group ≡ some g → Round r (handle_orphan_socket ws r)
  orphan-Round ws r e = record {
    shrinks = handle_orphan_socket-Shrinks ws r;
    added = (terminate ws ∷ [], handle_orphan_socket-calls ws g r e, (e, tt));
  }

  stay-Round : (r : Rooms M) → Round r r
  stay-Round r = record { shrinks = Shrinks-refl r; added = Added-refl _ r }

  recipient-Round :
      (ws : ℕ) (r : Rooms M) (login : LoginRequest)
      → (r.sockets ws).group ≡ some g
      → (r.sockets ws).login_request ≡ some login
      → Round r (
          if is_recipient sender actor login
          then if (r.sockets ws).send_throws
            then handle_orphan_socket ws r
            else call (send ws m b) r
          else r)
  recipient-Round ws r login e f = elim (Bool-cases (is_recipient sender actor login)) [
    | inr p ↦ rw p (stay-Round r)
    | inl p ↦ rw p (elim (Bool-cases (r.sockets ws).send_throws) [
      | inl q ↦ rw q (orphan-Round ws r e)
      | inr q ↦ rw q (record {
        shrinks = record {
          group_was = λ ws' g' h. h;
          login_was = λ ws'. refl;
          throws_was = λ ws'. refl;
        };
        added = (send ws m b ∷ [], refl, ((refl, refl, e, (login, f, p)), tt));
      })
    ])
  ]

  pub broadcast_unit-Round :
      (u : String) (r : Rooms M) → IsLinked r → Round r (broadcast_unit g m b sender actor u r)
  unfolding broadcast_unit
  broadcast_unit-Round u r l = elim (Option-cases (get u (r.groups g).units)) [
    | inl e ↦ rw (e, broadcast_unit) (stay-Round r)
    | inr (ws, e) ↦ elim (Option-cases (r.sockets ws).login_request) [
      | inl f ↦ rw (e, f, broadcast_unit) (orphan-Round ws r (l.unit_group g u ws e))
      | inr (login, f) ↦
          rw (e, f, broadcast_unit) (recipient-Round ws r login (l.unit_group g u ws e) f)
    ]
  ]

  pub broadcast_units-Round :
      (us : List String) (r : Rooms M)
      → IsLinked r
      → Round r (broadcast_units g m b sender actor us r)
  unfolding broadcast_units
  broadcast_units-Round [] r l = stay-Round r
  broadcast_units-Round (u ∷ us) r l =
      let s = broadcast_unit g m b sender actor u r in
      let t = broadcast_units g m b sender actor us s in
      let first = broadcast_unit-Round u r l in
      let rest = broadcast_units-Round us s (broadcast_unit-IsLinked g m b sender actor u r l) in
      record {
        shrinks = Shrinks-trans r s t first.shrinks rest.shrinks;
        added = Added-trans (Allowed r g m b sender actor) r s t first.added (
          rest.added.0,
          rest.added.1,
          Allowed-earlier r s first.shrinks rest.added.0 rest.added.2,
        );
      }

  -- A broadcast to a group, in tables that are linked, sends nothing but the given message, in its
  -- given mode, and only to sockets of that group that are logged in, are not the sender's, and have
  -- the actor type asked for; the only sockets that it terminates are members of the group.
  pub broadcast-isolated :
      (r : Rooms M)
      → IsLinked r
      → (cs : List (Call M)) × ((broadcast g m b sender actor r).calls ≡ r.calls ++ cs)
        × All (Allowed r g m b sender actor) cs
  unfolding broadcast
  broadcast-isolated r l = (broadcast_units-Round (keys (r.groups g).units) r l).added

  pub broadcast-Shrinks : (r : Rooms M) → IsLinked r → Shrinks r (broadcast g m b sender actor r)
  unfolding broadcast
  broadcast-Shrinks r l = (broadcast_units-Round (keys (r.groups g).units) r l).shrinks
