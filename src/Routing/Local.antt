-- ===== src/Routing/Local.antt =====
-- About `fn_parseMessage` from its `switch` on: where the messages of local clients go.
use droneengage_server.Base.{
  ℕ, ◌≡◌, refl, sym, ◌∙◌, ◌⊎◌, inl, inr, Bool, Option, none, some, List, [], ◌∷◌, All, String,
  arith, opt_eq, if◌then◌else◌, Bool-cases, Option-cases, Json, Fields, Coercions, JsonText, str_of,
  get, read,
}
use droneengage_server.Constants.{const_actor_type_drone, const_actor_type_gcs}
use droneengage_server.Relay.{RelayConfig}
use droneengage_server.Rooms.{Rooms, LoginRequest, Status, Call, send, terminate, close, call}
use droneengage_server.Rooms.Sending.{Sent, delivered, not_found, threw, send_to_individual}
use droneengage_server.Rooms.Linked.{IsLinked}
use droneengage_server.Rooms.Isolation.{Allowed, Added, Added-refl, broadcast-isolated}
use droneengage_server.Routing.{
  Server, Target, throws, missing, reserved, unit, target_of, send_message_to_my_group,
  count_message, after_individual, forward, share, send_message_to_target, route_individual,
}

-- Both sockets are in one group.
abbrev pub SameGroup : {M : Type 0} → Rooms M → ℕ → ℕ → Type 0
SameGroup r a b = (g : ℕ) × ((r.sockets a).group ≡ some g) × ((r.sockets b).group ≡ some g)

-- A call that a message of the socket `from` may cause: to send it to a socket of the same group, or
-- to terminate one.
abbrev pub Within : {M : Type 0} → Rooms M → ℕ → M → Bool → Call M → Type 0
Within r from m b (send ws m' b') = (m' ≡ m) × (b' ≡ b) × SameGroup r from ws
Within r from m b (terminate ws) = SameGroup r from ws
Within r from m b (close ws) = ⊥

Allowed-Within :
    {M : Type 0} (r : Rooms M) (from g : ℕ) (m : M) (b : Bool) (sender : Option Json)
    (actor : Option String)
    → (r.sockets from).group ≡ some g
    → (cs : List (Call M)) → All (Allowed r g m b sender actor) cs
    → All (Within r from m b) cs
Allowed-Within r from g m b sender actor here [] h = tt
Allowed-Within r from g m b sender actor here (send ws m' b' ∷ cs) ((e, f, i, _), h) =
    ((e, f, (g, here, i)), Allowed-Within r from g m b sender actor here cs h)
Allowed-Within r from g m b sender actor here (terminate ws ∷ cs) (i, h) =
    ((g, here, i), Allowed-Within r from g m b sender actor here cs h)
Allowed-Within r from g m b sender actor here (close ws ∷ cs) (i, h) = absurd i

-- A state in which every socket is in the group that it is in in the other.
pub Within-same :
    {M : Type 0} (r s : Rooms M) (from : ℕ) (m : M) (b : Bool)
    → ((ws : ℕ) → (s.sockets ws).group ≡ (r.sockets ws).group)
    → (cs : List (Call M)) → All (Within s from m b) cs
    → All (Within r from m b) cs
Within-same r s from m b k [] h = tt
Within-same r s from m b k (send ws m' b' ∷ cs) ((e, f, (g, i, j)), h) =
    ((e, f, (g, sym (k from) ∙ i, sym (k ws) ∙ j)), Within-same r s from m b k cs h)
Within-same r s from m b k (terminate ws ∷ cs) ((g, i, j), h) =
    ((g, sym (k from) ∙ i, sym (k ws) ∙ j), Within-same r s from m b k cs h)
Within-same r s from m b k (close ws ∷ cs) (i, h) = absurd i

-- `fn_sendToIndividual` changes nothing, or sends to the unit of the target's name.
pub send_to_individual_cases :
    {M : Type 0} (r : Rooms M) (g : ℕ) (m : M) (b : Bool) (target : String)
    → ((send_to_individual g m b target r).0 ≡ r)
      ⊎ ((ws : ℕ) × (get target (r.groups g).units ≡ some ws)
          × ((send_to_individual g m b target r).0 ≡ call (send ws m b) r))
unfolding send_to_individual read
send_to_individual_cases r g m b target = elim (Option-cases (get target (r.groups g).units)) [
  | inl e ↦ inl (ground arith)
  | inr (ws, e) ↦ elim (Bool-cases (r.sockets ws).send_throws) [
    | inl t ↦ inl (ground arith)
    | inr t ↦ inr (ws, e, ground arith)
  ]
]

-- The message changes the rooms by calls within the group of its sender only.
abbrev pub Confined : {B : Type 0} → ℕ → List B → Bool → Server B → Server B → Type 0
Confined from m b s t = Added (Within s.rooms from m b) s.rooms t.rooms

module _ {B : Type 0} (from : ℕ) (m : List B) (b : Bool) where
  pub stay-Confined : (s : Server B) → Confined from m b s s
  stay-Confined s = Added-refl (Within s.rooms from m b) s.rooms

  send_message_to_my_group-Confined :
      (actor : Option String) (login : LoginRequest) (s : Server B)
      → IsLinked s.rooms
      → Confined from m b s (send_message_to_my_group actor m b login from s)
  unfolding send_message_to_my_group
  send_message_to_my_group-Confined actor login s l =
      elim (Option-cases (s.rooms.sockets from).group) [
        | inl e ↦ rw (e, send_message_to_my_group) (stay-Confined s)
        | inr (g, e) ↦
            let (cs, f, h) = broadcast-isolated g m b (str_of login.sender_id) actor s.rooms l in
            rw (e, send_message_to_my_group)
              (cs, f, Allowed-Within s.rooms from g m b (str_of login.sender_id) actor e cs h)
      ]

  pub count_message-group :
      (st : Status) (message : List B) (s : Server B) (ws : ℕ)
      → ((count_message st message b from s).rooms.sockets ws).group ≡ (s.rooms.sockets ws).group
  unfolding count_message
  count_message-group st message s ws = ground arith

  pub count_message-calls :
      (st : Status) (message : List B) (s : Server B)
      → (count_message st message b from s).rooms.calls ≡ s.rooms.calls
  unfolding count_message
  count_message-calls st message s = refl

  pub count_message-IsLinked :
      (st : Status) (message : List B) (s : Server B)
      → IsLinked s.rooms
      → IsLinked (count_message st message b from s).rooms
  unfolding count_message
  count_message-IsLinked st message s l = record {
    unit_group = λ g u ws h. ground (arith, l.unit_group g u ws h);
    unit_name = λ g u ws h. ground (arith, l.unit_name g u ws h);
    group_unit = λ ws g h. ground (arith, l.group_unit ws g);
    listed_id = l.listed_id;
    listed_parent = l.listed_parent;
    listed_fresh = l.listed_fresh;
    unit_listed = l.unit_listed;
    account_id = l.account_id;
    account_fresh = l.account_fresh;
    group_account = l.group_account;
  }

module _ {B : Type 0} (c : JsonText B) (config : RelayConfig) (from : ℕ) (m : List B)
    (b : Bool) where
  after_individual-rooms :
      (o : Rooms (List B) × Sent) (s : Server B)
      → (after_individual (forward c config m b from) o s).rooms ≡ o.0
  unfolding after_individual forward
  after_individual-rooms (r, delivered) s = refl
  after_individual-rooms (r, not_found) s = refl
  after_individual-rooms (r, threw) s = refl

  send_message_to_target-Confined :
      (target : String) (s : Server B)
      → IsLinked s.rooms
      → Confined from m b s (send_message_to_target c config m b target from s)
  unfolding send_message_to_target
  send_message_to_target-Confined target s l = elim (Option-cases (s.rooms.sockets from).group) [
    | inl e ↦ rw (e, send_message_to_target) (stay-Confined from m b s)
    | inr (g, e) ↦
        let o = send_to_individual g m b target s.rooms in
        rw (e, send_message_to_target)
          (rw (after_individual-rooms o s) (elim (send_to_individual_cases s.rooms g m b target) [
            | inl same ↦ rw same (stay-Confined from m b s)
            | inr (ws, found, sent) ↦
                rw sent (
                  send ws m b ∷ [],
                  refl,
                  ((refl, refl, (g, e, l.unit_group g target ws found)), tt),
                )
          ]))
  ]

  share-Confined :
      (actor : Option String) (login : LoginRequest) (s : Server B)
      → IsLinked s.rooms
      → Confined from m b s (share c config actor m b login from s)
  unfolding forward
  share-Confined actor login s l = send_message_to_my_group-Confined from m b actor login s l

module _ {B : Type 0} (c : JsonText B) (js : Coercions) (config : RelayConfig) (from : ℕ)
    (m : List B) (b : Bool) (login : LoginRequest) (s : Server B) (l : IsLinked s.rooms) where
  pub shared : (actor : Option String) → Confined from m b s (share c config actor m b login from s)
  shared actor = share-Confined c config from m b actor login s l

  untargeted-Confined : Confined from m b s (
      if opt_eq login.actor_type (some const_actor_type_drone)
      then share c config (some "g") m b login from s
      else (if opt_eq login.actor_type (some const_actor_type_gcs)
          then share c config none m b login from s
          else s))
  untargeted-Confined = elim (Bool-cases (opt_eq login.actor_type (some const_actor_type_drone))) [
    | inl d ↦ rw d (shared (some "g"))
    | inr d ↦ elim (Bool-cases (opt_eq login.actor_type (some const_actor_type_gcs))) [
      | inl g ↦ rw (d, g) (shared none)
      | inr g ↦ rw (d, g) (stay-Confined from m b s)
    ]
  ]

  pub route_individual-Confined :
      (fs : Fields) → Confined from m b s (route_individual c js config fs m b login from s)
  unfolding route_individual
  route_individual-Confined fs = routed (target_of js fs)
    where
      routed :
          (t : Target)
          → Confined from m b s (elim t [
            | throws ↦ s
            | reserved actor ↦ share c config actor m b login from s
            | unit target ↦ send_message_to_target c config m b target from s
            | missing ↦
                if opt_eq login.actor_type (some const_actor_type_drone)
                then share c config (some "g") m b login from s
                else (if opt_eq login.actor_type (some const_actor_type_gcs)
                    then share c config none m b login from s
                    else s)
          ])
      routed throws = stay-Confined from m b s
      routed missing = untargeted-Confined
      routed (reserved actor) = shared actor
      routed (unit target) = send_message_to_target-Confined c config from m b target s l
