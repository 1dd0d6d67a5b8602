-- ===== src/System/Pushing.antt =====
-- About `fn_onNewsPush`: whom news for one account reaches.
use droneengage_server.Base.{
  ℕ, ◌≡◌, refl, sym, Bool, false, Option, some, List, [], ◌∷◌, Has, inl, inr, All, All-map, subst,
  keys, String, get, values, prop, property_key, Option-cases, Json, Fields, obj, str, fields_of,
  Coercions, JsonText,
}
use droneengage_server.Constants.{const_ws_sender_comm_server}
use droneengage_server.Rooms.{Rooms, Call}
use droneengage_server.Rooms.Sending.{
  broadcast, broadcast_units, broadcast_groups, send_to_all_gcs_in_account,
}
use droneengage_server.Rooms.Linked.{IsLinked, broadcast-IsLinked}
use droneengage_server.Rooms.Isolation.{
  Allowed, Added, Added-refl, Added-trans, Allowed-earlier, broadcast_units-Round,
  broadcast-isolated,
}
use droneengage_server.System.{System}
use droneengage_server.System.Answers.{news_of, push_message, is_for_all, fan_out, on_news_push}

-- A call that a broadcast to one of several groups may make.
abbrev pub AllowedIn :
    {M : Type 0} → Rooms M → List ℕ → M → Bool → Option Json → Option String → Call M → Type 0
AllowedIn r gs m b sender actor call = (g : ℕ) × Has g gs × Allowed r g m b sender actor call

module _ {M : Type 0} (m : M) (b : Bool) (sender : Option Json) (actor : Option String) where
  first-AllowedIn :
      (r : Rooms M) (g : ℕ) (gs : List ℕ) (cs : List (Call M))
      → All (Allowed r g m b sender actor) cs
      → All (AllowedIn r (g ∷ gs) m b sender actor) cs
  first-AllowedIn r g gs [] h = tt
  first-AllowedIn r g gs (c ∷ cs) (h, k) = ((g, inl refl, h), first-AllowedIn r g gs cs k)

  rest-AllowedIn :
      (r : Rooms M) (g h : ℕ) (gs : List ℕ) (cs : List (Call M))
      → All (AllowedIn (broadcast g m b sender actor r) gs m b sender actor) cs
      → IsLinked r
      → All (AllowedIn r (g ∷ gs) m b sender actor) cs
  unfolding broadcast
  rest-AllowedIn r g h gs [] k l = tt
  rest-AllowedIn r g h gs (c ∷ cs) ((x, i, a), k) l =
      let round = broadcast_units-Round g m b sender actor (keys (r.groups g).units) r l in
      let t = broadcast_units g m b sender actor (keys (r.groups g).units) r in
      (
        (x, inr i, (Allowed-earlier x m b sender actor r t round.shrinks (c ∷ []) (a, tt)).0),
        rest-AllowedIn r g h gs cs k l,
      )

  pub broadcast_groups-AllowedIn :
      (gs : List ℕ) (r : Rooms M)
      → IsLinked r
      → Added (AllowedIn r gs m b sender actor) r (broadcast_groups gs m b sender actor r)
  unfolding broadcast_groups
  broadcast_groups-AllowedIn [] r l = Added-refl _ r
  broadcast_groups-AllowedIn (g ∷ gs) r l =
      let s = broadcast g m b sender actor r in
      let (cs, e, h) = broadcast-isolated g m b sender actor r l in
      let (ds, f, k) =
        broadcast_groups-AllowedIn gs s (broadcast-IsLinked g m b sender actor r l) in
      Added-trans (AllowedIn r (g ∷ gs) m b sender actor) r s
        (broadcast_groups gs m b sender actor s) (cs, e, first-AllowedIn r g gs cs h)
        (ds, f, rest-AllowedIn r g g gs ds k l)

module _ {M : Type 0} (m : M) (sender : Option Json) (account : String) (r : Rooms M) where
  -- a call to a GCS of the account
  abbrev pub ToAccount : Call M → Type 0
  ToAccount x =
      (a : ℕ) × (get account r.c_accounts ≡ some a)
      × AllowedIn r (values (r.accounts a).groups) m false sender (some "g") x

  send_to_all_gcs_in_account-ToAccount :
      IsLinked r → Added ToAccount r (send_to_all_gcs_in_account m false sender account r).0
  unfolding send_to_all_gcs_in_account
  send_to_all_gcs_in_account-ToAccount l = elim (Option-cases (get account r.c_accounts)) [
    | inl n ↦ rw (n, send_to_all_gcs_in_account) (Added-refl _ r)
    | inr (a, n) ↦
        let (cs, f, h) =
          broadcast_groups-AllowedIn m false sender (some "g") (values (r.accounts a).groups) r l in
        rw (n, send_to_all_gcs_in_account) (cs, f, All-map _ _ (λ x k. (a, n, k)) cs h)
  ]

module _ {B : Type 0} (c : JsonText B) (js : Coercions) where
  push-fans :
      (fs news : Fields) (s : System B)
      → prop "news" fs ≡ some (obj news)
      → is_for_all news ≡ false
      → (on_news_push c js (some (obj fs)) s).server.rooms
        ≡ (send_to_all_gcs_in_account
            (c.stringify (obj (push_message (obj news))))
            false
            (some (str const_ws_sender_comm_server))
            (property_key js (prop "account_id" news))
            s.server.rooms).0
  unfolding on_news_push news_of fan_out fields_of
  push-fans fs news s e own = rw (e, on_news_push, own, fan_out) refl

  -- In linked tables, news that is not for all accounts causes no call but to send its message, as text,
  -- to logged-in GCSs in the groups of its account, or to terminate members of these groups; no call at
  -- all, where no client of the account is there.
  pub push-isolated :
      (fs news : Fields) (s : System B)
      → IsLinked s.server.rooms
      → prop "news" fs ≡ some (obj news)
      → is_for_all news ≡ false
      → Added
          (ToAccount
            (c.stringify (obj (push_message (obj news))))
            (some (str const_ws_sender_comm_server))
            (property_key js (prop "account_id" news))
            s.server.rooms)
          s.server.rooms
          (on_news_push c js (some (obj fs)) s).server.rooms
  push-isolated fs news s l e own =
      subst
        (Added
          (ToAccount (c.stringify (obj (push_message (obj news))))
            (some (str const_ws_sender_comm_server)) (property_key js (prop "account_id" news))
            s.server.rooms)
          s.server.rooms)
        (sym (push-fans fs news s e own))
        (send_to_all_gcs_in_account-ToAccount _ _ _ s.server.rooms l)
