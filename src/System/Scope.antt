-- ===== src/System/Scope.antt =====
-- About the requests for missions and news: the account that they name.
use droneengage_server.Base.{
  ℕ, ◌≡◌, refl, sym, ap, ◌∙◌, Bool, true, ◌||◌, Option, none, some, List, [], ◌∷◌, ◌++◌, append-nil,
  String, put, get, erase, drop, length, drop-append, ◌==◌, All, inl, inr, Bool-cases, Option-cases,
  Json, Fields, str, obj, prop, is_blank, Coercions, JsonText,
}
use droneengage_server.Constants.{
  type_load_mission, type_save_mission, type_delete_mission, type_load_news, type_save_news,
  const_news_scope_account,
}
use droneengage_server.Storage.{World, Action, Outcome, send_failed, send_request}
use droneengage_server.Storage.Lifecycle.{request, is_connected}
use droneengage_server.System.{
  System, Pending, Command, number_of, send_json, message_body, account_of_login,
}
use droneengage_server.System.Answers.{settled, deliver}
use droneengage_server.System.Tasks.{ask, submit, unavailable, Inputs, handle_tasks, handle_scoped}
use droneengage_server.System.Frames.{IsFrame, keeps, reply-framed, on_outcome-framed}
use droneengage_server.System.Requests.{IsRequest, request-logged}

-- whether a request of the type is for one account
abbrev pub is_scoped : ℕ → Bool
is_scoped mt =
    mt == type_load_mission
    || mt == type_save_mission
    || mt == type_delete_mission
    || mt == type_load_news
    || mt == type_save_news

-- The account that a payload names, and the scope that saved news has.
abbrev pub Names : Option String → ℕ → Fields → Type 0
Names account mt payload =
    (is_scoped mt ≡ true
      → (a : String) × (account ≡ some a) × (prop "accountId" payload ≡ some (str a)))
    × (mt ≡ type_save_news → prop "scope" payload ≡ some (str const_news_scope_account))

abbrev pub IfSome : {A : Type 0} → (A → Type 0) → Option A → Type 0
IfSome P none = Unit
IfSome P (some a) = P a

-- A request for missions or news that is for one account.
abbrev pub Scoped : Option String → Action → Type 0
Scoped account (send_request rid mt (obj payload)) = Names account mt payload
Scoped account (send_request rid mt ms) = ⊥
Scoped account _ = Unit

-- The actions of the storage client from one state to a later one are scoped.
abbrev pub ScopedTo : {B : Type 0} → Option String → System B → System B → Type 0
ScopedTo account s t =
    (as' : List Action) × (t.storage.actions ≡ s.storage.actions ++ as') × All (Scoped account) as'

abbrev SameStorage : {B : Type 0} → ℕ → System B → System B → Type 0
SameStorage ws s t = t.storage ≡ s.storage

pub send_json-storage :
    {B : Type 0} (c : JsonText B) (ws : ℕ) (fs : Fields) (s : System B)
    → (send_json c ws fs s).0.storage ≡ s.storage
unfolding send_json
send_json-storage c ws fs s = elim (Bool-cases (s.server.rooms.sockets ws).send_throws) [
  | inl e ↦ rw (e, send_json) refl
  | inr e ↦ rw (e, send_json) refl
]

stored : {B : Type 0} (c : JsonText B) → IsFrame c SameStorage
stored c = keeps c (λ s. s.storage) (send_json-storage c)

module _ {B : Type 0} where
  pub ScopedTo-same :
      (account : Option String) (s t : System B) → t.storage ≡ s.storage → ScopedTo account s t
  ScopedTo-same account s t e =
      ([], ap (λ st. st.actions) e ∙ sym (append-nil s.storage.actions), tt)

request-Scoped :
    (account : Option String) (rid : String) (mt : ℕ) (payload : Fields) (a : Action)
    → Names account mt payload
    → IsRequest rid mt (obj payload) a
    → Scoped account a
request-Scoped account rid mt payload a h (inl e) = rw e tt
request-Scoped account rid mt payload a h (inr (inl e)) = rw e h
request-Scoped account rid mt payload a h (inr (inr e)) = rw e tt

module _ {B : Type 0} (c : JsonText B) (js : Coercions) where
  settled-storage :
      (rid : String) (o : Outcome) (s : System B) → (settled c js rid o s).storage ≡ s.storage
  unfolding settled
  settled-storage rid o s = elim (Option-cases (get rid s.pending)) [
    | inl e ↦ rw (e, settled) refl
    | inr (p, e) ↦
        rw (e, settled)
          (on_outcome-framed c js SameStorage (stored c) p o
            (record s { pending = erase rid s.pending }))
  ]

  deliver-storage :
      (rid : String) (mt : ℕ) (ms : Json) (a : Action) (s : System B)
      → IsRequest rid mt ms a
      → (deliver c js (a ∷ []) s).storage ≡ s.storage
  unfolding deliver
  deliver-storage rid mt ms a s (inl e) = rw (e, deliver) refl
  deliver-storage rid mt ms a s (inr (inl e)) = rw (e, deliver) refl
  deliver-storage rid mt ms a s (inr (inr e)) = rw (e, deliver) (settled-storage rid send_failed s)

  module _ (w : World) (account : Option String) where
    ask-ScopedTo :
        (rid : String) (payload : Fields) (p : Pending) (s : System B)
        → Names account (number_of p.command) payload
        → ScopedTo account s (ask c js w rid payload p s)
    unfolding ask
    ask-ScopedTo rid payload p s h =
        let mt = number_of p.command in
        let (a, e, kind) = request-logged w rid mt (obj payload) s.storage in
        let st = request w rid mt (obj payload) s.storage in
        let asked : System B = record s { storage = st; pending = put rid p s.pending } in
        let new = ap (drop (length s.storage.actions)) e ∙ drop-append s.storage.actions (a ∷ []) in
        (
          a ∷ [],
          ap (λ as'. (deliver c js as' asked).storage.actions) new
              ∙ ap (λ x. x.actions) (deliver-storage rid mt (obj payload) a asked kind)
              ∙ e,
          (request-Scoped account rid mt payload a h kind, tt),
        )

    pub submit-ScopedTo :
        (rid : String) (payload : Option Fields) (p : Pending) (s : System B)
        → IfSome (Names account (number_of p.command)) payload
        → ScopedTo account s (submit c js w rid payload p s)
    unfolding submit unavailable
    submit-ScopedTo rid payload p s h = elim (Bool-cases (is_connected w s.storage)) [
      | inr e ↦
          rw (e, submit)
            (ScopedTo-same account s (unavailable c js w p s)
              (reply-framed c js SameStorage (stored c) p.command _ p.ws p.message s))
      | inl e ↦ rw (e, submit) (sent payload h)
    ]
      where
        sent :
            (payload : Option Fields)
            → IfSome (Names account (number_of p.command)) payload
            → ScopedTo account s
                (elim payload [ none ↦ s | some fields ↦ ask c js w rid fields p s ])
        sent none h = ScopedTo-same account s s refl
        sent (some fields) h = ask-ScopedTo rid fields p s h

module _ {B : Type 0} (c : JsonText B) (js : Coercions) (parse_body : String → Option Json)
    (w : World) (command : Command) (i : Inputs) (fs : Fields) (ws : ℕ) (s : System B) where
  pub handle_tasks-ScopedTo :
      (account : Option String) (payload : Fields → Option Fields)
      → ((mms : Fields) → IfSome (Names account (number_of command)) (payload mms))
      → ScopedTo account s (handle_tasks c js parse_body w command payload i fs ws s)
  unfolding handle_tasks
  handle_tasks-ScopedTo account payload h = elim (Option-cases (message_body parse_body fs)) [
    | inl e ↦ rw (e, handle_tasks) (ScopedTo-same account s s refl)
    | inr (mms, e) ↦ elim (Bool-cases (is_blank js (prop "ai" mms))) [
      | inl b ↦ rw (e, b, handle_tasks) (ScopedTo-same account s s refl)
      | inr b ↦
          rw (e, b, handle_tasks) (submit-ScopedTo c js w account i.rid (payload mms) _ s (h mms))
    ]
  ]

  pub handle_scoped-ScopedTo :
      (stops : Fields → Bool) (payload : String → Fields → Fields)
      → ((account : String) (mms : Fields)
          → Names (some account) (number_of command) (payload account mms))
      → ScopedTo
          (account_of_login ws s)
          s
          (handle_scoped c js parse_body w command stops payload i fs ws s)
  unfolding handle_scoped
  handle_scoped-ScopedTo stops payload h = elim (Option-cases (message_body parse_body fs)) [
    | inl e ↦ rw (e, handle_scoped) (ScopedTo-same (account_of_login ws s) s s refl)
    | inr (mms, e) ↦ elim (Bool-cases (stops mms)) [
      | inl b ↦ rw (e, b, handle_scoped) (ScopedTo-same (account_of_login ws s) s s refl)
      | inr b ↦ elim (Option-cases (account_of_login ws s)) [
        | inl a ↦ rw (e, b, a, handle_scoped) (ScopedTo-same none s s refl)
        | inr (account, a) ↦
            rw (e, b, a, handle_scoped)
              (submit-ScopedTo c js w (some account) i.rid (some (payload account mms)) _ s
                (h account mms))
      ]
    ]
  ]
