-- ===== src/System/Requests.antt =====
-- About the requests of the storage commands, from the guard of a handler to the socket of its reply.
use droneengage_server.Base.{
  ℕ, ◌≡◌, refl, ◌∙◌, Bool, ◌⊎◌, Option, some, [], ◌∷◌, ◌++◌, String, get, get-put, drop-append,
  eq_refl, inl, inr, Bool-cases, Option-cases, Json, Fields, obj, prop, is_blank, Coercions,
  JsonText,
}
use droneengage_server.Storage.{World, Client, Action, send_failed, send_request, settle, refuse}
use droneengage_server.Storage.Lifecycle.{request, is_connected}
use droneengage_server.System.{System, Pending, Command, number_of, message_body, account_of_login}
use droneengage_server.System.Answers.{deliver}
use droneengage_server.System.Tasks.{Inputs, ask, unavailable, submit, handle_tasks, handle_scoped}
use droneengage_server.System.Replies.{Replied, Replied-refl, reply-Replied, settled-Replied}

-- what a request adds to the log of the storage client
abbrev pub IsRequest : String → ℕ → Json → Action → Type 0
IsRequest rid mt ms a = (a ≡ refuse) ⊎ (a ≡ send_request rid mt ms) ⊎ (a ≡ settle rid send_failed)

pub request-logged :
    (w : World) (rid : String) (mt : ℕ) (ms : Json) (st : Client)
    → (a : Action) × ((request w rid mt ms st).actions ≡ st.actions ++ a ∷ [])
      × IsRequest rid mt ms a
unfolding request
request-logged w rid mt ms st = elim (Bool-cases (is_connected w st)) [
  | inr e ↦ rw (e, request) (refuse, refl, inl refl)
  | inl e ↦ elim (Option-cases st.ws) [
    | inl n ↦ rw (e, n, request) (refuse, refl, inl refl)
    | inr (ws, n) ↦ elim (Bool-cases (w.send_throws ws)) [
      | inl t ↦ rw (e, n, t, request) (settle rid send_failed, refl, inr (inr refl))
      | inr t ↦ rw (e, n, t, request) (send_request rid mt ms, refl, inr (inl refl))
    ]
  ]
]

module _ {B : Type 0} (c : JsonText B) (js : Coercions) (w : World) where
  deliver-Replied :
      (rid : String) (mt : ℕ) (ms : Json) (p : Pending) (a : Action) (s : System B)
      → IsRequest rid mt ms a
      → get rid s.pending ≡ some p
      → Replied p.ws s (deliver c js (a ∷ []) s)
  unfolding deliver
  deliver-Replied rid mt ms p a s (inl e) h = rw (e, deliver) (Replied-refl p.ws s)
  deliver-Replied rid mt ms p a s (inr (inl e)) h = rw (e, deliver) (Replied-refl p.ws s)
  deliver-Replied rid mt ms p a s (inr (inr e)) h =
      rw (e, deliver) (settled-Replied c js rid p send_failed s h)

  ask-Replied :
      (rid : String) (payload : Fields) (p : Pending) (s : System B)
      → Replied p.ws s (ask c js w rid payload p s)
  unfolding ask
  ask-Replied rid payload p s =
      let (a, e, kind) = request-logged w rid (number_of p.command) (obj payload) s.storage in
      rw (e, drop-append s.storage.actions (a ∷ []))
        (deliver-Replied rid (number_of p.command) (obj payload) p a _ kind
          (get-put rid rid p s.pending ∙ rw (eq_refl rid) refl))

  pub submit-Replied :
      (rid : String) (payload : Option Fields) (p : Pending) (s : System B)
      → Replied p.ws s (submit c js w rid payload p s)
  unfolding submit unavailable
  submit-Replied rid payload p s = elim (Bool-cases (is_connected w s.storage)) [
    | inr e ↦ rw (e, submit) (reply-Replied c p.command _ p.ws p.message s)
    | inl e ↦ elim (Option-cases payload) [
      | inl n ↦ rw (e, n, submit) (Replied-refl p.ws s)
      | inr (fields, n) ↦ rw (e, n, submit) (ask-Replied rid fields p s)
    ]
  ]

module _ {B : Type 0} (c : JsonText B) (js : Coercions) (parse_body : String → Option Json)
    (w : World) (command : Command) (i : Inputs) (fs : Fields) (ws : ℕ) (s : System B) where
  pub handle_tasks-Replied :
      (payload : Fields → Option Fields)
      → Replied ws s (handle_tasks c js parse_body w command payload i fs ws s)
  unfolding handle_tasks
  handle_tasks-Replied payload = elim (Option-cases (message_body parse_body fs)) [
    | inl e ↦ rw (e, handle_tasks) (Replied-refl ws s)
    | inr (mms, e) ↦ elim (Bool-cases (is_blank js (prop "ai" mms))) [
      | inl b ↦ rw (e, b, handle_tasks) (Replied-refl ws s)
      | inr b ↦ rw (e, b, handle_tasks) (submit-Replied c js w i.rid (payload mms) _ s)
    ]
  ]

  pub handle_scoped-Replied :
      (stops : Fields → Bool) (payload : String → Fields → Fields)
      → Replied ws s (handle_scoped c js parse_body w command stops payload i fs ws s)
  unfolding handle_scoped
  handle_scoped-Replied stops payload = elim (Option-cases (message_body parse_body fs)) [
    | inl e ↦ rw (e, handle_scoped) (Replied-refl ws s)
    | inr (mms, e) ↦ elim (Bool-cases (stops mms)) [
      | inl b ↦ rw (e, b, handle_scoped) (Replied-refl ws s)
      | inr b ↦ elim (Option-cases (account_of_login ws s)) [
        | inl a ↦ rw (e, b, a, handle_scoped) (Replied-refl ws s)
        | inr (account, a) ↦
            rw (e, b, a, handle_scoped)
              (submit-Replied c js w i.rid (some (payload account mms)) _ s)
      ]
    ]
  ]
