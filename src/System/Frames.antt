-- ===== src/System/Frames.antt =====
-- About the callbacks of the storage commands: they change the server by sending to their socket only.
use droneengage_server.Base.{
  ℕ, ◌≡◌, refl, ◌∙◌, not, ◌||◌, Option, some, List, [], ◌∷◌, not_null, inl, inr, Bool-cases,
  Option-cases, Json, Fields, str, prop, elements, is_nullish, fields_of, Coercions, JsonText,
}
use droneengage_server.Constants.{const_ws_msg_routing_individual}
use droneengage_server.Storage.{
  Outcome, resolved, not_connected, timed_out, disconnected, send_failed,
}
use droneengage_server.System.{
  System, Pending, Command, load_tasks, save_tasks, delete_tasks, disable_tasks, load_mission,
  save_mission, delete_mission, load_news, save_news, delete_news, addressed, socket_name,
  send_json, reply,
}
use droneengage_server.System.Answers.{
  is_success, task_fields, send_tasks, tasks_of, done, on_tasks, on_done, on_loaded, on_news_saved,
  on_news_deleted, on_response, on_failure, on_outcome,
}

-- A relation of states that a text to the socket is in, and that lasts over several.
pub record IsFrame {B : Type 0} (c : JsonText B) (R : ℕ → System B → System B → Type 0)
    : Type 0 where
  pub stays : (ws : ℕ) (s : System B) → R ws s s
  pub follows : (ws : ℕ) (s t u : System B) → R ws s t → R ws t u → R ws s u
  pub sends : (ws : ℕ) (fs : Fields) (s : System B) → R ws s (send_json c ws fs s).0

-- What sending leaves alone, the callbacks do.
pub keeps :
    {B A : Type 0} (c : JsonText B) (part : System B → A)
    → ((ws : ℕ) (fs : Fields) (s : System B) → part (send_json c ws fs s).0 ≡ part s)
    → IsFrame c (λ ws s t. part t ≡ part s)
keeps c part h = record { stays = λ ws s. refl; follows = λ ws s t u e f. f ∙ e; sends = h }

module _ {B : Type 0} (c : JsonText B) (js : Coercions) (R : ℕ → System B → System B → Type 0)
    (frame : IsFrame c R) where
  pub reply-framed :
      (command : Command) (ms : Option Json) (ws : ℕ) (fs : Fields) (s : System B)
      → R ws s (reply c command ms ws fs s).0
  unfolding reply
  reply-framed command ms ws fs s = frame.sends ws _ s

  send_tasks-framed :
      (ws : ℕ) (message_type : Option Json) (ts : List (Option Json)) (fs : Fields) (s : System B)
      → R ws s (send_tasks c js ws message_type ts fs s).0
  unfolding send_tasks
  send_tasks-framed ws mt [] fs s = frame.stays ws s
  send_tasks-framed ws mt (t ∷ ts) fs s = elim (Option-cases (fields_of t)) [
    | inl e ↦ rw (e, send_tasks) (frame.stays ws s)
    | inr (task, e) ↦
        let fs₁ = addressed const_ws_msg_routing_individual (socket_name ws s) fs in
        let fs₂ = task_fields mt task fs₁ in
        let s₁ = (send_json c ws fs₂ s).0 in
        elim (Bool-cases (send_json c ws fs₂ s).1) [
          | inl threw ↦ rw (e, threw, send_tasks) (frame.sends ws fs₂ s)
          | inr sent ↦
              rw (e, sent, send_tasks)
                (frame.follows ws s s₁ (send_tasks c js ws mt ts fs₂ s₁).0 (frame.sends ws fs₂ s)
                  (send_tasks-framed ws mt ts fs₂ s₁))
        ]
  ]

  done-framed : (p : Pending) (s : System B) → R p.ws s (done c js p s).0
  done-framed p s = reply-framed p.command (some (str "Done")) p.ws p.message s

  on_tasks-framed :
      (p : Pending) (response : Fields) (s : System B) → R p.ws s (on_tasks c js p response s).0
  unfolding on_tasks
  on_tasks-framed p response s = elim (Bool-cases (is_success response)) [
    | inr e ↦ rw (e, on_tasks) (frame.stays p.ws s)
    | inl e ↦ elim (Option-cases (not_null (tasks_of c js response))) [
      | inl n ↦ rw (e, n, on_tasks) (frame.stays p.ws s)
      | inr (tasks, n) ↦
          rw (e, n, on_tasks)
            (send_tasks-framed p.ws (prop "messageType" p.body) (elements js tasks) p.message s)
    ]
  ]

  on_done-framed :
      (p : Pending) (response : Fields) (s : System B) → R p.ws s (on_done c js p response s).0
  unfolding on_done
  on_done-framed p response s = elim (Bool-cases (is_success response)) [
    | inl e ↦ rw (e, on_done) (done-framed p s)
    | inr e ↦ rw (e, on_done) (frame.stays p.ws s)
  ]

  on_loaded-framed :
      (p : Pending) (response : Fields) (s : System B) → R p.ws s (on_loaded c js p response s).0
  unfolding on_loaded
  on_loaded-framed p response s =
      elim (Bool-cases (not (is_success response) || is_nullish (prop "ms" response))) [
        | inl e ↦ rw (e, on_loaded) (frame.stays p.ws s)
        | inr e ↦ rw (e, on_loaded) (reply-framed p.command (prop "ms" response) p.ws p.message s)
      ]

  on_news_saved-framed :
      (p : Pending) (response : Fields) (s : System B)
      → R p.ws s (on_news_saved c js p response s).0
  unfolding on_news_saved
  on_news_saved-framed p response s = elim (Bool-cases (is_success response)) [
    | inr e ↦ rw (e, on_news_saved) (frame.stays p.ws s)
    | inl e ↦ elim (Option-cases (fields_of (prop "ms" response))) [
      | inl n ↦ rw (e, n, on_news_saved) (frame.stays p.ws s)
      | inr (ms, n) ↦ rw (e, n, on_news_saved) (reply-framed p.command _ p.ws p.message s)
    ]
  ]

  on_response-framed :
      (command : Command) (p : Pending) (response : Fields) (s : System B)
      → R p.ws s (on_response c js command p response s).0
  unfolding on_response on_news_deleted
  on_response-framed load_tasks p response s = on_tasks-framed p response s
  on_response-framed save_tasks p response s = on_done-framed p response s
  on_response-framed delete_tasks p response s = on_done-framed p response s
  on_response-framed disable_tasks p response s = on_done-framed p response s
  on_response-framed load_mission p response s = on_loaded-framed p response s
  on_response-framed save_mission p response s = on_done-framed p response s
  on_response-framed delete_mission p response s = done-framed p s
  on_response-framed load_news p response s = on_loaded-framed p response s
  on_response-framed save_news p response s = on_news_saved-framed p response s
  on_response-framed delete_news p response s = reply-framed p.command _ p.ws p.message s

  pub on_failure-framed :
      (p : Pending) (fs : Fields) (s : System B) → R p.ws s (on_failure c js p fs s)
  unfolding on_failure
  on_failure-framed p fs s = reply-framed p.command _ p.ws fs s

  pub on_outcome-framed :
      (p : Pending) (o : Outcome) (s : System B) → R p.ws s (on_outcome c js p o s)
  unfolding on_outcome
  on_outcome-framed p (resolved response) s =
      let r = on_response c js p.command p response s in
      let answered = on_response-framed p.command p response s in
      elim (Bool-cases r.1.1) [
        | inr e ↦ rw (e, on_outcome) answered
        | inl e ↦
            rw (e, on_outcome)
              (frame.follows p.ws s r.0 (on_failure c js p r.1.0 r.0) answered
                (on_failure-framed p r.1.0 r.0))
      ]
  on_outcome-framed p not_connected s = on_failure-framed p p.message s
  on_outcome-framed p timed_out s = on_failure-framed p p.message s
  on_outcome-framed p disconnected s = on_failure-framed p p.message s
  on_outcome-framed p send_failed s = on_failure-framed p p.message s
