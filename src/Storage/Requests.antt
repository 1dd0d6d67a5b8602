-- ===== src/Storage/Requests.antt =====
-- About the requests of js_db_proxy_client.js: how many an event answers and leaves pending.
use droneengage_server.Base.{
  ℕ, suc, refl, bool, decimal, arr, ◌+◌, ◌≡◌, Bool, true, false, Option, none, some, List, [], ◌∷◌,
  ◌++◌, String, if◌then◌else◌, str_eq, eq_iff, arith, Json, Fields, null, obj, str, num, prop, inl,
  inr, Bool-cases, Option-cases,
}
use droneengage_server.Constants.{const_storage_state_connecting, const_storage_state_connected}
use droneengage_server.Storage.{
  reply_key, on_push, answer, Client, World, Action, Outcome, disconnected, resolved, on_message,
  settle, send_request, send_response, close_ws, open_ws, send_status, push_news, refuse, act,
  is_pending, delete_pending, reject_all, send_storage_status, on_open, authenticate, on_auth_timer,
  answer_challenge, on_envelope, on_reply,
}

-- how often the request was answered
abbrev pub answers : String → List Action → ℕ
answers rid [] = 0
answers rid (settle k o ∷ rest) = if str_eq k rid then suc (answers rid rest) else answers rid rest
answers rid (_ ∷ rest) = answers rid rest

abbrev pub waiting : String → List String → ℕ
waiting rid [] = 0
waiting rid (k ∷ ks) = if str_eq k rid then suc (waiting rid ks) else waiting rid ks

answers-append :
    (rid : String) (xs ys : List Action) → answers rid (xs ++ ys) ≡ answers rid xs + answers rid ys
answers-append rid [] ys = omega arith
answers-append rid (settle k o ∷ xs) ys = ground (arith, answers-append rid xs ys)
answers-append rid (send_request k m j ∷ xs) ys = answers-append rid xs ys
answers-append rid (send_response j ∷ xs) ys = answers-append rid xs ys
answers-append rid (close_ws n ∷ xs) ys = answers-append rid xs ys
answers-append rid (open_ws n ∷ xs) ys = answers-append rid xs ys
answers-append rid (send_status s e p ∷ xs) ys = answers-append rid xs ys
answers-append rid (push_news j ∷ xs) ys = answers-append rid xs ys
answers-append rid (refuse ∷ xs) ys = answers-append rid xs ys

-- the answers given and the request if it is pending
abbrev pub account_of : String → Client → ℕ
account_of rid c = answers rid c.actions + waiting rid c.pending_requests

pub waiting-append :
    (rid : String) (xs ys : List String) → waiting rid (xs ++ ys) ≡ waiting rid xs + waiting rid ys
waiting-append rid [] ys = omega arith
waiting-append rid (k ∷ xs) ys = ground (arith, waiting-append rid xs ys)

pub waiting-delete_pending :
    (rid k : String) (ks : List String)
    → is_pending k ks ≡ true
    → waiting rid ks ≡ waiting rid (delete_pending k ks) + (if str_eq k rid then 1 else 0)
unfolding is_pending delete_pending
waiting-delete_pending rid k [] h = cc
waiting-delete_pending rid k (j ∷ ks) h =
    ground (arith, eq_iff j k, eq_iff k rid, waiting-delete_pending rid k ks)

pub delete_pending-append :
    (k : String) (ks : List String) → is_pending k ks ≡ false → delete_pending k (ks ++ k ∷ []) ≡ ks
unfolding is_pending delete_pending
delete_pending-append k [] h = ground (arith, eq_iff k k)
delete_pending-append k (j ∷ ks) h = ground (arith, delete_pending-append k ks)

pub reject_all-answers :
    (rid : String) (ks : List String) (c : Client)
    → answers rid (reject_all ks c).actions ≡ answers rid c.actions + waiting rid ks
unfolding reject_all
reject_all-answers rid [] c = omega arith
reject_all-answers rid (k ∷ ks) c = ground (
  arith,
  reject_all-answers rid ks (act (settle k disconnected) c),
  answers-append rid c.actions (settle k disconnected ∷ []),
)

module _ (rid : String) where
  -- what an action that answers nothing adds
  pub answers-act :
      (c : Client) (a : Action)
      → answers rid (act a c).actions ≡ answers rid c.actions + answers rid (a ∷ [])
  answers-act c a = answers-append rid c.actions (a ∷ [])

  pub send_storage_status-account :
      (status : String) (error : Option String) (force : Bool) (c : Client)
      → account_of rid (send_storage_status status error force c) ≡ account_of rid c
  unfolding send_storage_status
  send_storage_status-account status error force c =
      ground (arith, answers-append rid c.actions (send_status status error c.endpoint ∷ []))

  send_storage_status-pending :
      (status : String) (error : Option String) (force : Bool) (c : Client)
      → (send_storage_status status error force c).pending_requests ≡ c.pending_requests
  unfolding send_storage_status
  send_storage_status-pending status error force c = ground arith

  pub authenticate-account : (c : Client) → account_of rid (authenticate c) ≡ account_of rid c
  unfolding authenticate
  authenticate-account c =
      send_storage_status-account const_storage_state_connected none true
        (record c { authenticated = true; connection_state = const_storage_state_connected })

  pub on_open-account : (c : Client) → account_of rid (on_open c) ≡ account_of rid c
  unfolding on_open
  on_open-account c =
      send_storage_status-account const_storage_state_connecting none true
        (record c { reconnect_attempts = 0; connection_state = const_storage_state_connecting })

  pub on_auth_timer-account :
      (w : World) (c : Client) → account_of rid (on_auth_timer w c) ≡ account_of rid c
  unfolding on_auth_timer
  on_auth_timer-account w c = ground (arith, authenticate-account (record c { auth_timer = false }))

  answer_challenge-account :
      (w : World) (ws : ℕ) (nonce : Option Json) (c : Client)
      → account_of rid (answer_challenge w ws nonce c) ≡ account_of rid c
  unfolding answer_challenge
  answer_challenge-account w ws nonce c = elim (Option-cases (w.sign nonce)) [
    | inl e ↦ ground (arith, e, answers-act c (close_ws ws))
    | inr (reply, e) ↦
        ground (arith, e, answers-act c (close_ws ws), answers-act c (send_response reply))
  ]

  on_envelope-account :
      (w : World) (env : Fields) (c : Client)
      → account_of rid (on_envelope w env c) ≡ account_of rid c
  unfolding on_envelope
  on_envelope-account w env c = elim (Option-cases c.ws) [
    | inl e ↦ ground (arith, e)
    | inr (ws, e) ↦ ground (arith, e, answer_challenge-account w ws (prop "nonce" env) c)
  ]

  -- an answer takes the request off the table
  pub answered-account :
      (k : String) (o : Outcome) (c : Client)
      → is_pending k c.pending_requests ≡ true
      → account_of rid
          (act (settle k o) (record c { pending_requests = delete_pending k c.pending_requests }))
        ≡ account_of rid c
  answered-account k o c h =
      ground (arith, answers-act c (settle k o), waiting-delete_pending rid k c.pending_requests h)

  on_push-account : (fs : Fields) (c : Client) → account_of rid (on_push fs c) ≡ account_of rid c
  unfolding on_push
  on_push-account fs c = ground (arith, answers-act c (push_news (prop "ms" fs)))

  answer-account :
      (k : String) (fs : Fields) (c : Client) → account_of rid (answer k fs c) ≡ account_of rid c
  unfolding answer
  answer-account k fs c = elim (Bool-cases (is_pending k c.pending_requests)) [
    | inl e ↦ rw (e, answer) (answered-account k (resolved fs) c e)
    | inr e ↦ rw (e, answer) (on_push-account fs c)
  ]

  on_reply-account :
      (key_text : Json → String) (fs : Fields) (c : Client)
      → account_of rid (on_reply key_text fs c) ≡ account_of rid c
  unfolding on_reply
  on_reply-account key_text fs c =
      let authenticated = authenticate-account (record c { auth_timer = false }) in
      elim (Option-cases (reply_key key_text fs)) [
        | inl e ↦ ground (arith, e, authenticated, on_push-account fs c)
        | inr (k, e) ↦ ground (arith, e, authenticated, answer-account k fs c)
      ]

  pub on_message-account :
      (w : World) (key_text : Json → String) (env : Option Fields) (parsed : Option Json)
      (c : Client)
      → account_of rid (on_message w key_text env parsed c).0 ≡ account_of rid c
  unfolding on_message
  on_message-account w key_text (some env) parsed c = on_envelope-account w env c
  on_message-account w key_text none none c = refl
  on_message-account w key_text none (some (obj fs)) c = on_reply-account key_text fs c
  on_message-account w key_text none (some null) c = refl
  on_message-account w key_text none (some (bool b)) c = refl
  on_message-account w key_text none (some (num n)) c = refl
  on_message-account w key_text none (some (decimal n)) c = refl
  on_message-account w key_text none (some (str n)) c = refl
  on_message-account w key_text none (some (arr n)) c = refl
