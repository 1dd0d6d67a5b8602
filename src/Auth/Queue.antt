-- ===== src/Auth/Queue.antt =====
-- About the queue of js_comm_server_manager_client.js between a close and the next opening.
use droneengage_server.Base.{
  ◌≡◌, refl, ap, ◌∙◌, false, some, List, [], ◌∷◌, ◌++◌, append_assoc, append-nil,
}
use droneengage_server.Auth.{ManagerClient, send_message, flush_queue, on_open, on_close}

module _ {M : Type 0} where
  abbrev pub send_all : List M → ManagerClient M → ManagerClient M
  send_all [] m = m
  send_all (x ∷ xs) m = send_all xs (send_message x m)

  -- a client that waits for its connection
  abbrev pub waiting : List M → List M → ManagerClient M
  waiting queue sent = record { ws_open = some false; message_queue = queue; sent = sent }

  send_all-waiting :
      (xs queue sent : List M) → send_all xs (waiting queue sent) ≡ waiting (queue ++ xs) sent
  unfolding send_message
  send_all-waiting [] queue sent = rw append-nil refl
  send_all-waiting (x ∷ xs) queue sent =
      send_all-waiting xs (queue ++ x ∷ []) sent
      ∙ ap (λ q. waiting q sent) (append_assoc queue (x ∷ []) xs)

  -- What is sent between a close and the next opening leaves, when the connection is open again, right
  -- after the announcement and in its order, and the queue is empty then.
  pub on_open-ordered :
      (info : M) (xs : List M) (m : ManagerClient M)
      → let opened = on_open info (send_all xs (on_close m)) in
        (opened.sent ≡ m.sent ++ info ∷ xs) × (opened.message_queue ≡ [])
  unfolding on_open flush_queue send_message on_close
  on_open-ordered info xs m =
      rw (send_all-waiting xs [] m.sent) (append_assoc m.sent (info ∷ []) xs, refl)
