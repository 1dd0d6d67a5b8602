-- ===== src/System/Ending.antt =====
-- About the callbacks of requests that end without an answer.
use droneengage_server.Base.{
  ℕ, subst, ◌≡◌, refl, sym, ap, ◌∙◌, true, false, Option, some, List, [], ◌∷◌, ◌++◌, Has,
  Has-append_left, Has-append_right, String, get, erase, get-erase, str_eq, eq_iff, inl, inr,
  Bool-cases, Option-cases, Fields, obj, str, Coercions, JsonText, arith,
}
use droneengage_server.Rooms.{Call, send}
use droneengage_server.Storage.{Action, disconnected, settle, send_status, is_pending}
use droneengage_server.System.{
  System, Pending, routing_of, number_of, failure_text, reply_fields, socket_name, send_json, reply,
}
use droneengage_server.System.Answers.{on_failure, on_outcome, settled, deliver}
use droneengage_server.System.Frames.{keeps, on_outcome-framed}
use droneengage_server.System.Replies.{Replied, replies}

-- the error reply of a request, with the name of its socket
abbrev pub error_reply : {B : Type 0} → JsonText B → Option String → Pending → Call (List B)
error_reply c name p =
    send p.ws
      (c.stringify (
        obj (
          reply_fields (routing_of p.command) name (number_of p.command)
            (some (str (failure_text p.command))) p.message)))
      false

abbrev pub settles : List String → List Action
settles [] = []
settles (k ∷ ks) = settle k disconnected ∷ settles ks

-- what the log of a close starts with: a status, or nothing
abbrev pub Quiet : List Action → Type 0
Quiet [] = Unit
Quiet (send_status a b e ∷ []) = Unit
Quiet _ = ⊥

module _ {B : Type 0} (c : JsonText B) (js : Coercions) where
  send_json-sockets :
      (ws : ℕ) (fs : Fields) (s : System B)
      → (send_json c ws fs s).0.server.rooms.sockets ≡ s.server.rooms.sockets
  unfolding send_json
  send_json-sockets ws fs s = elim (Bool-cases (s.server.rooms.sockets ws).send_throws) [
    | inl e ↦ rw (e, send_json) refl
    | inr e ↦ rw (e, send_json) refl
  ]

  send_json-pending :
      (ws : ℕ) (fs : Fields) (s : System B) → (send_json c ws fs s).0.pending ≡ s.pending
  unfolding send_json
  send_json-pending ws fs s = elim (Bool-cases (s.server.rooms.sockets ws).send_throws) [
    | inl e ↦ rw (e, send_json) refl
    | inr e ↦ rw (e, send_json) refl
  ]

  settled-sockets :
      (k : String) (s : System B)
      → (settled c js k disconnected s).server.rooms.sockets ≡ s.server.rooms.sockets
  unfolding settled
  settled-sockets k s = elim (Option-cases (get k s.pending)) [
    | inl e ↦ rw (e, settled) refl
    | inr (p, e) ↦
        rw (e, settled)
          (on_outcome-framed c js _ (keeps c (λ t. t.server.rooms.sockets) send_json-sockets) p
            disconnected (record s { pending = erase k s.pending }))
  ]

  settled-pending :
      (k rid : String) (p : Pending) (s : System B)
      → str_eq k rid ≡ false
      → get rid s.pending ≡ some p
      → get rid (settled c js k disconnected s).pending ≡ some p
  unfolding settled
  settled-pending k rid p s other h = elim (Option-cases (get k s.pending)) [
    | inl e ↦ rw (e, settled) h
    | inr (q, e) ↦
        let kept =
          on_outcome-framed c js _ (keeps c (λ t. t.pending) send_json-pending) q disconnected
            (record s { pending = erase k s.pending }) in
        rw (e, settled) (ap (get rid) kept ∙ get-erase k rid s.pending ∙ rw other h)
  ]

  send_json-calls :
      (ws : ℕ) (fs : Fields) (s : System B)
      → (s.server.rooms.sockets ws).send_throws ≡ false
      → (send_json c ws fs s).0.server.rooms.calls
        ≡ s.server.rooms.calls ++ send ws (c.stringify (obj fs)) false ∷ []
  unfolding send_json
  send_json-calls ws fs s ok = rw (ok, send_json) refl

  on_failure-answers :
      (p : Pending) (s : System B)
      → (s.server.rooms.sockets p.ws).send_throws ≡ false
      → Has
          (error_reply c (socket_name p.ws s) p)
          (on_failure c js p p.message s).server.rooms.calls
  unfolding on_failure reply
  on_failure-answers p s ok =
      subst (Has (error_reply c (socket_name p.ws s) p)) (sym (send_json-calls p.ws _ s ok))
        (Has-append_right _ s.server.rooms.calls (_ ∷ []) (inl refl))

  settled-answers :
      (rid : String) (p : Pending) (s : System B)
      → get rid s.pending ≡ some p
      → (s.server.rooms.sockets p.ws).send_throws ≡ false
      → Has
          (error_reply c (socket_name p.ws s) p)
          (settled c js rid disconnected s).server.rooms.calls
  unfolding settled on_outcome
  settled-answers rid p s h ok =
      rw (h, settled) (on_failure-answers p (record s { pending = erase rid s.pending }) ok)

  -- a call that was made stays in the log
  settled-Has :
      (k : String) (x : Call (List B)) (s : System B)
      → Has x s.server.rooms.calls
      → Has x (settled c js k disconnected s).server.rooms.calls
  unfolding settled
  settled-Has k x s h = elim (Option-cases (get k s.pending)) [
    | inl e ↦ rw (e, settled) h
    | inr (p, e) ↦
        let t = record s { pending = erase k s.pending } in
        let (cs, g, _) = on_outcome-framed c js Replied (replies c) p disconnected t in
        rw (e, settled, g) (Has-append_left x s.server.rooms.calls cs h)
  ]

  deliver-Has :
      (ks : List String) (x : Call (List B)) (s : System B)
      → Has x s.server.rooms.calls
      → Has x (deliver c js (settles ks) s).server.rooms.calls
  unfolding deliver
  deliver-Has [] x s h = h
  deliver-Has (k ∷ ks) x s h =
      deliver-Has ks x (settled c js k disconnected s) (settled-Has k x s h)

  pub deliver-answers :
      (ks : List String) (rid : String) (p : Pending) (s : System B)
      → is_pending rid ks ≡ true
      → get rid s.pending ≡ some p
      → (s.server.rooms.sockets p.ws).send_throws ≡ false
      → Has (error_reply c (socket_name p.ws s) p) (deliver c js (settles ks) s).server.rooms.calls
  unfolding deliver is_pending
  deliver-answers [] rid p s h g ok = absurd (ground (arith, h))
  deliver-answers (k ∷ ks) rid p s h g ok = elim (Bool-cases (str_eq k rid)) [
    | inl e ↦
        deliver-Has ks _ (settled c js k disconnected s)
          (rw ((eq_iff k rid).0 e) (settled-answers rid p s g ok))
    | inr e ↦
        let t = settled c js k disconnected s in
        let same = settled-sockets k s in
        subst
          (λ f.
            Has (error_reply c (f p.ws).name p) (deliver c js (settles ks) t).server.rooms.calls)
          same
          (deliver-answers ks rid p t (ground (arith, h, e)) (settled-pending k rid p s e g)
            (ap (λ f. (f p.ws).send_throws) same ∙ ok))
  ]

  pub deliver-Quiet :
      (as' : List Action) (ks : List String) (s : System B)
      → Quiet as'
      → deliver c js (as' ++ settles ks) s ≡ deliver c js (settles ks) s
  unfolding deliver
  deliver-Quiet [] ks s q = refl
  deliver-Quiet (send_status a b e ∷ []) ks s q = refl
  deliver-Quiet _ ks s q = absurd q
