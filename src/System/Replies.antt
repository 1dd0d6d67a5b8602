-- ===== src/System/Replies.antt =====
-- About the replies of the storage commands: to which socket they go.
use droneengage_server.Base.{
  ℕ, ◌≡◌, refl, false, Option, some, [], ◌∷◌, String, get, erase, inl, inr, Bool-cases, Json,
  Fields, obj, Coercions, JsonText,
}
use droneengage_server.Rooms.{Call, send, terminate, close}
use droneengage_server.Rooms.Isolation.{Added, Added-refl, Added-trans}
use droneengage_server.Storage.{Outcome}
use droneengage_server.System.{System, Pending, Command, send_json, reply}
use droneengage_server.System.Frames.{IsFrame, on_outcome-framed}
use droneengage_server.System.Answers.{settled}

-- A text to one socket.
abbrev pub To : {M : Type 0} → ℕ → Call M → Type 0
To ws (send p m b) = (p ≡ ws) × (b ≡ false)
To ws (terminate p) = ⊥
To ws (close p) = ⊥

-- The calls from one state to a later one are texts to one socket.
abbrev pub Replied : {B : Type 0} → ℕ → System B → System B → Type 0
Replied ws s t = Added (To ws) s.server.rooms t.server.rooms

module _ {B : Type 0} (ws : ℕ) where
  pub Replied-refl : (s : System B) → Replied ws s s
  Replied-refl s = Added-refl (To ws) s.server.rooms

  pub Replied-trans : (s t u : System B) → Replied ws s t → Replied ws t u → Replied ws s u
  Replied-trans s t u = Added-trans (To ws) s.server.rooms t.server.rooms u.server.rooms

module _ {B : Type 0} (c : JsonText B) where
  pub send_json-Replied :
      (ws : ℕ) (fs : Fields) (s : System B) → Replied ws s (send_json c ws fs s).0
  unfolding send_json
  send_json-Replied ws fs s = elim (Bool-cases (s.server.rooms.sockets ws).send_throws) [
    | inl e ↦ rw (e, send_json) (Replied-refl ws s)
    | inr e ↦
        rw (e, send_json) (send ws (c.stringify (obj fs)) false ∷ [], refl, ((refl, refl), tt))
  ]

  pub reply-Replied :
      (command : Command) (ms : Option Json) (ws : ℕ) (fs : Fields) (s : System B)
      → Replied ws s (reply c command ms ws fs s).0
  unfolding reply
  reply-Replied command ms ws fs s = send_json-Replied ws _ s

  pub replies : IsFrame c Replied
  replies = record {
    stays = λ ws s. Replied-refl ws s;
    follows = λ ws s t u. Replied-trans ws s t u;
    sends = send_json-Replied;
  }

module _ {B : Type 0} (c : JsonText B) (js : Coercions) where
  -- the callbacks of a request that is there
  pub settled-Replied :
      (rid : String) (p : Pending) (o : Outcome) (s : System B)
      → get rid s.pending ≡ some p
      → Replied p.ws s (settled c js rid o s)
  unfolding settled
  settled-Replied rid p o s h =
      rw (h, settled)
        (on_outcome-framed c js Replied (replies c) p o
          (record s { pending = erase rid s.pending }))
