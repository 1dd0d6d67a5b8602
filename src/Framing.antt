-- ===== src/Framing.antt =====
-- The layout of a binary message: JSON text, then from the first NUL byte on the payload.
-- Models the `indexOf(0)` / `subarray` / `Buffer.concat` sequence that
-- src/comm_server/chat_server/js_chat_relay.js and js_chat_routing.js repeat.
use droneengage_server.Base.{
  ℕ, suc, ◌≡◌, refl, ap, Bool, true, false, Option, none, some, List, [], ◌∷◌, ◌++◌, arith,
  if◌then◌else◌, length, take, drop, All, Json, JsonText, IsJsonText, append-nil,
}
use mathlib.Core.Option

module _ {B : Type 0} (is_nul : B → Bool) where
  -- `message.indexOf(0)`; `none` is -1
  unfoldable pub index_of_nul : List B → Option ℕ
  index_of_nul [] = none
  index_of_nul (b ∷ bs) =
      let rest = Option.map suc (index_of_nul bs) in if is_nul b then some 0 else rest

  pub index_of_nul-none : (bs : List B) → All (λ b. is_nul b ≡ false) bs → index_of_nul bs ≡ none
  unfolding index_of_nul
  index_of_nul-none [] h = refl
  index_of_nul-none (b ∷ bs) h = ground (arith, index_of_nul-none bs)

  pub index_of_nul-some :
      (bs : List B) (z : B) (rest : List B)
      → All (λ b. is_nul b ≡ false) bs
      → is_nul z ≡ true
      → index_of_nul (bs ++ z ∷ rest) ≡ some (length bs)
  unfolding index_of_nul
  index_of_nul-some [] z rest h hz = ground arith
  index_of_nul-some (b ∷ bs) z rest h hz = ground (arith, index_of_nul-some bs z rest)

-- The JSON part: all of the message where there is no NUL.
unfoldable pub json_part {ℓ} : {B : Type ℓ} → Option ℕ → List B → List B
json_part none message = message
json_part (some i) message = take i message

-- What follows a new JSON part.
unfoldable pub payload_part {ℓ} : {B : Type ℓ} → Option ℕ → List B → List B
payload_part none message = []
payload_part (some i) message = drop i message

pub take-length {ℓ} : {B : Type ℓ} (xs ys : List B) → take (length xs) (xs ++ ys) ≡ xs
take-length [] ys = refl
take-length (x ∷ xs) ys = ap (◌∷◌ x) (take-length xs ys)

pub drop-length {ℓ} : {B : Type ℓ} (xs ys : List B) → drop (length xs) (xs ++ ys) ≡ ys
drop-length [] ys = refl
drop-length (x ∷ xs) ys = drop-length xs ys

module _ {B : Type 0} (c : JsonText B) where
  -- A binary message with a header and a payload, as the senders build it.
  unfoldable pub frame : Json → List B → List B
  frame j payload = c.stringify j ++ payload

  -- The payload starts with NUL, or is empty.
  abbrev pub StartsNul : List B → Type 0
  StartsNul [] = Unit
  StartsNul (z ∷ rest) = c.is_nul z ≡ true

module _ {B : Type 0} (c : JsonText B) (ok : IsJsonText c) (j : Json) where
  index_of_nul-frame_nil : index_of_nul c.is_nul (frame c j []) ≡ none
  unfolding frame
  index_of_nul-frame_nil = rw append-nil (index_of_nul-none c.is_nul (c.stringify j) (ok.no_nul j))

  index_of_nul-frame_cons :
      (z : B) (rest : List B)
      → c.is_nul z ≡ true
      → index_of_nul c.is_nul (frame c j (z ∷ rest)) ≡ some (length (c.stringify j))
  unfolding frame
  index_of_nul-frame_cons z rest h =
      index_of_nul-some c.is_nul (c.stringify j) z rest (ok.no_nul j) h

  -- Splitting a framed message gives back its two parts.
  pub split-frame :
      (payload : List B)
      → StartsNul c payload
      → (json_part (index_of_nul c.is_nul (frame c j payload)) (frame c j payload) ≡ c.stringify j)
        × (payload_part (index_of_nul c.is_nul (frame c j payload)) (frame c j payload) ≡ payload)
  unfolding json_part payload_part
  split-frame [] h = rw index_of_nul-frame_nil (unfold frame in (append-nil (c.stringify j), refl))
  split-frame (z ∷ rest) h = rw (index_of_nul-frame_cons z rest h) (
      unfold frame in
      (take-length (c.stringify j) (z ∷ rest), drop-length (c.stringify j) (z ∷ rest)))
