-- ===== src/S2s.antt =====
-- src/comm_server/js_s2s_auth.js: the envelope of the server-to-server authentication, and the test of a
-- signed answer. Ed25519 is a parameter.
pub mod Parent
pub mod Gated
pub mod Gate
pub mod ChildComm
pub mod Reconnect
pub mod Handshake
pub mod Downlink
use droneengage_server.Base.{
  Coercions, Property, property_key, ◌||◌, ℕ, Bool, true, false, Option, none, some, List, [], ◌∷◌,
  String, set_opt, Dict, get, read, own, inherited, undefined, Json, Fields, field, end, null, obj,
  str, prop, JsonText, if◌then◌else◌,
}

abbrev pub challenge : String
challenge = "challenge"

abbrev pub response : String
response = "response"

-- the fields of an object in which `s2s_auth` is neither missing nor null
unfoldable pub envelope_of : Option Json → Option Fields
envelope_of (some (obj fs)) = elim (prop "s2s_auth" fs) [
  | none ↦ none
  | some null ↦ none
  | some j ↦ some fs
]
envelope_of _ = none

module _ {B : Type 0} (c : JsonText B) (is_open_brace : B → Bool) where
  -- `fn_parseEnvelope`, of a Buffer
  unfoldable pub parse_envelope : List B → Option Fields
  parse_envelope [] = none
  parse_envelope (b ∷ bs) =
      let parsed = c.parse (b ∷ bs) in if is_open_brace b then envelope_of parsed else none

  -- `fn_buildChallenge`
  unfoldable pub build_challenge : String → List B
  build_challenge nonce =
      c.stringify (obj (field "s2s_auth" (str challenge) (field "nonce" (str nonce) end)))

  -- `fn_buildResponse`; `sign` is `fn_sign`, and `none` where it throws
  unfoldable pub build_response :
      (Option Json → Option String) → Option Json → Option Json → Option (List B)
  build_response sign nonce id = elim (sign nonce) [
    | none ↦ none
    | some sig ↦
        let answer = field "s2s_auth" (str response) (field "sig" (str sig) end) in
        some (c.stringify (obj (set_opt "id" id answer)))
  ]

-- a field that is missing or null
unfoldable pub is_null : Option Json → Bool
is_null none = true
is_null (some null) = true
is_null (some j) = false

-- `fn_verify`, of a signature and an id that are whatever the envelope holds; `check` is `crypto.verify`,
-- `none` where it throws, and a server's key is looked up as a property
module _ {Key : Type 0} (js : Coercions) (check : Key → String → Option Json → Option Bool)
    (keys : Option (Dict Key)) where
  -- with the key that the id names
  unfoldable pub verify_with_key : String → Option Json → Property Key → Bool
  verify_with_key nonce signature (own key) = elim (check key nonce signature) [
    | none ↦ false
    | some b ↦ b
  ]
  verify_with_key nonce signature inherited = false
  verify_with_key nonce signature undefined = false

  unfoldable pub verify : Option String → Option Json → Option Json → Bool
  verify none signature id = false
  verify (some given) signature id = if is_null signature || is_null id then false else (elim keys [
    | none ↦ false
    | some ks ↦ verify_with_key given signature (read (property_key js id) ks)
  ])
