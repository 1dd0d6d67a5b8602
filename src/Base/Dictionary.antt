-- ===== src/Base/Dictionary.antt =====
-- A JavaScript object used as a dictionary, as an association list in the order of insertion
-- (integer-like keys, which an engine lists first, keep that order here too).
use Prim.Native.String.{String}
use mathlib.Core.Path.{◌≡◌, refl}
use mathlib.Core.Logic.{inl, inr}
use mathlib.Core.Bool.{Bool, true, false}
use mathlib.Core.Option.{Option, none, some}
use mathlib.Core.List.{List, [], ◌∷◌, map}
use native.Mathlib.Omega.{arith}
use text.Mathlib.TextEquality.{eq_iff}
use droneengage_server.Base.Lists.{Has}
use droneengage_server.Base.Tests.{str_eq, if◌then◌else◌, is_some, Bool-cases}

abbrev pub Dict {ℓ} : Type ℓ → Type ℓ
Dict V = List (String × V)

-- The name of a property whose key may be `undefined`.
abbrev pub key_of : Option String → String
key_of none = "undefined"
key_of (some k) = k

module _ {ℓ} {V : Type ℓ} where
  unfoldable pub get : String → Dict V → Option V
  get k [] = none
  get k ((j, v) ∷ m) = if str_eq j k then some v else get k m

  -- `m[k] = v`: in place if the key is there, else at the end
  unfoldable pub put : String → V → Dict V → Dict V
  put k v [] = (k, v) ∷ []
  put k v ((j, w) ∷ m) = if str_eq j k then (j, v) ∷ m else (j, w) ∷ put k v m

  -- `delete m[k]`
  unfoldable pub erase : String → Dict V → Dict V
  erase k [] = []
  erase k ((j, v) ∷ m) = let rest = erase k m in if str_eq j k then rest else (j, v) ∷ rest

  -- `m.hasOwnProperty(k)`
  unfoldable pub has : String → Dict V → Bool
  has k m = is_some (get k m)

  -- `Object.keys(m).length === 0`
  unfoldable pub is_empty : Dict V → Bool
  is_empty [] = true
  is_empty (e ∷ m) = false

  unfoldable pub keys : Dict V → List String
  keys = map (λ e. e.0)

  unfoldable pub values : Dict V → List V
  values = map (λ e. e.1)

  pub get-put :
      (k j : String) (v : V) (m : Dict V)
      → get j (put k v m) ≡ (if str_eq k j then some v else get j m)
  unfolding get put
  get-put k j v [] = refl
  get-put k j v ((i, w) ∷ m) = ground (arith, eq_iff k j, eq_iff i k, eq_iff i j, get-put k j v m)

  pub get-erase :
      (k j : String) (m : Dict V) → get j (erase k m) ≡ (if str_eq k j then none else get j m)
  unfolding get erase
  get-erase k j [] = ground arith
  get-erase k j ((i, w) ∷ m) = ground (arith, eq_iff k j, eq_iff i k, eq_iff i j, get-erase k j m)

  pub get_of_is_empty : (k : String) (m : Dict V) → is_empty m ≡ true → get k m ≡ none
  unfolding get is_empty
  get_of_is_empty k [] h = refl
  get_of_is_empty k (e ∷ m) h = ground arith

pub keys_have : {V : Type 0} (k : String) (v : V) (m : Dict V) → get k m ≡ some v → Has k (keys m)
unfolding get keys
keys_have k v [] h = cc
keys_have k v ((j, w) ∷ m) h = elim (Bool-cases (str_eq j k)) [
  | inl same ↦ inl ((eq_iff j k).0 same)
  | inr other ↦ inr (keys_have k v m (rw other at h))
]

pub values_have :
    {V : Type 0} (k : String) (v : V) (m : Dict V) → get k m ≡ some v → Has v (values m)
unfolding get values
values_have k v [] h = cc
values_have k v ((j, w) ∷ m) h = elim (Bool-cases (str_eq j k)) [
  | inl same ↦ inl (ground arith)
  | inr other ↦ inr (values_have k v m (rw other at h))
]

pub get-nil {ℓ} : {V : Type ℓ} (k : String) → get {V = V} k [] ≡ none
unfolding get
get-nil k = refl

pub ruleset dict_laws = (get-put, get-erase, get-nil)

-- The property names that every object inherits from `Object.prototype`: reading `m[k]` finds them
-- too, unlike `m.hasOwnProperty(k)` and `for (k in m)`.
abbrev pub object_prototype_names : List String
object_prototype_names =
    "constructor" ∷ "toString" ∷ "valueOf" ∷ "hasOwnProperty" ∷ "isPrototypeOf"
    ∷ "propertyIsEnumerable" ∷ "toLocaleString" ∷ "__proto__" ∷ "__defineGetter__"
    ∷ "__defineSetter__" ∷ "__lookupGetter__" ∷ "__lookupSetter__" ∷ []

pub member : String → List String → Bool
member k [] = false
member k (j ∷ ks) = if str_eq j k then true else member k ks

unfoldable pub is_inherited : String → Bool
unfolding member
is_inherited k = member k object_prototype_names

-- What `m[k]` reads.
pub data Property {ℓ} (V : Type ℓ) : Type ℓ where
  own : V → Property V
  inherited undefined : Property V

unfoldable pub read {ℓ} : {V : Type ℓ} → String → Dict V → Property V
read k m = elim (get k m) [
  | some v ↦ own v
  | none ↦ if is_inherited k then inherited else undefined
]
