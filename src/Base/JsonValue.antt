-- ===== src/Base/JsonValue.antt =====
-- JSON values as `JSON.parse` returns them, and JSON text as `JSON.parse` and `JSON.stringify` see it.
-- A number that is no natural number stands for itself by its printed text: the code compares none.
use Prim.Native.Nat.{ℕ}
use Prim.Native.String.{String}
use mathlib.Core.Path.{◌≡◌, refl}
use mathlib.Core.Logic.{◌↔◌}
use mathlib.Core.Bool.{Bool, true, false, not}
use mathlib.Core.Option.{Option, none, some}
use mathlib.Core.List.{List, [], ◌∷◌}
use native.Mathlib.Omega.{arith}
use text.Mathlib.TextEquality.{eq_iff}
use droneengage_server.Base.Tests.{str_eq, ◌==◌, if◌then◌else◌}
use droneengage_server.Base.Lists.{All}

mutual
  pub data Json : Type 0 where
    null : Json
    bool : Bool → Json
    num : ℕ → Json
    decimal : String → Json
    str : String → Json
    arr : Items → Json
    obj : Fields → Json

  pub data Items : Type 0 where
    nil : Items
    cons : Json → Items → Items

  pub data Fields : Type 0 where
    end : Fields
    field : String → Json → Fields → Fields

-- A property of an object; `none` is `undefined`.
unfoldable pub prop : String → Fields → Option Json
prop k end = none
prop k (field j v fs) = if str_eq j k then some v else prop k fs

-- `o[k] = v`
unfoldable pub set_prop : String → Json → Fields → Fields
set_prop k v end = field k v end
set_prop k v (field j w fs) = if str_eq j k then field j v fs else field j w (set_prop k v fs)

pub prop-set_prop :
    (k j : String) (v : Json) (fs : Fields)
    → prop j (set_prop k v fs) ≡ (if str_eq k j then some v else prop j fs)
unfolding prop set_prop
prop-set_prop k j v end = refl
prop-set_prop k j v (field i w fs) =
    ground (arith, eq_iff k j, eq_iff i k, eq_iff i j, prop-set_prop k j v fs)

-- `a.push(v)`
unfoldable pub push : Items → Json → Items
push nil v = cons v nil
push (cons w xs) v = cons w (push xs v)

-- `a.includes(s)` for a string `s`
unfoldable pub includes : String → Items → Bool
includes s nil = false
includes s (cons (str t) xs) = if str_eq t s then true else includes s xs
includes s (cons _ xs) = includes s xs

-- JSON text: a byte is tested only against 0. `parse` is `none` where `JSON.parse` throws.
pub record JsonText (B : Type 0) : Type 0 where
  pub is_nul : B → Bool
  pub parse : List B → Option Json
  pub stringify : Json → List B

-- What ECMAScript says of the two: a printed value reads back as itself, and its text holds no
-- NUL character, since a string's control characters are escaped.
pub record IsJsonText {B : Type 0} (c : JsonText B) : Type 0 where
  pub parse-stringify : (j : Json) → c.parse (c.stringify j) ≡ some j
  pub no_nul : (j : Json) → All (λ b. c.is_nul b ≡ false) (c.stringify j)

-- A text whose one cell holds the value shows that the laws can be met.
abbrev pub Cell : Type 0
Cell = Option Json

abbrev pub cell_is_nul : Cell → Bool
cell_is_nul none = true
cell_is_nul (some j) = false

abbrev pub cell_parse : List Cell → Option Json
cell_parse [] = none
cell_parse (none ∷ cs) = none
cell_parse (some j ∷ []) = some j
cell_parse (some j ∷ d ∷ cs) = none

abbrev pub cell_text : JsonText Cell
cell_text = record { is_nul = cell_is_nul; parse = cell_parse; stringify = λ j. some j ∷ [] }

pub cell_text-IsJsonText : IsJsonText cell_text
cell_text-IsJsonText = record { parse-stringify = λ j. refl; no_nul = λ j. (refl, tt) }

-- A property given `undefined` is left out of the text.
unfoldable pub drop_prop : String → Fields → Fields
drop_prop k end = end
drop_prop k (field j v fs) =
    let rest = drop_prop k fs in if str_eq j k then rest else field j v rest

unfoldable pub set_opt : String → Option Json → Fields → Fields
set_opt k none fs = drop_prop k fs
set_opt k (some v) fs = set_prop k v fs

unfoldable pub set_str : String → Option String → Fields → Fields
set_str k none fs = drop_prop k fs
set_str k (some s) fs = set_prop k (str s) fs

pub prop-drop_prop :
    (k j : String) (fs : Fields)
    → prop j (drop_prop k fs) ≡ (if str_eq k j then none else prop j fs)
unfolding prop drop_prop
prop-drop_prop k j end = ground arith
prop-drop_prop k j (field i w fs) =
    ground (arith, eq_iff k j, eq_iff i k, eq_iff i j, prop-drop_prop k j fs)

abbrev pub str_of : Option String → Option Json
str_of none = none
str_of (some s) = some (str s)

pub prop-set_str :
    (k j : String) (s : Option String) (fs : Fields)
    → prop j (set_str k s fs) ≡ (if str_eq k j then str_of s else prop j fs)
unfolding set_str
prop-set_str k j none fs = prop-drop_prop k j fs
prop-set_str k j (some s) fs = prop-set_prop k j (str s) fs

pub prop-set_opt :
    (k j : String) (v : Option Json) (fs : Fields)
    → prop j (set_opt k v fs) ≡ (if str_eq k j then v else prop j fs)
unfolding set_opt
prop-set_opt k j none fs = prop-drop_prop k j fs
prop-set_opt k j (some v) fs = prop-set_prop k j v fs

-- A property that is read as a string; the code compares no other.
unfoldable pub str_prop : String → Fields → Option String
str_prop k fs = elim (prop k fs) [ some (str s) ↦ some s | _ ↦ none ]

-- `===` between a string or `undefined` and any value
unfoldable pub same_id : Option String → Option Json → Bool
same_id none none = true
same_id none (some j) = false
same_id (some s) (some (str t)) = str_eq s t
same_id (some s) _ = false

pub same_id-str_of : (a b : Option String) → (same_id a (str_of b) ≡ true) ↔ (a ≡ b)
unfolding same_id
same_id-str_of none none = ground arith
same_id-str_of none (some b) = ground arith
same_id-str_of (some a) none = ground arith
same_id-str_of (some a) (some b) = ground (arith, eq_iff a b)

-- What ECMAScript's coercions give where the code applies them to a value that need be no string.
pub record Coercions : Type 0 where
  pub key_text : Json → String
  pub length_is_positive : Fields → Bool
  -- `o.length == 0`
  pub length_is_zero : Fields → Bool
  -- what `for (let i = 0; i < v.length; i++) v[i]` reads of a value that is no array
  pub indexed : Json → List (Option Json)

-- A value used as a property key.
unfoldable pub property_key : Coercions → Option Json → String
property_key js none = "undefined"
property_key js (some (str s)) = s
property_key js (some j) = js.key_text j

pub includes-push :
    (s t : String) (xs : Items)
    → includes s (push xs (str t)) ≡ (if includes s xs then true else str_eq t s)
unfolding includes push
includes-push s t nil = ground arith
includes-push s t (cons (str u) xs) = ground (arith, includes-push s t xs)
includes-push s t (cons null xs) = includes-push s t xs
includes-push s t (cons (bool b) xs) = includes-push s t xs
includes-push s t (cons (num n) xs) = includes-push s t xs
includes-push s t (cons (decimal n) xs) = includes-push s t xs
includes-push s t (cons (arr ys) xs) = includes-push s t xs
includes-push s t (cons (obj fs) xs) = includes-push s t xs

-- What the code reads properties of: `none` where it throws, and a value without properties where
-- they are all `undefined`.
unfoldable pub fields_of : Option Json → Option Fields
fields_of none = none
fields_of (some null) = none
fields_of (some (obj fs)) = some fs
fields_of (some _) = some end

-- `v == null`
unfoldable pub is_nullish : Option Json → Bool
is_nullish none = true
is_nullish (some null) = true
is_nullish (some _) = false

-- whether `if (v)` holds
unfoldable pub is_truthy : Option Json → Bool
is_truthy none = false
is_truthy (some null) = false
is_truthy (some (bool b)) = b
is_truthy (some (num n)) = not (n == 0)
is_truthy (some (str s)) = not (str_eq s "")
is_truthy (some _) = true

-- `v == null || v.length == 0`
unfoldable pub is_blank : Coercions → Option Json → Bool
is_blank js none = true
is_blank js (some null) = true
is_blank js (some (str s)) = str_eq s ""
is_blank js (some (arr nil)) = true
is_blank js (some (obj fs)) = js.length_is_zero fs
is_blank js (some _) = false

abbrev pub list_of : Items → List (Option Json)
list_of nil = []
list_of (cons j js) = some j ∷ list_of js

unfoldable pub elements : Coercions → Json → List (Option Json)
elements js (arr xs) = list_of xs
elements js j = js.indexed j

-- a value that is neither `null` nor `undefined`
abbrev pub not_null : Option Json → Option Json
not_null none = none
not_null (some null) = none
not_null (some j) = some j
