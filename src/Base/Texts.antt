-- ===== src/Base/Texts.antt =====
-- Texts and their concatenation, `+` on strings.
use Prim.Native.String.{String, ◌++◌ as append}
use mathlib.Core.Path.{◌≡◌}
use text.Mathlib.TextLemmas.{native_laws}

infixl 65 ◌+++◌
abbrev pub ◌+++◌ : String → String → String
s +++ t = append s t

pub nil-text_append : (s : String) → "" +++ s ≡ s
nil-text_append = native_laws.nil-append

pub text_append-nil : (s : String) → s +++ "" ≡ s
text_append-nil = native_laws.append-nil

pub text_append_assoc : (s t u : String) → s +++ t +++ u ≡ s +++ (t +++ u)
text_append_assoc = native_laws.append_assoc
