-- ===== src/Text.antt =====
-- `strip_prefix`, `starts_with`, `ends_with` and `contains` of `str`, over the characters of a text.
use Prim.Native.Char.{code}
use Prim.Native.String.{◌++◌}
use text.Mathlib.TextLemmas.{nil-append, cons-append}
use rust_api_boilerplate.Prelude.{
  ◌≡◌, Bool, true, false, Option, none, some, String, nat_beq, if◌then◌else◌, is_some, arith,
  nat_beq_iff, ◌==◌, text_eq, ◌||◌,
}

unfoldable pub strip_prefix : String → String → Option String
strip_prefix String.[] s = some s
strip_prefix (String.◌∷◌ c p) String.[] = none
strip_prefix (String.◌∷◌ c p) (String.◌∷◌ d s) =
    let rest = strip_prefix p s in if nat_beq (code c) (code d) then rest else none

unfoldable pub starts_with : String → String → Bool
starts_with p s = is_some (strip_prefix p s)

unfoldable pub is_empty : String → Bool
is_empty String.[] = true
is_empty (String.◌∷◌ c s) = false

-- A text after its prefix.
pub strip_prefix-append : (p s : String) → strip_prefix p (p ++ s) ≡ some s
unfolding strip_prefix
strip_prefix-append String.[] s = rw nil-append
strip_prefix-append (String.◌∷◌ c p) s =
    rw cons-append (ground (arith, strip_prefix-append p s, nat_beq_iff (code c) (code c)))

unfoldable pub ends_with : String → String → Bool
ends_with p String.[] = p == String.[]
ends_with p (String.◌∷◌ c s) = p == String.◌∷◌ c s || ends_with p s

-- Whether a text stands in another, `str::contains`.
unfoldable pub contains : String → String → Bool
unfolding starts_with
contains p String.[] = is_empty p
contains p (String.◌∷◌ c s) = starts_with p (String.◌∷◌ c s) || contains p s
