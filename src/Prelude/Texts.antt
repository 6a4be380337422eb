-- ===== src/Prelude/Texts.antt =====
-- Text as Go's `strings` package reads it, over native texts. The separators and prefixes of the
-- program are ASCII, so a walk over code points finds what Go's walk over bytes finds.
use Prim.Native.Char.{code}
use Prim.Native.Nat.{ℕ}
use Prim.Native.String.{String, [], ◌∷◌, ◌++◌}
use mathlib.Core.Bool.{Bool, true, false, ◌||◌, ◌&&◌}
use mathlib.Core.Logic.{◌≢◌}
use mathlib.Core.Option.{Option, none, some}
use mathlib.Core.Path.{◌≡◌}
use native.Mathlib.Omega.{arith}
use text.Mathlib.TextEquality.{eq_iff}
use text.Mathlib.TextLemmas.{nil-append, cons-append}
use openshift_capi_alicloud.Prelude.Tests.{◌==◌, leb, nat_eq, string_eq, if◌then◌else◌}

-- What follows the prefix, if the text begins with it.
pub strip_prefix? : String → String → Option String
strip_prefix? [] s = some s
strip_prefix? (p ∷ prefix) [] = none
strip_prefix? (p ∷ prefix) (c ∷ s) =
    let rest = strip_prefix? prefix s in if code p == code c then rest else none

-- strings.HasPrefix
unfoldable pub has_prefix : String → String → Bool
unfolding strip_prefix?
has_prefix s prefix = elim (strip_prefix? prefix s) [ none ↦ false | some rest ↦ true ]

-- strings.TrimPrefix
unfoldable pub trim_prefix : String → String → String
unfolding strip_prefix?
trim_prefix s prefix = elim (strip_prefix? prefix s) [ none ↦ s | some rest ↦ rest ]

-- strings.Contains
unfoldable pub contains_text : String → String → Bool
unfolding has_prefix
contains_text [] piece = has_prefix [] piece
contains_text (c ∷ s) piece = has_prefix (c ∷ s) piece || contains_text s piece

-- unicode.IsSpace
abbrev pub is_space : ℕ → Bool
is_space c =
    (leb 9 c && leb c 13)
    || c == 32
    || c == 0x85
    || c == 0xa0
    || c == 0x1680
    || (leb 0x2000 c && leb c 0x200a)
    || c == 0x2028
    || c == 0x2029
    || c == 0x202f
    || c == 0x205f
    || c == 0x3000

-- strings.TrimSpace(s) == ""
unfoldable pub is_blank : String → Bool
is_blank [] = true
is_blank (c ∷ s) = is_space (code c) && is_blank s

pub strip_prefix?-append : (p s : String) → strip_prefix? p (p ++ s) ≡ some s
unfolding strip_prefix?
strip_prefix?-append [] s = rw nil-append
strip_prefix?-append (c ∷ p) s = rw cons-append (ground (arith, strip_prefix?-append p s))

pub trim_prefix-append : (p s : String) → trim_prefix (p ++ s) p ≡ s
unfolding trim_prefix
trim_prefix-append p s = rw (strip_prefix?-append p s, trim_prefix)

pub differs : (a b : String) → (a == b) ≡ false → a ≢ b
differs a b h = ground (arith, eq_iff a b)
