-- ===== src/Base/Text.antt =====
-- What the program uses of Go's `strings` package. A Go string of valid UTF-8 is a `String`, the
-- list of its code points.
use Prim.Native.Nat.{ℕ, ◌+◌, ◌-◌}
use Prim.Native.Char.{Char, code}
use Prim.Native.String.{String, slice, len}
use mathlib.Core.Path.{◌≡◌, refl}
use mathlib.Core.Bool.{Bool, true, ◌&&◌, ◌||◌}
use mathlib.Core.Option.{Option, none, some}
use mathlib.Core.Option
use mathlib.Core.List.{List, [], ◌∷◌}
use text.Mathlib.Text.{◌==◌, starts_with}
use mihomo_tui.Base.Tests.{leb, nat_eq, if◌then◌else◌}

-- `unicode.IsSpace`
unfoldable pub is_space : ℕ → Bool
is_space c =
    (leb 9 c && leb c 13)
    || nat_eq c 32
    || nat_eq c 0x85
    || nat_eq c 0xA0
    || nat_eq c 0x1680
    || (leb 0x2000 c && leb c 0x200A)
    || nat_eq c 0x2028
    || nat_eq c 0x2029
    || nat_eq c 0x202F
    || nat_eq c 0x205F
    || nat_eq c 0x3000

unfoldable pub trim_left : String → String
unfolding is_space
trim_left String.[] = String.[]
trim_left (String.◌∷◌ c s) =
    let rest = trim_left s in if is_space (code c) then rest else String.◌∷◌ c s

abbrev pub keep_unless_blank : Char → String → String
keep_unless_blank c String.[] = if is_space (code c) then String.[] else String.◌∷◌ c String.[]
keep_unless_blank c (String.◌∷◌ d s) = String.◌∷◌ c (String.◌∷◌ d s)

unfoldable pub trim_right : String → String
unfolding is_space
trim_right String.[] = String.[]
trim_right (String.◌∷◌ c s) = keep_unless_blank c (trim_right s)

-- `strings.TrimSpace`
unfoldable pub trim_space : String → String
unfolding trim_left trim_right
trim_space s = trim_left (trim_right s)

-- `strings.TrimSpace(s) == ""`
unfoldable pub is_blank : String → Bool
unfolding trim_space
is_blank s = trim_space s == ""

-- The code points of a text.
abbrev pub codes : String → List ℕ
codes String.[] = []
codes (String.◌∷◌ c s) = code c ∷ codes s

-- `strings.ToLower` and `strings.ToUpper` on the letters of ASCII. The program compares the result
-- only with words of ASCII letters that no other letter is mapped to.
unfoldable pub to_lower : ℕ → ℕ
to_lower c = if leb b'A' c && leb c b'Z' then c + 32 else c

unfoldable pub to_upper : ℕ → ℕ
to_upper c = if leb b'a' c && leb c b'z' then c - 32 else c

-- `strings.CutSuffix`, with `none` where the suffix is missing
unfoldable pub cut_suffix : String → String → Option String
cut_suffix suffix String.[] = if String.[] == suffix then some String.[] else none
cut_suffix suffix (String.◌∷◌ c s) =
    let rest = cut_suffix suffix s in
    if String.◌∷◌ c s == suffix then some String.[] else Option.map (String.◌∷◌ c) rest

-- `strings.TrimPrefix`
unfoldable pub trim_prefix : String → String → String
trim_prefix prefix s = if starts_with s prefix then slice s (len prefix) (len s) else s

trim_space_test : trim_space "  a b\t\n" ≡ "a b"
unfolding trim_space
trim_space_test = refl

is_blank_test : is_blank " \r\n" ≡ true
unfolding is_blank
is_blank_test = refl
