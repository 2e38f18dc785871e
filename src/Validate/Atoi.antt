-- ===== src/Validate/Atoi.antt =====
-- `strconv.Atoi` for the port of `external_controller` (mihomotui/config_validate.go): an optional
-- sign, then decimal digits, within 64 bits.
use mihomo_tui.Base.{
  ℕ, ◌+◌, ◌-◌, ◌*◌, ◌^◌, ◌≡◌, refl, ◌&&◌, Option, none, some, List, [], ◌∷◌, String, leb, ltb,
  nat_eq, codes, if◌then◌else◌,
}
use mihomo_tui.Base.Int.{ℤ, pos, negsuc}

-- The digits read so far are worth `n`.
unfoldable pub digits_value : ℕ → List ℕ → Option ℕ
digits_value n [] = some n
digits_value n (c ∷ s) =
    let rest = digits_value (n * 10 + (c - b'0')) s in
    if leb b'0' c && leb c b'9' then rest else none

abbrev number : List ℕ → Option ℕ
number [] = none
number (c ∷ s) = digits_value 0 (c ∷ s)

abbrev positive : Option ℕ → Option ℤ
positive none = none
positive (some n) = if ltb n (2 ^ 63) then some (pos n) else none

abbrev negative : Option ℕ → Option ℤ
negative none = none
negative (some n) =
    if nat_eq n 0 then some (pos 0) else if leb n (2 ^ 63) then some (negsuc (n - 1)) else none

abbrev signed : List ℕ → Option ℤ
signed [] = none
signed (c ∷ s) =
    if nat_eq c b'-'
    then negative (number s)
    else if nat_eq c b'+'
    then positive (number s)
    else positive (number (c ∷ s))

unfoldable pub atoi : String → Option ℤ
unfolding digits_value
atoi s = signed (codes s)

atoi_test : (atoi "9090" ≡ some (pos 9090)) × (atoi "-7" ≡ some (negsuc 6)) × (atoi "9x" ≡ none)
unfolding atoi
atoi_test = (refl, refl, refl)
