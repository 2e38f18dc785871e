-- ===== src/SystemProxy/Lines.antt =====
-- Lines of a text: `strings.Split(s, "\n")`, `strings.SplitAfter(s, "\n")` and `strings.Join`.
use Prim.Native.Char.{Char, code}
use Prim.Native.String.{◌++◌ as join}
use Prim.Native.String.append
use Prim.Native.Nat.{compare}
use text.Mathlib.TextEquality.{codes_equal}
use mihomo_tui.Base.{
  String, ◌≡◌, refl, sym, ap, ◌∙◌, Bool, true, false, List, [], ◌∷◌, arith, All, nat_eq,
  if◌then◌else◌, Bool-cases, inl, inr,
}

abbrev pub is_newline : Char → Bool
is_newline c = nat_eq (code c) 10

-- A character put before the first line.
abbrev pub push_char : Char → List String → List String
push_char c [] = String.◌∷◌ c String.[] ∷ []
push_char c (line ∷ lines) = String.◌∷◌ c line ∷ lines

-- `strings.Split(s, "\n")`
unfoldable pub split_lines : String → List String
split_lines String.[] = String.[] ∷ []
split_lines (String.◌∷◌ c s) =
    let rest = split_lines s in if is_newline c then String.[] ∷ rest else push_char c rest

-- `strings.Join(lines, "\n")`
unfoldable pub join_lines : List String → String
join_lines [] = String.[]
join_lines (line ∷ []) = line
join_lines (line ∷ next ∷ lines) = join line (join "\n" (join_lines (next ∷ lines)))

-- `strings.SplitAfter(s, "\n")`
unfoldable pub split_after : String → List String
split_after String.[] = String.[] ∷ []
split_after (String.◌∷◌ c s) =
    let rest = split_after s in
    if is_newline c then String.◌∷◌ c String.[] ∷ rest else push_char c rest

-- A text without a newline.
abbrev pub IsLine : String → Type 0
IsLine String.[] = Unit
IsLine (String.◌∷◌ c s) = (is_newline c ≡ false) × IsLine s

pub split_lines-IsLine : (s : String) → All IsLine (split_lines s)
unfolding split_lines
split_lines-IsLine String.[] = (tt, tt)
split_lines-IsLine (String.◌∷◌ c s) = elim (Bool-cases (is_newline c)) [
  | inl e ↦ simp e (tt, split_lines-IsLine s)
  | inr e ↦ simp e (push_char-IsLine c (split_lines s) e (split_lines-IsLine s))
]
  where
    push_char-IsLine :
        (c : Char) (lines : List String)
        → is_newline c ≡ false
        → All IsLine lines
        → All IsLine (push_char c lines)
    push_char-IsLine c [] e h = ((e, tt), tt)
    push_char-IsLine c (line ∷ lines) e h = ((e, h.0), h.1)

join_lines-push_char :
    (c : Char) (lines : List String)
    → join_lines (push_char c lines) ≡ String.◌∷◌ c (join_lines lines)
unfolding join_lines
join_lines-push_char c [] = refl
join_lines-push_char c (line ∷ []) = refl
join_lines-push_char c (line ∷ next ∷ lines) =
    append.cons c line (join "\n" (join_lines (next ∷ lines)))

pub split_lines-filled :
    (s : String) → (line : String) × (lines : List String) × (split_lines s ≡ line ∷ lines)
unfolding split_lines
split_lines-filled String.[] = (String.[], [], refl)
split_lines-filled (String.◌∷◌ c s) = elim (Bool-cases (is_newline c)) [
  | inl e ↦ (String.[], split_lines s, simp e refl)
  | inr e ↦
      let (line, lines, rest) = split_lines-filled s in
      (String.◌∷◌ c line, lines, simp e (ap (push_char c) rest))
]

newline_lem : (c : Char) → is_newline c ≡ true → c ≡ "\n"
newline_lem c h =
    let same : code c ≡ 10 = ground (arith, h) in codes_equal c "\n" (ap (λ n. compare n 10) same)

newline-join : (rest : String) → join "\n" rest ≡ String.◌∷◌ "\n" rest
newline-join rest = append.cons "\n" "" rest ∙ ap (String.◌∷◌ "\n") (append.nil rest)

-- The lines of a text, joined again, are the text.
pub join-split_lines : (s : String) → join_lines (split_lines s) ≡ s
unfolding split_lines join_lines
join-split_lines String.[] = refl
join-split_lines (String.◌∷◌ c s) = elim (Bool-cases (is_newline c)) [
  | inl e ↦
      let (line, lines, filled) = split_lines-filled s in
      let rest : join_lines (line ∷ lines) ≡ s = sym (ap join_lines filled) ∙ join-split_lines s in
      simp e (
        ap (λ t. join_lines ("" ∷ t)) filled
        ∙ append.nil (join "\n" (join_lines (line ∷ lines)))
        ∙ newline-join (join_lines (line ∷ lines))
        ∙ ap (String.◌∷◌ "\n") rest
        ∙ ap (λ d. String.◌∷◌ d s) (sym (newline_lem c e)))
  | inr e ↦ simp e (join_lines-push_char c (split_lines s) ∙ ap (String.◌∷◌ c) (join-split_lines s))
]

split_lines-append :
    (line rest : String)
    → IsLine line
    → split_lines (join line (join "\n" rest)) ≡ line ∷ split_lines rest
unfolding split_lines
split_lines-append String.[] rest h =
    ap split_lines (append.nil (join "\n" rest) ∙ newline-join rest)
split_lines-append (String.◌∷◌ c line) rest h =
    ap split_lines (append.cons c line (join "\n" rest))
    ∙ simp h.0 (ap (push_char c) (split_lines-append line rest h.1))

split_lines_one : (line : String) → IsLine line → split_lines line ≡ line ∷ []
unfolding split_lines
split_lines_one String.[] h = refl
split_lines_one (String.◌∷◌ c line) h = simp h.0 (ap (push_char c) (split_lines_one line h.1))

-- The lines of joined lines are these lines, unless there are none.
pub split-join_lines :
    (line : String) (lines : List String)
    → All IsLine (line ∷ lines)
    → split_lines (join_lines (line ∷ lines)) ≡ line ∷ lines
unfolding join_lines
split-join_lines line [] h = split_lines_one line h.0
split-join_lines line (next ∷ lines) h =
    split_lines-append line (join_lines (next ∷ lines)) h.0
    ∙ ap (λ t. line ∷ t) (split-join_lines next lines h.1)
