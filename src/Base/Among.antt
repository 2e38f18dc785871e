-- ===== src/Base/Among.antt =====
-- A text that is one of some, as a type.
use mihomo_tui.Base.{
  String, ◌≡◌, ◌⊎◌, true, ◌==◌, List, [], ◌∷◌, contains, arith, eq_iff, Bool-cases, inl, inr,
}

-- One of the texts is the given one.
abbrev pub IsAmong : String → List String → Type 0
IsAmong text [] = ⊥
IsAmong text (t ∷ texts) = (t ≡ text) ⊎ IsAmong text texts

pub contains-IsAmong :
    (texts : List String) (text : String) → contains texts text ≡ true → IsAmong text texts
unfolding contains
contains-IsAmong [] text h = cc
contains-IsAmong (t ∷ texts) text h = elim (Bool-cases (t == text)) [
  | inl e ↦ inl ((eq_iff t text).0 e)
  | inr e ↦ inr (contains-IsAmong texts text (ground (arith, e, h)))
]

pub IsAmong-contains :
    (texts : List String) (text : String) → IsAmong text texts → contains texts text ≡ true
unfolding contains
IsAmong-contains [] text h = absurd h
IsAmong-contains (t ∷ texts) text (inl e) = ground (arith, e, eq_iff t text)
IsAmong-contains (t ∷ texts) text (inr h) = ground (arith, IsAmong-contains texts text h)
