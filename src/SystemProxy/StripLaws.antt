-- ===== src/SystemProxy/StripLaws.antt =====
-- What the removal of the marked block leaves of a file (mihomotui/system_proxy.go).
use mathlib.Core.Path.{subst}
use mathlib.Core.List.{append-nil, append_assoc}
use mihomo_tui.Base.{
  arith, ◌⊎◌, if◌then◌else◌, String, ◌≡◌, refl, sym, ap, ◌∙◌, true, false, ◌||◌, not, List, [], ◌∷◌,
  ◌++◌, ◌==◌, All, trim_space, Bool-cases, inl, inr,
}
use mihomo_tui.SystemProxy.Lines.{
  split_lines, join_lines, IsLine, split_lines-IsLine, split-join_lines,
}
use mihomo_tui.SystemProxy.Strip.{
  is_start, is_end, Stripped, drop_blank, strip_line, strip_line-opens, strip_line-closes,
  strip_all, in_order, at_start, strip_block, HasNoStart, HasNoEnd, strip_all-outside,
  strip_all-inside, strip_all-append, in_order-in_order,
}

strip_all-block :
    (before inside after : List String) (opening closing : String)
    → HasNoStart before
    → is_start opening ≡ true
    → HasNoEnd inside
    → is_end closing ≡ true
    → HasNoStart after
    → strip_all at_start (before ++ opening ∷ (inside ++ closing ∷ after)) ≡ record {
      out = in_order after (drop_blank (in_order before []));
      in_block = false;
      removed = true;
    }
unfolding strip_all
strip_all-block before inside after opening closing b o i e a =
    let kept = drop_blank (in_order before []) in
    strip_all-append at_start before (opening ∷ (inside ++ closing ∷ after))
    ∙ ap (λ st. strip_all st (opening ∷ (inside ++ closing ∷ after)))
        (strip_all-outside before [] false b)
    ∙ ap (λ st. strip_all st (inside ++ closing ∷ after))
        (strip_line-opens opening (in_order before []) false o)
    ∙ strip_all-append (record { out = kept; in_block = true; removed = true }) inside
        (closing ∷ after)
    ∙ ap (λ st. strip_all st (closing ∷ after)) (strip_all-inside inside kept true i)
    ∙ ap (λ st. strip_all st after) (strip_line-closes closing kept true e)
    ∙ strip_all-outside after kept true a

split-join_block :
    (before rest : List String) (opening : String)
    → All IsLine (before ++ opening ∷ rest)
    → split_lines (join_lines (before ++ opening ∷ rest)) ≡ before ++ opening ∷ rest
split-join_block [] rest opening h = split-join_lines opening rest h
split-join_block (line ∷ before) rest opening h = split-join_lines line (before ++ opening ∷ rest) h

-- The lines without a last line that is empty.
abbrev pub without_blank_end : List String → List String
without_blank_end [] = []
without_blank_end (line ∷ []) = if line == "" then [] else line ∷ []
without_blank_end (line ∷ (next ∷ lines)) = line ∷ without_blank_end (next ∷ lines)

without_blank_end-append :
    (lines : List String) (last : String)
    → without_blank_end (lines ++ last ∷ []) ≡ (if last == "" then lines else lines ++ last ∷ [])
without_blank_end-append [] last = refl
without_blank_end-append (line ∷ []) last = ground arith
without_blank_end-append (line ∷ (next ∷ lines)) last =
    ground (arith, without_blank_end-append (next ∷ lines) last)

in_order-append :
    (xs ys lines : List String) → in_order (xs ++ ys) lines ≡ in_order ys (in_order xs lines)
in_order-append [] ys lines = refl
in_order-append (x ∷ xs) ys lines = in_order-append xs ys (x ∷ lines)

last-cases :
    (lines : List String)
    → (lines ≡ []) ⊎ ((front : List String) × (last : String) × (lines ≡ front ++ last ∷ []))
last-cases [] = inl refl
last-cases (line ∷ lines) = elim (last-cases lines) [
  | inl e ↦ inr ([], line, ap (λ l. line ∷ l) e)
  | inr (front, last, e) ↦ inr (line ∷ front, last, ap (λ l. line ∷ l) e)
]

-- The loop keeps its lines backwards and drops the one at its front.
in_order-drop_blank :
    (before after : List String)
    → in_order (drop_blank (in_order before [])) after ≡ without_blank_end before ++ after
in_order-drop_blank before after = elim (last-cases before) [
  | inl e ↦ rw e refl
  | inr (front, last, e) ↦
      let goal : List String → Type 0 =
        λ b. in_order (drop_blank (in_order b [])) after ≡ without_blank_end b ++ after in
      subst goal (sym e) (
        rw (in_order-append front (last ∷ []) []) (elim (Bool-cases (last == "")) [
          | inl blank ↦
              simp (blank, without_blank_end-append front last) (in_order-in_order front [] after)
          | inr filled ↦
              simp (filled, without_blank_end-append front last)
                (in_order-in_order front [] (last ∷ after)
                  ∙ sym (append_assoc front (last ∷ []) after))
        ]))
]

-- A text with one marked block loses it, and a blank line right before it: what is left are the lines
-- before the block, less a last one that is empty, and the lines after it, in their order.
pub strip_block_lem :
    (before inside after : List String) (opening closing : String)
    → HasNoStart before
    → is_start opening ≡ true
    → HasNoEnd inside
    → is_end closing ≡ true
    → HasNoStart after
    → All IsLine (before ++ opening ∷ (inside ++ closing ∷ after))
    → strip_block (join_lines (before ++ opening ∷ (inside ++ closing ∷ after)))
      ≡ join_lines (without_blank_end before ++ after)
unfolding strip_block
strip_block_lem before inside after opening closing b o i e a lines =
    let kept = drop_blank (in_order before []) in
    let found = split-join_block before (inside ++ closing ∷ after) opening lines in
    let done =
      ap (strip_all at_start) found
      ∙ strip_all-block before inside after opening closing b o i e a in
    let order =
      in_order-in_order after kept []
      ∙ ap (in_order kept) (append-nil after)
      ∙ in_order-drop_blank before after in
    simp done (ap join_lines order)

-- A property of lines that all lines have which do not open a block, is one of all lines kept.
module _ (P : String → Type 0) where
  All-drop_blank : (out : List String) → All P out → All P (drop_blank out)
  All-drop_blank [] h = h
  All-drop_blank (line ∷ out) h = elim (Bool-cases (line == "")) [
    | inl e ↦ simp e h.1
    | inr e ↦ simp e h
  ]

  strip_line-All :
      (st : Stripped) (line : String)
      → (is_start line ≡ false → P line)
      → All P st.out
      → All P (strip_line st line).out
  unfolding strip_line
  strip_line-All st line p h = elim (Bool-cases st.in_block) [
    | inl inside ↦ elim (Bool-cases (is_end line)) [
      | inl closes ↦ simp (inside, closes) h
      | inr stays ↦ simp (inside, stays) h
    ]
    | inr outside ↦ elim (Bool-cases (is_start line)) [
      | inl opens ↦ simp (outside, opens) (All-drop_blank st.out h)
      | inr other ↦ simp (outside, other) (p other, h)
    ]
  ]

  strip_all-All :
      (st : Stripped) (lines : List String)
      → All (λ line. is_start line ≡ false → P line) lines
      → All P st.out
      → All P (strip_all st lines).out
  unfolding strip_all
  strip_all-All st [] p h = h
  strip_all-All st (line ∷ lines) p h =
      strip_all-All (strip_line st line) lines p.1 (strip_line-All st line p.0 h)

  All-in_order : (xs ys : List String) → All P xs → All P ys → All P (in_order xs ys)
  All-in_order [] ys hx hy = hy
  All-in_order (x ∷ xs) ys hx hy = All-in_order xs (x ∷ ys) hx.1 (hx.0, hy)

strip_block-empty : strip_block "" ≡ ""
unfolding strip_block trim_space
strip_block-empty = refl

-- A text whose lines open no block is left as it is.
strip_block-join_lines :
    (lines : List String)
    → HasNoStart lines
    → All IsLine lines
    → strip_block (join_lines lines) ≡ join_lines lines
unfolding strip_block
strip_block-join_lines [] h l = strip_block-empty
strip_block-join_lines (line ∷ lines) h l =
    let done =
      ap (strip_all at_start) (split-join_lines line lines l)
      ∙ strip_all-outside (line ∷ lines) [] false h in
    simp done refl

All-is_start :
    (lines : List String) → All (λ line. is_start line ≡ false → is_start line ≡ false) lines
All-is_start [] = tt
All-is_start (line ∷ lines) = (λ h. h, All-is_start lines)

All-IsLine :
    (lines : List String)
    → All IsLine lines
    → All (λ line. is_start line ≡ false → IsLine line) lines
All-IsLine [] h = tt
All-IsLine (line ∷ lines) h = (λ _. h.0, All-IsLine lines h.1)

strip_block-kept :
    (content : String)
    → (let st = strip_all at_start (split_lines content) in not st.removed || st.in_block) ≡ true
    → strip_block content ≡ content
unfolding strip_block
strip_block-kept content e = simp e refl

strip_block-cut :
    (content : String)
    → (let st = strip_all at_start (split_lines content) in not st.removed || st.in_block) ≡ false
    → strip_block content ≡ join_lines (in_order (strip_all at_start (split_lines content)).out [])
unfolding strip_block
strip_block-cut content e = simp e refl

-- Removing the block twice is removing it once, for any text: what a removal leaves is a text that it
-- leaves alone.
pub strip_block_twice : (content : String) → strip_block (strip_block content) ≡ strip_block content
strip_block_twice content =
    let lines = split_lines content in
    let st = strip_all at_start lines in
    let kept = in_order st.out [] in
    elim (Bool-cases (not st.removed || st.in_block)) [
      | inl e ↦ ap strip_block (strip_block-kept content e)
      | inr e ↦
          let cut = strip_block-cut content e in
          let no_start =
            All-in_order (λ l. is_start l ≡ false) st.out []
              (strip_all-All (λ l. is_start l ≡ false) at_start lines (All-is_start lines) tt) tt in
          let all_line =
            All-in_order IsLine st.out []
              (strip_all-All IsLine at_start lines (All-IsLine lines (split_lines-IsLine content))
                tt)
              tt in
          ap strip_block cut ∙ strip_block-join_lines kept no_start all_line ∙ sym cut
    ]
