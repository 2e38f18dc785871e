-- ===== src/SystemProxy/Strip.antt =====
-- The removal of the marked block (`stripSystemProxyBlock` of mihomotui/system_proxy.go).
use mihomo_tui.Base.{
  String, ◌≡◌, refl, ap, ◌∙◌, Bool, true, false, ◌&&◌, ◌||◌, not, List, [], ◌∷◌, ◌++◌, ◌==◌, arith,
  All, trim_space, if◌then◌else◌,
}
use mihomo_tui.SystemProxy.Lines.{split_lines, join_lines}

abbrev pub block_start : String
block_start = "# >>> mihomo-tui system proxy >>>"

abbrev pub block_end : String
block_end = "# <<< mihomo-tui system proxy <<<"

abbrev pub is_start : String → Bool
is_start line = trim_space line == block_start

abbrev pub is_end : String → Bool
is_end line = trim_space line == block_end

-- The variables of the loop; `out` has its last line first.
pub record Stripped : Type 0 where
  pub out : List String
  pub in_block : Bool
  pub removed : Bool

-- `if n := len(out); n > 0 && out[n-1] == "" { out = out[:n-1] }`
abbrev pub drop_blank : List String → List String
drop_blank [] = []
drop_blank (line ∷ out) = if line == "" then out else line ∷ out

-- The body of the loop.
unfoldable pub strip_line : Stripped → String → Stripped
strip_line st line =
    if not st.in_block && is_start line
    then record { out = drop_blank st.out; in_block = true; removed = true }
    else if st.in_block
    then (if is_end line then record st { in_block = false } else st)
    else record st { out = line ∷ st.out }

unfoldable pub strip_all : Stripped → List String → Stripped
unfolding strip_line
strip_all st [] = st
strip_all st (line ∷ lines) = strip_all (strip_line st line) lines

-- The lines of `out`, in their order, before `lines`.
abbrev pub in_order : List String → List String → List String
in_order [] lines = lines
in_order (line ∷ out) lines = in_order out (line ∷ lines)

abbrev pub at_start : Stripped
at_start = record { out = []; in_block = false; removed = false }

-- `stripSystemProxyBlock`
unfoldable pub strip_block : String → String
unfolding split_lines strip_all join_lines
strip_block content =
    let st = strip_all at_start (split_lines content) in
    if not st.removed || st.in_block then content else join_lines (in_order st.out [])

abbrev pub HasNoStart : List String → Type 0
HasNoStart = All (λ line. is_start line ≡ false)

abbrev pub HasNoEnd : List String → Type 0
HasNoEnd = All (λ line. is_end line ≡ false)

-- Outside a block, lines that open none are kept.
pub strip_all-outside :
    (lines : List String) (out : List String) (removed : Bool)
    → HasNoStart lines
    → strip_all (record { out = out; in_block = false; removed = removed }) lines
      ≡ record { out = in_order lines out; in_block = false; removed = removed }
unfolding strip_all strip_line
strip_all-outside [] out removed h = refl
strip_all-outside (line ∷ lines) out removed h =
    simp h.0 (strip_all-outside lines (line ∷ out) removed h.1)

strip_line-inside :
    (line : String) (out : List String) (removed : Bool)
    → is_end line ≡ false
    → strip_line (record { out = out; in_block = true; removed = removed }) line
      ≡ record { out = out; in_block = true; removed = removed }
unfolding strip_line
strip_line-inside line out removed h = ground (arith, h)

pub strip_line-opens :
    (line : String) (out : List String) (removed : Bool)
    → is_start line ≡ true
    → strip_line (record { out = out; in_block = false; removed = removed }) line
      ≡ record { out = drop_blank out; in_block = true; removed = true }
unfolding strip_line
strip_line-opens line out removed h = simp h refl

pub strip_line-closes :
    (line : String) (out : List String) (removed : Bool)
    → is_end line ≡ true
    → strip_line (record { out = out; in_block = true; removed = removed }) line
      ≡ record { out = out; in_block = false; removed = removed }
unfolding strip_line
strip_line-closes line out removed h = simp h refl

-- Inside a block, lines that do not close it are dropped.
pub strip_all-inside :
    (lines : List String) (out : List String) (removed : Bool)
    → HasNoEnd lines
    → strip_all (record { out = out; in_block = true; removed = removed }) lines
      ≡ record { out = out; in_block = true; removed = removed }
unfolding strip_all
strip_all-inside [] out removed h = refl
strip_all-inside (line ∷ lines) out removed h =
    ap (λ st. strip_all st lines) (strip_line-inside line out removed h.0)
    ∙ strip_all-inside lines out removed h.1

pub strip_all-append :
    (st : Stripped) (xs ys : List String) → strip_all st (xs ++ ys) ≡ strip_all (strip_all st xs) ys
unfolding strip_all
strip_all-append st [] ys = refl
strip_all-append st (x ∷ xs) ys = strip_all-append (strip_line st x) xs ys

pub in_order-in_order :
    (xs out lines : List String) → in_order (in_order xs out) lines ≡ in_order out (xs ++ lines)
in_order-in_order [] out lines = refl
in_order-in_order (x ∷ xs) out lines = in_order-in_order xs (x ∷ out) lines
