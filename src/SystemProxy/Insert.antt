-- ===== src/SystemProxy/Insert.antt =====
-- The marked block and its insertion (`SystemProxyPorts`, `buildSystemProxyBlock` and
-- `upsertBlockInFile` of mihomotui/system_proxy.go), on the content of a file. An offset in the source
-- is the text before it and the text after it here.
use Prim.Native.Char.{Char, code}
use Prim.Native.String.{◌++◌ as join, slice}
use text.Mathlib.Text.{find?}
use mihomo_tui.Base.{
  ℕ, String, ◌≡◌, refl, ap, ◌∙◌, Bool, true, false, ◌&&◌, ◌||◌, not, Option, none, some, List, [],
  ◌∷◌, ◌==◌, arith, Bool-cases, Option-cases, inl, inr, ◌⊎◌, leb, nat_eq, if◌then◌else◌, trim_space,
  trim_prefix, starts_with, cut_suffix, is_some,
}
use mihomo_tui.Base.Int.{ℤ, pos, int_le}
use mihomo_tui.Config.{Config}
use mihomo_tui.Validate.{has_part}
use Prim.Native.String.append
use text.Mathlib.TextLemmas.{append_assoc, append-nil}
use mihomo_tui.SystemProxy.Lines.{split_after, push_char, is_newline}
use mihomo_tui.SystemProxy.Strip.{block_start, block_end, strip_block}

-- `SystemProxyPorts`, of a configuration that is there
unfoldable pub system_proxy_ports : Config → ℤ × ℤ
system_proxy_ports c =
    let mixed =
      if int_le c.mihomo.mixed_port (pos 0) then c.mihomo.http_port else c.mihomo.mixed_port in
    (
      if int_le mixed (pos 0) then pos 7892 else mixed,
      if int_le c.mihomo.socks5_port (pos 0) then pos 7891 else c.mihomo.socks5_port,
    )

-- `systemProxyEnvPairs`; `decimal` is `%d`.
unfoldable pub system_proxy_env_pairs : (ℤ → String) → Config → List (String × String)
unfolding system_proxy_ports
system_proxy_env_pairs decimal c =
    let (http_port, socks_port) = system_proxy_ports c in
    let http_addr = join "http://127.0.0.1:" (decimal http_port) in
    let socks_addr = join "socks5://127.0.0.1:" (decimal socks_port) in
    ("http_proxy", http_addr)
    ∷ ("https_proxy", http_addr)
    ∷ ("HTTP_PROXY", http_addr)
    ∷ ("HTTPS_PROXY", http_addr)
    ∷ ("ALL_PROXY", socks_addr)
    ∷ ("all_proxy", socks_addr)
    ∷ ("no_proxy", "localhost,127.0.0.1,::1")
    ∷ ("NO_PROXY", "localhost,127.0.0.1,::1")
    ∷ []

-- The loop of `buildSystemProxyBlock`, and what follows it.
unfoldable pub export_lines : List (String × String) → String
export_lines [] = join block_end "\n"
export_lines ((name, value) ∷ pairs) =
    join "export " (join name (join "=" (join value (join "\n" (export_lines pairs)))))

-- `buildSystemProxyBlock`
unfoldable pub build_system_proxy_block : (ℤ → String) → Config → String
unfolding export_lines system_proxy_env_pairs
build_system_proxy_block decimal c =
    join block_start (join "\n" (export_lines (system_proxy_env_pairs decimal c)))

-- `isShellIdentChar`
unfoldable pub is_shell_ident_char : ℕ → Bool
is_shell_ident_char c =
    nat_eq c b'_'
    || (leb b'a' c && leb c b'z')
    || (leb b'A' c && leb c b'Z')
    || (leb b'0' c && leb c b'9')

abbrev starts_ident : String → Bool
starts_ident String.[] = false
starts_ident (String.◌∷◌ c s) = is_shell_ident_char (code c)

-- `containsReturnStatement`, after a character that may be part of a name or not
unfoldable pub has_return_after : Bool → String → Bool
unfolding is_shell_ident_char trim_prefix
has_return_after ident String.[] = false
has_return_after ident (String.◌∷◌ c s) =
    let line = String.◌∷◌ c s in
    let here =
      not ident && (starts_with line "return" && not (starts_ident (trim_prefix "return" line))) in
    here || has_return_after (is_shell_ident_char (code c)) s

-- `containsReturnStatement`
unfoldable pub contains_return_statement : String → Bool
unfolding has_return_after
contains_return_statement line = has_return_after false line

-- The inner loop of `bashrcNonInteractiveReturnIndex`: a return statement before the next `esac`.
unfoldable pub returns_before_esac : List String → Bool
unfolding contains_return_statement trim_space
returns_before_esac [] = false
returns_before_esac (line ∷ lines) =
    let rest = returns_before_esac lines in
    if trim_space line == "esac"
    then false
    else if contains_return_statement (trim_space line)
    then true
    else rest

abbrev concat_text : List String → String
concat_text [] = ""
concat_text (line ∷ lines) = join line (concat_text lines)

-- The outer loop: the text before the guard and the text from it on.
unfoldable pub split_at_guard : List String → Option (String × String)
unfolding returns_before_esac trim_space
split_at_guard [] = none
split_at_guard (line ∷ lines) =
    let trimmed = trim_space line in
    let here =
      (trimmed == "case $- in" || trimmed == "case \"$-\" in") && returns_before_esac lines in
    if here then some ("", join line (concat_text lines)) else elim (split_at_guard lines) [
      | none ↦ none
      | some (head, tail) ↦ some (join line head, tail)
    ]

abbrev end_line : String → String
end_line s = if s == "" || is_some (cut_suffix "\n" s) then s else join s "\n"

-- `strings.TrimRight(s, "\n")`
unfoldable pub trim_newlines : String → String
trim_newlines String.[] = String.[]
trim_newlines (String.◌∷◌ c s) =
    let rest = trim_newlines s in
    if rest == "" && nat_eq (code c) 10 then String.[] else String.◌∷◌ c rest

-- The text that the block is put into: without an old block, or cut at a start that has no end.
unfoldable pub base_of : String → String
unfolding strip_block trim_newlines cut_suffix
base_of content =
    let base = strip_block content in
    if base == content
    then elim (find? content block_start) [
      | none ↦ base
      | some idx ↦ end_line (trim_newlines (slice content 0 idx))
    ]
    else base

-- `upsertBlockInFile` on the content of a file that is read: the new content, if it is written
unfoldable pub upsert_block : String → String → Option String
unfolding base_of split_after split_at_guard cut_suffix
upsert_block block content =
    let base = base_of content in
    if has_part content block then none else elim (split_at_guard (split_after base)) [
      | some (head, tail) ↦ some (join (end_line head) (join block tail))
      | none ↦ some (join (end_line base) block)
    ]

concat_text-push_char :
    (c : Char) (lines : List String)
    → concat_text (push_char c lines) ≡ String.◌∷◌ c (concat_text lines)
concat_text-push_char c [] = append.cons c "" "" ∙ ap (String.◌∷◌ c) (append.nil "")
concat_text-push_char c (line ∷ lines) = append.cons c line (concat_text lines)

concat_text-split_after : (s : String) → concat_text (split_after s) ≡ s
unfolding split_after
concat_text-split_after String.[] = append.nil ""
concat_text-split_after (String.◌∷◌ c s) = elim (Bool-cases (is_newline c)) [
  | inl e ↦ simp e (
      append.cons c "" (concat_text (split_after s))
      ∙ ap (String.◌∷◌ c) (append.nil (concat_text (split_after s)) ∙ concat_text-split_after s))
  | inr e ↦
      simp e
        (concat_text-push_char c (split_after s) ∙ ap (String.◌∷◌ c) (concat_text-split_after s))
]

split_at_guard-concat_text :
    (lines : List String) (head tail : String)
    → split_at_guard lines ≡ some (head, tail)
    → join head tail ≡ concat_text lines
unfolding split_at_guard
split_at_guard-concat_text [] head tail h = cc
split_at_guard-concat_text (line ∷ lines) head tail h = elim (Option-cases (split_at_guard lines)) [
  | inl missing ↦ ground (arith, missing, h, append.nil (concat_text (line ∷ lines)))
  | inr ((before, after), found) ↦ ground (
    arith,
    found,
    h,
    append.nil (concat_text (line ∷ lines)),
    append_assoc line before after,
    split_at_guard-concat_text lines before after found,
  )
]

-- Where the block is written, the new content is the text without an old block, or cut at a start that
-- has no end, with the block put in at one place, at the start of a line: before a guard against
-- non-interactive shells, or else at the end.
pub upsert_block_lem :
    (block content new : String)
    → upsert_block block content ≡ some new
    → (head : String) × (tail : String) × (join head tail ≡ base_of content)
      × (new ≡ join (end_line head) (join block tail))
      × ((tail ≡ "") ⊎ (split_at_guard (split_after (base_of content)) ≡ some (head, tail)))
unfolding upsert_block
upsert_block_lem block content new h =
    let base = base_of content in
    elim (Option-cases (split_at_guard (split_after base))) [
      | inl missing ↦
          (base, "", append-nil base, ground (arith, missing, h, append-nil block), inl refl)
      | inr ((head, tail), found) ↦ (
        head,
        tail,
        split_at_guard-concat_text (split_after base) head tail found
            ∙ concat_text-split_after base,
        ground (arith, found, h),
        inr found,
      )
    ]
