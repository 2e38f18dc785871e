-- ===== src/Validate/Hosts.antt =====
-- Host names, bypass addresses and fake-ip patterns (`isValidHostname`, `IsValidExcludeAddress`,
-- `IsValidFakeIPFilterEntry` of mihomotui/config_validate.go), over code points. A label or host
-- with a character outside ASCII is refused whatever its length, so that the lengths agree with
-- the source's byte lengths wherever they matter.
use mihomo_tui.Base.{
  ℕ, ◌+◌, ◌≤◌, String, ◌≡◌, ◌⊎◌, Bool, true, false, ◌||◌, ◌&&◌, not, List, [], ◌∷◌, ◌++◌, arith,
  ◌==◌, if◌then◌else◌, All, length, nat_eq, codes, trim_space, leb, Bool-cases, inl, inr,
}
use mihomo_tui.Validate.Problem.{Problem}

abbrev pub is_letter : ℕ → Bool
is_letter c = (leb b'a' c && leb c b'z') || (leb b'A' c && leb c b'Z')

abbrev pub is_digit : ℕ → Bool
is_digit c = leb b'0' c && leb c b'9'

-- `strings.Split(host, ".")`
abbrev push : ℕ → List (List ℕ) → List (List ℕ)
push c [] = (c ∷ []) ∷ []
push c (l ∷ ls) = (c ∷ l) ∷ ls

unfoldable pub split_dots : List ℕ → List (List ℕ)
split_dots [] = [] ∷ []
split_dots (c ∷ s) = let rest = split_dots s in if nat_eq c b'.' then [] ∷ rest else push c rest

abbrev is_empty : List ℕ → Bool
is_empty [] = true
is_empty (c ∷ s) = false

-- The loop over one label, from index `i` on: a hyphen stands neither first nor last.
unfoldable pub check_label : Bool → List ℕ → Bool
check_label first [] = true
check_label first (c ∷ s) =
    (is_letter c || is_digit c || (nat_eq c b'-' && not first && not (is_empty s)))
    && check_label false s

unfoldable pub is_label : List ℕ → Bool
unfolding check_label
is_label label = not (is_empty label) && leb (length label) 63 && check_label true label

abbrev pub all_labels : List (List ℕ) → Bool
all_labels [] = true
all_labels (l ∷ ls) = is_label l && all_labels ls

-- `hasLetter`
abbrev pub has_letter : List ℕ → Bool
has_letter [] = false
has_letter (c ∷ s) = is_letter c || has_letter s

abbrev starts_dot : List ℕ → Bool
starts_dot [] = false
starts_dot (c ∷ s) = nat_eq c b'.'

abbrev ends_dot : List ℕ → Bool
ends_dot [] = false
ends_dot (c ∷ []) = nat_eq c b'.'
ends_dot (c ∷ d ∷ s) = ends_dot (d ∷ s)

-- `isValidHostname`
unfoldable pub is_hostname : List ℕ → Bool
unfolding split_dots is_label
is_hostname host =
    not (is_empty host)
    && leb (length host) 253
    && not (starts_dot host || ends_dot host)
    && all_labels (split_dots host)
    && has_letter host

-- Package `net` and `net/url` of the standard library, as far as the program asks them.
pub record NetParsers : Type 0 where
  pub parses_ip : String → Bool  -- net.ParseIP(s) != nil
  pub parses_cidr : String → Bool  -- net.ParseCIDR(s) gives no error
  pub http_url : String → Bool  -- url.Parse(s) succeeds, with scheme http or https and a host
  pub split_host_port : String → List String  -- net.SplitHostPort: host and port, or nothing

-- `IsValidExcludeAddress`
unfoldable pub is_exclude_address : NetParsers → String → Bool
unfolding is_hostname
is_exclude_address net entry =
    net.parses_ip entry || net.parses_cidr entry || is_hostname (codes entry)

abbrev is_wildcard : List ℕ → Bool
is_wildcard (c ∷ d ∷ s) = (nat_eq c b'*' || nat_eq c b'+') && nat_eq d b'.'
is_wildcard _ = false

abbrev drop_two : List ℕ → List ℕ
drop_two (c ∷ d ∷ s) = s
drop_two s = s

-- `IsValidFakeIPFilterEntry`; an entry `*` alone is refused.
unfoldable pub is_filter_entry : String → Bool
unfolding is_hostname
is_filter_entry raw =
    let entry = trim_space raw in
    let cs = codes entry in
    not (entry == "")
    && not (entry == "*")
    && is_hostname (if is_wildcard cs then drop_two cs else cs)

-- The two loops of `Validate` over such entries.
unfoldable pub check_entries :
    (String → Bool) → (ℕ → Problem) → (ℕ → String → Problem) → ℕ → List String → List Problem
check_entries valid empty invalid i [] = []
check_entries valid empty invalid i (raw ∷ raws) =
    let entry = trim_space raw in
    (if entry == ""
      then empty (i + 1) ∷ []
      else if valid entry
      then []
      else invalid (i + 1) entry ∷ [])
    ++ check_entries valid empty invalid (i + 1) raws

-- A letter, a digit, a hyphen or a dot.
abbrev pub IsHostChar : ℕ → Type 0
IsHostChar c = (is_letter c ≡ true) ⊎ (is_digit c ≡ true) ⊎ (c ≡ b'-') ⊎ (c ≡ b'.')

abbrev pub IsLabelChar : ℕ → Type 0
IsLabelChar c = (is_letter c ≡ true) ⊎ (is_digit c ≡ true) ⊎ (c ≡ b'-')

label_chars : (first : Bool) (s : List ℕ) → check_label first s ≡ true → All IsLabelChar s
unfolding check_label
label_chars first [] h = tt
label_chars first (c ∷ s) h = ground (arith, label_chars false s)

labels_chars : (ls : List (List ℕ)) → all_labels ls ≡ true → All (All IsLabelChar) ls
unfolding is_label
labels_chars [] h = tt
labels_chars (l ∷ ls) h = ground (arith, label_chars true l, labels_chars ls)

push_chars :
    (c : ℕ) (ls : List (List ℕ))
    → All (All IsLabelChar) (push c ls)
    → IsLabelChar c × All (All IsLabelChar) ls
push_chars c [] h = (h.0.0, tt)
push_chars c (l ∷ ls) h = (h.0.0, (h.0.1, h.1))

split_chars : (s : List ℕ) → All (All IsLabelChar) (split_dots s) → All IsHostChar s
unfolding split_dots
split_chars [] h = tt
split_chars (c ∷ s) h = elim (Bool-cases (nat_eq c b'.')) [
  | inl dot ↦ let (_, rest) = rw dot at h in (inr (inr (inr (ground arith))), split_chars s rest)
  | inr other ↦
      let (label, rest) = push_chars c (split_dots s) (rw other at h) in
      (ground arith, split_chars s rest)
]

-- An accepted host name holds no character but letters, digits, hyphens and dots, is at most 253
-- characters long and has a letter.
pub is_hostname_sound :
    (host : List ℕ)
    → is_hostname host ≡ true
    → All IsHostChar host × (length host ≤ 253) × (has_letter host ≡ true)
unfolding is_hostname
is_hostname_sound host h =
    let labels = labels_chars (split_dots host) (ground arith) in
    (split_chars host labels, ground arith, ground arith)
