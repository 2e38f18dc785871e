-- ===== src/Generate/Addresses.antt =====
-- The addresses that TUN leaves alone and the host names that keep their addresses
-- (mihomotui/mihomo_config.go).
use Prim.Native.String.{◌++◌ as join}
use mihomo_tui.Base.{
  ◌∙◌, String, ◌≡◌, Bool, false, ◌||◌, not, Option, none, some, List, [], ◌∷◌, ◌++◌, map, arith,
  ◌==◌, trim_space, contains, contains-append, Distinct, if◌then◌else◌,
}
use mihomo_tui.Base.Maps.{keep_new, keep_new-Distinct, contains-keep_new}
use mihomo_tui.Config.{Config}
use mihomo_tui.Config.Edit.{is_empty}

-- A parsed address: whether `ip.To4() != nil`, and `ip.String()`.
pub record ParsedIp : Type 0 where
  pub is_v4 : Bool
  pub text : String

-- `net.ParseIP`, `net.ParseCIDR` and `net.LookupIP`, which finds the texts of addresses or fails.
pub record Resolver : Type 0 where
  pub parse_ip : String → Option ParsedIp
  pub parses_cidr : String → Bool
  pub lookup_ip : String → Option (List String)

-- `defaultRouteExcludeAddresses`
abbrev pub default_route_exclude_addresses : List String
default_route_exclude_addresses =
    "192.168.0.0/16" ∷ "10.0.0.0/8" ∷ "172.16.0.0/12" ∷ "100.64.0.0/10" ∷ "127.0.0.0/8"
    ∷ "224.0.0.0/4" ∷ "fe80::/10" ∷ "fc00::/7" ∷ []

-- `defaultFakeIPFilter`
abbrev pub default_fake_ip_filter : List String
default_fake_ip_filter = "*.lan" ∷ "localhost.ptlogin2.qq.com" ∷ []

abbrev with_prefix : ParsedIp → String
with_prefix ip = if ip.is_v4 then join ip.text "/32" else join ip.text "/128"

module _ (net : Resolver) where
  -- `normalizeRouteExcludeEntry`
  unfoldable pub normalize_route_exclude_entry : String → String
  unfolding trim_space
  normalize_route_exclude_entry raw =
      let entry = trim_space raw in
      if entry == "" then "" else elim (net.parse_ip entry) [
        | some ip ↦ with_prefix ip
        | none ↦ if net.parses_cidr entry then entry else ""
      ]

  -- `expandExcludeAddress`; a text that is empty counts as seen.
  unfoldable pub expand_exclude_address : String → List String
  unfolding normalize_route_exclude_entry keep_new trim_space
  expand_exclude_address raw =
      let entry = trim_space raw in
      let n = normalize_route_exclude_entry entry in
      if entry == "" then [] else if not (n == "") then n ∷ [] else elim (net.lookup_ip entry) [
        | none ↦ []
        | some ips ↦ keep_new ("" ∷ []) (map normalize_route_exclude_entry ips)
      ]

  -- The addresses that the two loops of `mergeRouteExcludeAddresses` go through.
  unfoldable pub expand_all : List String → List String
  unfolding expand_exclude_address
  expand_all [] = []
  expand_all (raw ∷ raws) = expand_exclude_address raw ++ expand_all raws

  -- `mergeRouteExcludeAddresses`
  unfoldable pub merge_route_exclude_addresses : List String → List String → List String
  unfolding expand_all keep_new
  merge_route_exclude_addresses base extra = keep_new [] (expand_all (base ++ extra))

  -- `buildRouteExcludeAddresses`
  unfoldable pub build_route_exclude_addresses : Config → List String
  unfolding merge_route_exclude_addresses
  build_route_exclude_addresses c =
      if is_empty c.exclude_addresses
      then default_route_exclude_addresses
      else merge_route_exclude_addresses default_route_exclude_addresses c.exclude_addresses

-- `buildFakeIPFilter`; a text that is empty counts as seen.
unfoldable pub build_fake_ip_filter : Config → List String
unfolding keep_new trim_space
build_fake_ip_filter c =
    keep_new ("" ∷ []) (map trim_space (default_fake_ip_filter ++ c.fake_ip_filter))

-- An entry stands for a normal address where one of the two steps finds it.
abbrev pub names_address : Resolver → String → List String → Bool
names_address net address [] = false
names_address net address (raw ∷ raws) =
    contains (expand_exclude_address net raw) address || names_address net address raws

contains-expand_all :
    (net : Resolver) (raws : List String) (address : String)
    → contains (expand_all net raws) address ≡ names_address net address raws
unfolding expand_all contains
contains-expand_all net [] address = ground arith
contains-expand_all net (raw ∷ raws) address = ground (
  arith,
  contains-append (expand_exclude_address net raw) (expand_all net raws) address,
  contains-expand_all net raws address,
)

-- Where the user lists addresses to leave alone, the generated list holds no address twice, and it
-- holds an address exactly if a default or an entry of the user stands for it.
pub build_route_exclude_addresses_lem :
    (net : Resolver) (c : Config) (address : String)
    → is_empty c.exclude_addresses ≡ false
    → Distinct (build_route_exclude_addresses net c)
      × (contains (build_route_exclude_addresses net c) address
          ≡ names_address net address (default_route_exclude_addresses ++ c.exclude_addresses))
unfolding build_route_exclude_addresses merge_route_exclude_addresses contains
build_route_exclude_addresses_lem net c address h =
    let all = expand_all net (default_route_exclude_addresses ++ c.exclude_addresses) in
    let listed = default_route_exclude_addresses ++ c.exclude_addresses in
    simp h (
      keep_new-Distinct [] all,
      contains-keep_new [] all address ∙ contains-expand_all net listed address,
    )
