-- ===== src/Validate/FieldSpec.antt =====
-- The specification of the single fields and of the two address lists that `Validate`
-- (mihomotui/config_validate.go) checks.
use mihomo_tui.Base.{
  refl, ℕ, ◌+◌, ◌≤◌, String, ◌≡◌, ◌≢◌, ◌↔◌, ◌⊎◌, inl, inr, Bool, true, false, List, [], ◌∷◌, arith,
  ◌==◌, eq_iff, All, trim_space, is_blank, some, none, Option, refl, Bool-cases,
}
use mihomo_tui.Base.Among.{IsAmong}
use mihomo_tui.Base.Int.{ℤ, pos, negsuc}
use mihomo_tui.Config.{Config}
use mihomo_tui.Validate.Atoi.{atoi}
use mihomo_tui.Validate.Problem.{Problem}
use mihomo_tui.Validate.Hosts.{NetParsers, is_exclude_address, is_filter_entry, check_entries}
use mihomo_tui.Validate.{
  is_tcp_port, has_part, check_host_port, check_controller, check_levels, check_urls, check_modes,
  is_mihomo_log_level, is_app_log_level, is_proxy_mode,
}

-- A host and a decimal port of TCP.
abbrev pub IsHostPort : List String → Type 0
IsHostPort parts =
    (host : String) × (port : String) × (n : ℕ) × (parts ≡ host ∷ port ∷ [])
    × (atoi port ≡ some (pos n))
    × (1 ≤ n)
    × (n ≤ 65535)

-- An external controller is left out, or an address of a host and a port without a scheme.
abbrev pub IsController : NetParsers → String → Type 0
IsController net raw =
    (trim_space raw ≡ "")
    ⊎ ((trim_space raw ≢ "")
        × (has_part (trim_space raw) "://" ≡ false)
        × IsHostPort (net.split_host_port (trim_space raw)))

-- An address that passes a test, with blanks around it.
abbrev pub IsEntry : (String → Bool) → String → Type 0
IsEntry valid raw = (trim_space raw ≢ "") × (valid (trim_space raw) ≡ true)

is_tcp_port-IsPort :
    (p : Option ℤ) → is_tcp_port p ≡ true → (n : ℕ) × (p ≡ some (pos n)) × (1 ≤ n) × (n ≤ 65535)
is_tcp_port-IsPort none h = cc
is_tcp_port-IsPort (some (pos n)) h = (n, refl, ground (arith, h), ground (arith, h))
is_tcp_port-IsPort (some (negsuc n)) h = cc

check_host_port-IsHostPort :
    (ec : String) (parts : List String) → check_host_port ec parts ≡ [] → IsHostPort parts
check_host_port-IsHostPort ec [] h = cc
check_host_port-IsHostPort ec (host ∷ []) h = cc
check_host_port-IsHostPort ec (host ∷ port ∷ []) h =
    let (n, known, low, high) = is_tcp_port-IsPort (atoi port) (ground (arith, h)) in
    (host, port, n, refl, known, low, high)
check_host_port-IsHostPort ec (host ∷ port ∷ (more ∷ rest)) h = cc

IsHostPort-check_host_port :
    (ec : String) (parts : List String) → IsHostPort parts → check_host_port ec parts ≡ []
IsHostPort-check_host_port ec parts (host, port, n, e, known, low, high) =
    ground (arith, e, known, low, high)

pub check_controller_iff :
    (net : NetParsers) (raw : String) → (check_controller net raw ≡ []) ↔ IsController net raw
unfolding check_controller
check_controller_iff net raw =
    let ec = trim_space raw in
    let parts = net.split_host_port ec in
    elim (Bool-cases (ec == "")) [
      | inl e ↦ (λ h. inl ((eq_iff ec "").0 e), λ h. ground (arith, e))
      | inr e ↦ elim (Bool-cases (has_part ec "://")) [
        | inl scheme ↦ (
          λ h. absurd (ground (arith, h, e, scheme)),
          λ h. absurd (ground (arith, h, e, scheme, eq_iff ec "")),
        )
        | inr bare ↦ (
          λ h. inr (
            ground (arith, e, eq_iff ec ""),
            bare,
            check_host_port-IsHostPort ec parts (ground (arith, h, e, bare)),
          ),
          λ h. elim h [
            | inl none_given ↦ absurd (ground (arith, e, none_given, eq_iff ec ""))
            | inr (given, same, split) ↦
                let done = IsHostPort-check_host_port ec parts split in
                ground (arith, e, bare, done)
          ],
        )
      ]
    ]

pub check_entries_iff :
    (valid : String → Bool) (empty : ℕ → Problem) (invalid : ℕ → String → Problem) (i : ℕ)
    (raws : List String)
    → (check_entries valid empty invalid i raws ≡ []) ↔ All (IsEntry valid) raws
unfolding check_entries
check_entries_iff valid empty invalid i [] = (λ h. tt, λ h. refl)
check_entries_iff valid empty invalid i (raw ∷ raws) =
    ground (arith, eq_iff (trim_space raw) "", check_entries_iff valid empty invalid (i + 1) raws)

abbrev pub IsMihomoLevel : String → Type 0
IsMihomoLevel l = IsAmong l ("debug" ∷ "info" ∷ "warning" ∷ "error" ∷ "silent" ∷ [])

abbrev pub IsAppLevel : String → Type 0
IsAppLevel l = IsAmong l ("debug" ∷ "info" ∷ "warn" ∷ "error" ∷ [])

abbrev pub IsMode : String → Type 0
IsMode m = IsAmong m ("rule" ∷ "global" ∷ "direct" ∷ [])

pub is_mihomo_log_level_iff : (l : String) → (is_mihomo_log_level l ≡ true) ↔ IsMihomoLevel l
unfolding is_mihomo_log_level
is_mihomo_log_level_iff l = ground (
  arith,
  eq_iff l "debug",
  eq_iff l "info",
  eq_iff l "warning",
  eq_iff l "error",
  eq_iff l "silent",
)

pub is_app_log_level_iff : (l : String) → (is_app_log_level l ≡ true) ↔ IsAppLevel l
unfolding is_app_log_level
is_app_log_level_iff l =
    ground (arith, eq_iff l "debug", eq_iff l "info", eq_iff l "warn", eq_iff l "error")

pub is_proxy_mode_iff : (m : String) → (is_proxy_mode m ≡ true) ↔ IsMode m
unfolding is_proxy_mode
is_proxy_mode_iff m = ground (arith, eq_iff m "rule", eq_iff m "global", eq_iff m "direct")

-- The single fields and the two address lists.
pub record HasValidFields (net : NetParsers) (c : Config) : Type 0 where
  pub controller : IsController net c.mihomo.external_controller
  pub levels : IsMihomoLevel c.mihomo.log_level × IsAppLevel c.log_level
  pub urls :
      ((trim_space c.mihomo.test_url ≡ "") ⊎ (net.http_url (trim_space c.mihomo.test_url) ≡ true))
      × (net.http_url (trim_space c.external_resources.geoip) ≡ true)
      × (net.http_url (trim_space c.external_resources.geosite) ≡ true)
  pub modes :
      IsMode c.proxy_mode
      × (is_blank c.default_proxy_group ≡ false)
      × (is_blank c.system.language ≡ false)
  pub exclude : All (IsEntry (is_exclude_address net)) c.exclude_addresses
  pub filter : All (IsEntry is_filter_entry) c.fake_ip_filter

module _ (net : NetParsers) (c : Config) where
  pub check_levels_iff :
      (check_levels c ≡ []) ↔ (IsMihomoLevel c.mihomo.log_level × IsAppLevel c.log_level)
  unfolding check_levels
  check_levels_iff = (
    λ h. (
      (is_mihomo_log_level_iff c.mihomo.log_level).0 (ground (arith, h)),
      (is_app_log_level_iff c.log_level).0 (ground (arith, h)),
    ),
    λ (m, a).
        let kernel = (is_mihomo_log_level_iff c.mihomo.log_level).1 m in
        let app = (is_app_log_level_iff c.log_level).1 a in ground (arith, kernel, app),
  )

  pub check_urls_iff : (check_urls net c ≡ []) ↔ (
      ((trim_space c.mihomo.test_url ≡ "") ⊎ (net.http_url (trim_space c.mihomo.test_url) ≡ true))
      × (net.http_url (trim_space c.external_resources.geoip) ≡ true)
      × (net.http_url (trim_space c.external_resources.geosite) ≡ true))
  unfolding check_urls
  check_urls_iff = ground (arith, eq_iff (trim_space c.mihomo.test_url) "")

  pub check_modes_iff : (check_modes c ≡ []) ↔ (
      IsMode c.proxy_mode
      × (is_blank c.default_proxy_group ≡ false)
      × (is_blank c.system.language ≡ false))
  unfolding check_modes
  check_modes_iff = (
    λ h. (
      (is_proxy_mode_iff c.proxy_mode).0 (ground (arith, h)),
      ground (arith, h),
      ground (arith, h),
    ),
    λ (m, group, language).
        let mode = (is_proxy_mode_iff c.proxy_mode).1 m in ground (arith, mode, group, language),
  )
