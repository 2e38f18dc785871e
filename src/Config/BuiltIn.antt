-- ===== src/Config/BuiltIn.antt =====
-- The built-in rules (mihomotui/builtin_rules.go, with the tables of mihomotui/mihomo_config.go).
use Prim.Native.String.{◌++◌ as join}
use mihomo_tui.Base.{
  ℕ, ◌+◌, ◌-◌, String, true, not, List, [], ◌∷◌, ◌==◌, ◌&&◌, if◌then◌else◌, get_elem?, none, some,
  ltb,
}
use mihomo_tui.Base.Int.{ℤ, pos}
use mihomo_tui.Config.{BuiltInRule, Config, kind_literal, kind_provider, kind_match}
use mihomo_tui.Config.Edit.{is_empty}

-- What `defaultBuiltInRules` reads of an entry of `builtInRulesProviders`.
pub record RuleProviderEntry : Type 0 where
  pub name : String
  pub behavior : String
  pub url : String
  pub interval : ℤ
  pub proxy_group : String
  pub format : String

-- `DEFAULT_RULES`
abbrev pub default_rules : List String
default_rules =
    "GEOIP,CN,DIRECT" ∷ "DOMAIN-KEYWORD,-cn,DIRECT" ∷ "DOMAIN-SUFFIX,cn,DIRECT"
    ∷ "DOMAIN-SUFFIX,local,DIRECT" ∷ "IP-CIDR,127.0.0.0/8,DIRECT" ∷ "IP-CIDR,192.168.0.0/16,DIRECT"
    ∷ "IP-CIDR,172.16.0.0/12,DIRECT" ∷ "IP-CIDR,10.0.0.0/8,DIRECT" ∷ "IP-CIDR,224.0.0.0/4,DIRECT"
    ∷ "IP-CIDR,100.64.0.0/10,DIRECT" ∷ "IP-CIDR,fe80::/10,DIRECT" ∷ "DOMAIN,localhost,DIRECT"
    ∷ "DOMAIN, local.adguard.org,DIRECT" ∷ "DOMAIN, injections.adguard.org,DIRECT"
    ∷ "DOMAIN-SUFFIX,github.io,Auto" ∷ "DOMAIN-SUFFIX,google.com,Auto"
    ∷ "DOMAIN-SUFFIX,facebook.com,Auto" ∷ []

-- `builtInRulesProviders`, in the order of `builtInProviderOrder`
abbrev pub built_in_providers : List RuleProviderEntry
built_in_providers =
    record {
      name = "reject";
      behavior = "domain";
      url = "https://cdn.jsdelivr.net/gh/Loyalsoldier/clash-rules@release/reject.txt";
      interval = pos 86400;
      proxy_group = "REJECT";
      format = "";
    }
    ∷ record {
      name = "icloud";
      behavior = "domain";
      url = "https://cdn.jsdelivr.net/gh/Loyalsoldier/clash-rules@release/icloud.txt";
      interval = pos 86400;
      proxy_group = "DIRECT";
      format = "";
    }
    ∷ record {
      name = "apple";
      behavior = "domain";
      url = "https://cdn.jsdelivr.net/gh/Loyalsoldier/clash-rules@release/apple.txt";
      interval = pos 86400;
      proxy_group = "DIRECT";
      format = "";
    }
    ∷ record {
      name = "google";
      behavior = "domain";
      url = "https://cdn.jsdelivr.net/gh/Loyalsoldier/clash-rules@release/google.txt";
      interval = pos 86400;
      proxy_group = "Auto";
      format = "";
    }
    ∷ record {
      name = "proxy";
      behavior = "domain";
      url = "https://cdn.jsdelivr.net/gh/Loyalsoldier/clash-rules@release/proxy.txt";
      interval = pos 86400;
      proxy_group = "Auto";
      format = "";
    }
    ∷ record {
      name = "direct";
      behavior = "domain";
      url = "https://cdn.jsdelivr.net/gh/Loyalsoldier/clash-rules@release/direct.txt";
      interval = pos 86400;
      proxy_group = "DIRECT";
      format = "";
    }
    ∷ record {
      name = "gfw";
      behavior = "domain";
      url = "https://cdn.jsdelivr.net/gh/Loyalsoldier/clash-rules@release/gfw.txt";
      interval = pos 86400;
      proxy_group = "Auto";
      format = "";
    }
    ∷ record {
      name = "tld-not-cn";
      behavior = "domain";
      url = "https://cdn.jsdelivr.net/gh/Loyalsoldier/clash-rules@release/tld-not-cn.txt";
      interval = pos 86400;
      proxy_group = "Auto";
      format = "";
    }
    ∷ record {
      name = "telegramcidr";
      behavior = "ipcidr";
      url = "https://cdn.jsdelivr.net/gh/Loyalsoldier/clash-rules@release/telegramcidr.txt";
      interval = pos 86400;
      proxy_group = "Auto";
      format = "";
    }
    ∷ record {
      name = "cncidr";
      behavior = "ipcidr";
      url = "https://cdn.jsdelivr.net/gh/Loyalsoldier/clash-rules@release/cncidr.txt";
      interval = pos 86400;
      proxy_group = "DIRECT";
      format = "";
    }
    ∷ record {
      name = "lancidr";
      behavior = "ipcidr";
      url = "https://cdn.jsdelivr.net/gh/Loyalsoldier/clash-rules@release/lancidr.txt";
      interval = pos 86400;
      proxy_group = "DIRECT";
      format = "";
    }
    ∷ record {
      name = "applications";
      behavior = "classical";
      url = "https://cdn.jsdelivr.net/gh/Loyalsoldier/clash-rules@release/applications.txt";
      interval = pos 86400;
      proxy_group = "DIRECT";
      format = "";
    }
    ∷ []

abbrev digits : List String
digits = "0" ∷ "1" ∷ "2" ∷ "3" ∷ "4" ∷ "5" ∷ "6" ∷ "7" ∷ "8" ∷ "9" ∷ []

abbrev digit : ℕ → String
digit n = elim (get_elem? digits n) [ none ↦ "" | some d ↦ d ]

-- `%02d` and `%d` of a number below 20; the table of literal rules has 17.
abbrev two_digits : ℕ → String
two_digits n = if ltb n 10 then join "0" (digit n) else join "1" (digit (n - 10))

abbrev decimal : ℕ → String
decimal n = if ltb n 10 then digit n else two_digits n

abbrev provider_rule : ℕ → RuleProviderEntry → BuiltInRule
provider_rule order p = record {
  id = join "builtin-provider-" p.name;
  name = p.name;
  kind = kind_provider;
  enabled = true;
  order = pos order;
  rule = "";
  url = p.url;
  behavior = p.behavior;
  format = if p.format == "" then "yaml" else p.format;
  interval = p.interval;
  proxy_group = p.proxy_group;
}

abbrev literal_rule : ℕ → String → String → String → BuiltInRule
literal_rule order id name rule = record {
  id = id;
  name = name;
  kind = kind_literal;
  enabled = true;
  order = pos order;
  rule = rule;
  url = "";
  behavior = "";
  format = "";
  interval = pos 0;
  proxy_group = "";
}

abbrev match_rule : ℕ → BuiltInRule
match_rule order = record {
  id = "builtin-match";
  name = "默认兜底 MATCH";
  kind = kind_match;
  enabled = true;
  order = pos order;
  rule = "";
  url = "";
  behavior = "";
  format = "";
  interval = pos 0;
  proxy_group = "Auto";
}

-- The loop over `DEFAULT_RULES`, and the rule behind it.
abbrev literal_rules : ℕ → ℕ → List String → List BuiltInRule
literal_rules order i [] = match_rule order ∷ []
literal_rules order i (rule ∷ rules) =
    literal_rule order (join "builtin-default-" (two_digits (i + 1)))
      (join "默认规则 " (decimal (i + 1))) rule
    ∷ literal_rules (order + 1) (i + 1) rules

-- The loop over `builtInProviderOrder`, and what is behind it.
abbrev provider_rules : ℕ → List RuleProviderEntry → List BuiltInRule
provider_rules order [] =
    literal_rule order "builtin-ssh" "SSH 直连保护" "DST-PORT,22,DIRECT"
    ∷ literal_rules (order + 1) 0 default_rules
provider_rules order (p ∷ ps) = provider_rule order p ∷ provider_rules (order + 1) ps

-- `defaultBuiltInRules`
unfoldable pub default_built_in_rules : List BuiltInRule
default_built_in_rules = provider_rules 0 built_in_providers

-- `ensureBuiltInRules`
unfoldable pub ensure_built_in_rules : Config → Config
ensure_built_in_rules c = if c.built_in_rules_initialized then c else record c {
  built_in_rules = default_built_in_rules;
  built_in_rules_initialized = true;
  pre_custom_rules =
      if not (is_empty c.custom_rules) && is_empty c.pre_custom_rules
      then c.custom_rules
      else c.pre_custom_rules;
}
