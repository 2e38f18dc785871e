-- ===== src/Generate/Global.antt =====
-- `buildGlobalConfig` (mihomotui/mihomo_config.go): ports, DNS, TUN and the sniffer.
use mihomo_tui.Base.{true, false, not, [], ◌∷◌, if◌then◌else◌}
use mihomo_tui.Config.{Config}
use mihomo_tui.Generate.{MihomoYaml, TunYaml, DnsYaml, SnifferYaml, GeoxUrlYaml}
use mihomo_tui.Generate.Addresses.{Resolver, build_route_exclude_addresses, build_fake_ip_filter}

abbrev geox_url : GeoxUrlYaml
geox_url = record {
  geoip = "https://github.com/MetaCubeX/meta-rules-dat/releases/download/latest/geoip-lite.dat";
  geosite = "https://github.com/MetaCubeX/meta-rules-dat/releases/download/latest/geosite.dat";
  mmdb = "https://github.com/MetaCubeX/meta-rules-dat/releases/download/latest/country-lite.mmdb";
  asn = "https://github.com/MetaCubeX/meta-rules-dat/releases/download/latest/GeoLite2-ASN.mmdb";
}

abbrev sniffer_settings : SnifferYaml
sniffer_settings = record {
  enable = true;
  sniff =
      record { protocol = "HTTP"; ports = "80" ∷ "8080-8880" ∷ []; override_destination = true }
      ∷ record { protocol = "TLS"; ports = "443" ∷ "8443" ∷ []; override_destination = false }
      ∷ record { protocol = "QUIC"; ports = "443" ∷ "8443" ∷ []; override_destination = false }
      ∷ [];
  skip_domain = "Mijia Cloud" ∷ "+.push.apple.com" ∷ [];
}

-- The literal `Tun`
unfoldable pub tun_settings : Resolver → Config → TunYaml
unfolding build_route_exclude_addresses
tun_settings net c = record {
  enable = c.system.tun;
  stack = "mixed";
  device = "mihomo-tui-tun";
  dns_hijack = "any:53" ∷ "tcp://any:53" ∷ [];
  auto_route = true;
  auto_redirect = c.mihomo.auto_redirect;
  auto_detect_interface = true;
  route_exclude_address = build_route_exclude_addresses net c;
}

-- The literal `DNS`
unfoldable pub dns_settings : Config → DnsYaml
unfolding build_fake_ip_filter
dns_settings c = record {
  enable = true;
  ipv6 = true;
  enhanced_mode = "fake-ip";
  fake_ip_filter = build_fake_ip_filter c;
  default_nameserver = "tls://223.5.5.5" ∷ "tls://223.6.6.6" ∷ [];
  nameserver = "https://doh.pub/dns-query" ∷ "https://dns.alidns.com/dns-query" ∷ [];
}

-- `buildGlobalConfig`
unfoldable pub build_global_config : Resolver → Config → MihomoYaml
unfolding tun_settings dns_settings
build_global_config net c = record {
  port = c.mihomo.http_port;
  socks_port = c.mihomo.socks5_port;
  mixed_port = c.mihomo.mixed_port;
  redir_port = c.mihomo.redir_port;
  tproxy_port = c.mihomo.tproxy_port;
  allow_lan = c.mihomo.allow_lan;
  bind_address = if not c.mihomo.allow_lan then "127.0.0.1" else "*";
  ipv6 = c.mihomo.ipv6;
  unified_delay = c.mihomo.unified_delay;
  tcp_concurrent = true;
  log_level = c.mihomo.log_level;
  mode = c.proxy_mode;
  external_controller = c.mihomo.external_controller;
  secret = c.mihomo.secret;
  external_ui = "ui";
  external_ui_url = "https://github.com/MetaCubeX/metacubexd/archive/refs/heads/gh-pages.zip";
  geodata_mode = true;
  geox_url = geox_url;
  find_process_mode = "strict";
  store_selected = true;
  store_fake_ip = true;
  sniffer = sniffer_settings;
  tun = tun_settings net c;
  dns = dns_settings c;
  proxy_providers = [];
  proxy_groups = [];
  rule_providers = [];
  rules = [];
}
