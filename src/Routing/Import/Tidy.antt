-- ===== src/Routing/Import/Tidy.antt =====
-- Rules whose lists the editor has trimmed and freed of blanks (RouteRule.cpp, `filterEmpty`).
use free_link_app.Common.{String, String_eq, ℤ_eq, ◌≡◌, ◌==◌, if_rule}
use free_link_app.Qt.{Qt}
use free_link_app.Routing.RuleType.{dns_id, block_id}
use free_link_app.Routing.Rule.{RouteRule}
use free_link_app.Routing.Rule.Values.{filter_empty}
use free_link_app.Routing.RuleJson.{fix_action}

-- The lists of a rule as the editor writes them: trimmed, without blank members.
pub record IsTidy (q : Qt) (r : RouteRule) : Type 0 where
  pub inbound : filter_empty q r.inbound ≡ r.inbound
  pub domain : filter_empty q r.domain ≡ r.domain
  pub domain_suffix : filter_empty q r.domain_suffix ≡ r.domain_suffix
  pub domain_keyword : filter_empty q r.domain_keyword ≡ r.domain_keyword
  pub domain_regex : filter_empty q r.domain_regex ≡ r.domain_regex
  pub source_ip_cidr : filter_empty q r.source_ip_cidr ≡ r.source_ip_cidr
  pub ip_cidr : filter_empty q r.ip_cidr ≡ r.ip_cidr
  pub source_port_range : filter_empty q r.source_port_range ≡ r.source_port_range
  pub port_range : filter_empty q r.port_range ≡ r.port_range
  pub process_name : filter_empty q r.process_name ≡ r.process_name
  pub process_path : filter_empty q r.process_path ≡ r.process_path
  pub process_path_regex : filter_empty q r.process_path_regex ≡ r.process_path_regex
  pub wifi_ssid : filter_empty q r.wifi_ssid ≡ r.wifi_ssid
  pub wifi_bssid : filter_empty q r.wifi_bssid ≡ r.wifi_bssid
  pub rule_set : filter_empty q r.rule_set ≡ r.rule_set

other_action-IsTidy :
    (q : Qt) (r : RouteRule) (a : String) → IsTidy q r → IsTidy q (record r { action = a })
other_action-IsTidy q r a t = record {
  inbound = t.inbound;
  domain = t.domain;
  domain_suffix = t.domain_suffix;
  domain_keyword = t.domain_keyword;
  domain_regex = t.domain_regex;
  source_ip_cidr = t.source_ip_cidr;
  ip_cidr = t.ip_cidr;
  source_port_range = t.source_port_range;
  port_range = t.port_range;
  process_name = t.process_name;
  process_path = t.process_path;
  process_path_regex = t.process_path_regex;
  wifi_ssid = t.wifi_ssid;
  wifi_bssid = t.wifi_bssid;
  rule_set = t.rule_set;
}

pub fix_action-IsTidy : (q : Qt) (r : RouteRule) → IsTidy q r → IsTidy q (fix_action r)
unfolding fix_action
fix_action-IsTidy q r t =
    if_rule (IsTidy q) (r.action == "route") _ r
      (if_rule (IsTidy q) (r.outbound_id == dns_id) _ _ (other_action-IsTidy q r "hijack-dns" t)
        (if_rule (IsTidy q) (r.outbound_id == block_id) _ r (other_action-IsTidy q r "reject" t) t))
      t
