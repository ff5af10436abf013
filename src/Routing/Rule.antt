-- ===== src/Routing/Rule.antt =====
-- The rule of src/database/entities/RouteRule.cpp and its constructors.
pub mod Values
pub mod Tabs
pub mod Editing
pub mod Clearing
pub mod Seeding
use free_link_app.Common.{
  ℤ, pos, negsuc, is_negative, String, String_eq, ℤ_eq, Bool, true, false, not, ◌&&◌, ◌||◌, Option,
  none, some, List, [], ◌∷◌, Eq, ◌==◌, if◌then◌else◌, is_empty, contains, keep,
}
use free_link_app.Qt.{Qt}
use free_link_app.Routing.Attribute
use free_link_app.Routing.Attribute.{Attribute, attribute_of}
use free_link_app.Routing.RuleType.{RuleType, custom, direct_id, is_custom, is_address}

pub record RouteRule : Type 0 where
  pub name : String
  pub rule_type : RuleType
  pub ip_version : String
  pub network : String
  pub protocol : String
  pub inbound : List String
  pub domain : List String
  pub domain_suffix : List String
  pub domain_keyword : List String
  pub domain_regex : List String
  pub source_ip_cidr : List String
  pub source_ip_is_private : Bool
  pub ip_cidr : List String
  pub ip_is_private : Bool
  pub source_port : List String
  pub source_port_range : List String
  pub port : List String
  pub port_range : List String
  pub process_name : List String
  pub process_path : List String
  pub process_path_regex : List String
  pub wifi_ssid : List String
  pub wifi_bssid : List String
  pub rule_set : List String
  pub invert : Bool
  pub outbound_id : ℤ
  pub action : String
  pub reject_method : String
  pub no_drop : Bool
  pub override_address : String
  pub override_port : String
  pub sniffers : List String
  pub sniff_override_dest : Bool
  pub strategy : String
  pub ui_visible_attributes : List String
  pub ui_attribute_tabs_seeded : Bool
  pub ui_active_attribute_tab_label : String

-- RouteRule()
abbrev pub new_rule : RouteRule
new_rule = record {
  name = "";
  rule_type = custom;
  ip_version = "";
  network = "";
  protocol = "";
  inbound = [];
  domain = [];
  domain_suffix = [];
  domain_keyword = [];
  domain_regex = [];
  source_ip_cidr = [];
  source_ip_is_private = false;
  ip_cidr = [];
  ip_is_private = false;
  source_port = [];
  source_port_range = [];
  port = [];
  port_range = [];
  process_name = [];
  process_path = [];
  process_path_regex = [];
  wifi_ssid = [];
  wifi_bssid = [];
  rule_set = [];
  invert = false;
  outbound_id = direct_id;
  action = "route";
  reject_method = "";
  no_drop = false;
  override_address = "";
  override_port = "";
  sniffers = [];
  sniff_override_dest = false;
  strategy = "";
  ui_visible_attributes = [];
  ui_attribute_tabs_seeded = false;
  ui_active_attribute_tab_label = "";
}

-- The copy constructor, which leaves out the label of the active tab.
unfoldable pub copy_rule : RouteRule → RouteRule
copy_rule other = record other { ui_active_attribute_tab_label = "" }

-- get_processPath_direct_rule
unfoldable pub process_path_direct_rule : String → RouteRule
process_path_direct_rule path = record new_rule {
  name = "AutoGenerated direct extra core";
  action = "route";
  outbound_id = negsuc 1;
  process_path = path ∷ [];
}
