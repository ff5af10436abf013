-- ===== src/Routing/Attribute.antt =====
-- The attributes of a rule that the editor and the importer name by text: the chains of
-- `fieldName == "…"` tests in src/database/entities/RouteRule.cpp, whose names differ from one another.
use free_link_app.Common.{String, String_eq, ◌≡◌, refl, Option, none, some, ◌==◌, if◌then◌else◌}

pub data Attribute : Type 0 where
  ip_version network protocol inbound domain domain_suffix domain_keyword domain_regex
        source_ip_cidr source_ip_is_private ip_cidr ip_is_private source_port source_port_range port
        port_range process_name process_path process_path_regex wifi_ssid wifi_bssid rule_set invert
        action outbound override_address override_port method no_drop override_destination
        strategy :
      Attribute

-- The text by which the code names an attribute.
unfoldable pub name_of : Attribute → String
name_of ip_version = "ip_version"
name_of network = "network"
name_of protocol = "protocol"
name_of inbound = "inbound"
name_of domain = "domain"
name_of domain_suffix = "domain_suffix"
name_of domain_keyword = "domain_keyword"
name_of domain_regex = "domain_regex"
name_of source_ip_cidr = "source_ip_cidr"
name_of source_ip_is_private = "source_ip_is_private"
name_of ip_cidr = "ip_cidr"
name_of ip_is_private = "ip_is_private"
name_of source_port = "source_port"
name_of source_port_range = "source_port_range"
name_of port = "port"
name_of port_range = "port_range"
name_of process_name = "process_name"
name_of process_path = "process_path"
name_of process_path_regex = "process_path_regex"
name_of wifi_ssid = "wifi_ssid"
name_of wifi_bssid = "wifi_bssid"
name_of rule_set = "rule_set"
name_of invert = "invert"
name_of action = "action"
name_of outbound = "outbound"
name_of override_address = "override_address"
name_of override_port = "override_port"
name_of method = "method"
name_of no_drop = "no_drop"
name_of override_destination = "override_destination"
name_of strategy = "strategy"

-- The attribute that a text names, if it names one.
unfoldable pub attribute_of : String → Option Attribute
attribute_of s =
    if s == "ip_version"
    then some ip_version
    else if s == "network"
    then some network
    else if s == "protocol"
    then some protocol
    else if s == "inbound"
    then some inbound
    else if s == "domain"
    then some domain
    else if s == "domain_suffix"
    then some domain_suffix
    else if s == "domain_keyword"
    then some domain_keyword
    else if s == "domain_regex"
    then some domain_regex
    else if s == "source_ip_cidr"
    then some source_ip_cidr
    else if s == "source_ip_is_private"
    then some source_ip_is_private
    else if s == "ip_cidr"
    then some ip_cidr
    else if s == "ip_is_private"
    then some ip_is_private
    else if s == "source_port"
    then some source_port
    else if s == "source_port_range"
    then some source_port_range
    else if s == "port"
    then some port
    else if s == "port_range"
    then some port_range
    else if s == "process_name"
    then some process_name
    else if s == "process_path"
    then some process_path
    else if s == "process_path_regex"
    then some process_path_regex
    else if s == "wifi_ssid"
    then some wifi_ssid
    else if s == "wifi_bssid"
    then some wifi_bssid
    else if s == "rule_set"
    then some rule_set
    else if s == "invert"
    then some invert
    else if s == "action"
    then some action
    else if s == "outbound"
    then some outbound
    else if s == "override_address"
    then some override_address
    else if s == "override_port"
    then some override_port
    else if s == "method"
    then some method
    else if s == "no_drop"
    then some no_drop
    else if s == "override_destination"
    then some override_destination
    else if s == "strategy"
    then some strategy
    else none

-- Every attribute is the one that its name names.
pub attribute_of-name_of : (a : Attribute) → attribute_of (name_of a) ≡ some a
unfolding attribute_of name_of
attribute_of-name_of ip_version = refl
attribute_of-name_of network = refl
attribute_of-name_of protocol = refl
attribute_of-name_of inbound = refl
attribute_of-name_of domain = refl
attribute_of-name_of domain_suffix = refl
attribute_of-name_of domain_keyword = refl
attribute_of-name_of domain_regex = refl
attribute_of-name_of source_ip_cidr = refl
attribute_of-name_of source_ip_is_private = refl
attribute_of-name_of ip_cidr = refl
attribute_of-name_of ip_is_private = refl
attribute_of-name_of source_port = refl
attribute_of-name_of source_port_range = refl
attribute_of-name_of port = refl
attribute_of-name_of port_range = refl
attribute_of-name_of process_name = refl
attribute_of-name_of process_path = refl
attribute_of-name_of process_path_regex = refl
attribute_of-name_of wifi_ssid = refl
attribute_of-name_of wifi_bssid = refl
attribute_of-name_of rule_set = refl
attribute_of-name_of invert = refl
attribute_of-name_of action = refl
attribute_of-name_of outbound = refl
attribute_of-name_of override_address = refl
attribute_of-name_of override_port = refl
attribute_of-name_of method = refl
attribute_of-name_of no_drop = refl
attribute_of-name_of override_destination = refl
attribute_of-name_of strategy = refl
