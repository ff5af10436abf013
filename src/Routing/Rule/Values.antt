-- ===== src/Routing/Rule/Values.antt =====
-- The values of a rule's attributes by name, in src/database/entities/RouteRule.cpp.
use free_link_app.Common.{
  String, String_eq, ℤ_eq, Bool, false, not, ◌||◌, Option, none, some, List, [], ◌∷◌, ◌==◌,
  if◌then◌else◌, keep,
}
use free_link_app.Qt.{Qt}
use free_link_app.Routing.Attribute.{Attribute, attribute_of}
use free_link_app.Routing.Rule.{RouteRule}

pub data InputType : Type 0 where
  trufalse select text : InputType

pub data OperatingSystem : Type 0 where
  linux windows darwin : OperatingSystem

-- get_input_type of an attribute's name.
unfoldable pub attribute_input_type : Attribute → InputType
attribute_input_type Attribute.ip_version = select
attribute_input_type Attribute.network = select
attribute_input_type Attribute.protocol = select
attribute_input_type Attribute.inbound = text
attribute_input_type Attribute.domain = text
attribute_input_type Attribute.domain_suffix = text
attribute_input_type Attribute.domain_keyword = text
attribute_input_type Attribute.domain_regex = text
attribute_input_type Attribute.source_ip_cidr = text
attribute_input_type Attribute.source_ip_is_private = trufalse
attribute_input_type Attribute.ip_cidr = text
attribute_input_type Attribute.ip_is_private = trufalse
attribute_input_type Attribute.source_port = text
attribute_input_type Attribute.source_port_range = text
attribute_input_type Attribute.port = text
attribute_input_type Attribute.port_range = text
attribute_input_type Attribute.process_name = text
attribute_input_type Attribute.process_path = text
attribute_input_type Attribute.process_path_regex = text
attribute_input_type Attribute.wifi_ssid = text
attribute_input_type Attribute.wifi_bssid = text
attribute_input_type Attribute.rule_set = text
attribute_input_type Attribute.invert = trufalse
attribute_input_type Attribute.action = select
attribute_input_type Attribute.outbound = select
attribute_input_type Attribute.override_address = text
attribute_input_type Attribute.override_port = text
attribute_input_type Attribute.method = select
attribute_input_type Attribute.no_drop = trufalse
attribute_input_type Attribute.override_destination = trufalse
attribute_input_type Attribute.strategy = select

-- get_input_type
unfoldable pub get_input_type : String → InputType
unfolding attribute_of attribute_input_type
get_input_type field = elim (attribute_of field) [ none ↦ text | some a ↦ attribute_input_type a ]

-- get_attributes, without the two Wi-Fi attributes on macOS
unfoldable pub get_attributes : OperatingSystem → List String
get_attributes os =
    let res : List String =
      "ip_version" ∷ "network" ∷ "protocol" ∷ "inbound" ∷ "domain" ∷ "domain_suffix"
      ∷ "domain_keyword" ∷ "domain_regex" ∷ "source_ip_cidr" ∷ "source_ip_is_private" ∷ "ip_cidr"
      ∷ "ip_is_private" ∷ "source_port" ∷ "source_port_range" ∷ "port" ∷ "port_range"
      ∷ "process_name" ∷ "process_path" ∷ "process_path_regex" ∷ "wifi_ssid" ∷ "wifi_bssid"
      ∷ "rule_set" ∷ "invert" ∷ "action" ∷ "outbound" ∷ "override_address" ∷ "override_port"
      ∷ "method" ∷ "no_drop" ∷ "override_destination" ∷ "strategy" ∷ [] in
    elim os [ darwin ↦ keep (λ a. not (a == "wifi_ssid" || a == "wifi_bssid")) res | _ ↦ res ]

unfoldable pub tab_attributes : OperatingSystem → List String
unfolding get_attributes
tab_attributes os = keep (λ a. not (a == "action")) (get_attributes os)

module _ (q : Qt) where
  open q use {trimmed, to_int, number}

  abbrev pub is_blank : String → Bool
  is_blank s = trimmed s == ""

  unfoldable pub is_valid_str_array : List String → Bool
  is_valid_str_array [] = false
  is_valid_str_array (s ∷ ss) = not (is_blank s) || is_valid_str_array ss

  unfoldable pub filter_empty : List String → List String
  filter_empty [] = []
  filter_empty (s ∷ ss) = if is_blank s then filter_empty ss else trimmed s ∷ filter_empty ss

  -- get_current_value_string of an attribute's name.
  unfoldable pub value_of : Attribute → RouteRule → List String
  value_of Attribute.ip_version r = r.ip_version ∷ []
  value_of Attribute.network r = r.network ∷ []
  value_of Attribute.protocol r = r.protocol ∷ []
  value_of Attribute.inbound r = r.inbound
  value_of Attribute.domain r = r.domain
  value_of Attribute.domain_suffix r = r.domain_suffix
  value_of Attribute.domain_keyword r = r.domain_keyword
  value_of Attribute.domain_regex r = r.domain_regex
  value_of Attribute.source_ip_cidr r = r.source_ip_cidr
  value_of Attribute.source_ip_is_private r = []
  value_of Attribute.ip_cidr r = r.ip_cidr
  value_of Attribute.ip_is_private r = []
  value_of Attribute.source_port r = r.source_port
  value_of Attribute.source_port_range r = r.source_port_range
  value_of Attribute.port r = r.port
  value_of Attribute.port_range r = r.port_range
  value_of Attribute.process_name r = r.process_name
  value_of Attribute.process_path r = r.process_path
  value_of Attribute.process_path_regex r = r.process_path_regex
  value_of Attribute.wifi_ssid r = r.wifi_ssid
  value_of Attribute.wifi_bssid r = r.wifi_bssid
  value_of Attribute.rule_set r = r.rule_set
  value_of Attribute.invert r = []
  value_of Attribute.action r = r.action ∷ []
  value_of Attribute.outbound r = number r.outbound_id ∷ []
  value_of Attribute.override_address r = r.override_address ∷ []
  value_of Attribute.override_port r = r.override_port ∷ []
  value_of Attribute.method r = r.reject_method ∷ []
  value_of Attribute.no_drop r = []
  value_of Attribute.override_destination r = []
  value_of Attribute.strategy r = r.strategy ∷ []

  unfoldable pub get_current_value_string : String → RouteRule → List String
  unfolding attribute_of value_of
  get_current_value_string field r = elim (attribute_of field) [ none ↦ [] | some a ↦ value_of a r ]

  -- set_field_value of an attribute's name. `value[0]` of an empty list is outside the list: `none`.
  unfoldable pub set_attribute : Attribute → List String → RouteRule → Option RouteRule
  unfolding filter_empty
  set_attribute Attribute.inbound v r = some (record r { inbound = filter_empty v })
  set_attribute Attribute.domain v r = some (record r { domain = filter_empty v })
  set_attribute Attribute.domain_suffix v r = some (record r { domain_suffix = filter_empty v })
  set_attribute Attribute.domain_keyword v r = some (record r { domain_keyword = filter_empty v })
  set_attribute Attribute.domain_regex v r = some (record r { domain_regex = filter_empty v })
  set_attribute Attribute.source_ip_cidr v r = some (record r { source_ip_cidr = filter_empty v })
  set_attribute Attribute.ip_cidr v r = some (record r { ip_cidr = filter_empty v })
  set_attribute Attribute.source_port v r = some (record r { source_port = filter_empty v })
  set_attribute Attribute.source_port_range v r =
      some (record r { source_port_range = filter_empty v })
  set_attribute Attribute.port v r = some (record r { port = filter_empty v })
  set_attribute Attribute.port_range v r = some (record r { port_range = filter_empty v })
  set_attribute Attribute.process_name v r = some (record r { process_name = filter_empty v })
  set_attribute Attribute.process_path v r = some (record r { process_path = filter_empty v })
  set_attribute Attribute.process_path_regex v r =
      some (record r { process_path_regex = filter_empty v })
  set_attribute Attribute.wifi_ssid v r = some (record r { wifi_ssid = filter_empty v })
  set_attribute Attribute.wifi_bssid v r = some (record r { wifi_bssid = filter_empty v })
  set_attribute Attribute.rule_set v r = some (record r { rule_set = filter_empty v })
  set_attribute Attribute.ip_version [] r = none
  set_attribute Attribute.ip_version (x ∷ xs) r = some (record r { ip_version = x })
  set_attribute Attribute.network [] r = none
  set_attribute Attribute.network (x ∷ xs) r = some (record r { network = x })
  set_attribute Attribute.protocol [] r = none
  set_attribute Attribute.protocol (x ∷ xs) r = some (record r { protocol = x })
  set_attribute Attribute.source_ip_is_private [] r = none
  set_attribute Attribute.source_ip_is_private (x ∷ xs) r =
      some (record r { source_ip_is_private = x == "true" })
  set_attribute Attribute.ip_is_private [] r = none
  set_attribute Attribute.ip_is_private (x ∷ xs) r = some (record r { ip_is_private = x == "true" })
  set_attribute Attribute.invert [] r = none
  set_attribute Attribute.invert (x ∷ xs) r = some (record r { invert = x == "true" })
  set_attribute Attribute.action [] r = none
  set_attribute Attribute.action (x ∷ xs) r = some (record r { action = x })
  set_attribute Attribute.outbound [] r = none
  set_attribute Attribute.outbound (x ∷ xs) r = some (record r { outbound_id = to_int x })
  set_attribute Attribute.override_address [] r = none
  set_attribute Attribute.override_address (x ∷ xs) r = some (record r { override_address = x })
  set_attribute Attribute.override_port [] r = none
  set_attribute Attribute.override_port (x ∷ xs) r = some (record r { override_port = x })
  set_attribute Attribute.method [] r = none
  set_attribute Attribute.method (x ∷ xs) r = some (record r { reject_method = x })
  set_attribute Attribute.no_drop [] r = none
  set_attribute Attribute.no_drop (x ∷ xs) r = some (record r { no_drop = x == "true" })
  set_attribute Attribute.override_destination [] r = none
  set_attribute Attribute.override_destination (x ∷ xs) r =
      some (record r { sniff_override_dest = x == "true" })
  set_attribute Attribute.strategy [] r = none
  set_attribute Attribute.strategy (x ∷ xs) r = some (record r { strategy = x })

  unfoldable pub set_field_value : String → List String → RouteRule → Option RouteRule
  unfolding attribute_of set_attribute
  set_field_value field v r = elim (attribute_of field) [
    | none ↦ some r
    | some a ↦ set_attribute a v r
  ]

-- get_current_value_bool of an attribute's name, and a null text for the others.
unfoldable pub bool_value_of : Attribute → RouteRule → Option String
bool_value_of Attribute.source_ip_is_private r =
    some (if r.source_ip_is_private then "true" else "false")
bool_value_of Attribute.ip_is_private r = some (if r.ip_is_private then "true" else "false")
bool_value_of Attribute.invert r = some (if r.invert then "true" else "false")
bool_value_of Attribute.no_drop r = some (if r.no_drop then "true" else "false")
bool_value_of Attribute.override_destination r =
    some (if r.sniff_override_dest then "true" else "false")
bool_value_of _ r = none
