-- ===== src/Routing/Rule/Tabs.antt =====
-- Which attributes of a rule are set, and how the editor clears and shows them
-- (src/database/entities/RouteRule.cpp).
use free_link_app.Common.{
  ℤ, pos, is_negative, String, String_eq, ℤ_eq, Bool, true, false, not, ◌&&◌, ◌||◌, none, some,
  List, [], ◌∷◌, ◌==◌, if◌then◌else◌, contains,
}
use free_link_app.Qt.{Qt}
use free_link_app.Routing.Attribute.{Attribute, attribute_of}
use free_link_app.Routing.RuleType.{direct_id, is_custom, is_address}
use free_link_app.Routing.Rule.{RouteRule}
use free_link_app.Routing.Rule.Values.{
  is_blank, is_valid_str_array, value_of, OperatingSystem, tab_attributes,
}

module _ (q : Qt) where
  open q use {to_int}

  abbrev first_is_empty : List String → Bool
  first_is_empty [] = true
  first_is_empty (x ∷ xs) = x == ""

  abbrev pub is_positive : ℤ → Bool
  is_positive n = not (is_negative n) && not (n == pos 0)

  -- is_attribute_at_default of an attribute's name.
  unfoldable pub is_attribute_at_default : Attribute → RouteRule → Bool
  unfolding value_of is_valid_str_array
  is_attribute_at_default Attribute.action r = true
  is_attribute_at_default Attribute.source_ip_is_private r = not r.source_ip_is_private
  is_attribute_at_default Attribute.ip_is_private r = not r.ip_is_private
  is_attribute_at_default Attribute.invert r = not r.invert
  is_attribute_at_default Attribute.no_drop r = not r.no_drop
  is_attribute_at_default Attribute.override_destination r = not r.sniff_override_dest
  is_attribute_at_default Attribute.outbound r = r.outbound_id == direct_id
  is_attribute_at_default Attribute.override_address r = r.override_address == ""
  is_attribute_at_default Attribute.override_port r =
      r.override_port == ""
      || is_blank q r.override_port
      || not (is_positive (to_int r.override_port))
  is_attribute_at_default Attribute.ip_version r =
      first_is_empty (value_of q Attribute.ip_version r)
  is_attribute_at_default Attribute.network r = first_is_empty (value_of q Attribute.network r)
  is_attribute_at_default Attribute.protocol r = first_is_empty (value_of q Attribute.protocol r)
  is_attribute_at_default Attribute.method r = first_is_empty (value_of q Attribute.method r)
  is_attribute_at_default Attribute.strategy r = first_is_empty (value_of q Attribute.strategy r)
  is_attribute_at_default Attribute.inbound r =
      not (is_valid_str_array q (value_of q Attribute.inbound r))
  is_attribute_at_default Attribute.domain r =
      not (is_valid_str_array q (value_of q Attribute.domain r))
  is_attribute_at_default Attribute.domain_suffix r =
      not (is_valid_str_array q (value_of q Attribute.domain_suffix r))
  is_attribute_at_default Attribute.domain_keyword r =
      not (is_valid_str_array q (value_of q Attribute.domain_keyword r))
  is_attribute_at_default Attribute.domain_regex r =
      not (is_valid_str_array q (value_of q Attribute.domain_regex r))
  is_attribute_at_default Attribute.source_ip_cidr r =
      not (is_valid_str_array q (value_of q Attribute.source_ip_cidr r))
  is_attribute_at_default Attribute.ip_cidr r =
      not (is_valid_str_array q (value_of q Attribute.ip_cidr r))
  is_attribute_at_default Attribute.source_port r =
      not (is_valid_str_array q (value_of q Attribute.source_port r))
  is_attribute_at_default Attribute.source_port_range r =
      not (is_valid_str_array q (value_of q Attribute.source_port_range r))
  is_attribute_at_default Attribute.port r =
      not (is_valid_str_array q (value_of q Attribute.port r))
  is_attribute_at_default Attribute.port_range r =
      not (is_valid_str_array q (value_of q Attribute.port_range r))
  is_attribute_at_default Attribute.process_name r =
      not (is_valid_str_array q (value_of q Attribute.process_name r))
  is_attribute_at_default Attribute.process_path r =
      not (is_valid_str_array q (value_of q Attribute.process_path r))
  is_attribute_at_default Attribute.process_path_regex r =
      not (is_valid_str_array q (value_of q Attribute.process_path_regex r))
  is_attribute_at_default Attribute.wifi_ssid r =
      not (is_valid_str_array q (value_of q Attribute.wifi_ssid r))
  is_attribute_at_default Attribute.wifi_bssid r =
      not (is_valid_str_array q (value_of q Attribute.wifi_bssid r))
  is_attribute_at_default Attribute.rule_set r =
      not (is_valid_str_array q (value_of q Attribute.rule_set r))

  unfoldable pub at_default : String → RouteRule → Bool
  unfolding attribute_of is_attribute_at_default
  at_default field r = elim (attribute_of field) [
    | none ↦ true
    | some a ↦ is_attribute_at_default a r
  ]

-- clear_attribute_value of an attribute's name; the action is not cleared.
unfoldable pub clear_attribute : Attribute → RouteRule → RouteRule
clear_attribute Attribute.ip_version r = record r { ip_version = "" }
clear_attribute Attribute.network r = record r { network = "" }
clear_attribute Attribute.protocol r = record r { protocol = "" }
clear_attribute Attribute.inbound r = record r { inbound = [] }
clear_attribute Attribute.domain r = record r { domain = [] }
clear_attribute Attribute.domain_suffix r = record r { domain_suffix = [] }
clear_attribute Attribute.domain_keyword r = record r { domain_keyword = [] }
clear_attribute Attribute.domain_regex r = record r { domain_regex = [] }
clear_attribute Attribute.source_ip_cidr r = record r { source_ip_cidr = [] }
clear_attribute Attribute.source_ip_is_private r = record r { source_ip_is_private = false }
clear_attribute Attribute.ip_cidr r = record r { ip_cidr = [] }
clear_attribute Attribute.ip_is_private r = record r { ip_is_private = false }
clear_attribute Attribute.source_port r = record r { source_port = [] }
clear_attribute Attribute.source_port_range r = record r { source_port_range = [] }
clear_attribute Attribute.port r = record r { port = [] }
clear_attribute Attribute.port_range r = record r { port_range = [] }
clear_attribute Attribute.process_name r = record r { process_name = [] }
clear_attribute Attribute.process_path r = record r { process_path = [] }
clear_attribute Attribute.process_path_regex r = record r { process_path_regex = [] }
clear_attribute Attribute.wifi_ssid r = record r { wifi_ssid = [] }
clear_attribute Attribute.wifi_bssid r = record r { wifi_bssid = [] }
clear_attribute Attribute.rule_set r = record r { rule_set = [] }
clear_attribute Attribute.invert r = record r { invert = false }
clear_attribute Attribute.action r = r
clear_attribute Attribute.outbound r = record r { outbound_id = direct_id }
clear_attribute Attribute.override_address r = record r { override_address = "" }
clear_attribute Attribute.override_port r = record r { override_port = "" }
clear_attribute Attribute.method r = record r { reject_method = "" }
clear_attribute Attribute.no_drop r = record r { no_drop = false }
clear_attribute Attribute.override_destination r = record r { sniff_override_dest = false }
clear_attribute Attribute.strategy r = record r { strategy = "" }

unfoldable pub clear_attribute_value : String → RouteRule → RouteRule
unfolding attribute_of clear_attribute
clear_attribute_value field r = elim (attribute_of field) [
  | none ↦ r
  | some a ↦ clear_attribute a r
]

-- QSet::insert
abbrev pub insert_visible : String → List String → List String
insert_visible a s = if contains s a then s else a ∷ s

module _ (q : Qt) where
  unfoldable pub seed_tabs : List String → RouteRule → RouteRule
  seed_tabs [] r = r
  seed_tabs (a ∷ as') r = seed_tabs as' (
      if at_default q a r
      then r
      else record r { ui_visible_attributes = insert_visible a r.ui_visible_attributes })

  unfoldable pub ensure_ui_visible_attribute_tabs_seeded : OperatingSystem → RouteRule → RouteRule
  unfolding seed_tabs
  ensure_ui_visible_attribute_tabs_seeded os r =
      if r.ui_attribute_tabs_seeded
      then r
      else seed_tabs (tab_attributes os) (record r { ui_attribute_tabs_seeded = true })

abbrev pub address_attributes : List String
address_attributes =
    "domain" ∷ "domain_suffix" ∷ "domain_keyword" ∷ "domain_regex" ∷ "rule_set" ∷ "ip_cidr" ∷ []

unfoldable pub can_edit_attr : String → RouteRule → Bool
can_edit_attr attr r =
    if is_custom r.rule_type
    then true
    else if is_address r.rule_type
    then contains address_attributes attr
    else attr == "process_path" || attr == "process_name"
