-- ===== src/Routing/Rule/Clearing.antt =====
-- Clearing an attribute of a rule (src/database/entities/RouteRule.cpp).
use free_link_app.Common.{String_eq, ℤ_eq, ◌≡◌, refl, true, false, arith}
use free_link_app.Qt.{Qt}
use free_link_app.Routing.Attribute.{Attribute, name_of, attribute_of-name_of}
use free_link_app.Routing.Rule.{RouteRule}
use free_link_app.Routing.Rule.Tabs.{
  is_attribute_at_default, at_default, clear_attribute, clear_attribute_value,
}
use free_link_app.Routing.Rule.Editing.{shown, same_attribute}

clear_attribute-at_default :
    (q : Qt) (a : Attribute) (r : RouteRule)
    → is_attribute_at_default q a (clear_attribute a r) ≡ true
unfolding is_attribute_at_default clear_attribute
clear_attribute-at_default q Attribute.ip_version r = refl
clear_attribute-at_default q Attribute.network r = refl
clear_attribute-at_default q Attribute.protocol r = refl
clear_attribute-at_default q Attribute.inbound r = refl
clear_attribute-at_default q Attribute.domain r = refl
clear_attribute-at_default q Attribute.domain_suffix r = refl
clear_attribute-at_default q Attribute.domain_keyword r = refl
clear_attribute-at_default q Attribute.domain_regex r = refl
clear_attribute-at_default q Attribute.source_ip_cidr r = refl
clear_attribute-at_default q Attribute.source_ip_is_private r = refl
clear_attribute-at_default q Attribute.ip_cidr r = refl
clear_attribute-at_default q Attribute.ip_is_private r = refl
clear_attribute-at_default q Attribute.source_port r = refl
clear_attribute-at_default q Attribute.source_port_range r = refl
clear_attribute-at_default q Attribute.port r = refl
clear_attribute-at_default q Attribute.port_range r = refl
clear_attribute-at_default q Attribute.process_name r = refl
clear_attribute-at_default q Attribute.process_path r = refl
clear_attribute-at_default q Attribute.process_path_regex r = refl
clear_attribute-at_default q Attribute.wifi_ssid r = refl
clear_attribute-at_default q Attribute.wifi_bssid r = refl
clear_attribute-at_default q Attribute.rule_set r = refl
clear_attribute-at_default q Attribute.invert r = refl
clear_attribute-at_default q Attribute.action r = refl
clear_attribute-at_default q Attribute.outbound r = refl
clear_attribute-at_default q Attribute.override_address r = refl
clear_attribute-at_default q Attribute.override_port r = refl
clear_attribute-at_default q Attribute.method r = refl
clear_attribute-at_default q Attribute.no_drop r = refl
clear_attribute-at_default q Attribute.override_destination r = refl
clear_attribute-at_default q Attribute.strategy r = refl

clear_attribute-shown :
    (q : Qt) (a b : Attribute) (r : RouteRule)
    → same_attribute a b ≡ false
    → shown q b (clear_attribute a r) ≡ shown q b r
unfolding clear_attribute shown
clear_attribute-shown q Attribute.ip_version b r h = ground arith
clear_attribute-shown q Attribute.network b r h = ground arith
clear_attribute-shown q Attribute.protocol b r h = ground arith
clear_attribute-shown q Attribute.inbound b r h = ground arith
clear_attribute-shown q Attribute.domain b r h = ground arith
clear_attribute-shown q Attribute.domain_suffix b r h = ground arith
clear_attribute-shown q Attribute.domain_keyword b r h = ground arith
clear_attribute-shown q Attribute.domain_regex b r h = ground arith
clear_attribute-shown q Attribute.source_ip_cidr b r h = ground arith
clear_attribute-shown q Attribute.source_ip_is_private b r h = ground arith
clear_attribute-shown q Attribute.ip_cidr b r h = ground arith
clear_attribute-shown q Attribute.ip_is_private b r h = ground arith
clear_attribute-shown q Attribute.source_port b r h = ground arith
clear_attribute-shown q Attribute.source_port_range b r h = ground arith
clear_attribute-shown q Attribute.port b r h = ground arith
clear_attribute-shown q Attribute.port_range b r h = ground arith
clear_attribute-shown q Attribute.process_name b r h = ground arith
clear_attribute-shown q Attribute.process_path b r h = ground arith
clear_attribute-shown q Attribute.process_path_regex b r h = ground arith
clear_attribute-shown q Attribute.wifi_ssid b r h = ground arith
clear_attribute-shown q Attribute.wifi_bssid b r h = ground arith
clear_attribute-shown q Attribute.rule_set b r h = ground arith
clear_attribute-shown q Attribute.invert b r h = ground arith
clear_attribute-shown q Attribute.action b r h = ground arith
clear_attribute-shown q Attribute.outbound b r h = ground arith
clear_attribute-shown q Attribute.override_address b r h = ground arith
clear_attribute-shown q Attribute.override_port b r h = ground arith
clear_attribute-shown q Attribute.method b r h = ground arith
clear_attribute-shown q Attribute.no_drop b r h = ground arith
clear_attribute-shown q Attribute.override_destination b r h = ground arith
clear_attribute-shown q Attribute.strategy b r h = ground arith

at_default-name_of :
    (q : Qt) (a : Attribute) (r : RouteRule)
    → at_default q (name_of a) r ≡ is_attribute_at_default q a r
unfolding at_default
at_default-name_of q a r = rw (attribute_of-name_of a, at_default)

clear_attribute_value-name_of :
    (a : Attribute) (r : RouteRule) → clear_attribute_value (name_of a) r ≡ clear_attribute a r
unfolding clear_attribute_value
clear_attribute_value-name_of a r = rw (attribute_of-name_of a, clear_attribute_value)

-- Clearing a named attribute leaves it at its default and changes what the editor shows for no
-- other attribute.
pub clear_attribute_value-clears :
    (q : Qt) (a b : Attribute) (r : RouteRule)
    → same_attribute a b ≡ false
    → (at_default q (name_of a) (clear_attribute_value (name_of a) r) ≡ true)
      × (shown q b (clear_attribute_value (name_of a) r) ≡ shown q b r)
clear_attribute_value-clears q a b r h = (
  rw (clear_attribute_value-name_of a r, at_default-name_of q a (clear_attribute a r))
      (clear_attribute-at_default q a r),
  rw (clear_attribute_value-name_of a r) (clear_attribute-shown q a b r h),
)
